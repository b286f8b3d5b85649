-- ===== src/Paperkey.antt =====
-- core/paperkey/paperkey.go: the access key behind a mnemonic.
-- Parameters: go-bip39 and HKDF-SHA256, and the entropy that is drawn. Texts are ASCII.
pub mod Words
pub mod Sheet
use nft_soket.Base.{
  ℕ, ◌+◌, Bool, true, false, not, ◌&&◌, Option, none, some, List, [], ◌∷◌, ◌++◌, map, if◌then◌else◌,
  ◌==◌, ◌||◌, take, drop, length, ltb,
}
use nft_soket.Base.Result.{Result, ok, err, ◌>>=◌, ◌>>◌, fail_if, or_fail}
use nft_soket.Base.Text.{Text, codes, is_empty}
use nft_soket.Base.Strings.{is_space, trim_space, to_lower, to_upper}
use nft_soket.Base.Hex.{hex_encode}

pub data Error : Type 0 where
  bad_strength no_entropy no_mnemonic invalid_mnemonic locked derivation_failed : Error

pub record Library : Type 0 where
  pub new_entropy : ℕ → Option (List ℕ)
  pub new_mnemonic : List ℕ → Option Text
  pub is_mnemonic_valid : Text → Bool
  pub new_seed : Text → Text → List ℕ
  -- hkdf.New with SHA-256: the seed, the salt, the info and the length read.
  pub hkdf : List ℕ → Text → Text → ℕ → Option (List ℕ)

-- `Strength`, in bits.
abbrev pub words12 : ℕ
words12 = 128

abbrev pub words24 : ℕ
words24 = 256

-- `AccessKey`; no seed before `Unlock`.
pub record AccessKey : Type 0 where
  pub mnemonic : Text
  pub seed : List ℕ

abbrev pub flush : Text → List Text
flush [] = []
flush (c ∷ word) = (c ∷ word) ∷ []

-- strings.Fields, with the word read so far.
unfoldable pub fields_from : Text → Text → List Text
fields_from word [] = flush word
fields_from word (c ∷ cs) = elim (is_space c) [
  | true ↦ flush word ++ fields_from [] cs
  | false ↦ fields_from (word ++ c ∷ []) cs
]

unfoldable pub fields : Text → List Text
unfolding fields_from
fields s = fields_from [] s

-- strings.Join with a space.
unfoldable pub join : List Text → Text
join [] = []
join (w ∷ []) = w
join (w ∷ v ∷ ws) = w ++ 32 ∷ join (v ∷ ws)

unfoldable pub normalize : Text → Text
unfolding fields join
normalize m = join (fields (to_lower (trim_space m)))

module _ (lib : Library) where
  unfoldable pub generate : ℕ → Result Error AccessKey
  generate strength = do
    fail_if (not (strength == words12) && not (strength == words24)) bad_strength
    entropy ← or_fail (lib.new_entropy strength) no_entropy
    mnemonic ← or_fail (lib.new_mnemonic entropy) no_mnemonic
    ok (record { mnemonic = mnemonic; seed = [] })

  unfoldable pub restore : Text → Result Error AccessKey
  unfolding normalize
  restore mnemonic = do
    let m = normalize mnemonic
    fail_if (not (lib.is_mnemonic_valid m)) invalid_mnemonic
    ok (record { mnemonic = m; seed = [] })

  -- `Unlock` sets the seed and never fails.
  unfoldable pub unlock : AccessKey → Text → AccessKey
  unlock k passphrase = record k { seed = lib.new_seed k.mnemonic passphrase }

  unfoldable pub subkey : AccessKey → Text → ℕ → Result Error (List ℕ)
  subkey k info size = do
    fail_if (is_empty k.seed) locked
    or_fail (lib.hkdf k.seed (codes "nftvault-v1-salt") info size) derivation_failed

  unfoldable pub master_key : AccessKey → Result Error (List ℕ)
  unfolding subkey
  master_key k = do fail_if (is_empty k.seed) locked; subkey k (codes "nftvault/master") 32

  -- %X-%X of the first four bytes and the rest.
  unfoldable pub fingerprint : AccessKey → Result Error Text
  unfolding subkey
  fingerprint k = do
    bytes ← subkey k (codes "nftvault/fingerprint") 8
    ok (to_upper (hex_encode (take 4 bytes)) ++ codes "-" ++ to_upper (hex_encode (drop 4 bytes)))
