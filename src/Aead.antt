-- ===== src/Aead.antt =====
-- core/aead/aead.go: the versioned envelope around an authenticated cipher.
-- XChaCha20-Poly1305 is a parameter, and so is the nonce that `rand.Read` gives, `none` if it fails.
use nft_soket.Base.{
  ℕ, ◌+◌, ◌/◌, ◌%◌, ◌<◌, ◌≡◌, refl, sym, ap, ◌∙◌, Bool, true, not, Option, none, some, List, [],
  ◌∷◌, ◌++◌, length, take, drop, get_or, ltb, ◌==◌, arith, length-append,
}
use nft_soket.Base.Result.{Result, ok, ◌>>=◌, ◌>>◌, fail_if, or_fail}
use nft_soket.Base.Text.{Text, codes}

abbrev pub version : ℕ
version = 1

abbrev pub key_size : ℕ
key_size = 32

abbrev pub nonce_len : ℕ
nonce_len = 24

pub data Error : Type 0 where
  bad_key no_nonce too_short authentication_failed : Error
  unsupported_version : ℕ → Error

-- The cipher of the vendored library: key, nonce, text, associated data.
pub record Cipher : Type 0 where
  pub accepts_key : List ℕ → Bool
  pub seal : List ℕ → List ℕ → List ℕ → List ℕ → List ℕ
  pub unseal : List ℕ → List ℕ → List ℕ → List ℕ → Option (List ℕ)

-- What the library documents: a key of 32 bytes is accepted, and opening undoes sealing.
pub record IsLawful (c : Cipher) : Type 0 where
  pub key_ok : (key : List ℕ) → length key ≡ key_size → c.accepts_key key ≡ true
  pub unseal-seal :
      (key nonce text aad : List ℕ) → c.unseal key nonce (c.seal key nonce text aad) aad ≡ some text

module _ (c : Cipher) where
  -- `Seal`.
  unfoldable pub seal : Option (List ℕ) → List ℕ → List ℕ → List ℕ → Result Error (List ℕ)
  seal random key plaintext aad = do
    fail_if (not (length key == key_size)) bad_key
    fail_if (not (c.accepts_key key)) bad_key
    nonce ← or_fail random no_nonce
    ok (version ∷ nonce ++ c.seal key nonce plaintext aad)

  -- `Open`.
  unfoldable pub unseal : List ℕ → List ℕ → List ℕ → Result Error (List ℕ)
  unseal key envelope aad = do
    fail_if (not (length key == key_size)) bad_key
    fail_if (ltb (length envelope) (1 + nonce_len)) too_short
    fail_if (not (get_or envelope 0 0 == version)) (unsupported_version (get_or envelope 0 0))
    fail_if (not (c.accepts_key key)) bad_key
    or_fail (c.unseal key (take nonce_len (drop 1 envelope)) (drop (1 + nonce_len) envelope) aad)
        authentication_failed

-- binary.BigEndian.PutUint32.
unfoldable pub big_endian32 : ℕ → List ℕ
big_endian32 n = (n / 0x100_0000 % 256) ∷ (n / 0x1_0000 % 256) ∷ (n / 0x100 % 256) ∷ (n % 256) ∷ []

-- `AAD`: the fingerprint, a bar and the kind.
unfoldable pub aad : Text → ℕ → List ℕ
unfolding big_endian32
aad fingerprint kind = (fingerprint ++ codes "|") ++ big_endian32 kind

take-length-append : (xs ys : List ℕ) → take (length xs) (xs ++ ys) ≡ xs
take-length-append [] ys = refl
take-length-append (x ∷ xs) ys = ap (◌∷◌ x) (take-length-append xs ys)

drop-length-append : (xs ys : List ℕ) → drop (length xs) (xs ++ ys) ≡ ys
drop-length-append [] ys = refl
drop-length-append (x ∷ xs) ys = drop-length-append xs ys

-- Opening with the same key and associated data undoes sealing, for every nonce of 24 bytes.
pub unseal-seal :
    (c : Cipher) (nonce key plaintext aad : List ℕ) (envelope : List ℕ)
    → IsLawful c
    → length nonce ≡ nonce_len
    → seal c (some nonce) key plaintext aad ≡ ok envelope
    → unseal c key envelope aad ≡ ok plaintext
unfolding seal unseal
unseal-seal c nonce key plaintext aad envelope law size h =
    let ct = c.seal key nonce plaintext aad in
    let shape : ((length key == key_size) ≡ true)
        × (c.accepts_key key ≡ true)
        × (envelope ≡ version ∷ nonce ++ ct) =
      ground arith in
    let head : take nonce_len (nonce ++ ct) ≡ nonce =
      ap (λ (n : ℕ). take n (nonce ++ ct)) (sym size) ∙ take-length-append nonce ct in
    let rest : drop nonce_len (nonce ++ ct) ≡ ct =
      ap (λ (n : ℕ). drop n (nonce ++ ct)) (sym size) ∙ drop-length-append nonce ct in
    rw shape.2 (
      ground (
        arith,
        shape.0,
        shape.1,
        head,
        rest,
        size,
        length-append nonce ct,
        law.unseal-seal key nonce plaintext aad,
      ))

pub seal-nonce :
    (c : Cipher) (random : Option (List ℕ)) (key plaintext aad envelope : List ℕ)
    → seal c random key plaintext aad ≡ ok envelope
    → (nonce : List ℕ) × (random ≡ some nonce)
unfolding seal
seal-nonce c none key plaintext aad envelope h = absurd (ground (arith, h))
seal-nonce c (some nonce) key plaintext aad envelope h = (nonce, refl)

append_inj : (xs ys s t : List ℕ) → length s ≡ length t → xs ++ s ≡ ys ++ t → (xs ≡ ys) × (s ≡ t)
append_inj [] [] s t l e = (refl, e)
append_inj [] (y ∷ ys) s t l e = absurd (omega (arith, ap length e, length-append ys t, l))
append_inj (x ∷ xs) [] s t l e = absurd (omega (arith, ap length e, length-append xs s, l))
append_inj (x ∷ xs) (y ∷ ys) s t l e =
    let rest = append_inj xs ys s t l (ground (arith, e)) in (ground (arith, e, rest.0), rest.1)

-- Associated data determines the vault's fingerprint and the kind: a ciphertext of one context does
-- not carry the associated data of another.
pub aad-injective :
    (f g : Text) (k l : ℕ)
    → k < 0x1_0000_0000
    → l < 0x1_0000_0000
    → aad f k ≡ aad g l
    → (f ≡ g) × (k ≡ l)
unfolding aad
aad-injective f g k l p q e =
    let (texts, kinds) = append_inj (f ++ codes "|") (g ++ codes "|") _ _ refl e in
    ((append_inj f g (codes "|") (codes "|") refl texts).0, same_bytes kinds)
  where
    same_bytes : big_endian32 k ≡ big_endian32 l → k ≡ l
    same_bytes h = omega (
      arith,
      ap (λ (b : List ℕ). get_or b 0 0) h,
      ap (λ (b : List ℕ). get_or b 1 0) h,
      ap (λ (b : List ℕ). get_or b 2 0) h,
      ap (λ (b : List ℕ). get_or b 3 0) h,
    )
