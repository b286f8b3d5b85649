-- ===== src/Tests/Storage.antt =====
-- Runs of core/aead/aead.go, core/cas/cas.go and core/vault/vault.go with a cipher that hides nothing,
-- the identity as the hash, and backends that keep the first block written to an address.
use mathlib.Core.Option.{some-injective}
use nft_soket.Base.{
  ℕ, ◌/◌, ◌%◌, ◌≡◌, ◌≢◌, refl, sym, ap, ◌∙◌, ◌⊎◌, ◌↔◌, inl, inr, Bool, true, false, Option, none,
  some, List, [], ◌∷◌, ◌++◌, replicate, length, All, arith, if◌then◌else◌, Bool-cases,
}
use nft_soket.Base.Result.{Result, ok, err}
use nft_soket.Base.Int.{ℤ, pos, negsuc, add64, wrap64, ◌+ℤ◌}
use nft_soket.Base.Text.{Text, codes, text_eq, eq_of_text_eq, text_eq_refl}
use nft_soket.Base.Hex.{hex_digit, hex_encode}
use nft_soket.Base.Dict.{Dict, lookup, insert, lookup-insert}
use nft_soket.Aead
use nft_soket.Aead.{
  Cipher, key_size, nonce_len, aad, big_endian32, seal, unseal, unseal-seal, aad-injective,
}
use nft_soket.Cas
use nft_soket.Cas.{
  Backend, BackendError, absent, address, verify, put, put_all, get, find, accept, heal, heal_one,
  is_present,
}
use nft_soket.Cas.Integrity.{get-address, get-not_found, HasGoodCopy, NoCollision}
use nft_soket.Cas.Replication.{IsLawful}
use nft_soket.Vault
use nft_soket.Vault.{
  Vault, Manifest, Json, Reader, Config, fetching, put_chunks, put_block, seal_block, store_block,
  put_file, get_file,
}
use nft_soket.Vault.Reading.{put_file-reading}
use nft_soket.Vault.Retrieve.{IsSound, get_file-put_file}

abbrev plain : Cipher
plain = record {
  accepts_key = λ key. true;
  seal = λ key nonce text aad. text;
  unseal = λ key nonce text aad. some text;
}

plain-IsLawful : Aead.IsLawful plain
plain-IsLawful = record { key_ok = λ key h. refl; unseal-seal = λ key nonce text aad. refl }

abbrev key : List ℕ
key = replicate 32 1

abbrev nonce : List ℕ
nonce = replicate 24 2

abbrev envelope : List ℕ
envelope = 1 ∷ replicate 24 2 ++ 5 ∷ 6 ∷ []

unseal-seal_example : unseal plain key envelope (codes "f") ≡ ok (5 ∷ 6 ∷ [])
unfolding seal
unseal-seal_example =
    unseal-seal plain nonce key (5 ∷ 6 ∷ []) (codes "f") envelope plain-IsLawful refl refl

abbrev kind : ℕ
kind = 1

abbrev write : Text → List ℕ → Dict (List ℕ) → Dict (List ℕ)
write addr bytes d = elim (lookup addr d) [ none ↦ insert addr bytes d | some old ↦ d ]

abbrev answer : Option (List ℕ) → Result BackendError (List ℕ)
answer none = err absent
answer (some bytes) = ok bytes

abbrev pub knows : Option (List ℕ) → Bool
knows none = false
knows (some bytes) = true

abbrev pub memory : Backend
memory = record {
  State = Dict (List ℕ);
  name = λ d. codes "memory";
  put = λ addr bytes d. (ok tt, write addr bytes d);
  get = λ addr d. (answer (lookup addr d), d);
  has = λ addr d. (ok (knows (lookup addr d)), d);
}

abbrev pub same : List ℕ → List ℕ
same bytes = bytes

write_new :
    (addr : Text) (bytes : List ℕ) (d : Dict (List ℕ))
    → lookup addr d ≡ none
    → lookup addr (write addr bytes d) ≡ some bytes
write_new addr bytes d empty =
    ground (arith, empty, lookup-insert addr addr bytes d, text_eq_refl addr)

write_old :
    (addr : Text) (bytes old : List ℕ) (d : Dict (List ℕ))
    → lookup addr d ≡ some old
    → lookup addr (write addr bytes d) ≡ some old
write_old addr bytes old d there = ground (arith, there)

pub memory-IsLawful : IsLawful memory lookup
memory-IsLawful = record {
  put_ok = λ addr bytes d done empty. write_new addr bytes d empty;
  put_old = λ addr bytes old d there. write_old addr bytes old d there;
  put_err = λ addr bytes d e failed. cc;
  has_keeps = λ addr d. refl;
}

digit_inj : (m n : ℕ) → hex_digit m ≡ hex_digit n → m ≡ n
unfolding hex_digit
digit_inj m n h = ground arith

encode_inj : (xs ys : List ℕ) → hex_encode xs ≡ hex_encode ys → xs ≡ ys
unfolding hex_encode
encode_inj [] [] h = refl
encode_inj [] (y ∷ ys) h = cc
encode_inj (x ∷ xs) [] h = cc
encode_inj (x ∷ xs) (y ∷ ys) h =
    ground (arith, digit_inj (x / 16) (y / 16), digit_inj (x % 16) (y % 16), encode_inj xs ys, h)

pub same-NoCollision : (bytes : List ℕ) → NoCollision memory same bytes
unfolding address
same-NoCollision bytes other h = encode_inj other bytes (ground (arith, h))

abbrev pub block : List ℕ
block = 7 ∷ 9 ∷ []

abbrev pub block_addr : Text
block_addr = codes "v1:0709"

-- One copy, one backend that lost it.
abbrev pub damaged : List (Dict (List ℕ))
damaged = [] ∷ ((block_addr, block) ∷ []) ∷ []

abbrev pub healed : List (Dict (List ℕ))
healed = ((block_addr, block) ∷ []) ∷ ((block_addr, block) ∷ []) ∷ []

pub damaged-get : get memory same block_addr damaged ≡ (ok block, healed)
unfolding get find accept heal heal_one verify address hex_encode hex_digit lookup text_eq insert
damaged-get = refl

get-address_example : address same block ≡ block_addr
get-address_example = get-address memory same block_addr damaged healed block damaged-get

get-not_found_example :
    ((get memory same block_addr damaged).0 ≡ err Cas.not_found)
    ↔ All (λ b. ¬ HasGoodCopy memory same block_addr b) damaged
get-not_found_example = get-not_found memory same block_addr damaged

pub block-put : put memory same block ([] ∷ [] ∷ []) ≡ (ok block_addr, healed)
unfolding put put_all address hex_encode hex_digit lookup insert
block-put = refl

abbrev empty_store : Dict (List ℕ)
empty_store = []

-- Manifests of one chunk of a file named "a".
abbrev print_parts : Text → ℤ → List Text → Option (List ℕ)
print_parts name (negsuc n) chunks = none
print_parts name (pos n) [] = none
print_parts name (pos n) (addr ∷ []) = if text_eq name (codes "a") then some (n ∷ addr) else none
print_parts name (pos n) (addr ∷ b ∷ bs) = none

abbrev print : Manifest → Option (List ℕ)
print m = print_parts m.name m.size m.chunks

abbrev parse : List ℕ → Option Manifest
parse [] = none
parse (n ∷ addr) = some (record { name = codes "a"; size = pos n; chunks = addr ∷ [] })

parse-print_parts :
    (name : Text) (size : ℤ) (chunks : List Text) (raw : List ℕ)
    → print_parts name size chunks ≡ some raw
    → parse raw ≡ some (record { name = name; size = size; chunks = chunks })
parse-print_parts name (negsuc n) chunks raw h = cc
parse-print_parts name (pos n) [] raw h = cc
parse-print_parts name (pos n) (addr ∷ []) raw h = elim (Bool-cases (text_eq name (codes "a"))) [
  | inr differs ↦ absurd (ground (arith, differs, h))
  | inl equal ↦
      let named : name ≡ codes "a" = eq_of_text_eq name (codes "a") equal in
      let printed : n ∷ addr ≡ raw = ground (arith, equal, h) in
      ap parse (sym printed)
      ∙ ap (λ (t : Text). some (record { name = t; size = pos n; chunks = addr ∷ [] })) (sym named)
]
parse-print_parts name (pos n) (addr ∷ b ∷ bs) raw h = cc

abbrev pub config : Config
config = record {
  backend = memory;
  hash = same;
  cipher = plain;
  json = record { marshal = print; unmarshal = parse };
  random = λ n. some nonce;
}

pub config-IsSound : IsSound config
config-IsSound = record {
  cipher = plain-IsLawful;
  codec = λ m raw h. parse-print_parts m.name m.size m.chunks raw h;
  nonces = λ n bs h. sym (ap length (some-injective nonce bs h));
  collision_free = same-NoCollision;
}

abbrev pub vault : Vault
vault = record { enc_key = key; fingerprint = codes "f" }

abbrev pub file : Reader
file = record { content = 5 ∷ 6 ∷ []; fails = false }

abbrev pub nothing_stored : List (Dict (List ℕ)) × ℕ
nothing_stored = ([] ∷ [] ∷ [], 0)

abbrev root_of : Result Vault.Error Text → Text
root_of (ok root) = root
root_of (err e) = []

abbrev pub root : Text
root = root_of (put_file config vault (codes "a") file nothing_stored).0

pub file-put : (put_file config vault (codes "a") file nothing_stored).0 ≡ ok root
unfolding put_file put_chunks put_block seal_block store_block seal put put_all address hex_encode
    hex_digit aad big_endian32 lookup insert text_eq add64 wrap64 ◌+ℤ◌
file-put = refl

abbrev pub stored : List (Dict (List ℕ)) × ℕ
stored = (put_file config vault (codes "a") file nothing_stored).1

get_file-put_file_example :
    ((m : Manifest) × (m.name ≡ codes "a")
      × ((get_file config vault root stored).0 ≡ ok (m, 5 ∷ 6 ∷ [])))
    ⊎ ((get_file config vault root stored).0 ≡ err (fetching Cas.not_found))
get_file-put_file_example =
    get_file-put_file config config-IsSound vault (codes "a") file nothing_stored stored root
      file-put

put_file-reading_example :
    (put_file config vault (codes "a") file nothing_stored).0 ≢ err Vault.reading
put_file-reading_example = put_file-reading config vault (codes "a") file nothing_stored refl
