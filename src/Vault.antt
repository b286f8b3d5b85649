-- ===== src/Vault.antt =====
-- core/vault/vault.go: files as encrypted chunks with an encrypted manifest, over the store.
-- Parameters: the cipher, the hash, the backends, encoding/json for the manifest, and `random`, the
-- nonce of the n-th call of `rand.Read`.
pub mod Opening
pub mod Reading
pub mod Retrieve
pub mod Kept
pub mod Survival
use nft_soket.Base.{
  ℕ, zero, suc, ◌+◌, ◌^◌, Bool, true, false, Option, none, some, List, [], ◌∷◌, ◌++◌, if◌then◌else◌,
  length, take, drop, ltb, ◌==◌,
}
use nft_soket.Base.Result.{Result, ok, err}
use nft_soket.Base.Int.{ℤ, pos, add64}
use nft_soket.Base.Text.{Text}
use nft_soket.Aead
use nft_soket.Aead.{Cipher, aad}
use nft_soket.Cas
use nft_soket.Cas.{Backend}

-- 1 << 20.
abbrev pub chunk_size : ℕ
chunk_size = 0x10_0000

abbrev pub kind_chunk : ℕ
kind_chunk = 1

abbrev pub kind_manifest : ℕ
kind_manifest = 2

pub record Manifest : Type 0 where
  pub name : Text
  pub size : ℤ
  pub chunks : List Text

pub data Error : Type 0 where
  sealing : Aead.Error → Error
  opening : Aead.Error → Error
  storing : Cas.Error → Error
  fetching : Cas.Error → Error
  reading unmarshalable unparsable : Error

-- encoding/json on manifests.
pub record Json : Type 0 where
  pub marshal : Manifest → Option (List ℕ)
  pub unmarshal : List ℕ → Option Manifest

pub record Config : Type 1 where
  pub backend : Backend
  pub hash : List ℕ → List ℕ
  pub cipher : Cipher
  pub json : Json
  pub random : ℕ → Option (List ℕ)

-- `Vault`, without the store: the key and the fingerprint.
pub record Vault : Type 0 where
  pub enc_key : List ℕ
  pub fingerprint : Text

-- What an `io.Reader` yields: its bytes, and whether it then fails or ends.
pub record Reader : Type 0 where
  pub content : List ℕ
  pub fails : Bool

module _ (c : Config) where
  open c use {backend, hash, cipher, json, random}

  -- The backends, and the random nonces drawn so far.
  abbrev pub State : Type 0
  State = List backend.State × ℕ

  abbrev pub Exec : Type 0 → Type 0
  Exec A = State → Result Error A × State

  abbrev continue : {A B : Type 0} → Result Error A → (A → Exec B) → Exec B
  continue (ok a) f s = f a s
  continue (err e) f s = (err e, s)

  infixl 5 ◌>>=◌
  abbrev pub ◌>>=◌ : {A B : Type 0} → Exec A → (A → Exec B) → Exec B
  ◌>>=◌ m f s = let (r, s') = m s in continue r f s'

  abbrev pub pure : {A : Type 0} → A → Exec A
  pure a s = (ok a, s)

  abbrev tag : {E A : Type 0} → (E → Error) → Result E A → Result Error A
  tag f (ok a) = ok a
  tag f (err e) = err (f e)

  abbrev given : {A : Type 0} → Option A → Error → Exec A
  given none e s = (err e, s)
  given (some a) e s = (ok a, s)

  -- aead.Seal under the vault's key, with the next nonce.
  unfoldable pub seal_block : Vault → ℕ → List ℕ → Exec (List ℕ)
  seal_block v kind bytes (bs, n) = (
    tag sealing (Aead.seal cipher (random n) v.enc_key bytes (aad v.fingerprint kind)),
    (bs, n + 1),
  )

  unfoldable pub store_block : List ℕ → Exec Text
  store_block env (bs, n) = let (r, bs') = Cas.put backend hash env bs in (tag storing r, (bs', n))

  unfoldable pub fetch_block : Text → Exec (List ℕ)
  fetch_block addr (bs, n) =
      let (r, bs') = Cas.get backend hash addr bs in (tag fetching r, (bs', n))

  unfoldable pub put_block : Vault → ℕ → List ℕ → Exec Text
  unfolding seal_block store_block
  put_block v kind bytes = do env ← seal_block v kind bytes; store_block env

  unfoldable pub get_block : Vault → ℕ → Text → Exec (List ℕ)
  unfolding fetch_block
  get_block v kind addr = do
    env ← fetch_block addr
    λ s. (tag opening (Aead.unseal cipher v.enc_key env (aad v.fingerprint kind)), s)

  -- The loop of `PutFile` with fuel: io.ReadFull takes up to `size` bytes, a short read ends the loop.
  unfoldable pub put_chunks : ℕ → ℕ → Vault → List ℕ → Bool → List Text → ℤ → Exec (List Text × ℤ)
  put_chunks zero size v content fails chunks total s = (err reading, s)
  put_chunks (suc fuel) size v content fails chunks total s =
      let part = take size content in
      let finish : Exec (List Text × ℤ) =
        λ t. if fails then (err reading, t) else (ok (chunks, total), t) in
      elim part [
        | [] ↦ finish s
        | b ∷ bytes ↦
            (put_block v kind_chunk (b ∷ bytes) >>= λ addr.
            let all = chunks ++ addr ∷ [] in
            let sum = add64 total (pos (length (b ∷ bytes))) in
            let more = put_chunks fuel size v (drop size content) fails all sum in
            if ltb (length (b ∷ bytes)) size
            then (λ t. if fails then (err reading, t) else (ok (all, sum), t))
            else more)
              s
      ]

  -- One round for each chunk and one for the end: more rounds than bytes.
  unfoldable pub put_file : Vault → Text → Reader → Exec Text
  put_file v name r = do
    stored ← put_chunks (suc (length r.content)) chunk_size v r.content r.fails [] (pos 0)
    raw ←
        given (json.marshal (record { name = name; size = stored.1; chunks = stored.0 }))
          unmarshalable
    put_block v kind_manifest raw

  unfoldable pub get_manifest : Vault → Text → Exec Manifest
  get_manifest v root = do
    raw ← get_block v kind_manifest root
    given (json.unmarshal raw) unparsable

  -- The loop of `GetFile`: what is written to w. A failing w is not modelled.
  unfoldable pub get_chunks : Vault → List Text → Exec (List ℕ)
  get_chunks v [] = pure []
  get_chunks v (addr ∷ chunks) = do
    bytes ← get_block v kind_chunk addr
    rest ← get_chunks v chunks
    pure (bytes ++ rest)

  unfoldable pub get_file : Vault → Text → Exec (Manifest × List ℕ)
  get_file v root = do m ← get_manifest v root; bytes ← get_chunks v m.chunks; pure (m, bytes)
