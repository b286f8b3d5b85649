-- ===== src/Cas/Files/Backed.antt =====
-- `FSBackend` of core/cas/fsbackend.go as a backend of the store of core/cas/cas.go.
use nft_soket.Base.{ℕ, ◌≤◌, ◌≡◌, ◌≢◌, Option, none, some, List, [], ◌∷◌, ◌++◌, length, take, arith}
use nft_soket.Base.Result.{Result, ok, err}
use nft_soket.Base.Text.{Text, codes}
use nft_soket.Base.Hex.{hex_encode}
use nft_soket.Cas.{Backend, BackendError, absent, failure, address}
use nft_soket.Cas.Files
use nft_soket.Cas.Files.{
  FileSystem, FileError, Error, path, put_at, read_result, stat_result, not_found,
}
use nft_soket.Cas.Files.Durable.{IsOrderly}

-- The errors that a store tells apart. The panic on a short address, which no block of a store has, is a failure.
abbrev pub told : {A : Type 0} → Result Error A → Result BackendError A
told (ok a) = ok a
told (err not_found) = err absent
told (err Error.slice_panic) = err failure
told (err (Error.files e)) = err failure

-- The methods of `FSBackend`, as the interface of the store has them.
abbrev pub file_backend : FileSystem → Text → Text → Backend
file_backend fs name root = record {
  State = fs.Files;
  name = λ s. name;
  put = λ addr bytes s. let (r, t) = Files.put fs root addr bytes s in (told r, t);
  get = λ addr s. (told (Files.get fs root addr s), s);
  has = λ addr s. (told (Files.has fs root addr s), s);
}

abbrev content : Result FileError (List ℕ) → Option (List ℕ)
content (ok bytes) = some bytes
content (err e) = none

-- The block at an address: what can be read from its file.
abbrev file_at : (fs : FileSystem) → Option Text → fs.Files → Option (List ℕ)
file_at fs none s = none
file_at fs (some p) s = content (fs.read_file p s)

abbrev pub block_at : (fs : FileSystem) → Text → Text → fs.Files → Option (List ℕ)
block_at fs root addr s = file_at fs (path fs root addr) s

module _ (fs : FileSystem) (root : Text) where
  pub put-at :
      (addr bytes p : List ℕ) (s : fs.Files)
      → path fs root addr ≡ some p
      → Files.put fs root addr bytes s ≡ put_at fs p bytes s
  unfolding Files.put
  put-at addr bytes p s at = ground (arith, at)

module _ (fs : FileSystem) (Elsewhere : Text → Text → Type 0) (law : IsOrderly fs Elsewhere)
    (name root : Text) where
  module _ (hash : List ℕ → List ℕ) where
    -- The file of a block: its directory is named by the first two digits.
    abbrev pub block_path : List ℕ → Text
    block_path bytes =
        fs.join (root ∷ take 2 (hex_encode (hash bytes)) ∷ hex_encode (hash bytes) ∷ [])

    -- Hashes have two bytes or more, and filepath.Join gives blocks of different addresses files elsewhere from each
    -- other and from each other's temporary files.
    pub record IsSharded : Type 0 where
      pub long : (bytes : List ℕ) → 2 ≤ length (hash bytes)
      pub apart :
          (x y : List ℕ) → address hash x ≢ address hash y → Elsewhere (block_path x) (block_path y)
      pub not_temporary :
          (x y : List ℕ)
          → address hash x ≢ address hash y
          → Elsewhere (block_path x ++ codes ".tmp") (block_path y)
