-- ===== src/Cas/Files/Written.antt =====
-- What a write of `FSBackend` of core/cas/fsbackend.go does to the block, in any state of the files.
use nft_soket.Base.{ℕ, ◌≡◌, true, false, List}
use nft_soket.Base.Result.{Result, ok, err}
use nft_soket.Base.Text.{Text}
use nft_soket.Cas.{Backend, BackendError}
use nft_soket.Cas.Files
use nft_soket.Cas.Files.{FileSystem}
use nft_soket.Cas.Files.Durable.{IsOrderly}
use nft_soket.Cas.Files.Backed.{file_backend}

module _ (fs : FileSystem) (Elsewhere : Text → Text → Type 0) (law : IsOrderly fs Elsewhere)
    (name root : Text) where
  abbrev pub point : Backend
  point = file_backend fs name root

  -- What a `Put` does to the block at its address, told by the methods of the backend.
  pub record IsBlockWrite (addr : Text) (bytes : List ℕ) (s : fs.Files) : Type 0 where
    pub new :
        (point.has addr s).0 ≡ ok false
        → (point.put addr bytes s).0 ≡ ok tt
        → (point.get addr (point.put addr bytes s).1).0 ≡ ok bytes
    pub present :
        (point.has addr s).0 ≡ ok true
        → (point.get addr (point.put addr bytes s).1).0 ≡ (point.get addr s).0
    pub old :
        (bytes' : List ℕ)
        → (point.get addr s).0 ≡ ok bytes'
        → (point.get addr (point.put addr bytes s).1).0 ≡ ok bytes'
    pub refused :
        (e : BackendError)
        → (point.put addr bytes s).0 ≡ err e
        → (point.get addr (point.put addr bytes s).1).0 ≡ (point.get addr s).0
