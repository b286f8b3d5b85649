-- ===== src/Control/File.antt =====
-- The state file of core/control/store.go: `NewStore` and `persist` over a file system. In the methods
-- of the service, whether this write succeeds is the parameter `writable`.
pub mod Durable
use nft_soket.Base.{
  ℕ, ◌≡◌, ◌≢◌, refl, sym, ap, ◌∙◌, Bool, true, false, Option, none, some, List, [], ◌∷◌, ◌++◌,
  if◌then◌else◌, arith, Option-cases, inl, inr,
}
use nft_soket.Base.Result.{Result, ok, err, or_fail, Result-cases}
use nft_soket.Base.Text.{Text, codes, is_empty}
use nft_soket.Cas.Files.{FileSystem, FileError, not_exist, other}
use nft_soket.Cas.Files
use nft_soket.Control.Exec.{Snapshot}
use nft_soket.Control.Store.{empty_snapshot}

-- encoding/json on snapshots: the second reads into a snapshot that is there.
pub record Json : Type 0 where
  pub marshal : Snapshot → Option (List ℕ)
  pub unmarshal : Snapshot → List ℕ → Option Snapshot

pub data Error : Type 0 where
  files : FileError → Error
  encoding decoding : Error

module _ (fs : FileSystem) where
  open fs use {Files, write_file, rename}

  abbrev step :
      Result FileError (Unit {0}) × Files
      → (Files → Result Error (Unit {0}) × Files)
      → Result Error (Unit {0}) × Files
  step (ok u, s) next = next s
  step (err e, s) next = (err (files e), s)

  -- The write to a temporary file that is renamed.
  unfoldable pub replace : Text → List ℕ → Files → Result Error (Unit {0}) × Files
  replace path bytes s =
      step (write_file (path ++ codes ".tmp") bytes s)
        (λ t. step (rename (path ++ codes ".tmp") path t) (λ u. (ok tt, u)))

module _ (fs : FileSystem) (json : Json) where
  open fs use {Files, dir, mkdir_all, read_file}

  abbrev encoded :
      Option (List ℕ)
      → (List ℕ → Files → Result Error (Unit {0}) × Files)
      → Files
      → Result Error (Unit {0}) × Files
  encoded none next s = (err encoding, s)
  encoded (some bytes) next s = next bytes s

  unfoldable pub persist : Text → Snapshot → Files → Result Error (Unit {0}) × Files
  unfolding replace
  persist path st s =
      if is_empty path
      then (ok tt, s)
      else step fs (mkdir_all (dir path) s) (encoded (json.marshal st) (replace fs path))

  abbrev loaded : Result FileError (List ℕ) → Result Error Snapshot
  loaded (ok bytes) = or_fail (json.unmarshal empty_snapshot bytes) decoding
  loaded (err not_exist) = ok empty_snapshot
  loaded (err other) = err (files other)

  -- `NewStore`.
  unfoldable pub new_store : Text → Files → Result Error Snapshot
  new_store path s = if is_empty path then ok empty_snapshot else loaded (read_file path s)
