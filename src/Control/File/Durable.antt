-- ===== src/Control/File/Durable.antt =====
-- What a restart finds in the state file of core/control/store.go.
use nft_soket.Base.{ℕ, ◌≡◌, some, List, ◌++◌}
use nft_soket.Base.Result.{err}
use nft_soket.Base.Text.{Text, codes}
use nft_soket.Cas.Files.{FileSystem, FileError}
use nft_soket.Base.Dict.{lookup}
use nft_soket.Control.Exec.{Snapshot}
use nft_soket.Control.Store.{empty_snapshot}
use nft_soket.Control.File.{Json}

-- A write to a temporary file leaves the file beside it, and a rename that fails changes none.
pub record IsAtomic (fs : FileSystem) : Type 0 where
  pub write_beside :
      (p : Text) (bytes : List ℕ) (s : fs.Files)
      → fs.read_file p (fs.write_file (p ++ codes ".tmp") bytes s).1 ≡ fs.read_file p s
  pub rename_fails :
      (p q r : Text) (e : FileError) (s : fs.Files)
      → (fs.rename p q s).0 ≡ err e
      → fs.read_file r (fs.rename p q s).1 ≡ fs.read_file r s

-- The maps of two snapshots have the same entries, in whatever order.
pub record IsSame (st st' : Snapshot) : Type 0 where
  pub plans : (k : Text) → lookup k st'.plans ≡ lookup k st.plans
  pub accounts : (k : Text) → lookup k st'.accounts ≡ lookup k st.accounts
  pub usage : (k : Text) → lookup k st'.usage ≡ lookup k st.usage
  pub invoices : (k : Text) → lookup k st'.invoices ≡ lookup k st.invoices
  pub payments : (k : Text) → lookup k st'.payments ≡ lookup k st.payments

-- Where the snapshot can be encoded, what its encoding is decoded to has the same entries: encoding/json sorts
-- them by their keys, and keeps the text that is valid UTF-8.
abbrev pub Reads : Json → Snapshot → Type 0
Reads json st =
    (bytes : List ℕ)
    → json.marshal st ≡ some bytes
    → (st' : Snapshot) × (json.unmarshal empty_snapshot bytes ≡ some st') × IsSame st st'
