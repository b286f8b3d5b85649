-- ===== src/Cli/Files.antt =====
-- `cmdPut`, `cmdGet` and `cmdHealth` of core/cmd/vaultctl/main.go: the vault of the unlocked key over the
-- points that the flags name. What they print is the result; the backends are those of the points.
use nft_soket.Base.{ℕ, Bool, not, Option, none, some, List, [], ◌∷◌}
use nft_soket.Base.Result.{Result, ok, err, ◌>>=◌, ◌>>◌, fail_if, or_fail, map_err}
use nft_soket.Base.Dict.{Dict}
use nft_soket.Base.Text.{Text, codes, is_empty}
use nft_soket.Paperkey
use nft_soket.Paperkey.{Library}
use nft_soket.Cas
use nft_soket.Vault
use nft_soket.Vault.{Vault, Config, Reader, Manifest, put_file, get_file}
use nft_soket.Vault.Opening.{open_vault}
use nft_soket.Cli.{flag_val, positional}
use nft_soket.Cli.Keys
use nft_soket.Cli.Keys.{Terminal, unlocked_key}
use nft_soket.Cli.Points
use nft_soket.Cli.Points.{Point, build_store, storage_desc}

-- The packages' parameters, the points' backends as they are now, and the files: filepath.Base and Join,
-- which directories can be made, os.Open, and which files os.Create can make.
pub record Setup : Type 1 where
  pub config : Config
  pub connect : List Point → List config.backend.State
  pub library : Library
  pub terminal : Terminal
  pub print_nat : ℕ → Text
  pub base_name : Text → Text
  pub join_path : Text → Text → Text
  pub can_make : Text → Bool
  pub open_file : Text → Option Reader
  pub can_create : Text → Bool

pub data Error : Type 0 where
  usage no_out no_file : Error
  key : Keys.Error → Error
  building : Points.Error → Error
  opening : Paperkey.Error → Error

-- What `put` prints: the name, the points, the fingerprint and the root.
pub record Stored : Type 0 where
  pub name : Text
  pub points : Text
  pub fingerprint : Text
  pub root : Text

abbrev pub first : List Text → Option Text
first [] = none
first (a ∷ args) = some a

module _ (S : Setup) where
  abbrev pub stores : List Text → Result Error (List Point)
  stores args = map_err building (build_store S.print_nat S.join_path S.can_make S.terminal args)

  -- The vault and the points, which both commands open in this order.
  abbrev pub opened : List Text → Result Error (Vault × List Point)
  opened args = do
    ak ← map_err key (unlocked_key S.library S.terminal)
    found ← stores args
    v ← map_err opening (open_vault S.library ak)
    ok (v, found)

  abbrev stored_as : Text → Text → Vault → Text → Stored
  stored_as name points v root = record {
    name = name;
    points = points;
    fingerprint = v.fingerprint;
    root = root;
  }

  -- An error before the vault is used, or the result of `PutFile` and the state that it leaves. The number
  -- is that of the random nonces drawn so far.
  unfoldable pub cmd_put :
      List Text → ℕ → Result Error (Result Vault.Error Stored × Vault.State S.config)
  cmd_put args drawn = do
    src ← or_fail (first (positional args)) usage
    let name = flag_val args (codes "--name") (S.base_name src)
    found ← opened args
    f ← or_fail (S.open_file src) no_file
    let (r, s) = put_file S.config found.0 name f (S.connect found.1, drawn)
    ok (
      elim r [
        | ok root ↦ ok (stored_as name (storage_desc S.terminal args) found.0 root)
        | err e ↦ err e
      ],
      s,
    )

  -- What is written to the file of --out, with the manifest.
  unfoldable pub cmd_get :
      List Text → ℕ → Result Error (Result Vault.Error (Manifest × List ℕ) × Vault.State S.config)
  cmd_get args drawn = do
    root ← or_fail (first (positional args)) usage
    let out = flag_val args (codes "--out") []
    fail_if (is_empty out) no_out
    found ← opened args
    fail_if (not (S.can_create out)) no_file
    ok (get_file S.config found.0 root (S.connect found.1, drawn))

  -- Which points have the block of the root.
  unfoldable pub cmd_health : List Text → Result Error (Dict Bool × List S.config.backend.State)
  cmd_health args = do
    root ← or_fail (first (positional args)) usage
    found ← stores args
    ok (Cas.health S.config.backend S.config.hash root (S.connect found))
