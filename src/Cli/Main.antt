-- ===== src/Cli/Main.antt =====
-- `main` of core/cmd/vaultctl/main.go and core/cmd/vaultadmin/main.go: which command runs, and the exit status.
use nft_soket.Base.{ℕ, Option, none, some, List, [], ◌∷◌, ◌||◌, if◌then◌else◌}
use nft_soket.Base.Result.{Result, ok, err}
use nft_soket.Base.Text.{Text, codes, text_eq}

-- The commands of vaultctl that return an error or none, and the usage text.
pub data Command : Type 0 where
  keygen restore split combine put get health account invoices checkout help : Command

unfoldable pub command_of : Text → Option Command
command_of name =
    if text_eq name (codes "keygen")
    then some keygen
    else if text_eq name (codes "restore")
    then some restore
    else if text_eq name (codes "split")
    then some split
    else if text_eq name (codes "combine")
    then some combine
    else if text_eq name (codes "put")
    then some put
    else if text_eq name (codes "get")
    then some get
    else if text_eq name (codes "health")
    then some health
    else if text_eq name (codes "account")
    then some account
    else if text_eq name (codes "invoices")
    then some invoices
    else if text_eq name (codes "checkout")
    then some checkout
    else if text_eq name (codes "-h")
        || text_eq name (codes "--help")
        || text_eq name (codes "help")
    then some help
    else none

-- os.Exit(1) after an error.
abbrev status_of : {E A : Type 0} → Result E A → ℕ
status_of (ok a) = 0
status_of (err e) = 1

module _ {E : Type 0} where
  abbrev exit_of : (Command → List Text → Result E (Unit {0})) → Option Command → List Text → ℕ
  exit_of run none args = 2
  exit_of run (some help) args = 0
  exit_of run (some c) args = status_of (run c args)

  -- The exit status of vaultctl, from the arguments after the program's name. `run` is what the commands return.
  unfoldable pub main : (Command → List Text → Result E (Unit {0})) → List Text → ℕ
  unfolding command_of
  main run [] = 2
  main run (name ∷ args) = exit_of run (command_of name) args

  -- That of vaultadmin, whose `run` takes the command's name.
  unfoldable pub admin_main : (Text → List Text → Result E (Unit {0})) → List Text → ℕ
  admin_main run [] = 2
  admin_main run (name ∷ args) = status_of (run name args)
