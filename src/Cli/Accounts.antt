-- ===== src/Cli/Accounts.antt =====
-- The commands of core/cmd/vaultctl/main.go that ask the control server, and `restore`: what they
-- print from. The texts that they print are not part of the model.
use nft_soket.Base.{List, []}
use nft_soket.Base.Result.{Result, ok, err, ◌>>=◌, ◌>>◌, fail_if, map_err}
use nft_soket.Base.Text.{Text, codes, is_empty}
use nft_soket.Payment.{CheckoutSession}
use nft_soket.Paperkey
use nft_soket.Paperkey.{Library}
use nft_soket.Control.Model.{AccountStatusView, Invoice}
use nft_soket.Control.Api.{ClientError}
use nft_soket.Control.Client as Calls
use nft_soket.Control.Client.{Link, Client, new_client}
use nft_soket.Cli.{flag_val}
use nft_soket.Cli.Keys
use nft_soket.Cli.Keys.{Terminal, unlocked_key, control_auth, no_invoice}

pub data Error : Type 0 where
  local : Keys.Error → Error
  remote : ClientError → Error

abbrev or_empty : Result Paperkey.Error Text → Text
or_empty (ok fp) = fp
or_empty (err e) = []

-- `cmdRestore`: the fingerprint, whose error is dropped.
unfoldable pub cmd_restore : Library → Terminal → Result Keys.Error Text
cmd_restore lib t = do ak ← unlocked_key lib t; ok (or_empty (Paperkey.fingerprint lib ak))

module _ (L : Link) where
  -- A call with the URL and the token, unless they are missing.
  abbrev called :
      {A : Type 0}
      → Result Keys.Error (Client × Text)
      → (Client → Text → L.World → Result ClientError A × L.World)
      → L.World
      → Result Error A × L.World
  called (err e) call w = (err (local e), w)
  called (ok (c, token)) call w = let (r, w') = call c token w in (map_err remote r, w')

  abbrev client_of : Result Keys.Error (Text × Text) → Result Keys.Error (Client × Text)
  client_of (err e) = err e
  client_of (ok (url, token)) = ok (new_client url, token)

  unfoldable pub cmd_account :
      Terminal → List Text → L.World → Result Error AccountStatusView × L.World
  cmd_account t args = called (client_of (control_auth t args)) (Calls.status L)

  unfoldable pub cmd_invoices :
      Terminal → List Text → L.World → Result Error (List Invoice) × L.World
  cmd_invoices t args = called (client_of (control_auth t args)) (Calls.invoices L)

  -- The invoice is asked for after the URL and the token.
  abbrev with_invoice : Text → Result Keys.Error (Client × Text) → Result Keys.Error (Client × Text)
  with_invoice invoice found = do c ← found; fail_if (is_empty invoice) no_invoice; ok c

  unfoldable pub cmd_checkout :
      Terminal → List Text → L.World → Result Error CheckoutSession × L.World
  cmd_checkout t args =
      let invoice = flag_val args (codes "--invoice") [] in
      called (with_invoice invoice (client_of (control_auth t args))) (λ c token.
        Calls.checkout L c token invoice (flag_val args (codes "--provider") (codes "stripe"))
          (flag_val args (codes "--success-url") []) (flag_val args (codes "--cancel-url") []))
