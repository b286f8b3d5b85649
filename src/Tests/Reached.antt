-- ===== src/Tests/Reached.antt =====
-- Runs of core/control/service.go from the empty store.
use nft_soket.Base.{◌≡◌, refl, [], ◌∷◌}
use nft_soket.Base.Result.{ok, err}
use nft_soket.Base.Int.{pos, ◌+ℤ◌, add64, wrap64}
use nft_soket.Base.Text.{codes, text_eq}
use nft_soket.Base.Hex.{hex_encode, hex_digit}
use nft_soket.Base.Dict.{lookup, insert}
use nft_soket.Payment.{Registry}
use nft_soket.Payment.Manual.{start_checkout, verify_webhook}
use nft_soket.Control.Model.{Payment, invalid, advance}
use nft_soket.Control.Exec.{Env, State}
use nft_soket.Control.Store.{
  get_account, get_plan, save_plan, persist, save_account, get_invoice, save_invoice, save_payment,
  list_invoices, invoices_of,
}
use nft_soket.Control.Service.{create_plan, create_account, rand_id, new_token, hash_token}
use nft_soket.Control.Service.Billing.{outstanding, sum_open}
use nft_soket.Control.Service.Settlement.{issue_invoice, settle, reactivate, enforce_delinquency}
use nft_soket.Control.Paid.{Spares}
use nft_soket.Control.Paid.Once
use nft_soket.Control.Paid.Once.{settle-never}
use nft_soket.Control.Reach
use nft_soket.Control.Reach.{
  Reach, later, by_create_plan, by_create_account, by_issue_invoice, by_enforce,
}
use nft_soket.Tests.Offers.{env}

-- A plan, an account on it, and an invoice for the account.
abbrev with_plan : State
with_plan = (create_plan env (codes "basic") (pos 100) (pos 500) [] [] Reach.start).1

abbrev with_account : State
with_account = (create_account env (codes "Ada") [] (codes "plan_00") with_plan).1

abbrev with_invoice : State
with_invoice = (issue_invoice env (codes "acct_02") (pos 500) with_account).1

with_invoice-Reach : Reach with_invoice
with_invoice-Reach =
    later
      (later (later Reach.here (by_create_plan env (codes "basic") (pos 100) (pos 500) [] []))
        (by_create_account env (codes "Ada") [] (codes "plan_00")))
      (by_issue_invoice env (codes "acct_02") (pos 500))

abbrev payment : Payment
payment = record {
  id = codes "pay_04";
  account_id = codes "acct_02";
  invoice_id = codes "inv_03";
  amount_cents = pos 500;
  method = codes "cash";
  created_at = pos 100;
}

abbrev paid : State
paid = (settle env (codes "inv_03") (codes "cash") with_invoice).1

settled : settle env (codes "inv_03") (codes "cash") with_invoice ≡ (ok payment, paid)
unfolding create_plan create_account issue_invoice settle rand_id new_token hash_token hex_encode
    hex_digit save_plan save_account save_invoice save_payment persist get_plan get_account
    get_invoice insert lookup text_eq reactivate outstanding sum_open list_invoices invoices_of
    add64 wrap64 ◌+ℤ◌ advance
settled = refl

-- The random bytes of a later time, and what happens then: another invoice, and the check for late ones.
abbrev later_env : Env
later_env = record env { random = λ n. 255 ∷ n ∷ [] }

abbrev with_second : State
with_second = (issue_invoice later_env (codes "acct_02") (pos 500) paid).1

abbrev checked : State
checked = (enforce_delinquency later_env (pos 10) with_second).1

spared : Spares (codes "inv_03") later_env
unfolding hex_encode hex_digit text_eq
spared n = refl

settle-never_example :
    settle later_env (codes "inv_03") (codes "card") checked ≡ (err invalid, checked)
settle-never_example =
    settle-never env later_env (codes "inv_03") (codes "cash") (codes "card") with_invoice paid
      checked payment with_invoice-Reach settled
      (Once.after
        (Once.after Once.now (by_issue_invoice later_env (codes "acct_02") (pos 500)) spared)
        (by_enforce later_env (pos 10)) tt)

abbrev pub registry : Registry
registry =
    (
      codes "manual",
      record {
        name = codes "manual";
        start_checkout = start_checkout (λ n. codes "5.00") [];
        verify_webhook = verify_webhook;
      },
    )
    ∷ []

-- The invoice is paid while the provider works.
abbrev pay_meanwhile : State → State
pay_meanwhile t = (settle env (codes "inv_03") (codes "cash") t).1
