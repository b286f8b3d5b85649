-- ===== src/Control/Service/Billing.antt =====
-- core/control/service.go: billing, settlement, checkout, webhooks and delinquency.
use nft_soket.Base.{Option, none, some, List, [], ◌∷◌, ◌++◌, if◌then◌else◌}
use nft_soket.Base.Result.{Result, ok, err}
use nft_soket.Base.Int.{pos, ltb_ℤ, add64, sub64}
use nft_soket.Base.Text.{Text, codes}
use nft_soket.Base.Dict.{values}
use nft_soket.Control.Model.{
  Plan, Account, AccountStatusView, Invoice, InvoiceStatus, Payment, Money, Error, advance,
  is_closed, is_open,
}
use nft_soket.Control.Exec.{Env, State, Snapshot, Exec, ◌>>=◌, ◌>>◌, pure, gets, ignore}
use nft_soket.Control.Store.{
  get_plan, save_account, get_account, get_usage, save_invoice, list_invoices, save_payment,
}
use nft_soket.Control.Service.{rand_id}

unfoldable pub sum_open : Money → List Invoice → Money
sum_open total [] = total
sum_open total (i ∷ invoices) =
    sum_open (if is_open i.status then add64 total i.amount_cents else total) invoices

unfoldable pub outstanding : Text → Snapshot → Money
unfolding sum_open
outstanding account_id st = sum_open (pos 0) (list_invoices account_id st)

-- `Status`: the read model of an account.
unfoldable pub status : Text → Exec AccountStatusView
status account_id = do
  a ← get_account account_id
  plan ← get_plan a.plan_id
  u ← gets (get_usage account_id)
  owed ← gets (outstanding account_id)
  pure (record {
    account_id = a.id;
    name = a.name;
    status = a.status;
    plan_id = plan.id;
    plan_name = plan.name;
    quota_bytes = plan.quota_bytes;
    bytes_used = u.bytes_used;
    remaining_bytes =
        if ltb_ℤ (sub64 plan.quota_bytes u.bytes_used) (pos 0)
        then pos 0
        else sub64 plan.quota_bytes u.bytes_used;
    object_count = u.object_count;
    currency = plan.currency;
    outstanding_cts = owed;
    period_end = a.period_end;
  })

-- `PaymentProvider.Charge`: a payment, or none to leave the invoice open.
abbrev pub Charge : Type 0
Charge = Account → Invoice → Option Payment

-- `ManualProvider`.
abbrev pub manual_charge : Charge
manual_charge a i = none

-- Automatic collection: an invoice that the provider charged is paid, with its payment recorded.
unfoldable pub collect : Env → Charge → Account → Invoice → Exec Invoice
collect env charge a inv = elim (charge a inv) [
  | none ↦ pure inv
  | some pay ↦ do
    id ← rand_id env (codes "pay")
    ignore (
        save_payment env
          (record pay { id = id; account_id = a.id; invoice_id = inv.id; created_at = env.now }))
    pure (record inv { status = InvoiceStatus.paid; paid_at = some env.now })
]

unfoldable pub issue_period : Env → Charge → Account → Plan → Exec (List Invoice)
unfolding collect
issue_period env charge a plan =
    if ltb_ℤ (pos 0) plan.price_cents
    then (do
      id ← rand_id env (codes "inv")
      inv ← collect env charge a (record {
        id = id;
        account_id = a.id;
        period_start = a.period_start;
        period_end = a.period_end;
        amount_cents = plan.price_cents;
        currency = plan.currency;
        status = InvoiceStatus.unpaid;
        created_at = env.now;
        paid_at = none;
        checkout_provider = [];
        checkout_ref = [];
      })
      save_invoice env inv
      pure (inv ∷ []))
    else pure []

-- The invoices issued, and the error that stopped the run.
abbrev pub Issued : Type 0
Issued = List Invoice × Option Error

abbrev close_period : List Invoice → Result Error Unit × State → Issued × State
close_period issued (ok u, s) = ((issued, none), s)
close_period issued (err e, s) = ((issued, some e), s)

-- The account as its next period begins.
unfoldable pub next_period : Env → Plan → Account → Account
next_period env plan a = record a {
  period_start = a.period_end;
  period_end = advance env.add_month plan.period a.period_end;
}

abbrev advance_period : Env → Account → Plan → Result Error (List Invoice) × State → Issued × State
advance_period env a plan (ok issued, s) =
    close_period issued (save_account env (next_period env plan a) s)
advance_period env a plan (err e, s) = (([], some e), s)

abbrev bill_on_plan : Env → Charge → Account → Option Plan → State → Issued × State
bill_on_plan env charge a none s = (([], none), s)
bill_on_plan env charge a (some plan) s =
    advance_period env a plan (issue_period env charge a plan s)

abbrev plan_of : Result Error Plan → Option Plan
plan_of (ok plan) = some plan
plan_of (err e) = none

-- One round of the loop of `RunBilling`.
unfoldable pub bill_account : Env → Charge → Account → State → Issued × State
unfolding next_period
bill_account env charge a s =
    if is_closed a.status
    then (([], none), s)
    else if ltb_ℤ env.now a.period_end
    then (([], none), s)
    else bill_on_plan env charge a (plan_of (get_plan a.plan_id s).0) s

unfoldable pub bill_all : Env → Charge → List Account → List Invoice → State → Issued × State
bill_all env charge [] issued s = ((issued, none), s)
bill_all env charge (a ∷ accounts) issued s =
    let ((now_issued, failed), s') = bill_account env charge a s in
    elim failed [
      | none ↦ bill_all env charge accounts (issued ++ now_issued) s'
      | some e ↦ ((issued ++ now_issued, some e), s')
    ]

-- `RunBilling` goes over the accounts as they were when it began.
unfoldable pub run_billing : Env → Charge → State → Issued × State
unfolding bill_all
run_billing env charge s = bill_all env charge (values s.store.accounts) [] s
