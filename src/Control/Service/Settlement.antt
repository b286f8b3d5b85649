-- ===== src/Control/Service/Settlement.antt =====
-- core/control/service.go: invoices on demand, settlement, checkout, webhooks and delinquency.
use nft_soket.Base.{
  Bool, true, false, not, ◌||◌, ◌&&◌, Option, none, some, List, [], ◌∷◌, ◌++◌, if◌then◌else◌,
}
use nft_soket.Base.Result.{Result, ok, err}
use nft_soket.Base.Int.{ℤ, pos, ltb_ℤ, leb_ℤ, ◌-ℤ◌, is_zero_ℤ}
use nft_soket.Base.Text.{Text, codes, is_empty}
use nft_soket.Base.Dict.{values}
use nft_soket.Control.Model.{
  Account, AccountStatus, Invoice, InvoiceStatus, Payment, Error, invalid, provider, is_active,
  is_suspended, is_open,
}
use nft_soket.Control.Exec.{Env, State, Exec, ◌>>=◌, ◌>>◌, pure, raise, raise_if, gets, ignore}
use nft_soket.Control.Store.{
  get_plan, save_account, get_account, save_invoice, get_invoice, list_invoices, save_payment,
}
use nft_soket.Control.Service.{rand_id}
use nft_soket.Control.Service.Billing.{outstanding}
use nft_soket.Payment
use nft_soket.Payment.{Registry, Provider, CheckoutSession, CheckoutRequest, Headers, WebhookResult}

unfoldable pub issue_invoice : Env → Text → ℤ → Exec Invoice
issue_invoice env account_id amount_cents = do
  a ← get_account account_id
  plan ← get_plan a.plan_id
  let amt : ℤ = if leb_ℤ amount_cents (pos 0) then plan.price_cents else amount_cents
  raise_if (leb_ℤ amt (pos 0)) invalid
  id ← rand_id env (codes "inv")
  let inv : Invoice = record {
    id = id;
    account_id = a.id;
    period_start = env.now;
    period_end = env.now;
    amount_cents = amt;
    currency = plan.currency;
    status = InvoiceStatus.unpaid;
    created_at = env.now;
    paid_at = none;
    checkout_provider = [];
    checkout_ref = [];
  }
  save_invoice env inv
  pure inv

-- A suspended account that owes nothing is active again; errors are dropped.
unfoldable pub reactivate : Env → Text → Exec (Unit {0})
reactivate env account_id s = elim (get_account account_id s).0 [
  | err e ↦ (ok tt, s)
  | ok a ↦
      if is_suspended a.status
      then ignore (save_account env (record a { status = AccountStatus.active })) s
      else (ok tt, s)
]

-- `settleLocked`: marks an open invoice paid and records the payment.
unfoldable pub settle : Env → Text → Text → Exec Payment
unfolding reactivate
settle env invoice_id method = do
  inv ← get_invoice invoice_id
  raise_if (not (is_open inv.status)) invalid
  save_invoice env (record inv { status = InvoiceStatus.paid; paid_at = some env.now })
  id ← rand_id env (codes "pay")
  let pay : Payment = record {
    id = id;
    account_id = inv.account_id;
    invoice_id = inv.id;
    amount_cents = inv.amount_cents;
    method = method;
    created_at = env.now;
  }
  save_payment env pay
  owed ← gets (outstanding inv.account_id)
  if is_zero_ℤ owed then reactivate env inv.account_id else pure tt
  pure pay

-- `PayInvoice` is `settleLocked` under the lock.
unfoldable pub pay_invoice : Env → Text → Text → Exec Payment
pay_invoice env invoice_id method = settle env invoice_id method

abbrev pub from_payment : {A : Type 0} → Result Payment.Error A → Exec A
from_payment (ok a) s = (ok a, s)
from_payment (err e) s = (err provider, s)

-- The error is dropped, and the zero account has no name.
unfoldable pub account_name : Text → Exec Text
account_name id s = elim (get_account id s).0 [ err e ↦ (ok [], s) | ok a ↦ (ok a.name, s) ]

-- The first critical section of `CreateCheckout`: the open invoice and its account's name.
unfoldable pub read_checkout : Text → Exec (Invoice × Text)
unfolding account_name
read_checkout invoice_id = do
  inv ← get_invoice invoice_id
  raise_if (not (is_open inv.status)) invalid
  name ← account_name inv.account_id
  pure (inv, name)

-- The second: the session is noted on the invoice if that is still open.
unfoldable pub note_checkout : Env → Text → Text → Text → Exec (Unit {0})
note_checkout env invoice_id provider_name reference s = elim (get_invoice invoice_id s).0 [
  | err e ↦ (ok tt, s)
  | ok cur ↦
      if is_open cur.status
      then ignore
          (save_invoice env
            (record cur { checkout_provider = provider_name; checkout_ref = reference }))
          s
      else (ok tt, s)
]

-- The dash of the description, in UTF-8.
abbrev em_dash : Text
em_dash = 0xE2 ∷ 0x80 ∷ 0x94 ∷ []

-- `CreateCheckout`. The lock is free while the provider works: `meanwhile` is what other calls do to
-- the state in that time.
unfoldable pub create_checkout :
    Env → Option Registry → (State → State) → Text → Text → Text → Text → Exec CheckoutSession
unfolding read_checkout note_checkout
create_checkout env none meanwhile invoice_id provider_name success cancel = raise invalid
create_checkout env (some reg) meanwhile invoice_id provider_name success cancel = do
  prov ← from_payment (Payment.get provider_name reg)
  found ← read_checkout invoice_id
  (λ s. (ok tt, meanwhile s))
  session ← from_payment (
      prov.start_checkout (record {
        invoice_id = found.0.id;
        account_id = found.0.account_id;
        amount_cents = found.0.amount_cents;
        currency = found.0.currency;
        description = codes "NFT Vault " ++ em_dash ++ codes " " ++ found.1;
        success_url = success;
        cancel_url = cancel;
      }))
  note_checkout env invoice_id provider_name session.reference
  pure session

abbrev settled : Result Error Payment × State → Result Error Bool × State
settled (ok pay, s) = (ok true, s)
settled (err invalid, s) = (ok false, s)
settled (err e, s) = (err e, s)

-- `HandleWebhook`: whether an invoice was settled.
unfoldable pub handle_webhook : Env → Option Registry → Text → Headers → Text → Exec Bool
handle_webhook env none provider_name headers body = raise invalid
handle_webhook env (some reg) provider_name headers body = do
  prov ← from_payment (Payment.get provider_name reg)
  res ← from_payment (prov.verify_webhook headers body)
  if not res.is_paid || is_empty res.invoice_id
      then pure false
      else (λ s. settled (settle env res.invoice_id provider_name s))

-- An open invoice from before the cutoff.
unfoldable pub has_overdue : ℤ → List Invoice → Bool
has_overdue cutoff [] = false
has_overdue cutoff (i ∷ invoices) =
    (is_open i.status && ltb_ℤ i.created_at cutoff) || has_overdue cutoff invoices

-- The loop of `EnforceDelinquency`, over the accounts as they were when it began.
unfoldable pub suspend_overdue : Env → ℤ → List Account → State → List Text × State
unfolding has_overdue
suspend_overdue env cutoff [] s = ([], s)
suspend_overdue env cutoff (a ∷ accounts) s =
    let overdue = is_active a.status && has_overdue cutoff (list_invoices a.id s.store) in
    let s' =
      if overdue
      then (save_account env (record a { status = AccountStatus.suspended }) s).1
      else s in
    let (ids, t) = suspend_overdue env cutoff accounts s' in
    (if overdue then a.id ∷ ids else ids, t)

unfoldable pub enforce_delinquency : Env → ℤ → State → List Text × State
unfolding suspend_overdue
enforce_delinquency env grace s = suspend_overdue env (env.now -ℤ grace) (values s.store.accounts) s
