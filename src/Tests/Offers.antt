-- ===== src/Tests/Offers.antt =====
-- Runs of core/control/service.go with one account on one plan and one open invoice.
use nft_soket.Base.{◌≡◌, refl, true, false, none, some, [], ◌∷◌, ◌⊎◌, inl, inr, Bool-cases, arith}
use nft_soket.Base.Result.{ok, err}
use nft_soket.Base.Int.{ℤ, pos, ◌+ℤ◌, ◌<ℤ◌, InInt64, add64, wrap64, int_laws}
use nft_soket.Base.Text.{Text, codes, text_eq}
use nft_soket.Base.Hex.{hex_encode, hex_digit}
use nft_soket.Base.Dict.{lookup, insert}
use nft_soket.Payment
use nft_soket.Payment.{unknown_provider, Provider, Registry, WebhookResult}
use nft_soket.Control.Model.{
  Plan, Account, AccountStatus, Usage, Invoice, InvoiceStatus, Payment, storage, invalid,
  period_monthly, is_open,
}
use nft_soket.Control.Exec.{Env, State}
use nft_soket.Control.Store.{
  get_account, get_plan, get_usage, save_usage, persist, save_account, get_invoice, save_invoice,
  save_payment, list_invoices, invoices_of,
}
use nft_soket.Control.Service.{reserve, release, rand_id}
use nft_soket.Control.Service.Billing.{outstanding, sum_open}
use nft_soket.Control.Service.Settlement.{settle, reactivate, handle_webhook}
use nft_soket.Control.Space.{
  used, IsReservation, IsWithinQuota, reserve-ok, reserve-IsWithinQuota, reserve_overflow,
}
use nft_soket.Control.Space.Release.{release-IsWithinQuota}
use nft_soket.Control.Settling.{IsSettled, settle-ok, settle-unwritable, handle_webhook-twice}

abbrev pub env : Env
env = record {
  writable = λ st. true;
  now = pos 100;
  add_month = λ t. t +ℤ pos 30;
  random = λ n. n ∷ [];
  sha256 = λ b. b;
}

abbrev read_only : Env
read_only = record env { writable = λ st. false }

abbrev pub plan_with : ℤ → Plan
plan_with quota = record {
  id = codes "p";
  name = codes "basic";
  quota_bytes = quota;
  price_cents = pos 500;
  currency = codes "EUR";
  period = period_monthly;
}

abbrev pub account : Account
account = record {
  id = codes "a";
  name = codes "Ada";
  email = codes "ada";
  plan_id = codes "p";
  status = AccountStatus.active;
  token_hash = codes "h";
  created_at = pos 1;
  period_start = pos 1;
  period_end = pos 31;
}

abbrev pub invoice : Invoice
invoice = record {
  id = codes "i";
  account_id = codes "a";
  period_start = pos 1;
  period_end = pos 31;
  amount_cents = pos 500;
  currency = codes "EUR";
  status = InvoiceStatus.unpaid;
  created_at = pos 31;
  paid_at = none;
  checkout_provider = [];
  checkout_ref = [];
}

abbrev usage_of : ℤ → Usage
usage_of bytes = record {
  account_id = codes "a";
  bytes_used = bytes;
  object_count = pos 1;
  updated_at = pos 1;
}

abbrev pub start_with : ℤ → ℤ → State
start_with quota bytes = record {
  store = record {
    plans = (codes "p", plan_with quota) ∷ [];
    accounts = (codes "a", account) ∷ [];
    usage = (codes "a", usage_of bytes) ∷ [];
    invoices = (codes "i", invoice) ∷ [];
    payments = [];
  };
  drawn = 0;
}

-- 40 of 100 bytes are used.
abbrev pub start : State
start = start_with (pos 100) (pos 40)

abbrev reserved : State
reserved = (reserve env (codes "a") (pos 60) start).1

start-reserve : reserve env (codes "a") (pos 60) start ≡ (ok tt, reserved)
unfolding reserve get_account get_plan get_usage save_usage persist add64 wrap64 ◌+ℤ◌ lookup text_eq
start-reserve = refl

start_range : InInt64 (used (codes "a") start +ℤ pos 60)
unfolding get_usage lookup text_eq ◌+ℤ◌
start_range = (omega arith, omega arith)

reserve-ok_example :
    (a : Account) × (plan : Plan) × IsReservation (codes "a") (pos 60) start reserved a plan
reserve-ok_example = reserve-ok env (codes "a") (pos 60) start reserved start_range start-reserve

start-used : (j : Text) → (used j start ≡ pos 40) ⊎ (used j start ≡ pos 0)
unfolding get_usage lookup
start-used j = elim (Bool-cases (text_eq (codes "a") j)) [
  | inl same ↦ inl (ground (arith, same))
  | inr other ↦ inr (ground (arith, other))
]

start-plan :
    (k : Text) (plan : Plan) → lookup k start.store.plans ≡ some plan → plan.quota_bytes ≡ pos 100
unfolding lookup
start-plan k plan h = elim (Bool-cases (text_eq (codes "p") k)) [
  | inl same ↦ ground (arith, same, h)
  | inr other ↦ absurd (ground (arith, other, h))
]

start-IsWithinQuota : IsWithinQuota start
start-IsWithinQuota = record {
  quota = λ j a plan found on_plan. elim (start-used j) [
    | inl busy ↦ rw (busy, start-plan a.plan_id plan on_plan) (omega int_laws)
    | inr idle ↦ rw (idle, start-plan a.plan_id plan on_plan) (omega int_laws)
  ];
  not_negative = λ j. elim (start-used j) [
    | inl busy ↦ rw busy (omega int_laws)
    | inr idle ↦ rw idle (omega int_laws)
  ];
}

reserve-IsWithinQuota_example : IsWithinQuota (reserve env (codes "a") (pos 60) start).1
reserve-IsWithinQuota_example =
    reserve-IsWithinQuota env (codes "a") (pos 60) start start_range start-IsWithinQuota

used_range : InInt64 (used (codes "a") start)
unfolding get_usage lookup text_eq
used_range = (omega arith, omega arith)

release-IsWithinQuota_example : IsWithinQuota (release env (codes "a") (pos 50) start).1
release-IsWithinQuota_example =
    release-IsWithinQuota env (codes "a") (pos 50) start used_range (omega arith, omega arith)
      start-IsWithinQuota

-- A plan with the largest quota, and one byte used.
abbrev full : State
full = start_with (pos 0x7FFF_FFFF_FFFF_FFFF) (pos 1)

reserve_overflow_example :
    (t : State) × (reserve env (codes "a") (pos 0x7FFF_FFFF_FFFF_FFFF) full ≡ (ok tt, t))
    × (used (codes "a") t <ℤ pos 0)
unfolding get_usage lookup text_eq ◌+ℤ◌
reserve_overflow_example =
    reserve_overflow env (codes "a") (pos 0x7FFF_FFFF_FFFF_FFFF) full account
      (plan_with (pos 0x7FFF_FFFF_FFFF_FFFF)) (λ st. refl) refl refl refl (omega int_laws)
      (omega int_laws) (omega int_laws) (omega arith, omega arith) (omega arith, omega arith)
      (omega int_laws)

abbrev pub payment : Payment
payment = record {
  id = codes "pay_00";
  account_id = codes "a";
  invoice_id = codes "i";
  amount_cents = pos 500;
  method = codes "manual";
  created_at = pos 100;
}

abbrev settled : State
settled = (settle env (codes "i") (codes "manual") start).1

start-settle : settle env (codes "i") (codes "manual") start ≡ (ok payment, settled)
unfolding settle reactivate get_account get_invoice save_invoice save_payment save_account persist
    rand_id hex_encode hex_digit outstanding sum_open list_invoices invoices_of lookup insert
    text_eq
start-settle = refl

settle-ok_example :
    (is_open invoice.status ≡ true) × IsSettled env invoice (codes "manual") payment settled
unfolding lookup text_eq
settle-ok_example =
    settle-ok env (codes "i") (codes "manual") start settled invoice payment refl start-settle

settle-unwritable_example :
    (t : State) × (settle read_only (codes "i") (codes "manual") start ≡ (err storage, t))
    × (settle read_only (codes "i") (codes "manual") t ≡ (err invalid, t))
    × (lookup (codes "i") t.store.invoices
        ≡ some (record invoice { status = InvoiceStatus.paid; paid_at = some read_only.now }))
    × (t.store.payments ≡ start.store.payments)
unfolding lookup text_eq
settle-unwritable_example =
    settle-unwritable read_only (codes "i") (codes "manual") start invoice refl refl refl
      (λ st. refl)

abbrev result : WebhookResult
result = record {
  provider = codes "manual";
  invoice_id = codes "i";
  is_paid = true;
  reference = [];
  amount_cents = pos 500;
}

abbrev provider : Provider
provider = record {
  name = codes "manual";
  start_checkout = λ req. err unknown_provider;
  verify_webhook = λ headers body. ok result;
}

start-handle_webhook :
    handle_webhook env (some ((codes "manual", provider) ∷ [])) (codes "manual") (λ k. []) [] start
    ≡ (ok true, settled)
unfolding handle_webhook Payment.get settle reactivate get_account get_invoice save_invoice
    save_payment save_account persist rand_id hex_encode hex_digit outstanding sum_open
    list_invoices invoices_of lookup insert text_eq
start-handle_webhook = refl

handle_webhook-twice_example :
    handle_webhook env
      (some ((codes "manual", provider) ∷ []))
      (codes "manual")
      (λ k. [])
      []
      settled
    ≡ (ok false, settled)
unfolding lookup text_eq Payment.get
handle_webhook-twice_example =
    handle_webhook-twice env ((codes "manual", provider) ∷ []) provider (codes "manual") (λ k. [])
      [] result invoice start settled refl refl refl refl start-handle_webhook
