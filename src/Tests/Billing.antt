-- ===== src/Tests/Billing.antt =====
-- Runs of core/control/service.go with two accounts, of which one is closed, and one overdue invoice.
use mathlib.Core.List.{Perm, Permᴰ}
use mathlib.Core.List.Permᴰ
use nft_soket.Base.{◌≡◌, refl, ◌&&◌, some, List, [], ◌∷◌, if◌then◌else◌, arith}
use nft_soket.Base.Result.{ok}
use nft_soket.Base.Int.{pos, ◌-ℤ◌, is_zero_ℤ}
use nft_soket.Base.Text.{Text, codes, text_eq}
use nft_soket.Base.Hex.{hex_encode, hex_digit}
use nft_soket.Base.Dict.{lookup, insert, values}
use nft_soket.Control.Model.{Account, AccountStatus, is_suspended}
use nft_soket.Control.Exec.{State}
use nft_soket.Control.Store.{
  get_usage, get_account, get_invoice, save_account, save_invoice, save_payment, persist,
  list_invoices, invoices_of,
}
use nft_soket.Control.Service.{rand_id}
use nft_soket.Control.Service.Billing.{outstanding, sum_open, manual_charge, run_billing}
use nft_soket.Control.Service.Settlement.{enforce_delinquency, settle, reactivate}
use nft_soket.Control.Keyed.{IsKeyed}
use nft_soket.Control.Overdue.{overdue_ids, enforced, map_values, enforce_delinquency-exact}
use nft_soket.Control.Order.{enforce_delinquency-Perm}
use nft_soket.Control.Billed.{dues, billed}
use nft_soket.Control.Billed.Run.{Bills, run_billing-exact}
use nft_soket.Control.Ledger.{
  Op, reserving, releasing, IsLedger, call_all, ledger_all, call_all-ledger,
}
use nft_soket.Control.Settling.Reactivation.{settle-account}
use nft_soket.Tests.Offers.{env, account, plan_with, start, payment, invoice}

abbrev closed : Account
closed = record account { id = codes "b"; status = AccountStatus.closed }

abbrev crowd : State
crowd = record start {
  store = record start.store { accounts = (codes "a", account) ∷ (codes "b", closed) ∷ [] };
}

-- The same with the accounts the other way round.
abbrev turned : State
turned = record start {
  store = record start.store { accounts = (codes "b", closed) ∷ (codes "a", account) ∷ [] };
}

crowd-IsKeyed : IsKeyed crowd
unfolding text_eq
crowd-IsKeyed = record {
  plans = (refl, tt, tt);
  accounts = (refl, (refl, tt), (refl, tt, tt));
  usage = (refl, tt, tt);
  invoices = (refl, tt, tt);
  payments = tt;
}

turned-IsKeyed : IsKeyed turned
unfolding text_eq
turned-IsKeyed = record {
  plans = (refl, tt, tt);
  accounts = (refl, (refl, tt), (refl, tt, tt));
  usage = (refl, tt, tt);
  invoices = (refl, tt, tt);
  payments = tt;
}

enforce_delinquency-exact_example : enforce_delinquency env (pos 10) crowd ≡ (
  overdue_ids (env.now -ℤ pos 10) crowd.store.invoices (values crowd.store.accounts),
  record crowd {
    store = record crowd.store {
      accounts =
          map_values (enforced (env.now -ℤ pos 10) crowd.store.invoices) crowd.store.accounts;
    };
  },
)
enforce_delinquency-exact_example = enforce_delinquency-exact env (pos 10) crowd crowd-IsKeyed

enforce_delinquency-Perm_example :
    ((id : Text) → outstanding id crowd.store ≡ outstanding id turned.store)
    × Perm (enforce_delinquency env (pos 10) crowd).0 (enforce_delinquency env (pos 10) turned).0
    × Perm
        (enforce_delinquency env (pos 10) crowd).1.store.accounts
        (enforce_delinquency env (pos 10) turned).1.store.accounts
enforce_delinquency-Perm_example =
    enforce_delinquency-Perm env (pos 10) crowd turned crowd-IsKeyed turned-IsKeyed
      ∣ Permᴰ.swap refl refl ∣₁ ∣ Permᴰ.refl crowd.store.invoices ∣₁

run_billing-exact_example :
    Bills
      (dues env crowd.store.plans (values crowd.store.accounts))
      (map_values (billed env crowd.store.plans) crowd.store.accounts)
      crowd.store.invoices
      crowd
      (run_billing env manual_charge crowd)
run_billing-exact_example = run_billing-exact env manual_charge crowd (λ st. refl) crowd-IsKeyed

-- The whole quota, one byte too many, and everything back.
abbrev ops : List Op
ops = reserving 60 ∷ reserving 1 ∷ releasing 100 ∷ []

start-IsLedger : IsLedger (codes "a") 100 40 start
unfolding get_usage lookup text_eq
start-IsLedger = record {
  account = account;
  plan = plan_with (pos 100);
  found = refl;
  on_plan = refl;
  is_live = refl;
  offered = refl;
  in_use = refl;
  within = omega arith;
}

call_all-ledger_example :
    ((call_all env (codes "a") ops start).0 ≡ (ledger_all 100 40 ops).0)
    × IsLedger (codes "a") 100 (ledger_all 100 40 ops).1 (call_all env (codes "a") ops start).1
call_all-ledger_example =
    call_all-ledger env (codes "a") 100 40 ops start (λ st. refl)
      (omega arith, (omega arith, (omega arith, tt))) start-IsLedger

abbrev suspended : Account
suspended = record account { status = AccountStatus.suspended }

abbrev overdue : State
overdue = record start { store = record start.store { accounts = (codes "a", suspended) ∷ [] } }

abbrev settled : State
settled = (settle env (codes "i") (codes "manual") overdue).1

overdue-settle : settle env (codes "i") (codes "manual") overdue ≡ (ok payment, settled)
unfolding settle reactivate get_account get_invoice save_invoice save_payment save_account persist
    rand_id hex_encode hex_digit outstanding sum_open list_invoices invoices_of lookup insert
    text_eq
overdue-settle = refl

settle-account_example :
    lookup (codes "a") settled.store.accounts
    ≡ some (
        if is_suspended suspended.status && is_zero_ℤ (outstanding (codes "a") settled.store)
        then record suspended { status = AccountStatus.active }
        else suspended)
unfolding lookup text_eq
settle-account_example =
    settle-account env (codes "i") (codes "manual") overdue settled invoice payment suspended refl
      refl refl overdue-settle
