-- ===== src/Control/Billed.antt =====
-- What `RunBilling` of core/control/service.go does to the accounts, all of them at once.
pub mod Run
use nft_soket.Base.{
  ◌+◌, ◌≡◌, refl, sym, ap, ap₂, ◌∙◌, subst, Bool, true, false, not, ◌&&◌, ◌||◌, Option, none, some,
  List, [], ◌∷◌, ◌++◌, append_assoc, append-nil, map, if◌then◌else◌, arith, Bool-cases,
  Option-cases, inl, inr,
}
use nft_soket.Base.Result.{Result, ok, err, Result-cases}
use nft_soket.Base.Int.{ℤ, pos, ltb_ℤ}
use nft_soket.Base.Text.{Text, codes}
use nft_soket.Base.Hex.{hex_encode}
use nft_soket.Base.Dict.{Dict, insert, lookup, values}
use nft_soket.Control.Model.{
  Plan, Account, Invoice, InvoiceStatus, Payment, Money, Error, advance, is_closed,
}
use nft_soket.Control.Exec.{Env, State, Snapshot}
use nft_soket.Control.Store.{save_account, save_invoice, save_payment, get_plan, persist}
use nft_soket.Control.Service.{rand_id}
use nft_soket.Control.Service.Billing.{
  Charge, collect, issue_period, next_period, bill_account, bill_all, run_billing,
}
use nft_soket.Control.Keyed.{IsKeyed, IsKeyedBy, Absent}
use nft_soket.Control.Overdue.{insert-middle, Apart, Apart-next, Apart-nil, map_values}

-- What an invoice charges: the account, the period's ends, the amount and the currency.
pub record Due : Type 0 where
  pub account_id : Text
  pub period_start : ℤ
  pub period_end : ℤ
  pub amount_cents : Money
  pub currency : Text

abbrev pub charged_by : Invoice → Due
charged_by i = record {
  account_id = i.account_id;
  period_start = i.period_start;
  period_end = i.period_end;
  amount_cents = i.amount_cents;
  currency = i.currency;
}

module _ (env : Env) (plans : Dict Plan) where
  -- The plan of an account whose period is over.
  abbrev pub due_plan : Account → Option Plan
  due_plan a =
      if is_closed a.status
      then none
      else if ltb_ℤ env.now a.period_end
      then none
      else lookup a.plan_id plans

  abbrev pub dues_on : Account → Option Plan → List Due
  dues_on a none = []
  dues_on a (some plan) =
      if ltb_ℤ (pos 0) plan.price_cents
      then record {
        account_id = a.id;
        period_start = a.period_start;
        period_end = a.period_end;
        amount_cents = plan.price_cents;
        currency = plan.currency;
      }
        ∷ []
      else []

  abbrev pub advanced_on : Account → Option Plan → Account
  advanced_on a none = a
  advanced_on a (some plan) = record a {
    period_start = a.period_end;
    period_end = advance env.add_month plan.period a.period_end;
  }

  -- The account after the run, and what all of them are charged.
  abbrev pub billed : Account → Account
  billed a = advanced_on a (due_plan a)

  abbrev pub dues : List Account → List Due
  dues [] = []
  dues (a ∷ accounts) = dues_on a (due_plan a) ++ dues accounts

-- The state file can be written, whatever is in it.
abbrev pub IsWritable : Env → Type 0
IsWritable env = (st : Snapshot) → env.writable st ≡ true

-- The invoices of the store, with the issued ones saved one after the other, each under its identifier.
abbrev pub saved : List Invoice → Dict Invoice → Dict Invoice
saved [] m = m
saved (i ∷ issued) m = saved issued (insert i.id i m)

-- What a step of the run left alone, and what it charged.
pub record Issues (due : List Due) (s : State) (out : Result Error (List Invoice) × State)
    : Type 0 where
  pub invoices : List Invoice
  pub succeeds : out.0 ≡ ok invoices
  pub charged : map charged_by invoices ≡ due
  pub stored : out.1.store.invoices ≡ saved invoices s.store.invoices
  pub accounts : out.1.store.accounts ≡ s.store.accounts
  pub plans : out.1.store.plans ≡ s.store.plans
  pub usage : out.1.store.usage ≡ s.store.usage

collect-Issues :
    (env : Env) (charge : Charge) (a : Account) (inv : Invoice) (s : State)
    → (i : Invoice) × ((collect env charge a inv s).0 ≡ ok i)
      × (charged_by i ≡ charged_by inv)
      × ((collect env charge a inv s).1.store.accounts ≡ s.store.accounts)
      × ((collect env charge a inv s).1.store.plans ≡ s.store.plans)
      × ((collect env charge a inv s).1.store.usage ≡ s.store.usage)
      × ((collect env charge a inv s).1.store.invoices ≡ s.store.invoices)
unfolding collect save_payment rand_id
collect-Issues env charge a inv s = elim (Option-cases (charge a inv)) [
  | inl left ↦ (
    inv,
    ground (arith, left),
    refl,
    ground (arith, left),
    ground (arith, left),
    ground (arith, left),
    ground (arith, left),
  )
  | inr (pay, collected) ↦ (
    record inv { status = InvoiceStatus.paid; paid_at = some env.now },
    ground (arith, collected),
    refl,
    ground (arith, collected),
    ground (arith, collected),
    ground (arith, collected),
    ground (arith, collected),
  )
]

-- The invoice of a period, before it is collected.
period_invoice : Env → Account → Plan → State → Invoice
period_invoice env a plan s = record {
  id = codes "inv" ++ codes "_" ++ hex_encode (env.random s.drawn);
  account_id = a.id;
  period_start = a.period_start;
  period_end = a.period_end;
  amount_cents = plan.price_cents;
  currency = plan.currency;
  status = InvoiceStatus.unpaid;
  created_at = env.now;
  paid_at = none;
  checkout_provider = [];
  checkout_ref = [];
}

pub issue_period-Issues :
    (env : Env) (charge : Charge) (a : Account) (plan : Plan) (s : State)
    → IsWritable env
    → Issues (dues_on env s.store.plans a (some plan)) s (issue_period env charge a plan s)
unfolding issue_period save_invoice persist rand_id period_invoice
issue_period-Issues env charge a plan s w = elim (Bool-cases (ltb_ℤ (pos 0) plan.price_cents)) [
  | inr free ↦ record {
    invoices = [];
    succeeds = ground (arith, free);
    charged = ground (arith, free);
    stored = ground (arith, free);
    accounts = ground (arith, free);
    plans = ground (arith, free);
    usage = ground (arith, free);
  }
  | inl priced ↦
      let drawn : State = record s { drawn = s.drawn + 1 } in
      let (i, collected, same, accounts, plans, usage, kept) =
        collect-Issues env charge a (period_invoice env a plan s) drawn in
      let t = (collect env charge a (period_invoice env a plan s) drawn).1 in
      let written = w (record t.store { invoices = insert i.id i t.store.invoices }) in
      record {
        invoices = i ∷ [];
        succeeds = ground (arith, priced, collected, written);
        charged = ap (λ d. d ∷ []) same ∙ sym (ground (arith, priced));
        stored = ground (arith, priced, collected, written, kept);
        accounts = ground (arith, priced, collected, written, accounts);
        plans = ground (arith, priced, collected, written, plans);
        usage = ground (arith, priced, collected, written, usage);
      }
]
