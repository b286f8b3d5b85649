-- ===== src/Control/Paid/Billing.antt =====
-- New invoices of core/control/service.go, from `RunBilling` and `IssueInvoice`, leave one that is not open alone.
use nft_soket.Base.{
  ◌+◌, ◌≡◌, if◌then◌else◌, false, none, List, [], ◌∷◌, ◌++◌, arith, Bool-cases, Option-cases, inl,
  inr,
}
use nft_soket.Base.Result.{ok, Result-cases}
use nft_soket.Base.Int.{ℤ, ltb_ℤ, leb_ℤ, pos}
use nft_soket.Base.Text.{Text, codes, text_eq}
use nft_soket.Base.Hex.{hex_encode}
use nft_soket.Control.Model.{Plan, Account, Invoice, InvoiceStatus, invalid, is_closed}
use nft_soket.Control.Exec.{Env, State}
use nft_soket.Control.Exec.Ends.{Ends, Ends-pair, Ends-continue, Ends-bind, Ends-raise_if}
use nft_soket.Control.Store.{get_plan, get_account, save_account, save_invoice, save_payment}
use nft_soket.Control.Service.{rand_id}
use nft_soket.Control.Service.Billing.{
  Charge, collect, issue_period, bill_account, bill_all, next_period,
}
use nft_soket.Control.Service.Settlement.{issue_invoice}
use nft_soket.Control.Paid.{
  IsShut, Spares, save_invoice-IsShut, save_payment-IsShut, save_account-IsShut, rand_id-IsShut,
}

module _ (id : Text) (env : Env) (spares : Spares id env) where
  pub issue_invoice-IsShut :
      (s : State) → IsShut id s → (a : Text) (n : ℤ) → Ends (IsShut id) (issue_invoice env a n s)
  unfolding issue_invoice rand_id get_account get_plan
  issue_invoice-IsShut s h a n = Ends-continue (get_account a s).0 _ s h (λ acc found.
      Ends-continue (get_plan acc.plan_id s).0 _ s h (λ plan known.
        let amt : ℤ = if leb_ℤ n (pos 0) then plan.price_cents else n in
        let t : State = record s { drawn = s.drawn + 1 } in
        let i : Invoice = record {
          id = codes "inv" ++ codes "_" ++ hex_encode (env.random s.drawn);
          account_id = acc.id;
          period_start = env.now;
          period_end = env.now;
          amount_cents = amt;
          currency = plan.currency;
          status = InvoiceStatus.unpaid;
          created_at = env.now;
          paid_at = none;
          checkout_provider = [];
          checkout_ref = [];
        } in
        Ends-raise_if (leb_ℤ amt (pos 0)) invalid _ s h (λ u positive.
          Ends-bind (save_invoice env i t) _
            (save_invoice-IsShut id env i t (spares s.drawn)
              (record { inv = h.inv; stored = h.stored; shut = h.shut }))
            (λ u t k. Ends-pair _ _ k))))

  -- Collecting keeps the invoice's identifier.
  collect-IsShut :
      (s : State) (charge : Charge) (a : Account) (i : Invoice)
      → IsShut id s
      → text_eq i.id id ≡ false
      → IsShut id (collect env charge a i s).1
        × ((j : Invoice) → (collect env charge a i s).0 ≡ ok j → text_eq j.id id ≡ false)
  unfolding collect save_payment rand_id
  collect-IsShut s charge a i h other = elim (Option-cases (charge a i)) [
    | inl left ↦ rw (left, collect) ((h, λ j e. ground (arith, e, other)))
    | inr (pay, paid) ↦
        rw (paid, collect)
          ((
            (save_payment-IsShut id env _ _ (rand_id-IsShut id env (codes "pay") s h).here).here,
            λ j e. ground (arith, e, other),
          ))
  ]

  issue_period-IsShut :
      (s : State)
      → IsShut id s
      → (charge : Charge) (a : Account) (p : Plan)
      → Ends (IsShut id) (issue_period env charge a p s)
  unfolding issue_period rand_id
  issue_period-IsShut s h charge a p = elim (Bool-cases (ltb_ℤ (pos 0) p.price_cents)) [
    | inr gratis ↦ rw (gratis, issue_period) (Ends-pair _ _ h)
    | inl priced ↦
        let t : State = record s { drawn = s.drawn + 1 } in
        let i : Invoice = record {
          id = codes "inv" ++ codes "_" ++ hex_encode (env.random s.drawn);
          account_id = a.id;
          period_start = a.period_start;
          period_end = a.period_end;
          amount_cents = p.price_cents;
          currency = p.currency;
          status = InvoiceStatus.unpaid;
          created_at = env.now;
          paid_at = none;
          checkout_provider = [];
          checkout_ref = [];
        } in
        let (k, other) =
          collect-IsShut t charge a i (record { inv = h.inv; stored = h.stored; shut = h.shut })
            (spares s.drawn) in
        rw (priced, issue_period)
          (Ends-continue (collect env charge a i t).0 _ (collect env charge a i t).1 k (λ j e.
            Ends-bind _ _ (save_invoice-IsShut id env j (collect env charge a i t).1 (other j e) k)
              (λ u t k. Ends-pair _ _ k)))
  ]

  bill_account-IsShut :
      (s : State)
      → IsShut id s
      → (charge : Charge) (a : Account) → IsShut id (bill_account env charge a s).1
  unfolding bill_account
  bill_account-IsShut s h charge a = elim (Bool-cases (is_closed a.status)) [
    | inl closed ↦ rw (closed, bill_account) h
    | inr other ↦ elim (Bool-cases (ltb_ℤ env.now a.period_end)) [
      | inl early ↦ rw (other, early, bill_account) h
      | inr due ↦ elim (Result-cases (get_plan a.plan_id s).0) [
        | inr (e, missing) ↦ rw (other, due, missing, bill_account) h
        | inl (p, found) ↦
            let k = issue_period-IsShut s h charge a p in
            let t = (issue_period env charge a p s).1 in
            elim (Result-cases (issue_period env charge a p s).0) [
              | inr (e, failed) ↦ rw (other, due, found, failed, bill_account) k.here
              | inl (issued, done) ↦
                  let n = save_account-IsShut id env (next_period env p a) t k.here in
                  elim (Result-cases (save_account env (next_period env p a) t).0) [
                    | inr (e, failed) ↦ rw (other, due, found, done, failed, bill_account) n.here
                    | inl (u, saved) ↦ rw (other, due, found, done, saved, bill_account) n.here
                  ]
            ]
      ]
    ]
  ]

  pub bill_all-IsShut :
      (charge : Charge) (accounts : List Account) (issued : List Invoice) (s : State)
      → IsShut id s
      → IsShut id (bill_all env charge accounts issued s).1
  unfolding bill_all
  bill_all-IsShut charge [] issued s h = h
  bill_all-IsShut charge (a ∷ accounts) issued s h =
      let k = bill_account-IsShut s h charge a in
      elim (Option-cases (bill_account env charge a s).0.1) [
        | inl went_on ↦ rw (went_on, bill_all) (bill_all-IsShut charge accounts _ _ k)
        | inr (e, stopped) ↦ rw (stopped, bill_all) k
      ]
