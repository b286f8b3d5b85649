-- ===== src/Control/Keyed/Billing.antt =====
-- Billing and settlement of core/control/service.go leave every entry under its own identifier.
use nft_soket.Base.{
  Bool, true, false, not, ◌&&◌, some, List, [], ◌∷◌, if◌then◌else◌, Bool-cases, Option-cases, inl,
  inr,
}
use nft_soket.Base.Result.{Result-cases}
use nft_soket.Base.Int.{ℤ, ltb_ℤ, pos, is_zero_ℤ}
use nft_soket.Base.Text.{Text, codes}
use nft_soket.Control.Model.{
  Plan, Account, Invoice, InvoiceStatus, Payment, invalid, is_closed, is_open, is_suspended,
  is_active,
}
use nft_soket.Control.Exec.{Env, State, pure}
use nft_soket.Control.Exec.Ends.{
  Ends, Ends-pair, Ends-continue, Ends-bind, Ends-raise_if, ends_rules,
}
use nft_soket.Control.Store.{
  get_plan, get_account, get_invoice, save_account, save_invoice, save_payment, list_invoices,
}
use nft_soket.Control.Service.{rand_id}
use nft_soket.Control.Service.Billing.{
  Charge, collect, issue_period, bill_account, bill_all, outstanding, next_period,
}
use nft_soket.Control.Service.Settlement.{
  issue_invoice, reactivate, settle, note_checkout, suspend_overdue, has_overdue,
}
use nft_soket.Control.Keyed.{
  IsKeyed, saves, rand_id-IsKeyed, save_account-IsKeyed, save_invoice-IsKeyed, save_payment-IsKeyed,
}

module _ (env : Env) where
  account_saved : (a : Account) (s : State) → IsKeyed s → IsKeyed (save_account env a s).1
  account_saved a s h = (save_account-IsKeyed env a s h).here

  invoice_saved : (i : Invoice) (s : State) → IsKeyed s → IsKeyed (save_invoice env i s).1
  invoice_saved i s h = (save_invoice-IsKeyed env i s h).here

  payment_saved : (p : Payment) (s : State) → IsKeyed s → IsKeyed (save_payment env p s).1
  payment_saved p s h = (save_payment-IsKeyed env p s h).here

  pub issue_invoice-IsKeyed :
      (s : State) → IsKeyed s → (id : Text) (n : ℤ) → Ends IsKeyed (issue_invoice env id n s)
  unfolding issue_invoice get_account get_plan
  issue_invoice-IsKeyed s h id n = search (ends_rules, saves, rand_id-IsKeyed) depth 14

  reactivate-IsKeyed : (s : State) → IsKeyed s → (id : Text) → Ends IsKeyed (reactivate env id s)
  unfolding reactivate
  reactivate-IsKeyed s h id = elim (Result-cases (get_account id s).0) [
    | inr (e, failed) ↦ rw (failed, reactivate) (Ends-pair _ _ h)
    | inl (a, found) ↦ elim (Bool-cases (is_suspended a.status)) [
      | inl waiting ↦ rw (found, waiting, reactivate) (search (ends_rules, account_saved))
      | inr other ↦ rw (found, other, reactivate) (search ends_rules)
    ]
  ]

  collect-IsKeyed :
      (s : State)
      → IsKeyed s
      → (charge : Charge) (a : Account) (i : Invoice) → Ends IsKeyed (collect env charge a i s)
  unfolding collect
  collect-IsKeyed s h charge a i = elim (Option-cases (charge a i)) [
    | inl refused ↦ rw (refused, collect) (Ends-pair _ _ h)
    | inr (pay, paid) ↦ rw (paid, collect) (search (ends_rules, payment_saved, rand_id-IsKeyed))
  ]

  restore-IsKeyed :
      (s : State)
      → IsKeyed s
      → (b : Bool) (id : Text) → Ends IsKeyed ((if b then reactivate env id else pure tt) s)
  restore-IsKeyed s h true id = reactivate-IsKeyed s h id
  restore-IsKeyed s h false id = Ends-pair _ _ h

  pub settle-IsKeyed : (s : State) → IsKeyed s → (id m : Text) → Ends IsKeyed (settle env id m s)
  unfolding settle get_invoice
  settle-IsKeyed s h id m = Ends-continue (get_invoice id s).0 _ s h (λ i found.
      Ends-raise_if (not (is_open i.status)) invalid _ s h (λ u open_test.
        Ends-bind _ _
          (save_invoice-IsKeyed env
            (record i { status = InvoiceStatus.paid; paid_at = some env.now }) s h)
          (λ u t k. Ends-bind (rand_id env (codes "pay") t) _ (rand_id-IsKeyed env _ t k) (λ p t k.
            Ends-bind _ _ (save_payment-IsKeyed env _ t k) (λ u t k.
              Ends-bind _ _
                (restore-IsKeyed t k (is_zero_ℤ (outstanding i.account_id t.store)) i.account_id)
                (λ u t k. Ends-pair _ _ k))))))

  issue_period-IsKeyed :
      (s : State)
      → IsKeyed s
      → (charge : Charge) (a : Account) (p : Plan) → Ends IsKeyed (issue_period env charge a p s)
  unfolding issue_period
  issue_period-IsKeyed s h charge a p = elim (Bool-cases (ltb_ℤ (pos 0) p.price_cents)) [
    | inl priced ↦
        rw (priced, issue_period)
          (Ends-bind (rand_id env (codes "inv") s) _ (rand_id-IsKeyed env _ s h) (λ id t k.
            Ends-bind _ _ (collect-IsKeyed t k charge a _) (λ i u l. search (ends_rules, saves))))
    | inr gratis ↦ rw (gratis, issue_period) (search ends_rules)
  ]

  pub note_checkout-IsKeyed :
      (s : State) → IsKeyed s → (id p r : Text) → Ends IsKeyed (note_checkout env id p r s)
  unfolding note_checkout
  note_checkout-IsKeyed s h id p r = elim (Result-cases (get_invoice id s).0) [
    | inr (e, failed) ↦ rw (failed, note_checkout) (search ends_rules)
    | inl (i, found) ↦ elim (Bool-cases (is_open i.status)) [
      | inl unpaid ↦ rw (found, unpaid, note_checkout) (search (ends_rules, invoice_saved))
      | inr other ↦ rw (found, other, note_checkout) (search ends_rules)
    ]
  ]

  bill_account-IsKeyed :
      (s : State)
      → IsKeyed s
      → (charge : Charge) (a : Account) → IsKeyed (bill_account env charge a s).1
  unfolding bill_account
  bill_account-IsKeyed s h charge a = elim (Bool-cases (is_closed a.status)) [
    | inl closed ↦ rw (closed, bill_account) h
    | inr other ↦ elim (Bool-cases (ltb_ℤ env.now a.period_end)) [
      | inl early ↦ rw (other, early, bill_account) h
      | inr due ↦ elim (Result-cases (get_plan a.plan_id s).0) [
        | inr (e, missing) ↦ rw (other, due, missing, bill_account) h
        | inl (p, found) ↦
            let k = issue_period-IsKeyed s h charge a p in
            let t = (issue_period env charge a p s).1 in
            elim (Result-cases (issue_period env charge a p s).0) [
              | inr (e, failed) ↦ rw (other, due, found, failed, bill_account) k.here
              | inl (issued, done) ↦
                  let n = save_account-IsKeyed env (next_period env p a) t k.here in
                  elim (Result-cases (save_account env (next_period env p a) t).0) [
                    | inr (e, failed) ↦ rw (other, due, found, done, failed, bill_account) n.here
                    | inl (u, saved) ↦ rw (other, due, found, done, saved, bill_account) n.here
                  ]
            ]
      ]
    ]
  ]

  pub bill_all-IsKeyed :
      (charge : Charge) (accounts : List Account) (issued : List Invoice) (s : State)
      → IsKeyed s
      → IsKeyed (bill_all env charge accounts issued s).1
  unfolding bill_all
  bill_all-IsKeyed charge [] issued s h = h
  bill_all-IsKeyed charge (a ∷ accounts) issued s h =
      let k = bill_account-IsKeyed s h charge a in
      elim (Option-cases (bill_account env charge a s).0.1) [
        | inl went_on ↦ rw (went_on, bill_all) (bill_all-IsKeyed charge accounts _ _ k)
        | inr (e, stopped) ↦ rw (stopped, bill_all) k
      ]

  pub suspend_overdue-IsKeyed :
      (cutoff : ℤ) (accounts : List Account) (s : State)
      → IsKeyed s
      → IsKeyed (suspend_overdue env cutoff accounts s).1
  unfolding suspend_overdue
  suspend_overdue-IsKeyed cutoff [] s h = h
  suspend_overdue-IsKeyed cutoff (a ∷ accounts) s h =
      elim (Bool-cases (is_active a.status && has_overdue cutoff (list_invoices a.id s.store))) [
        | inl overdue ↦
            rw (overdue, suspend_overdue)
              (suspend_overdue-IsKeyed cutoff accounts _ (save_account-IsKeyed env _ s h).here)
        | inr settled ↦ rw (settled, suspend_overdue) (suspend_overdue-IsKeyed cutoff accounts s h)
      ]
