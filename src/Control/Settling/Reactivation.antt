-- ===== src/Control/Settling/Reactivation.antt =====
-- The account after settling, for `settleLocked` of core/control/service.go.
use nft_soket.Base.{
  ◌≡◌, sym, ap, ◌∙◌, true, false, ◌&&◌, some, if◌then◌else◌, arith, Bool-cases, inl, inr,
}
use nft_soket.Base.Result.{ok}
use nft_soket.Base.Int.{is_zero_ℤ, pos}
use nft_soket.Base.Text.{Text}
use nft_soket.Base.Dict.{Dict, values, lookup, insert}
use nft_soket.Control.Model.{Account, AccountStatus, Invoice, Payment, is_open, is_suspended}
use nft_soket.Control.Exec.{Env, State}
use nft_soket.Control.Store.{
  get_account, get_invoice, save_account, save_invoice, save_payment, persist, list_invoices,
  invoices_of,
}
use nft_soket.Control.Service.{rand_id}
use nft_soket.Control.Service.Billing.{outstanding, sum_open}
use nft_soket.Control.Service.Settlement.{settle, reactivate}
use nft_soket.Control.Settling.{
  lookup_new, reactivate_keeps, marked_state, new_payment, paid_state, paid_now,
}

reactivate-account :
    (env : Env) (id : Text) (s : State) (a : Account)
    → lookup id s.store.accounts ≡ some a
    → a.id ≡ id
    → (lookup id (reactivate env id s).1.store.accounts
        ≡ some (if is_suspended a.status then record a { status = AccountStatus.active } else a))
      × ((reactivate env id s).1.store.invoices ≡ s.store.invoices)
unfolding reactivate get_account save_account
reactivate-account env id s a found same = elim (Bool-cases (is_suspended a.status)) [
  | inr fine ↦ (ground (arith, found, fine), ground (arith, found, fine))
  | inl suspended ↦
      let a' = record a { status = AccountStatus.active } in
      let there : lookup id (insert a.id a' s.store.accounts) ≡ some a' =
        ap (λ k. lookup id (insert k a' s.store.accounts)) same
        ∙ lookup_new id a' s.store.accounts in
      (ground (arith, found, suspended, there), ground (arith, found, suspended))
]

outstanding-invoices :
    (id : Text) (s t : State)
    → s.store.invoices ≡ t.store.invoices
    → outstanding id s.store ≡ outstanding id t.store
unfolding outstanding list_invoices
outstanding-invoices id s t e =
    ap (λ (i : Dict Invoice). sum_open (pos 0) (invoices_of id (values i))) e

-- Settling an invoice, where it succeeds, makes the invoice's account active again if it was suspended and owes
-- nothing any more, and leaves it as it was otherwise. The account is stored under its own identifier.
pub settle-account :
    (env : Env) (id method : Text) (s t : State) (inv : Invoice) (pay : Payment) (a : Account)
    → lookup id s.store.invoices ≡ some inv
    → lookup inv.account_id s.store.accounts ≡ some a
    → a.id ≡ inv.account_id
    → settle env id method s ≡ (ok pay, t)
    → lookup inv.account_id t.store.accounts
      ≡ some (
          if is_suspended a.status && is_zero_ℤ (outstanding inv.account_id t.store)
          then record a { status = AccountStatus.active }
          else a)
unfolding settle get_invoice save_invoice save_payment persist rand_id marked_state new_payment
    paid_state paid_now
settle-account env id method s t inv pay a found stored same e =
    elim (Bool-cases (is_open inv.status)) [
      | inr closed ↦ absurd (ground (arith, found, closed, e))
      | inl is_unpaid ↦ elim (Bool-cases (env.writable (marked_state env inv s).store)) [
        | inr failed ↦ absurd (ground (arith, found, is_unpaid, failed, e))
        | inl written ↦
            let pay' : Payment = new_payment env inv method s in
            let s' : State = paid_state env inv pay' s in
            let r = reactivate-account env inv.account_id s' a stored same in
            elim (Bool-cases (env.writable s'.store)) [
              | inr failed ↦ absurd (ground (arith, found, is_unpaid, written, failed, e))
              | inl written' ↦ elim (Bool-cases (is_zero_ℤ (outstanding inv.account_id s'.store))) [
                | inr owing ↦
                    let left : s' ≡ t =
                      ground (arith, found, is_unpaid, written, written', owing, e) in
                    let zero : is_zero_ℤ (outstanding inv.account_id t.store) ≡ false =
                      ap (λ (u : State). is_zero_ℤ (outstanding inv.account_id u.store)) (sym left)
                      ∙ owing in
                    let there : lookup inv.account_id t.store.accounts ≡ some a =
                      ap (λ (u : State). lookup inv.account_id u.store.accounts) (sym left)
                      ∙ stored in
                    ground (arith, zero, there)
                | inl clear ↦
                    let left : (reactivate env inv.account_id s').1 ≡ t = ground (
                      arith,
                      found,
                      is_unpaid,
                      written,
                      written',
                      clear,
                      e,
                      reactivate_keeps env inv.account_id s',
                    ) in
                    let zero : is_zero_ℤ (outstanding inv.account_id t.store) ≡ true =
                      ap is_zero_ℤ (
                        outstanding-invoices inv.account_id t s'
                          (ap (λ (u : State). u.store.invoices) (sym left) ∙ r.1))
                      ∙ clear in
                    let there =
                      ap (λ (u : State). lookup inv.account_id u.store.accounts) (sym left) ∙ r.0 in
                    ground (arith, zero, there)
              ]
            ]
      ]
    ]
