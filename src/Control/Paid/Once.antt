-- ===== src/Control/Paid/Once.antt =====
-- An invoice that `settleLocked` of core/control/service.go settled, in the states after it.
use nft_soket.Base.{◌≡◌, refl, ap, subst, some, arith, Option-cases, inl, inr}
use nft_soket.Base.Result.{ok, err}
use nft_soket.Base.Text.{Text}
use nft_soket.Base.Dict.{lookup, values}
use nft_soket.Control.Model.{Invoice, InvoiceStatus, Payment, invalid}
use nft_soket.Control.Exec.{Env, State}
use nft_soket.Control.Store.{get_invoice}
use nft_soket.Control.Service.Billing.{run_billing}
use nft_soket.Control.Service.Settlement.{settle, enforce_delinquency}
use nft_soket.Control.Keyed.{IsKeyed, lookup-IsKeyedBy}
use nft_soket.Control.Settling.{settle-ok}
use nft_soket.Control.Reach.{
  Step, Reach, later, Reach-IsKeyed, by_create_plan, by_create_account, by_set_status, by_reserve,
  by_release, by_run_billing, by_issue_invoice, by_settle, by_note_checkout, by_enforce,
}
use nft_soket.Control.Paid.{
  IsShut, Spares, reserve-IsShut, release-IsShut, set_status-IsShut, create_plan-IsShut,
  create_account-IsShut, note_checkout-IsShut, settle-IsShut, suspend_overdue-IsShut,
}
use nft_soket.Control.Paid.Billing.{issue_invoice-IsShut, bill_all-IsShut}

-- A step does not draw the identifier for a new invoice.
abbrev pub StepSpares : Text → {s t : State} → Step s t → Type 0
StepSpares id (by_run_billing env charge) = Spares id env
StepSpares id (by_issue_invoice env a n) = Spares id env
StepSpares id (by_create_plan env n q p c d) = Unit
StepSpares id (by_create_account env n e p) = Unit
StepSpares id (by_set_status env a x) = Unit
StepSpares id (by_reserve env a n) = Unit
StepSpares id (by_release env a n) = Unit
StepSpares id (by_settle env a m) = Unit
StepSpares id (by_note_checkout env a p r) = Unit
StepSpares id (by_enforce env grace) = Unit

-- The states that the methods reach from a state, one after the other in any order, of which none draws the
-- identifier for a new invoice.
pub data Onward (id : Text) (s : State) : State → Type 0 where
  now : Onward id s s
  after : {t u : State} → Onward id s t → (st : Step t u) → StepSpares id st → Onward id s u

Step-IsShut :
    (id : Text) {s t : State} (st : Step s t)
    → StepSpares id st
    → IsKeyed s
    → IsShut id s
    → IsShut id t
unfolding run_billing enforce_delinquency
Step-IsShut id {s} (by_create_plan env n q p c d) x k h =
    (create_plan-IsShut id env s h n q p c d).here
Step-IsShut id {s} (by_create_account env n e p) x k h =
    (create_account-IsShut id env s h n e p).here
Step-IsShut id {s} (by_set_status env a y) x k h = (set_status-IsShut id env s h a y).here
Step-IsShut id {s} (by_reserve env a n) x k h = (reserve-IsShut id env s h a n).here
Step-IsShut id {s} (by_release env a n) x k h = (release-IsShut id env s h a n).here
Step-IsShut id {s} (by_run_billing env charge) x k h =
    bill_all-IsShut id env x charge (values s.store.accounts) _ s h
Step-IsShut id {s} (by_issue_invoice env a n) x k h = (issue_invoice-IsShut id env x s h a n).here
Step-IsShut id {s} (by_settle env a m) x k h = (settle-IsShut id env s h k a m).here
Step-IsShut id {s} (by_note_checkout env a p r) x k h =
    (note_checkout-IsShut id env s h k a p r).here
Step-IsShut id {s} (by_enforce env grace) x k h =
    suspend_overdue-IsShut id env _ (values s.store.accounts) s h

Onward-Reach : (id : Text) (s t : State) → Onward id s t → Reach s → Reach t
Onward-Reach id s t now r = r
Onward-Reach id s t (after o st x) r = later (Onward-Reach id s _ o r) st

Onward-IsShut : (id : Text) (s t : State) → Onward id s t → Reach s → IsShut id s → IsShut id t
Onward-IsShut id s t now r h = h
Onward-IsShut id s t (after o st x) r h =
    Step-IsShut id st x (Reach-IsKeyed _ (Onward-Reach id s _ o r)) (Onward-IsShut id s _ o r h)

settle-IsShut_refuses :
    (env : Env) (id again : Text) (u : State)
    → IsShut id u
    → settle env id again u ≡ (err invalid, u)
unfolding settle get_invoice
settle-IsShut_refuses env id again u h = ground (arith, h.stored, h.shut)

-- An invoice that was settled in a reachable state is never settled again: after any later methods, whatever they
-- were given and whether they failed, with any clocks and state files, a settlement of it is refused as invalid and
-- changes nothing, as long as no method draws its identifier for a new invoice.
pub settle-never :
    (env later_env : Env) (id method again : Text) (s t u : State) (pay : Payment)
    → Reach s
    → settle env id method s ≡ (ok pay, t)
    → Onward id t u
    → settle later_env id again u ≡ (err invalid, u)
unfolding settle get_invoice
settle-never env later_env id method again s t u pay r e onward =
    elim (Option-cases (lookup id s.store.invoices)) [
      | inl missing ↦ absurd (ground (arith, missing, e))
      | inr (inv, found) ↦
          let own =
            lookup-IsKeyedBy (λ (i : Invoice). i.id) s.store.invoices id inv
              (Reach-IsKeyed s r).invoices found in
          let marked = (settle-ok env id method s t inv pay found e).1.marked in
          let shut : IsShut id t = record {
            inv = record inv { status = InvoiceStatus.paid; paid_at = some env.now };
            stored =
                subst
                  (λ k.
                    lookup k t.store.invoices
                    ≡ some (record inv { status = InvoiceStatus.paid; paid_at = some env.now }))
                  own marked;
            shut = refl;
          } in
          let reached : Reach t =
            subst Reach (ap (λ x. x.1) e) (later r (by_settle env id method)) in
          settle-IsShut_refuses later_env id again u (Onward-IsShut id t u onward reached shut)
    ]
