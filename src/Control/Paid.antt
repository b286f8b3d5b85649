-- ===== src/Control/Paid.antt =====
-- A paid invoice of core/control/service.go stays paid: what each method does to an invoice that is not open.
pub mod Billing
pub mod Once
use nft_soket.Base.{
  ℕ, ◌≡◌, ◌≢◌, sym, ap, ◌∙◌, subst, Bool, true, false, not, ◌&&◌, some, List, [], ◌∷◌, ◌++◌,
  if◌then◌else◌, arith, Bool-cases, Option-cases, inl, inr,
}
use nft_soket.Base.Result.{ok, err, Result-cases}
use nft_soket.Base.Int.{ℤ, is_zero_ℤ}
use nft_soket.Base.Text.{Text, codes, text_eq, eq_of_text_eq}
use nft_soket.Base.Hex.{hex_encode}
use nft_soket.Base.Dict.{lookup, insert, lookup-insert}
use nft_soket.Control.Model.{
  Plan, Account, AccountStatus, Usage, Invoice, InvoiceStatus, Payment, Money, Period, invalid,
  is_open, is_active, is_suspended,
}
use nft_soket.Control.Exec.{Env, State, pure}
use nft_soket.Control.Exec.Ends.{
  Ends, Ends-pair, Ends-continue, Ends-bind, Ends-raise_if, ends_rules,
}
use nft_soket.Control.Store.{
  save_plan, save_account, save_usage, save_invoice, save_payment, get_plan, get_account,
  get_invoice, list_invoices,
}
use nft_soket.Control.Service.{
  rand_id, new_token, create_plan, create_account, set_status, reserve, release,
}
use nft_soket.Control.Service.Billing.{outstanding}
use nft_soket.Control.Service.Settlement.{
  issue_invoice, reactivate, settle, note_checkout, suspend_overdue, has_overdue,
}
use nft_soket.Control.Keyed.{IsKeyed, lookup-IsKeyedBy}

-- No identifier that is drawn for an invoice is this one.
abbrev pub Spares : Text → Env → Type 0
Spares id env = (n : ℕ) → text_eq (codes "inv" ++ codes "_" ++ hex_encode (env.random n)) id ≡ false

-- The invoice under the identifier is not open.
pub record IsShut (id : Text) (s : State) : Type 0 where
  pub inv : Invoice
  pub stored : lookup id s.store.invoices ≡ some inv
  pub shut : is_open inv.status ≡ false

module _ (id : Text) (env : Env) where
  pub save_invoice-IsShut :
      (v : Invoice) (s : State)
      → text_eq v.id id ≡ false
      → IsShut id s
      → Ends (IsShut id) (save_invoice env v s)
  unfolding save_invoice
  save_invoice-IsShut v s other h = Ends-pair _ _ (record {
    inv = h.inv;
    stored = lookup-insert v.id id v s.store.invoices ∙ ground (arith, other, h.stored);
    shut = h.shut;
  })

  pub save_plan-IsShut : (v : Plan) (s : State) → IsShut id s → Ends (IsShut id) (save_plan env v s)
  unfolding save_plan
  save_plan-IsShut v s h = Ends-pair _ _ (record { inv = h.inv; stored = h.stored; shut = h.shut })

  pub save_account-IsShut :
      (v : Account) (s : State) → IsShut id s → Ends (IsShut id) (save_account env v s)
  unfolding save_account
  save_account-IsShut v s h =
      Ends-pair _ _ (record { inv = h.inv; stored = h.stored; shut = h.shut })

  pub save_usage-IsShut :
      (v : Usage) (s : State) → IsShut id s → Ends (IsShut id) (save_usage env v s)
  unfolding save_usage
  save_usage-IsShut v s h = Ends-pair _ _ (record { inv = h.inv; stored = h.stored; shut = h.shut })

  pub save_payment-IsShut :
      (v : Payment) (s : State) → IsShut id s → Ends (IsShut id) (save_payment env v s)
  unfolding save_payment
  save_payment-IsShut v s h =
      Ends-pair _ _ (record { inv = h.inv; stored = h.stored; shut = h.shut })

  pub rand_id-IsShut : (p : Text) (s : State) → IsShut id s → Ends (IsShut id) (rand_id env p s)
  unfolding rand_id
  rand_id-IsShut p s h = Ends-pair _ _ (record { inv = h.inv; stored = h.stored; shut = h.shut })

  pub new_token-IsShut : (s : State) → IsShut id s → Ends (IsShut id) (new_token env s)
  unfolding new_token
  new_token-IsShut s h = Ends-pair _ _ (record { inv = h.inv; stored = h.stored; shut = h.shut })

pub ruleset kept_shut = (
  save_plan-IsShut, save_account-IsShut, save_usage-IsShut, save_payment-IsShut, rand_id-IsShut,
  new_token-IsShut,
)

module _ (id : Text) (env : Env) (s : State) (h : IsShut id s) where
  pub reserve-IsShut : (a : Text) (n : ℤ) → Ends (IsShut id) (reserve env a n s)
  unfolding reserve get_account get_plan
  reserve-IsShut a n = search (ends_rules, kept_shut) depth 12

  pub release-IsShut : (a : Text) (n : ℤ) → Ends (IsShut id) (release env a n s)
  unfolding release
  release-IsShut a n = search (ends_rules, kept_shut) depth 12

  pub set_status-IsShut : (a : Text) (x : AccountStatus) → Ends (IsShut id) (set_status env a x s)
  unfolding set_status get_account
  set_status-IsShut a x = search (ends_rules, kept_shut) depth 12

  pub create_plan-IsShut :
      (n : Text) (q : ℤ) (p : Money) (c : Text) (d : Period)
      → Ends (IsShut id) (create_plan env n q p c d s)
  unfolding create_plan
  create_plan-IsShut n q p c d = search (ends_rules, kept_shut) depth 12

  pub create_account-IsShut : (n e p : Text) → Ends (IsShut id) (create_account env n e p s)
  unfolding create_account get_plan
  create_account-IsShut n e p = search (ends_rules, kept_shut) depth 12

  -- An open invoice is another one.
  open_other :
      (other : Text) (i : Invoice)
      → IsKeyed s
      → lookup other s.store.invoices ≡ some i
      → is_open i.status ≡ true
      → text_eq i.id id ≡ false
  open_other other i keyed found unpaid = elim (Bool-cases (text_eq i.id id)) [
    | inr differs ↦ differs
    | inl same ↦
        let own : i.id ≡ other =
          lookup-IsKeyedBy (λ (x : Invoice). x.id) s.store.invoices other i keyed.invoices found in
        let at : lookup id s.store.invoices ≡ some i =
          ap (λ k. lookup k s.store.invoices) (sym (eq_of_text_eq i.id id same) ∙ own) ∙ found in
        absurd (ground (arith, at, h.stored, h.shut, unpaid))
  ]

  pub note_checkout-IsShut :
      IsKeyed s → (other p r : Text) → Ends (IsShut id) (note_checkout env other p r s)
  unfolding note_checkout get_invoice
  note_checkout-IsShut keyed other p r = elim (Option-cases (lookup other s.store.invoices)) [
    | inl missing ↦ rw (missing, note_checkout, get_invoice) (Ends-pair _ _ h)
    | inr (i, found) ↦ elim (Bool-cases (is_open i.status)) [
      | inr closed ↦ rw (found, closed, note_checkout, get_invoice) (Ends-pair _ _ h)
      | inl unpaid ↦
          let differs = open_other other i keyed found unpaid in
          rw (found, unpaid, note_checkout, get_invoice)
            (Ends-pair _ _
              (save_invoice-IsShut id env (record i { checkout_provider = p; checkout_ref = r }) s
                differs h).here)
    ]
  ]

reactivate-IsShut :
    (id : Text) (env : Env) (s : State)
    → IsShut id s
    → (b : Bool) (a : Text) → Ends (IsShut id) ((if b then reactivate env a else pure tt) s)
unfolding reactivate
reactivate-IsShut id env s h false a = Ends-pair _ _ h
reactivate-IsShut id env s h true a = elim (Result-cases (get_account a s).0) [
  | inr (e, missing) ↦ rw (missing, reactivate) (Ends-pair _ _ h)
  | inl (acc, found) ↦ elim (Bool-cases (is_suspended acc.status)) [
    | inl waiting ↦
        rw (found, waiting, reactivate) (Ends-pair _ _ (save_account-IsShut id env _ s h).here)
    | inr active ↦ rw (found, active, reactivate) (Ends-pair _ _ h)
  ]
]

pub settle-IsShut :
    (id : Text) (env : Env) (s : State)
    → IsShut id s
    → IsKeyed s
    → (other m : Text) → Ends (IsShut id) (settle env other m s)
unfolding settle get_invoice
settle-IsShut id env s h keyed other m = Ends-continue (get_invoice other s).0 _ s h (λ i found.
    Ends-raise_if (not (is_open i.status)) invalid _ s h (λ u unpaid.
      Ends-bind _ _
        (save_invoice-IsShut id env
          (record i { status = InvoiceStatus.paid; paid_at = some env.now }) s
          (open_other id env s h other i keyed (found_invoice s other i found)
            (ground (arith, unpaid)))
          h)
        (λ u t k. Ends-bind (rand_id env (codes "pay") t) _ (rand_id-IsShut id env _ t k) (λ p t k.
          Ends-bind _ _ (save_payment-IsShut id env _ t k) (λ u t k.
            Ends-bind _ _
              (reactivate-IsShut id env t k (is_zero_ℤ (outstanding i.account_id t.store))
                i.account_id)
              (λ u t k. Ends-pair _ _ k))))))
  where
    found_invoice :
        (s : State) (other : Text) (i : Invoice)
        → (get_invoice other s).0 ≡ ok i
        → lookup other s.store.invoices ≡ some i
    found_invoice s other i e = elim (Option-cases (lookup other s.store.invoices)) [
      | inl missing ↦ absurd (ground (arith, missing, e))
      | inr (x, there) ↦ ground (arith, there, e)
    ]

pub suspend_overdue-IsShut :
    (id : Text) (env : Env) (cutoff : ℤ) (accounts : List Account) (s : State)
    → IsShut id s
    → IsShut id (suspend_overdue env cutoff accounts s).1
unfolding suspend_overdue
suspend_overdue-IsShut id env cutoff [] s h = h
suspend_overdue-IsShut id env cutoff (a ∷ accounts) s h =
    elim (Bool-cases (is_active a.status && has_overdue cutoff (list_invoices a.id s.store))) [
      | inl overdue ↦
          rw (overdue, suspend_overdue)
            (suspend_overdue-IsShut id env cutoff accounts _
              (save_account-IsShut id env _ s h).here)
      | inr settled ↦
          rw (settled, suspend_overdue) (suspend_overdue-IsShut id env cutoff accounts s h)
    ]
