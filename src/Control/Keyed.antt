-- ===== src/Control/Keyed.antt =====
-- The shape of the maps of core/control/store.go: every entry stands under its own identifier.
pub mod Billing
use nft_soket.Base.{
  ℕ, ◌+◌, ◌≡◌, refl, sym, ap, ◌∙◌, Bool, true, false, not, ◌&&◌, ◌||◌, Option, none, some, List, [],
  ◌∷◌, if◌then◌else◌, arith, Bool-cases, inl, inr,
}
use nft_soket.Base.Result.{Result, ok, err}
use nft_soket.Base.Int.{ℤ}
use nft_soket.Base.Text.{Text, text_eq, text_eq_iff, eq_of_text_eq}
use nft_soket.Base.Dict.{Dict, lookup, insert, lookup-insert}
use nft_soket.Control.Model.{
  Plan, Account, AccountStatus, Usage, Invoice, Payment, Error, Money, Period,
}
use nft_soket.Control.Exec.{Env, State, Snapshot, Exec}
use nft_soket.Control.Exec.Ends.{Ends, Ends-pair, ends_rules}
use nft_soket.Control.Store.{
  empty_snapshot, persist, save_plan, save_account, save_usage, save_invoice, save_payment,
  get_plan, get_account, get_invoice,
}
use nft_soket.Control.Service.{
  rand_id, new_token, create_plan, create_account, set_status, reserve, release,
}

abbrev pub Absent : {V : Type 0} → Text → Dict V → Type 0
Absent k [] = Unit
Absent k ((j, v) ∷ m) = (text_eq j k ≡ false) × Absent k m

-- Every entry of a map stands under the key that it carries, and no key has two entries.
abbrev pub IsKeyedBy : {V : Type 0} → (V → Text) → Dict V → Type 0
IsKeyedBy key [] = Unit
IsKeyedBy key ((k, v) ∷ m) = (key v ≡ k) × Absent k m × IsKeyedBy key m

module _ {V : Type 0} (key : V → Text) where
  Absent-insert :
      (j k : Text) (v : V) (m : Dict V) → text_eq k j ≡ false → Absent j m → Absent j (insert k v m)
  unfolding insert
  Absent-insert j k v [] other a = (other, tt)
  Absent-insert j k v ((i, w) ∷ m) other a = elim (Bool-cases (text_eq i k)) [
    | inl same ↦ rw (Absent, same) a
    | inr differs ↦ rw (Absent, differs) ((a.0, Absent-insert j k v m other a.1))
  ]

  pub insert-IsKeyedBy : (v : V) (m : Dict V) → IsKeyedBy key m → IsKeyedBy key (insert (key v) v m)
  unfolding insert
  insert-IsKeyedBy v [] h = (refl, tt, tt)
  insert-IsKeyedBy v ((j, w) ∷ m) h = elim (Bool-cases (text_eq j (key v))) [
    | inl same ↦ rw (IsKeyedBy, same) ((sym (eq_of_text_eq j (key v) same), h.1, h.2))
    | inr differs ↦
        rw (IsKeyedBy, differs)
          ((
            h.0,
            Absent-insert j (key v) v m
                (ground (arith, differs, text_eq_iff j (key v), text_eq_iff (key v) j)) h.1,
            insert-IsKeyedBy v m h.2,
          ))
  ]

  pub lookup-IsKeyedBy :
      (m : Dict V) (k : Text) (v : V) → IsKeyedBy key m → lookup k m ≡ some v → key v ≡ k
  unfolding lookup
  lookup-IsKeyedBy [] k v h e = cc
  lookup-IsKeyedBy ((j, w) ∷ m) k v h e = elim (Bool-cases (text_eq j k)) [
    | inl same ↦ ground (arith, same, e, h.0, eq_of_text_eq j k)
    | inr differs ↦ lookup-IsKeyedBy m k v h.2 (ground (arith, differs, e))
  ]

pub record IsKeyed (s : State) : Type 0 where
  pub plans : IsKeyedBy (λ (p : Plan). p.id) s.store.plans
  pub accounts : IsKeyedBy (λ (a : Account). a.id) s.store.accounts
  pub usage : IsKeyedBy (λ (u : Usage). u.account_id) s.store.usage
  pub invoices : IsKeyedBy (λ (i : Invoice). i.id) s.store.invoices
  pub payments : IsKeyedBy (λ (p : Payment). p.id) s.store.payments

pub save_plan-IsKeyed :
    (env : Env) (v : Plan) (s : State) → IsKeyed s → Ends IsKeyed (save_plan env v s)
unfolding save_plan
save_plan-IsKeyed env v s h = Ends-pair _ _ (record {
  plans = insert-IsKeyedBy (λ (x : Plan). x.id) v s.store.plans h.plans;
  accounts = h.accounts;
  usage = h.usage;
  invoices = h.invoices;
  payments = h.payments;
})

pub save_account-IsKeyed :
    (env : Env) (v : Account) (s : State) → IsKeyed s → Ends IsKeyed (save_account env v s)
unfolding save_account
save_account-IsKeyed env v s h = Ends-pair _ _ (record {
  plans = h.plans;
  accounts = insert-IsKeyedBy (λ (x : Account). x.id) v s.store.accounts h.accounts;
  usage = h.usage;
  invoices = h.invoices;
  payments = h.payments;
})

pub save_usage-IsKeyed :
    (env : Env) (v : Usage) (s : State) → IsKeyed s → Ends IsKeyed (save_usage env v s)
unfolding save_usage
save_usage-IsKeyed env v s h = Ends-pair _ _ (record {
  plans = h.plans;
  accounts = h.accounts;
  usage = insert-IsKeyedBy (λ (x : Usage). x.account_id) v s.store.usage h.usage;
  invoices = h.invoices;
  payments = h.payments;
})

pub save_invoice-IsKeyed :
    (env : Env) (v : Invoice) (s : State) → IsKeyed s → Ends IsKeyed (save_invoice env v s)
unfolding save_invoice
save_invoice-IsKeyed env v s h = Ends-pair _ _ (record {
  plans = h.plans;
  accounts = h.accounts;
  usage = h.usage;
  invoices = insert-IsKeyedBy (λ (x : Invoice). x.id) v s.store.invoices h.invoices;
  payments = h.payments;
})

pub save_payment-IsKeyed :
    (env : Env) (v : Payment) (s : State) → IsKeyed s → Ends IsKeyed (save_payment env v s)
unfolding save_payment
save_payment-IsKeyed env v s h = Ends-pair _ _ (record {
  plans = h.plans;
  accounts = h.accounts;
  usage = h.usage;
  invoices = h.invoices;
  payments = insert-IsKeyedBy (λ (x : Payment). x.id) v s.store.payments h.payments;
})

pub ruleset saves = (
  save_plan-IsKeyed, save_account-IsKeyed, save_usage-IsKeyed, save_invoice-IsKeyed,
  save_payment-IsKeyed,
)

pub rand_id-IsKeyed :
    (env : Env) (p : Text) (s : State) → IsKeyed s → Ends IsKeyed (rand_id env p s)
unfolding rand_id
rand_id-IsKeyed env p s h = Ends-pair _ _ (record {
  plans = h.plans;
  accounts = h.accounts;
  usage = h.usage;
  invoices = h.invoices;
  payments = h.payments;
})

pub new_token-IsKeyed : (env : Env) (s : State) → IsKeyed s → Ends IsKeyed (new_token env s)
unfolding new_token
new_token-IsKeyed env s h = Ends-pair _ _ (record {
  plans = h.plans;
  accounts = h.accounts;
  usage = h.usage;
  invoices = h.invoices;
  payments = h.payments;
})

module _ (env : Env) (s : State) (h : IsKeyed s) where
  pub reserve-IsKeyed : (id : Text) (n : ℤ) → Ends IsKeyed (reserve env id n s)
  unfolding reserve get_account get_plan
  reserve-IsKeyed id n = search (ends_rules, saves) depth 12

  pub release-IsKeyed : (id : Text) (n : ℤ) → Ends IsKeyed (release env id n s)
  unfolding release
  release-IsKeyed id n = search (ends_rules, saves) depth 12

  pub set_status-IsKeyed : (id : Text) (x : AccountStatus) → Ends IsKeyed (set_status env id x s)
  unfolding set_status get_account
  set_status-IsKeyed id x = search (ends_rules, saves) depth 12

  pub create_plan-IsKeyed :
      (n : Text) (q : ℤ) (p : Money) (c : Text) (d : Period)
      → Ends IsKeyed (create_plan env n q p c d s)
  unfolding create_plan
  create_plan-IsKeyed n q p c d = search (ends_rules, saves, rand_id-IsKeyed) depth 12

  pub create_account-IsKeyed : (n e p : Text) → Ends IsKeyed (create_account env n e p s)
  unfolding create_account get_plan
  create_account-IsKeyed n e p =
      search (ends_rules, saves, rand_id-IsKeyed, new_token-IsKeyed) depth 12
