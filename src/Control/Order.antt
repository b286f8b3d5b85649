-- ===== src/Control/Order.antt =====
-- Go goes over a map in no fixed order: what that does not change in core/control/service.go.
use mathlib.Core.List.{Permᴰ, Perm, Perm-prop}
use mathlib.Core.List.Permᴰ
use mathlib.Core.Logic.{∥∥₁_elim, ∥∥₁_map}
use mathlib.Core.HLevel.{hedberg}
use native.Mathlib.Decide.{ℕ_discrete}
use nft_soket.Base.{
  subst, ◌+◌, ◌≡◌, refl, sym, ap, ap₂, ◌∙◌, Bool, ◌||◌, ◌&&◌, List, [], ◌∷◌, if◌then◌else◌, arith,
  Bool-cases, inl, inr,
}
use nft_soket.Base.Int.{
  ℤ, pos, wrap64, add64, ◌+ℤ◌, int_laws, ◌-ℤ◌, ltb_ℤ, pos_part, neg_part, eq_of_parts,
}
use nft_soket.Base.Text.{Text, text_eq, is_empty}
use nft_soket.Base.Dict.{Dict, values}
use nft_soket.Control.Model.{Account, AccountStatus, Invoice, is_open}
use nft_soket.Control.Exec.{Env, State, Snapshot}
use nft_soket.Control.Store.{invoices_of, list_invoices}
use nft_soket.Control.Service.Billing.{sum_open, outstanding}
use nft_soket.Control.Service.Settlement.{has_overdue, enforce_delinquency}
use nft_soket.Control.Keyed.{IsKeyed}
use nft_soket.Control.Overdue.{
  is_live, is_overdue, has_overdue-any_late, enforced, overdue_ids, map_values,
  enforce_delinquency-exact,
}

wrap-add : (a b : ℤ) → add64 (wrap64 a) b ≡ add64 a b
unfolding add64 wrap64 ◌+ℤ◌
wrap-add a b = ground arith

add64_swap : (t a b : ℤ) → add64 (add64 t a) b ≡ add64 (add64 t b) a
unfolding add64
add64_swap t a b =
    let same : t +ℤ a +ℤ b ≡ t +ℤ b +ℤ a = omega int_laws in
    wrap-add (t +ℤ a) b ∙ ap wrap64 same ∙ sym (wrap-add (t +ℤ b) a)

sum_open-two :
    (t : ℤ) (a b : Invoice) (l : List Invoice) → sum_open t (a ∷ b ∷ l) ≡ sum_open t (b ∷ a ∷ l)
unfolding sum_open
sum_open-two t a b l = ground (arith, add64_swap t a.amount_cents b.amount_cents)

sum_open-Permᴰ : {xs ys : List Invoice} → Permᴰ xs ys → (t : ℤ) → sum_open t xs ≡ sum_open t ys
unfolding sum_open
sum_open-Permᴰ Permᴰ.nil t = refl
sum_open-Permᴰ (Permᴰ.cons {a} {b} {l₁} {l₂} e d) t =
    sum_open-Permᴰ d (if is_open a.status then add64 t a.amount_cents else t)
    ∙ ap (λ x. sum_open t (x ∷ l₂)) e
sum_open-Permᴰ (Permᴰ.swap {a} {b} {a'} {b'} {l} e f) t =
    sum_open-two t a b l ∙ ap₂ (λ x y. sum_open t (x ∷ y ∷ l)) f e
sum_open-Permᴰ (Permᴰ.trans d e) t = sum_open-Permᴰ d t ∙ sum_open-Permᴰ e t

has_overdue-two :
    (cutoff : ℤ) (a b : Invoice) (l : List Invoice)
    → has_overdue cutoff (a ∷ b ∷ l) ≡ has_overdue cutoff (b ∷ a ∷ l)
unfolding has_overdue
has_overdue-two cutoff a b l = ground arith

has_overdue-Permᴰ :
    (cutoff : ℤ) {xs ys : List Invoice}
    → Permᴰ xs ys
    → has_overdue cutoff xs ≡ has_overdue cutoff ys
unfolding has_overdue
has_overdue-Permᴰ cutoff Permᴰ.nil = refl
has_overdue-Permᴰ cutoff (Permᴰ.cons {a} {b} {l₁} {l₂} e d) =
    ap (λ x. (is_open a.status && ltb_ℤ a.created_at cutoff) || x) (has_overdue-Permᴰ cutoff d)
    ∙ ap (λ x. has_overdue cutoff (x ∷ l₂)) e
has_overdue-Permᴰ cutoff (Permᴰ.swap {a} {b} {a'} {b'} {l} e f) =
    has_overdue-two cutoff a b l ∙ ap₂ (λ x y. has_overdue cutoff (x ∷ y ∷ l)) f e
has_overdue-Permᴰ cutoff (Permᴰ.trans d e) = has_overdue-Permᴰ cutoff d ∙ has_overdue-Permᴰ cutoff e

-- Entries in another order, as values and as those of one account.
values-Permᴰ : {V : Type 0} {xs ys : Dict V} → Permᴰ xs ys → Permᴰ (values xs) (values ys)
values-Permᴰ Permᴰ.nil = Permᴰ.nil
values-Permᴰ (Permᴰ.cons e d) = Permᴰ.cons (ap (λ x. x.1) e) (values-Permᴰ d)
values-Permᴰ (Permᴰ.swap e f) = Permᴰ.swap (ap (λ x. x.1) e) (ap (λ x. x.1) f)
values-Permᴰ (Permᴰ.trans d e) = Permᴰ.trans (values-Permᴰ d) (values-Permᴰ e)

-- A step that keeps an element or leaves it out.
module _ {A B : Type 0} (keep : A → Bool) (f : A → B) where
  unfoldable chosen : List A → List B
  chosen [] = []
  chosen (a ∷ l) = let rest = chosen l in if keep a then f a ∷ rest else rest

  chosen-two : (a b : A) (l : List A) → Permᴰ (chosen (a ∷ b ∷ l)) (chosen (b ∷ a ∷ l))
  unfolding chosen
  chosen-two a b l = elim (Bool-cases (keep a)) [
    | inl x ↦ elim (Bool-cases (keep b)) [
      | inl y ↦ rw (x, y, chosen) (Permᴰ.swap refl refl)
      | inr y ↦ rw (x, y, chosen) (Permᴰ.refl _)
    ]
    | inr x ↦ elim (Bool-cases (keep b)) [
      | inl y ↦ rw (x, y, chosen) (Permᴰ.refl _)
      | inr y ↦ rw (x, y, chosen) (Permᴰ.refl _)
    ]
  ]

  chosen-cons :
      (a : A) (xs ys : List A)
      → Permᴰ (chosen xs) (chosen ys)
      → Permᴰ (chosen (a ∷ xs)) (chosen (a ∷ ys))
  unfolding chosen
  chosen-cons a xs ys d = elim (Bool-cases (keep a)) [
    | inl x ↦ rw (x, chosen) (Permᴰ.cons refl d)
    | inr x ↦ rw (x, chosen) d
  ]

  chosen-Permᴰ : {xs ys : List A} → Permᴰ xs ys → Permᴰ (chosen xs) (chosen ys)
  unfolding chosen
  chosen-Permᴰ Permᴰ.nil = Permᴰ.nil
  chosen-Permᴰ (Permᴰ.cons {a} {b} {l₁} {l₂} e d) =
      subst (λ x. Permᴰ (chosen (a ∷ l₁)) (chosen (x ∷ l₂))) e
        (chosen-cons a l₁ l₂ (chosen-Permᴰ d))
  chosen-Permᴰ (Permᴰ.swap {a} {b} {a'} {b'} {l} e f) =
      subst (λ x. Permᴰ (chosen (a ∷ b ∷ l)) (chosen (x ∷ b' ∷ l))) f
        (subst (λ y. Permᴰ (chosen (a ∷ b ∷ l)) (chosen (b ∷ y ∷ l))) e (chosen-two a b l))
  chosen-Permᴰ (Permᴰ.trans d e) = Permᴰ.trans (chosen-Permᴰ d) (chosen-Permᴰ e)

invoices_of-chosen :
    (id : Text) (l : List Invoice)
    → invoices_of id l ≡ chosen (λ i. is_empty id || text_eq i.account_id id) (λ i. i) l
unfolding invoices_of chosen
invoices_of-chosen id [] = refl
invoices_of-chosen id (i ∷ l) =
    ap (λ rest. if is_empty id || text_eq i.account_id id then i ∷ rest else rest)
      (invoices_of-chosen id l)

invoices_of-Permᴰ :
    (id : Text) {xs ys : List Invoice} → Permᴰ xs ys → Permᴰ (invoices_of id xs) (invoices_of id ys)
invoices_of-Permᴰ id {xs} {ys} d =
    subst (λ l. Permᴰ (invoices_of id xs) l) (sym (invoices_of-chosen id ys))
      (subst (λ l. Permᴰ l (chosen (λ i. is_empty id || text_eq i.account_id id) (λ i. i) ys))
        (sym (invoices_of-chosen id xs))
        (chosen-Permᴰ (λ i. is_empty id || text_eq i.account_id id) (λ i. i) d))

ℤ_discrete : Discrete ℤ
ℤ_discrete a b = elim (ℕ_discrete (pos_part a + neg_part b) (pos_part b + neg_part a)) [
  | yes e ↦ yes (eq_of_parts a b e)
  | no ne ↦
      no (λ e. ne (ap (λ x. pos_part x + neg_part b) e ∙ ap (λ x. pos_part b + neg_part x) (sym e)))
]

-- What an account owes does not depend on the order of the invoices in the map.
pub outstanding-Perm :
    (id : Text) (s t : Snapshot) → Perm s.invoices t.invoices → outstanding id s ≡ outstanding id t
unfolding outstanding list_invoices
outstanding-Perm id s t p =
    ∥∥₁_elim p (hedberg ℤ_discrete _ _)
      (λ d. sum_open-Permᴰ (invoices_of-Permᴰ id (values-Permᴰ d)) (pos 0))

module _ (cutoff : ℤ) (xs ys : Dict Invoice) (same : Permᴰ xs ys) where
  is_overdue-Permᴰ : (a : Account) → is_overdue cutoff xs a ≡ is_overdue cutoff ys a
  is_overdue-Permᴰ a =
      ap (λ b. is_live a.status && b)
        (sym (has_overdue-any_late cutoff a.id (values xs))
          ∙ has_overdue-Permᴰ cutoff (invoices_of-Permᴰ a.id (values-Permᴰ same))
          ∙ has_overdue-any_late cutoff a.id (values ys))

  enforced-Permᴰ : (a : Account) → enforced cutoff xs a ≡ enforced cutoff ys a
  enforced-Permᴰ a =
      ap (λ b. if b then record a { status = AccountStatus.suspended } else a) (is_overdue-Permᴰ a)

  overdue_ids-Permᴰ :
      {l m : List Account} → Permᴰ l m → Permᴰ (overdue_ids cutoff xs l) (overdue_ids cutoff ys m)
  unfolding chosen
  overdue_ids-Permᴰ {l} {m} d =
      subst (λ x. Permᴰ (overdue_ids cutoff xs l) x) (sym (ids_chosen m))
        (subst (λ x. Permᴰ x (chosen (is_overdue cutoff ys) (λ a. a.id) m))
          (sym (ids_same l ∙ ids_chosen l)) (chosen-Permᴰ (is_overdue cutoff ys) (λ a. a.id) d))
    where
      ids_same : (l : List Account) → overdue_ids cutoff xs l ≡ overdue_ids cutoff ys l
      ids_same [] = refl
      ids_same (a ∷ l) =
          ap₂ (λ b rest. if b then a.id ∷ rest else rest) (is_overdue-Permᴰ a) (ids_same l)

      ids_chosen :
          (l : List Account) → overdue_ids cutoff ys l ≡ chosen (is_overdue cutoff ys) (λ a. a.id) l
      ids_chosen [] = refl
      ids_chosen (a ∷ l) =
          ap (λ rest. if is_overdue cutoff ys a then a.id ∷ rest else rest) (ids_chosen l)

  map_values-same :
      (l : Dict Account) → map_values (enforced cutoff xs) l ≡ map_values (enforced cutoff ys) l
  map_values-same [] = refl
  map_values-same ((k, a) ∷ l) =
      ap₂ (λ x rest. (k, x) ∷ rest) (enforced-Permᴰ a) (map_values-same l)

map_values-Permᴰ :
    {V W : Type 0} (f : V → W) {l m : Dict V} → Permᴰ l m → Permᴰ (map_values f l) (map_values f m)
map_values-Permᴰ f Permᴰ.nil = Permᴰ.nil
map_values-Permᴰ f (Permᴰ.cons e d) = Permᴰ.cons (ap (λ x. (x.0, f x.1)) e) (map_values-Permᴰ f d)
map_values-Permᴰ f (Permᴰ.swap e g) =
    Permᴰ.swap (ap (λ x. (x.0, f x.1)) e) (ap (λ x. (x.0, f x.1)) g)
map_values-Permᴰ f (Permᴰ.trans d e) = Permᴰ.trans (map_values-Permᴰ f d) (map_values-Permᴰ f e)

-- What an account owes, and which accounts `EnforceDelinquency` suspends, do not depend on the order in which the
-- entries of the maps come up: with the same accounts and invoices in another order, every account owes the same,
-- the identifiers returned are the same in some order, and so are the accounts that are left. Every entry stands
-- under its own identifier.
pub enforce_delinquency-Perm :
    (env : Env) (grace : ℤ) (s t : State)
    → IsKeyed s
    → IsKeyed t
    → Perm s.store.accounts t.store.accounts
    → Perm s.store.invoices t.store.invoices
    → ((id : Text) → outstanding id s.store ≡ outstanding id t.store)
      × Perm (enforce_delinquency env grace s).0 (enforce_delinquency env grace t).0
      × Perm
          (enforce_delinquency env grace s).1.store.accounts
          (enforce_delinquency env grace t).1.store.accounts
enforce_delinquency-Perm env grace s t ks kt accounts invoices =
    let cutoff = env.now -ℤ grace in
    let es = enforce_delinquency-exact env grace s ks in
    let et = enforce_delinquency-exact env grace t kt in
    let xs = s.store.invoices in
    let ys = t.store.invoices in
    (
      λ id. outstanding-Perm id s.store t.store invoices,
      rw (es, et)
          (∥∥₁_elim invoices Perm-prop
            (λ d. ∥∥₁_map accounts (λ c. overdue_ids-Permᴰ cutoff xs ys d (values-Permᴰ c)))),
      rw (es, et)
          (∥∥₁_elim invoices Perm-prop (λ d. ∥∥₁_map accounts (λ c.
            subst (λ l. Permᴰ l (map_values (enforced cutoff ys) t.store.accounts))
              (sym (map_values-same cutoff xs ys d s.store.accounts))
              (map_values-Permᴰ (enforced cutoff ys) c)))),
    )
