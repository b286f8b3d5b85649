-- ===== src/Lagrange/Interpolate.antt =====
-- A polynomial of degree below the number of distinct points is recovered at 0.
use nft_soket.Base.{
  ℕ, zero, suc, ◌≤◌, ◌≡◌, ◌≢◌, refl, sym, ap, ap₂, ◌∙◌, List, [], ◌∷◌, All, length, arith,
}
use nft_soket.Lagrange.{BinaryField}
use nft_soket.Lagrange.Weights.{
  factor, weight, sum, Distinct, factor_self, two_factors, cancel-factor, factor_pair, sum_congr,
  sum-⊕, sum-⊗, ⊕-nought, ⊗-nought, nought-⊗, ⊗-unit, ⊕-⊗, ⊗_left_comm, ⊕_left_comm,
}

module _ (K : BinaryField) where
  open K use {
    Elem, nought, unit, ◌⊕◌, ◌⊗◌, inv, ⊕_comm, ⊕_assoc, nought-⊕, ⊕_self, ⊗_comm, ⊗_assoc, unit-⊗,
    ⊗-⊕, ⊗-inv,
  }

  infixl 65 ◌⊕◌
  infixl 70 ◌⊗◌
  All-ne_symm : (a : Elem) (xs : List Elem) → All (λ z. a ≢ z) xs → All (λ z. z ≢ a) xs
  All-ne_symm a [] h = tt
  All-ne_symm a (x ∷ xs) h = (λ e. h.0 (sym e), All-ne_symm a xs h.1)

  -- The weight of a point among the others and `a`: its weight among the others, one factor more.
  weight-cons_self : (a : Elem) (xs : List Elem) → weight K a (a ∷ xs) ≡ weight K a xs
  unfolding weight
  weight-cons_self a xs = ap (λ (t : Elem). t ⊗ weight K a xs) (factor_self K a) ∙ unit-⊗ _

  abbrev term : Elem → List Elem → Elem → Elem
  term a xs x = factor K x a ⊗ weight K x xs

  -- Two points added to a list: the terms of the list combine those of the lists with one point.
  pair_terms :
      (a b : Elem) (ys xs : List Elem)
      → a ≢ b
      → All (λ z. z ≢ a) xs
      → All (λ z. z ≢ b) xs
      → All
          (λ x. weight K x (a ∷ b ∷ ys) ≡ factor K a b ⊗ term a ys x ⊕ factor K b a ⊗ term b ys x)
          xs
  unfolding weight
  pair_terms a b ys [] h p q = tt
  pair_terms a b ys (x ∷ xs) h p q = (
    sym (⊗_assoc _ _ _)
        ∙ ap (λ (t : Elem). t ⊗ weight K x ys) (sym (two_factors K x a b p.0 q.0 h))
        ∙ ⊕-⊗ K _ _ _
        ∙ ap₂ ◌⊕◌ (⊗_assoc _ _ _) (⊗_assoc _ _ _),
    pair_terms a b ys xs h p.1 q.1,
  )

  merge : (c d w v s t : Elem) → c ⊗ w ⊕ (d ⊗ v ⊕ (c ⊗ s ⊕ d ⊗ t)) ≡ c ⊗ (w ⊕ s) ⊕ d ⊗ (v ⊕ t)
  merge c d w v s t = simp (⊗-⊕, ⊕_assoc, ⊕_left_comm)

  one_less :
      (c : Elem) (xs : List Elem)
      → sum K (λ x. weight K x (c ∷ xs)) (c ∷ xs) ≡ unit
      → weight K c xs ⊕ sum K (term c xs) xs ≡ unit
  unfolding sum weight
  one_less c xs h = ap (λ (t : Elem). t ⊕ sum K (term c xs) xs) (sym (weight-cons_self c xs)) ∙ h

  -- The weights of distinct points add up to 1.
  pub sum-weight :
      (a : Elem) (xs : List Elem)
      → Distinct K (a ∷ xs)
      → sum K (λ x. weight K x (a ∷ xs)) (a ∷ xs) ≡ unit
  unfolding sum weight
  sum-weight a [] d = ⊕-nought K _ ∙ ⊗-unit K _ ∙ factor_self K a
  sum-weight a (b ∷ xs) d =
      ap₂ ◌⊕◌ (weight-cons_self a (b ∷ xs)) (
        ap₂ ◌⊕◌ (ap (λ (t : Elem). factor K b a ⊗ t) (weight-cons_self b xs)) (
          sum_congr K _ _ xs
            (pair_terms a b xs xs d.0.0 (All-ne_symm a xs d.0.1) (All-ne_symm b xs d.1.0))
          ∙ sum-⊕ K _ _ xs
          ∙ ap₂ ◌⊕◌ (sum-⊗ K (factor K a b) (term a xs) xs)
              (sum-⊗ K (factor K b a) (term b xs) xs)))
      ∙ merge _ _ _ _ _ _
      ∙ ap₂ ◌⊕◌
          (ap (λ (t : Elem). factor K a b ⊗ t) (one_less a xs (sum-weight a xs (d.0.1, d.1.1))))
          (ap (λ (t : Elem). factor K b a ⊗ t) (one_less b xs (sum-weight b xs d.1)))
      ∙ ap₂ ◌⊕◌ (⊗-unit K _) (⊗-unit K _)
      ∙ factor_pair K a b d.0.0

  -- `f` is a polynomial function with at most `n` coefficients, in Horner form.
  abbrev pub IsPoly : ℕ → (Elem → Elem) → Type 0
  IsPoly zero f = (x : Elem) → f x ≡ nought
  IsPoly (suc n) f = (c : Elem) × (h : Elem → Elem) × IsPoly n h × ((x : Elem) → f x ≡ h x ⊗ x ⊕ c)

  pub IsPoly-suc : (n : ℕ) (f : Elem → Elem) → IsPoly n f → IsPoly (suc n) f
  IsPoly-suc zero f p =
      (nought, f, p, λ x. p x ∙ sym (⊕-nought K _ ∙ ap (λ (t : Elem). t ⊗ x) (p x) ∙ nought-⊗ K x))
  IsPoly-suc (suc n) f p = (p.0, p.1, IsPoly-suc n p.1 p.2, p.3)

  -- A bound on the number of coefficients may be raised.
  pub IsPoly-le : (n m : ℕ) (f : Elem → Elem) → n ≤ m → IsPoly n f → IsPoly m f
  IsPoly-le zero zero f h p = p
  IsPoly-le zero (suc m) f h p = IsPoly-suc m f (IsPoly-le zero m f (omega arith) p)
  IsPoly-le (suc n) zero f h p = absurd (omega arith)
  IsPoly-le (suc n) (suc m) f h p = (p.0, p.1, IsPoly-le n m p.1 (omega arith) p.2, p.3)

  scale_into : (h k x c d a : Elem) → h ⊗ x ⊕ c ⊕ a ⊗ (k ⊗ x ⊕ d) ≡ (h ⊕ a ⊗ k) ⊗ x ⊕ (c ⊕ a ⊗ d)
  scale_into h k x c d a = simp (⊗-⊕, ⊕-⊗ K, ⊗_assoc, ⊕_assoc, ⊕_left_comm)

  -- Polynomials are closed under adding a multiple.
  pub IsPoly-combine :
      (n : ℕ) (f g : Elem → Elem) (a : Elem)
      → IsPoly n f
      → IsPoly n g
      → IsPoly n (λ x. f x ⊕ a ⊗ g x)
  IsPoly-combine zero f g a p q =
      λ x. ap₂ ◌⊕◌ (p x) (ap (λ (t : Elem). a ⊗ t) (q x) ∙ ⊗-nought K a) ∙ nought-⊕ nought
  IsPoly-combine (suc n) f g a p q = (
    p.0 ⊕ a ⊗ q.0,
    λ x. p.1 x ⊕ a ⊗ q.1 x,
    IsPoly-combine n p.1 q.1 a p.2 q.2,
    λ x.
        ap₂ ◌⊕◌ (p.3 x) (ap (λ (t : Elem). a ⊗ t) (q.3 x)) ∙ scale_into (p.1 x) (q.1 x) x p.0 q.0 a,
  )

  pub ⊕_self_left : (a b : Elem) → a ⊕ (a ⊕ b) ≡ b
  ⊕_self_left a b = sym (⊕_assoc a a b) ∙ ap (λ (t : Elem). t ⊕ b) (⊕_self a) ∙ nought-⊕ b

  -- h(x) x + h(a) a = (x + a) (h(x) + a k(x)) where h(x) = h(a) + (x + a) k(x).
  horner_quotient :
      (hx ha x a k c : Elem)
      → hx ≡ ha ⊕ (x ⊕ a) ⊗ k
      → hx ⊗ x ⊕ c ≡ ha ⊗ a ⊕ c ⊕ (x ⊕ a) ⊗ (hx ⊕ a ⊗ k)
  horner_quotient hx ha x a k c e = rw e (
      simp (
        ⊗-⊕,
        ⊕-⊗ K,
        ⊗_comm,
        ⊗_left_comm,
        ⊕_comm,
        ⊕_assoc,
        ⊕_left_comm,
        ⊕_self,
        ⊕_self_left,
        nought-⊕,
      ))

  constant : (f : Elem → Elem) (p : IsPoly 1 f) (x : Elem) → f x ≡ p.0
  constant f p x =
      p.3 x
      ∙ ap (λ (t : Elem). t ⊗ x ⊕ p.0) (p.2 x)
      ∙ ap (λ (t : Elem). t ⊕ p.0) (nought-⊗ K x)
      ∙ nought-⊕ p.0

  -- Division by x - a: the quotient has one coefficient less.
  pub divide :
      (n : ℕ) (f : Elem → Elem) (a : Elem)
      → IsPoly (suc n) f
      → (g : Elem → Elem) × IsPoly n g × ((x : Elem) → f x ≡ f a ⊕ (x ⊕ a) ⊗ g x)
  divide zero f a p = (
    λ x. nought,
    λ x. refl,
    λ x. constant f p x ∙ sym (ap₂ ◌⊕◌ (constant f p a) (⊗-nought K (x ⊕ a)) ∙ ⊕-nought K p.0),
  )
  divide (suc n) f a p =
      let q = divide n p.1 a p.2 in
      (
        λ x. p.1 x ⊕ a ⊗ q.0 x,
        IsPoly-combine (suc n) p.1 q.0 a p.2 (IsPoly-suc n q.0 q.1),
        λ x.
            p.3 x
            ∙ horner_quotient (p.1 x) (p.1 a) x a (q.0 x) p.0 (q.2 x)
            ∙ ap (λ (t : Elem). t ⊕ (x ⊕ a) ⊗ (p.1 x ⊕ a ⊗ q.0 x)) (sym (p.3 a)),
      )

  unfoldable pub value : (f : Elem → Elem) (xs : List Elem) → Elem
  value f xs = sum K (λ x. f x ⊗ weight K x xs) xs

  split_term :
      (fx fa gx fac w d a : Elem)
      → fx ≡ fa ⊕ d ⊗ gx
      → d ⊗ fac ≡ a
      → fx ⊗ (fac ⊗ w) ≡ fa ⊗ (fac ⊗ w) ⊕ a ⊗ (gx ⊗ w)
  split_term fx fa gx fac w d a e h =
      ap (λ (t : Elem). t ⊗ (fac ⊗ w)) e
      ∙ ⊕-⊗ K fa (d ⊗ gx) (fac ⊗ w)
      ∙ ap (λ (t : Elem). fa ⊗ (fac ⊗ w) ⊕ t) (move d gx fac w ∙ ap (λ (t : Elem). t ⊗ (gx ⊗ w)) h)
    where
      move : (d gx fac w : Elem) → d ⊗ gx ⊗ (fac ⊗ w) ≡ d ⊗ fac ⊗ (gx ⊗ w)
      move d gx fac w = simp (⊗_assoc, ⊗_left_comm)

  -- At the points other than `a` the term splits by f(x) = f(a) + (x - a) g(x).
  split_terms :
      (a : Elem) (ys : List Elem) (f g : Elem → Elem)
      → ((x : Elem) → f x ≡ f a ⊕ (x ⊕ a) ⊗ g x)
      → (xs : List Elem) → All (λ z. z ≢ a) xs
      → All
          (λ x. f x ⊗ weight K x (a ∷ ys) ≡ f a ⊗ weight K x (a ∷ ys) ⊕ a ⊗ (g x ⊗ weight K x ys))
          xs
  unfolding weight
  split_terms a ys f g e [] h = tt
  split_terms a ys f g e (x ∷ xs) h = (
    split_term (f x) (f a) (g x) (factor K x a) (weight K x ys) (x ⊕ a) a (e x)
        (cancel-factor K x a h.0),
    split_terms a ys f g e xs h.1,
  )

  -- At distinct points fewer coefficients than points determine the value at 0.
  pub value-IsPoly :
      (xs : List Elem) (f : Elem → Elem)
      → IsPoly (length xs) f
      → Distinct K xs
      → value f xs ≡ f nought
  unfolding value sum
  value-IsPoly [] f p d = sym (p nought)
  value-IsPoly (a ∷ xs) f p d =
      let (g, q, e) = divide (length xs) f a p in
      ap (λ (t : Elem). f a ⊗ weight K a (a ∷ xs) ⊕ t)
        (sum_congr K _ _ xs (split_terms a xs f g e xs (All-ne_symm a xs d.0))
          ∙ sum-⊕ K _ _ xs
          ∙ ap₂ ◌⊕◌ (sum-⊗ K (f a) (λ x. weight K x (a ∷ xs)) xs) (
              sum-⊗ K a (λ x. g x ⊗ weight K x xs) xs
              ∙ ap (λ (t : Elem). a ⊗ t) (value-IsPoly xs g q d.1)))
      ∙ sym (⊕_assoc _ _ _)
      ∙ ap (λ (t : Elem). t ⊕ a ⊗ g nought)
          (sym (⊗-⊕ _ _ _) ∙ ap (λ (t : Elem). f a ⊗ t) (sum-weight a xs d) ∙ ⊗-unit K (f a))
      ∙ sym (e nought ∙ ap (λ (t : Elem). f a ⊕ t ⊗ g nought) (nought-⊕ a))
