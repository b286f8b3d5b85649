-- ===== src/Lagrange/Weights.antt =====
-- The weights of interpolation at 0, and that they add up to 1.
use mathlib.Core.Logic.{ite, if_pos, if_neg}
use nft_soket.Base.{◌≡◌, ◌≢◌, refl, sym, ap, ap₂, ◌∙◌, ◌≡⟨◌⟩◌, ◌∎, List, [], ◌∷◌, All}
use nft_soket.Lagrange.{BinaryField}

module _ (K : BinaryField) where
  open K use {
    Elem, nought, unit, ◌⊕◌, ◌⊗◌, inv, discrete, ⊕_comm, ⊕_assoc, nought-⊕, ⊕_self, ⊗_comm, ⊗_assoc,
    unit-⊗, ⊗-⊕, ⊗-inv,
  }

  infixl 65 ◌⊕◌
  infixl 70 ◌⊗◌
  pub ⊕-nought : (a : Elem) → a ⊕ nought ≡ a
  ⊕-nought a = ⊕_comm a nought ∙ nought-⊕ a

  pub eq_of_⊕-nought : (a b : Elem) → a ⊕ b ≡ nought → a ≡ b
  eq_of_⊕-nought a b h =
      a
      ≡⟨ sym (⊕-nought a) ⟩ a ⊕ nought
      ≡⟨ ap (λ (t : Elem). a ⊕ t) (sym (⊕_self b)) ⟩ a ⊕ (b ⊕ b)
      ≡⟨ sym (⊕_assoc a b b) ⟩ a ⊕ b ⊕ b
      ≡⟨ ap (λ (t : Elem). t ⊕ b) h ⟩ nought ⊕ b
      ≡⟨ nought-⊕ b ⟩ b ∎

  pub ⊗-nought : (a : Elem) → a ⊗ nought ≡ nought
  ⊗-nought a =
      a ⊗ nought
      ≡⟨ ap (λ (t : Elem). a ⊗ t) (sym (⊕_self nought)) ⟩ a ⊗ (nought ⊕ nought)
      ≡⟨ ⊗-⊕ a nought nought ⟩ a ⊗ nought ⊕ a ⊗ nought
      ≡⟨ ⊕_self (a ⊗ nought) ⟩ nought ∎

  pub nought-⊗ : (a : Elem) → nought ⊗ a ≡ nought
  nought-⊗ a = ⊗_comm nought a ∙ ⊗-nought a

  pub ⊗-unit : (a : Elem) → a ⊗ unit ≡ a
  ⊗-unit a = ⊗_comm a unit ∙ unit-⊗ a

  pub ⊕-⊗ : (a b c : Elem) → (a ⊕ b) ⊗ c ≡ a ⊗ c ⊕ b ⊗ c
  ⊕-⊗ a b c = ⊗_comm (a ⊕ b) c ∙ ⊗-⊕ c a b ∙ ap₂ ◌⊕◌ (⊗_comm c a) (⊗_comm c b)

  pub ⊗_left_comm : (a b c : Elem) → a ⊗ (b ⊗ c) ≡ b ⊗ (a ⊗ c)
  ⊗_left_comm a b c = sym (⊗_assoc a b c) ∙ ap (λ (t : Elem). t ⊗ c) (⊗_comm a b) ∙ ⊗_assoc b a c

  pub ⊕_left_comm : (a b c : Elem) → a ⊕ (b ⊕ c) ≡ b ⊕ (a ⊕ c)
  ⊕_left_comm a b c = sym (⊕_assoc a b c) ∙ ap (λ (t : Elem). t ⊕ c) (⊕_comm a b) ∙ ⊕_assoc b a c

  pub ⊕_cancel_left : (x a b : Elem) → (x ⊕ b) ⊕ (x ⊕ a) ≡ a ⊕ b
  ⊕_cancel_left x a b =
      ⊕_assoc x b (x ⊕ a)
      ∙ ap (λ (t : Elem). x ⊕ t) (⊕_left_comm b x a)
      ∙ sym (⊕_assoc x x (b ⊕ a))
      ∙ ap (λ (t : Elem). t ⊕ (b ⊕ a)) (⊕_self x)
      ∙ nought-⊕ (b ⊕ a)
      ∙ ⊕_comm b a

  regroup :
      (d e f u v s t : Elem)
      → d ⊗ (e ⊗ (f ⊗ (u ⊗ s ⊕ v ⊗ t))) ≡ e ⊗ (d ⊗ u ⊗ (f ⊗ s)) ⊕ f ⊗ (d ⊗ v ⊗ (e ⊗ t))
  regroup d e f u v s t = simp (⊗-⊕, ⊗_assoc, ⊗_left_comm)

  regroup_product : (d e f s t : Elem) → d ⊗ (e ⊗ (f ⊗ (s ⊗ t))) ≡ d ⊗ (f ⊗ s ⊗ (e ⊗ t))
  regroup_product d e f s t = simp (⊗_comm, ⊗_assoc, ⊗_left_comm)

  -- The factor of `z` in the weight of `x`: z / (x - z), and 1 for x itself.
  unfoldable pub factor : Elem → Elem → Elem
  factor x z = ite (discrete x z) unit (z ⊗ inv (x ⊕ z))

  unfoldable pub weight : Elem → List Elem → Elem
  weight x [] = unit
  weight x (z ∷ zs) = factor x z ⊗ weight x zs

  unfoldable pub sum : (Elem → Elem) → List Elem → Elem
  sum g [] = nought
  sum g (x ∷ xs) = g x ⊕ sum g xs

  abbrev pub Distinct : List Elem → Type 0
  Distinct [] = Unit
  Distinct (x ∷ xs) = All (λ z. x ≢ z) xs × Distinct xs

  pub factor_self : (x : Elem) → factor x x ≡ unit
  unfolding factor
  factor_self x = if_pos (discrete x x) refl unit (x ⊗ inv (x ⊕ x))

  pub factor-ne : (x z : Elem) → x ≢ z → factor x z ≡ z ⊗ inv (x ⊕ z)
  unfolding factor
  factor-ne x z h = if_neg (discrete x z) h unit (z ⊗ inv (x ⊕ z))

  pub difference-ne-nought : (x z : Elem) → x ≢ z → x ⊕ z ≢ nought
  difference-ne-nought x z h e = h (eq_of_⊕-nought x z e)

  -- Multiplying a factor by its denominator leaves the numerator.
  pub cancel-factor : (x z : Elem) → x ≢ z → (x ⊕ z) ⊗ factor x z ≡ z
  cancel-factor x z h =
      (x ⊕ z) ⊗ factor x z
      ≡⟨ ap (λ (t : Elem). (x ⊕ z) ⊗ t) (factor-ne x z h) ⟩ (x ⊕ z) ⊗ (z ⊗ inv (x ⊕ z))
      ≡⟨ ⊗_left_comm (x ⊕ z) z (inv (x ⊕ z)) ⟩ z ⊗ ((x ⊕ z) ⊗ inv (x ⊕ z))
      ≡⟨ ap (λ (t : Elem). z ⊗ t) (⊗-inv (x ⊕ z) (difference-ne-nought x z h)) ⟩ z ⊗ unit
      ≡⟨ ⊗-unit z ⟩ z ∎

  -- What is cancelled on both sides may be cancelled.
  pub cancel : (d a b : Elem) → d ≢ nought → d ⊗ a ≡ d ⊗ b → a ≡ b
  cancel d a b h e =
      a
      ≡⟨ sym (undo a) ⟩ inv d ⊗ (d ⊗ a)
      ≡⟨ ap (λ (t : Elem). inv d ⊗ t) e ⟩ inv d ⊗ (d ⊗ b)
      ≡⟨ undo b ⟩ b ∎
    where
      undo : (c : Elem) → inv d ⊗ (d ⊗ c) ≡ c
      undo c =
          sym (⊗_assoc (inv d) d c)
          ∙ ap (λ (t : Elem). t ⊗ c) (⊗_comm (inv d) d ∙ ⊗-inv d h)
          ∙ unit-⊗ c

  -- z_b / (a - b) * z_a / (x - a) + z_a / (b - a) * z_b / (x - b) is the product of the two
  -- factors of x: multiply by (x - a) (x - b) (a - b).
  pub two_factors :
      (x a b : Elem)
      → x ≢ a
      → x ≢ b
      → a ≢ b
      → factor a b ⊗ factor x a ⊕ factor b a ⊗ factor x b ≡ factor x a ⊗ factor x b
  two_factors x a b p q r = cancel (x ⊕ a) _ _ (difference-ne-nought x a p) (
      cancel (x ⊕ b) _ _ (difference-ne-nought x b q)
        (cancel (a ⊕ b) _ _ (difference-ne-nought a b r) multiplied))
    where
      cb : (a ⊕ b) ⊗ factor a b ≡ b
      cb = cancel-factor a b r

      ca : (a ⊕ b) ⊗ factor b a ≡ a
      ca = ap (λ (t : Elem). t ⊗ factor b a) (⊕_comm a b) ∙ cancel-factor b a (λ e. r (sym e))

      xa : (x ⊕ a) ⊗ factor x a ≡ a
      xa = cancel-factor x a p

      xb : (x ⊕ b) ⊗ factor x b ≡ b
      xb = cancel-factor x b q

      multiplied :
          (a ⊕ b) ⊗ ((x ⊕ b) ⊗ ((x ⊕ a) ⊗ (factor a b ⊗ factor x a ⊕ factor b a ⊗ factor x b)))
          ≡ (a ⊕ b) ⊗ ((x ⊕ b) ⊗ ((x ⊕ a) ⊗ (factor x a ⊗ factor x b)))
      multiplied =
          regroup (a ⊕ b) (x ⊕ b) (x ⊕ a) _ _ _ _
          ∙ ap₂ ◌⊕◌ (ap (λ (t : Elem). (x ⊕ b) ⊗ t) (ap₂ ◌⊗◌ cb xa ∙ ⊗_comm b a))
              (ap (λ (t : Elem). (x ⊕ a) ⊗ t) (ap₂ ◌⊗◌ ca xb))
          ∙ sym (⊕-⊗ (x ⊕ b) (x ⊕ a) (a ⊗ b))
          ∙ ap (λ (t : Elem). t ⊗ (a ⊗ b)) (⊕_cancel_left x a b)
          ∙ sym (
              regroup_product (a ⊕ b) (x ⊕ b) (x ⊕ a) _ _
              ∙ ap (λ (t : Elem). (a ⊕ b) ⊗ t) (ap₂ ◌⊗◌ xa xb))

  -- The factors of two points in each other's weights add up to 1.
  pub factor_pair : (a b : Elem) → a ≢ b → factor a b ⊕ factor b a ≡ unit
  factor_pair a b r = cancel (a ⊕ b) _ _ (difference-ne-nought a b r) (
      ⊗-⊕ (a ⊕ b) (factor a b) (factor b a)
      ∙ ap₂ ◌⊕◌ (cancel-factor a b r)
          (ap (λ (t : Elem). t ⊗ factor b a) (⊕_comm a b) ∙ cancel-factor b a (λ e. r (sym e)))
      ∙ ⊕_comm b a
      ∙ sym (⊗-unit (a ⊕ b)))

  -- Sums of pointwise equal terms, of sums, and of multiples.
  pub sum_congr :
      (g h : Elem → Elem) (xs : List Elem) → All (λ x. g x ≡ h x) xs → sum g xs ≡ sum h xs
  unfolding sum
  sum_congr g h [] e = refl
  sum_congr g h (x ∷ xs) e = ap₂ ◌⊕◌ e.0 (sum_congr g h xs e.1)

  pub sum-⊕ : (g h : Elem → Elem) (xs : List Elem) → sum (λ x. g x ⊕ h x) xs ≡ sum g xs ⊕ sum h xs
  unfolding sum
  sum-⊕ g h [] = sym (nought-⊕ nought)
  sum-⊕ g h (x ∷ xs) = ap (λ (t : Elem). g x ⊕ h x ⊕ t) (sum-⊕ g h xs) ∙ simp (⊕_comm, ⊕_assoc)

  pub sum-⊗ : (c : Elem) (g : Elem → Elem) (xs : List Elem) → sum (λ x. c ⊗ g x) xs ≡ c ⊗ sum g xs
  unfolding sum
  sum-⊗ c g [] = sym (⊗-nought c)
  sum-⊗ c g (x ∷ xs) = ap (λ (t : Elem). c ⊗ g x ⊕ t) (sum-⊗ c g xs) ∙ sym (⊗-⊕ c (g x) (sum g xs))

  pub ⊗-ne-nought : (a b : Elem) → a ≢ nought → b ≢ nought → a ⊗ b ≢ nought
  ⊗-ne-nought a b p q e = q (cancel a b nought p (e ∙ sym (⊗-nought a)))

  -- One more point in a fraction that is kept as numerator and denominator.
  pub fraction_step : (d w x z : Elem) → x ≢ z → d ⊗ w ⊗ z ≡ d ⊗ (x ⊕ z) ⊗ (w ⊗ factor x z)
  fraction_step d w x z h =
      ap (λ (t : Elem). d ⊗ w ⊗ t) (sym (cancel-factor x z h)) ∙ exchange d w (x ⊕ z) (factor x z)
    where
      exchange : (d w e f : Elem) → d ⊗ w ⊗ (e ⊗ f) ≡ d ⊗ e ⊗ (w ⊗ f)
      exchange d w e f = simp (⊗_assoc, ⊗_left_comm)

  -- A fraction with a denominator that is not zero is the quotient.
  pub fraction_value : (d w : Elem) → d ≢ nought → d ⊗ w ⊗ inv d ≡ w
  fraction_value d w h =
      ⊗_assoc d w (inv d)
      ∙ ⊗_left_comm d w (inv d)
      ∙ ap (λ (t : Elem). w ⊗ t) (⊗-inv d h)
      ∙ ⊗-unit w
