-- ===== src/Lagrange/Through.antt =====
-- Through distinct points there is a polynomial with as many coefficients, and it is the only one: the
-- mathematics behind the secrecy of the shares of core/shamir/shamir.go.
use nft_soket.Base.{
  ℕ, zero, suc, ◌≤◌, ◌≡◌, ◌≢◌, refl, sym, ap, ◌∙◌, subst, List, [], ◌∷◌, map, All, length, arith,
}
use nft_soket.Lagrange.{BinaryField}
use nft_soket.Lagrange.Weights.{
  Distinct, cancel, ⊕-nought, ⊗-nought, nought-⊗, ⊗-unit, ⊕-⊗, difference-ne-nought,
}
use nft_soket.Lagrange.Interpolate.{IsPoly, IsPoly-suc, IsPoly-combine, divide, ⊕_self_left}

module _ (K : BinaryField) where
  open K use {
    Elem, nought, unit, ◌⊕◌, ◌⊗◌, inv, ⊕_comm, ⊕_assoc, nought-⊕, ⊕_self, ⊗_comm, ⊗_assoc, unit-⊗,
    ⊗-⊕, ⊗-inv,
  }

  infixl 65 ◌⊕◌
  infixl 70 ◌⊗◌
  -- A product is nought only where a factor is.
  pub ⊗_cancel : (a b : Elem) → a ≢ nought → a ⊗ b ≡ nought → b ≡ nought
  ⊗_cancel a b h e = cancel K a b nought h (e ∙ sym (⊗-nought K a))

  IsPoly-congr :
      (n : ℕ) (f g : Elem → Elem) → IsPoly K n f → ((x : Elem) → g x ≡ f x) → IsPoly K n g
  IsPoly-congr zero f g p e = λ x. e x ∙ p x
  IsPoly-congr (suc n) f g p e = (p.0, p.1, p.2, λ x. e x ∙ p.3 x)

  -- The product of the differences to the points.
  product : List Elem → Elem → Elem
  product [] x = unit
  product (b ∷ bs) x = (x ⊕ b) ⊗ product bs x

  product-IsPoly : (bs : List Elem) → IsPoly K (suc (length bs)) (product bs)
  unfolding product
  product-IsPoly [] = (
    unit,
    (λ x. nought),
    (λ x. refl),
    λ x. sym (ap (λ (t : Elem). t ⊕ unit) (nought-⊗ K x) ∙ nought-⊕ unit),
  )
  product-IsPoly (b ∷ bs) =
      let n = suc (length bs) in
      let p = product-IsPoly bs in
      let shifted : IsPoly K (suc n) (λ x. product bs x ⊗ x ⊕ nought) =
        (nought, product bs, p, λ x. refl) in
      IsPoly-congr (suc n) (λ x. (product bs x ⊗ x ⊕ nought) ⊕ b ⊗ product bs x) (product (b ∷ bs))
        (IsPoly-combine K (suc n) (λ x. product bs x ⊗ x ⊕ nought) (product bs) b shifted
          (IsPoly-suc K n (product bs) p))
        (λ x.
          ⊕-⊗ K x b (product bs x)
          ∙ ap (λ (t : Elem). t ⊕ b ⊗ product bs x) (⊗_comm x (product bs x) ∙ sym (⊕-nought K _)))

  product-ne-nought :
      (a : Elem) (bs : List Elem) → unit ≢ nought → All (λ b. a ≢ b) bs → product bs a ≢ nought
  unfolding product
  product-ne-nought a [] u h = u
  product-ne-nought a (b ∷ bs) u h = λ e.
      product-ne-nought a bs u h.1
        (⊗_cancel (a ⊕ b) (product bs a) (difference-ne-nought K a b h.0) e)

  product-roots :
      (b : Elem) (bs done : List Elem)
      → All (λ z. product bs z ≡ nought) done
      → All (λ z. product (b ∷ bs) z ≡ nought) done
  unfolding product
  product-roots b bs [] h = tt
  product-roots b bs (z ∷ done) h =
      (ap (λ (t : Elem). (z ⊕ b) ⊗ t) h.0 ∙ ⊗-nought K (z ⊕ b), product-roots b bs done h.1)

  product-root : (bs : List Elem) → All (λ z. product bs z ≡ nought) bs
  unfolding product
  product-root [] = tt
  product-root (b ∷ bs) = (
    ap (λ (t : Elem). t ⊗ product bs b) (⊕_self b) ∙ nought-⊗ K (product bs b),
    product-roots b bs bs (product-root bs),
  )

  -- Adding a multiple of the product keeps the values at the points.
  same_values :
      (f : Elem → Elem) (l : Elem) (bs : List Elem) (points : List (Elem × Elem))
      → All (λ p. f p.0 ≡ p.1) points
      → All (λ z. product bs z ≡ nought) (map (λ p. p.0) points)
      → All (λ p. f p.0 ⊕ l ⊗ product bs p.0 ≡ p.1) points
  same_values f l bs [] h r = tt
  same_values f l bs (p ∷ points) h r = (
    ap (λ (t : Elem). f p.0 ⊕ l ⊗ t) r.0
        ∙ ap (λ (t : Elem). f p.0 ⊕ t) (⊗-nought K l)
        ∙ ⊕-nought K (f p.0)
        ∙ h.0,
    same_values f l bs points h.1 r.1,
  )

  abbrev pub abscissas : List (Elem × Elem) → List Elem
  abscissas = map λ p. p.0

  pub length-abscissas : (points : List (Elem × Elem)) → length (abscissas points) ≡ length points
  length-abscissas [] = refl
  length-abscissas (p ∷ points) = ap suc (length-abscissas points)

  -- Through distinct points there is a polynomial with one coefficient for each.
  pub through :
      (points : List (Elem × Elem))
      → unit ≢ nought
      → Distinct K (abscissas points)
      → (f : Elem → Elem) × IsPoly K (length points) f × All (λ p. f p.0 ≡ p.1) points
  through [] u d = ((λ x. nought), (λ x. refl), tt)
  through ((a, y) ∷ points) u d =
      let (f, p, values) = through points u d.1 in
      let bs = abscissas points in
      let w = product bs a in
      let l = (y ⊕ f a) ⊗ inv w in
      let n = length points in
      let w_poly : IsPoly K (suc n) (product bs) =
        subst (λ m. IsPoly K (suc m) (product bs)) (length-abscissas points) (product-IsPoly bs) in
      (
        (λ x. f x ⊕ l ⊗ product bs x),
        IsPoly-combine K (suc n) f (product bs) l (IsPoly-suc K n f p) w_poly,
        (
          ap (λ (t : Elem). f a ⊕ t)
                (⊗_assoc (y ⊕ f a) (inv w) w
                  ∙ ap (λ (t : Elem). (y ⊕ f a) ⊗ t)
                      (⊗_comm (inv w) w ∙ ⊗-inv w (product-ne-nought a bs u d.0))
                  ∙ ⊗-unit K (y ⊕ f a))
              ∙ ap (λ (t : Elem). f a ⊕ t) (⊕_comm y (f a))
              ∙ ⊕_self_left K (f a) y,
          same_values f l bs points values (product-root bs),
        ),
      )

  quotient-vanishes :
      (f g : Elem → Elem) (a : Elem) (xs : List Elem)
      → ((x : Elem) → f x ≡ (x ⊕ a) ⊗ g x)
      → All (λ z. a ≢ z) xs
      → All (λ x. f x ≡ nought) xs
      → All (λ x. g x ≡ nought) xs
  quotient-vanishes f g a [] e d h = tt
  quotient-vanishes f g a (x ∷ xs) e d h = (
    ⊗_cancel (x ⊕ a) (g x) (difference-ne-nought K x a (λ q. d.0 (sym q))) (sym (e x) ∙ h.0),
    quotient-vanishes f g a xs e d.1 h.1,
  )

  -- A polynomial that is nought at as many distinct points as it has coefficients is nought everywhere.
  pub vanishes :
      (n : ℕ) (f : Elem → Elem) (xs : List Elem)
      → IsPoly K n f
      → n ≤ length xs
      → Distinct K xs
      → All (λ x. f x ≡ nought) xs
      → (x : Elem) → f x ≡ nought
  vanishes zero f xs p le d h = p
  vanishes (suc n) f [] p le d h = absurd (omega arith)
  vanishes (suc n) f (a ∷ xs) p le d h =
      let (g, q, e) = divide K n f a p in
      let e' : (x : Elem) → f x ≡ (x ⊕ a) ⊗ g x =
        λ x. e x ∙ ap (λ (t : Elem). t ⊕ (x ⊕ a) ⊗ g x) h.0 ∙ nought-⊕ _ in
      let zero_g = vanishes n g xs q (omega arith) d.1 (quotient-vanishes f g a xs e' d.0 h.1) in
      λ x. e' x ∙ ap (λ (t : Elem). (x ⊕ a) ⊗ t) (zero_g x) ∙ ⊗-nought K (x ⊕ a)
