-- ===== src/Shamir/Recover.antt =====
-- `Combine` on shares of one polynomial per byte returns the constant terms.
use native.Mathlib.Nat.{zero-add, add-zero}
use mathlib.Core.Option.{some-injective}
use nft_soket.Base.{
  ℕ, zero, suc, ◌+◌, ◌≤◌, ◌≡◌, ◌≢◌, ◌↔◌, refl, sym, ap, ap₂, subst, ◌∙◌, some, List, [], ◌∷◌,
  bit_xor, ◌==◌, length, get_elem?, All, arith, ==→eq, Bool-cases, inl, inr,
}
use nft_soket.Base.Result.{ok}
use nft_soket.Gf256.{gf_mul, gf_div}
use nft_soket.Gf256.Laws.{div-eq-mul-inv}
use nft_soket.Lagrange.Weights.{
  factor, weight, sum, Distinct, factor_self, fraction_step, fraction_value, ⊗-ne-nought, ⊗-unit,
  difference-ne-nought, ⊕-nought,
}
use nft_soket.Lagrange.Interpolate.{IsPoly, IsPoly-le, value, value-IsPoly}
use nft_soket.Shamir.{Share, basis, interpolate}
use nft_soket.Shamir.Field.{Byte, gf256, ne_value}
open gf256 use {nought, unit, ◌⊕◌, ◌⊗◌, inv}

infixl 65 ◌⊕◌
infixl 70 ◌⊗◌
-- The shares' coordinates are the bytes `xs`, and their bytes at an index the values of `f`.
abbrev pub Points : ℕ → (Byte → Byte) → List Byte → List Share → Type 0
Points k f [] [] = Unit
Points k f [] (s ∷ ss) = ⊥
Points k f (x ∷ xs) [] = ⊥
Points k f (x ∷ xs) (s ∷ ss) = (s.x ≡ x.0) × (get_elem? s.y k ≡ some (f x).0) × Points k f xs ss

-- Index i, counted from j on, is where the byte x stands.
abbrev Locates : ℕ → ℕ → Byte → List Byte → Type 0
Locates i j x zs = (k : ℕ) (z : Byte) → get_elem? zs k ≡ some z → (i ≡ j + k) ↔ (x ≡ z)

Locates-tail :
    (i j : ℕ) (x z : Byte) (zs : List Byte) → Locates i j x (z ∷ zs) → Locates i (j + 1) x zs
Locates-tail i j x z zs h k w e =
    (λ p. (h (suc k) w e).0 (omega arith), λ p. omega (arith, (h (suc k) w e).1 p))

-- The result of the inner loop: num = den * weight, and den is not zero.
abbrev IsFraction : ℕ × ℕ → Byte → Type 0
IsFraction r w = (d : Byte) × (d ≢ nought) × (r.1 ≡ d.0) × (r.0 ≡ (d ⊗ w).0)

IsFraction-once :
    (n d : ℕ) (w x z : Byte)
    → x ≢ z
    → IsFraction (n, d) w
    → IsFraction (gf_mul n z.0, gf_mul d (bit_xor x.0 z.0)) (w ⊗ factor gf256 x z)
IsFraction-once n d w x z h (e, p, q, r) = (
  e ⊗ (x ⊕ z),
  ⊗-ne-nought gf256 e (x ⊕ z) p (difference-ne-nought gf256 x z h),
  ap (λ (t : ℕ). gf_mul t (bit_xor x.0 z.0)) q,
  ap (λ (t : ℕ). gf_mul t z.0) r ∙ ap (λ (b : Byte). b.0) (fraction_step gf256 e w x z h),
)

factor-eq : (x z : Byte) → x ≡ z → factor gf256 x z ≡ unit
factor-eq x z e = ap (factor gf256 x) (sym e) ∙ factor_self gf256 x

-- The inner loop collects the weight of its point.
basis-IsFraction :
    (i j : ℕ) (x : Byte) (k : ℕ) (f : Byte → Byte) (zs : List Byte) (ss : List Share)
    → Points k f zs ss
    → Locates i j x zs
    → (n d : ℕ) (w : Byte) → IsFraction (n, d) w
    → IsFraction (basis i x.0 j ss n d) (w ⊗ weight gf256 x zs)
unfolding basis weight
basis-IsFraction i j x k f [] [] p l n d w r = subst (IsFraction (n, d)) (sym (⊗-unit gf256 w)) r
basis-IsFraction i j x k f [] (s ∷ ss) p l n d w r = absurd p
basis-IsFraction i j x k f (z ∷ zs) [] p l n d w r = absurd p
basis-IsFraction i j x k f (z ∷ zs) (s ∷ ss) p l n d w r = elim (Bool-cases (i == j)) [
  | inl here ↦
      rw (here, basis)
        (subst (IsFraction (basis i x.0 (j + 1) ss n d))
          (ap (λ (t : Byte). w ⊗ t)
            (sym (
              ap (λ (t : Byte). t ⊗ weight gf256 x zs)
                (factor-eq x z ((l 0 z refl).0 (omega (arith, ==→eq i j here))))
              ∙ gf256.unit-⊗ _)))
          (basis-IsFraction i (j + 1) x k f zs ss p.2 (Locates-tail i j x z zs l) n d w r))
  | inr other ↦
      rw (other, basis, p.0)
        (subst (IsFraction (basis i x.0 (j + 1) ss (gf_mul n z.0) (gf_mul d (bit_xor x.0 z.0))))
          (gf256.⊗_assoc w (factor gf256 x z) (weight gf256 x zs))
          (basis-IsFraction i (j + 1) x k f zs ss p.2 (Locates-tail i j x z zs l) _ _
            (w ⊗ factor gf256 x z)
            (IsFraction-once n d w x z (λ e. ground (arith, (l 0 z refl).1 e)) r)))
]

-- The quotient that `gfDiv` returns is the weight.
fraction-div : (r : ℕ × ℕ) (w : Byte) → IsFraction r w → gf_div r.0 r.1 ≡ some w.0
fraction-div r w (d, p, q, e) =
    ap₂ gf_div e q
    ∙ div-eq-mul-inv d.0 (ne_value d nought p) d.1 (d ⊗ w).0 (d ⊗ w).1
    ∙ ap (λ (b : Byte). some b.0) (fraction_value gf256 d w p)

-- Where the shares that are left stand in the whole list.
abbrev Suffix : ℕ → List Byte → List Byte → Type 0
Suffix i rest all = (k : ℕ) (z : Byte) → get_elem? rest k ≡ some z → get_elem? all (i + k) ≡ some z

All-get :
    (P : Byte → Type 0) (zs : List Byte) (k : ℕ) (z : Byte)
    → All P zs
    → get_elem? zs k ≡ some z
    → P z
All-get P [] k z h e = cc
All-get P (y ∷ zs) zero z h e = subst P (some-injective y z e) h.0
All-get P (y ∷ zs) (suc k) z h e = All-get P zs k z h.1 e

-- Distinct points stand at one index each.
Distinct-index :
    (zs : List Byte) (i j : ℕ) (z : Byte)
    → Distinct gf256 zs
    → get_elem? zs i ≡ some z
    → get_elem? zs j ≡ some z
    → i ≡ j
Distinct-index [] i j z d p q = cc
Distinct-index (y ∷ zs) zero zero z d p q = refl
Distinct-index (y ∷ zs) zero (suc j) z d p q =
    absurd (All-get (λ w. y ≢ w) zs j z d.0 q (some-injective y z p))
Distinct-index (y ∷ zs) (suc i) zero z d p q =
    absurd (All-get (λ w. y ≢ w) zs i z d.0 p (some-injective y z q))
Distinct-index (y ∷ zs) (suc i) (suc j) z d p q = ap suc (Distinct-index zs i j z d.1 p q)

Locates-all :
    (all : List Byte) (i : ℕ) (x : Byte)
    → Distinct gf256 all
    → get_elem? all i ≡ some x
    → Locates i 0 x all
Locates-all all i x d p k z e = (
  λ h. some-injective x z (sym p ∙ ap (get_elem? all) (h ∙ zero-add k) ∙ e),
  λ h. Distinct-index all i k z d (p ∙ ap some h) e ∙ sym (zero-add k),
)

-- The loop over i adds up values times weights.
module _ (k : ℕ) (f : Byte → Byte) (all : List Byte) (shares : List Share) (d : Distinct gf256 all)
    (p : Points k f all shares) where
  interpolate-sum :
      (i : ℕ) (zs : List Byte) (ss : List Share) (acc : Byte)
      → Points k f zs ss
      → Suffix i zs all
      → interpolate shares k i ss acc.0 ≡ ok (acc ⊕ sum gf256 (λ x. f x ⊗ weight gf256 x all) zs).0
  unfolding interpolate sum
  interpolate-sum i [] [] acc q s = ap (λ (b : Byte). ok b.0) (sym (⊕-nought gf256 acc))
  interpolate-sum i [] (t ∷ ss) acc q s = absurd q
  interpolate-sum i (z ∷ zs) [] acc q s = absurd q
  interpolate-sum i (z ∷ zs) (t ∷ ss) acc q s =
      rw
        (
          q.0,
          q.1,
          fraction-div _ (unit ⊗ weight gf256 z all)
              (basis-IsFraction i 0 z k f all shares p (Locates-all all i z d here) 1 1 unit start),
        )
        (interpolate-sum (i + 1) zs ss (acc ⊕ f z ⊗ (unit ⊗ weight gf256 z all)) q.2
            (λ j w e. shift j ∙ s (suc j) w e)
          ∙ ap (λ (b : Byte). ok b.0)
              (gf256.⊕_assoc acc _ _
                ∙ ap (λ (b : Byte). acc ⊕ (f z ⊗ b ⊕ sum gf256 (λ x. f x ⊗ weight gf256 x all) zs))
                    (gf256.unit-⊗ (weight gf256 z all))))
    where
      shift : (j : ℕ) → get_elem? all (i + 1 + j) ≡ get_elem? all (i + suc j)
      shift j = ap (get_elem? all) (omega arith)

      here : get_elem? all i ≡ some z
      here = ap (get_elem? all) (sym (add-zero i)) ∙ s 0 z refl

      start : IsFraction (1, 1) unit
      start = (
        unit,
        (λ e. omega (arith, ap (λ (b : Byte). b.0) e)),
        refl,
        ap (λ (b : Byte). b.0) (sym (gf256.unit-⊗ unit)),
      )

  -- One byte of the secret: the value of the polynomial at 0.
  pub interpolate-value :
      (n : ℕ)
      → IsPoly gf256 n f
      → n ≤ length all
      → interpolate shares k 0 shares 0 ≡ ok (f nought).0
  unfolding sum value
  interpolate-value n q h =
      interpolate-sum 0 all shares nought p (λ j w e. ap (get_elem? all) (zero-add j) ∙ e)
      ∙ ap (λ (b : Byte). ok b.0)
          (gf256.nought-⊕ _ ∙ value-IsPoly gf256 all f (IsPoly-le gf256 n (length all) f h q) d)
