-- ===== src/Shamir/Unique.antt =====
-- Coefficients are determined by as many values at distinct coordinates other than 0, for core/shamir/shamir.go.
use mathlib.Core.Equiv.{IsContr}
use mathlib.Core.HLevel.{×_prop, hedberg, Σ_prop_path}
use native.Mathlib.Decide.{ℕ_discrete}
use nft_soket.Base.{
  ℕ, ◌≤◌, ◌<◌, ◌≡◌, refl, sym, ap, ap₂, ◌∙◌, subst, List, [], ◌∷◌, bit_xor, length, All, le_prop,
  arith,
}
use nft_soket.Base.Xor.{zero-xor, xor_comm, xor_assoc, xor_self}
use nft_soket.Gf256.{gf_mul}
use nft_soket.Gf256.Laws.{gf_mul_comm, mul-zero, one-mul}
use nft_soket.Lagrange.Weights.{cancel}
use nft_soket.Lagrange.Interpolate.{IsPoly, IsPoly-combine}
use nft_soket.Lagrange.Through.{abscissas, length-abscissas, vanishes}
use nft_soket.Shamir.{eval}
use nft_soket.Shamir.Field.{
  Byte, Byte-ext, gf256, Bytes, horner, horner-byte, eval-horner, poly, poly-IsPoly,
}
use nft_soket.Shamir.Secrecy.{
  ArePoints, DistinctPoints, Explains, as_bytes, length-as_bytes, Distinct-as_bytes, explain,
}

-- Two lists of coefficients have the same values at the coordinates.
abbrev Agree : List ℕ → List ℕ → List (ℕ × ℕ) → Type 0
Agree r s = All λ p. horner r p.0 ≡ horner s p.0

xor_right_cancel : (a b c : ℕ) → bit_xor a c ≡ bit_xor b c → a ≡ b
xor_right_cancel a b c e = sym (undo a) ∙ ap (λ v. bit_xor v c) e ∙ undo b
  where
    undo : (v : ℕ) → bit_xor (bit_xor v c) c ≡ v
    undo v = xor_assoc v c c ∙ ap (bit_xor v) (xor_self c) ∙ xor_comm v 0 ∙ zero-xor v

eq_of_xor-zero : (a b : ℕ) → bit_xor a b ≡ 0 → a ≡ b
eq_of_xor-zero a b e = xor_right_cancel a b b (e ∙ sym (xor_self b))

xor-eq : (a b : ℕ) → a ≡ b → bit_xor a b ≡ 0
xor-eq a b e = ap (λ v. bit_xor v b) e ∙ xor_self b

-- Away from the coordinate 0, what stands behind equal constant terms has equal values.
Agree-tail :
    (c : ℕ) (r s : List ℕ) (points : List (ℕ × ℕ))
    → Bytes r
    → Bytes s
    → ArePoints points
    → Agree (c ∷ r) (c ∷ s) points
    → Agree r s points
unfolding horner poly
Agree-tail c r s [] br bs h e = tt
Agree-tail c r s (p ∷ points) br bs h e =
    let x : Byte = (p.0, h.0.1) in
    let product : gf_mul p.0 (horner r p.0) ≡ gf_mul p.0 (horner s p.0) =
      gf_mul_comm p.0 _ ∙ xor_right_cancel _ _ c e.0 ∙ gf_mul_comm _ p.0 in
    (
      ap (λ (b : Byte). b.0)
          (cancel gf256 x (poly r br x) (poly s bs x) (λ z. h.0.0 (ap (λ (b : Byte). b.0) z))
            (Byte-ext _ _ product)),
      Agree-tail c r s points br bs h.1 e.1,
    )

difference-nought :
    (r s : List ℕ) (br : Bytes r) (bs : Bytes s) (points : List (ℕ × ℕ)) (h : ArePoints points)
    → Agree r s points
    → All
        (λ (x : Byte). gf256.◌⊕◌ (poly r br x) (gf256.◌⊗◌ gf256.unit (poly s bs x)) ≡ gf256.nought)
        (abscissas gf256 (as_bytes points h))
unfolding poly as_bytes
difference-nought r s br bs [] h e = tt
difference-nought r s br bs (p ∷ points) h e = (
  Byte-ext _ _ (
      ap (bit_xor (horner r p.0)) (one-mul (horner s p.0) (horner-byte s p.0 bs h.0.1))
      ∙ xor-eq _ _ e.0),
  difference-nought r s br bs points h.1 e.1,
)

-- Coefficients whose values agree at enough coordinates have the same values everywhere.
Agree-everywhere :
    (r s : List ℕ) (points : List (ℕ × ℕ))
    → Bytes r
    → Bytes s
    → length r ≡ length s
    → ArePoints points
    → DistinctPoints points
    → length r ≤ length points
    → Agree r s points
    → (x : ℕ) → x < 256
    → horner r x ≡ horner s x
unfolding poly
Agree-everywhere r s points br bs same h d le e x b =
    let n = length r in
    let z =
      vanishes gf256 n (λ x. gf256.◌⊕◌ (poly r br x) (gf256.◌⊗◌ gf256.unit (poly s bs x)))
        (abscissas gf256 (as_bytes points h))
        (IsPoly-combine gf256 n (poly r br) (poly s bs) gf256.unit (poly-IsPoly r br)
          (subst (λ k. IsPoly gf256 k (poly s bs)) (sym same) (poly-IsPoly s bs)))
        (omega (arith, length-abscissas gf256 (as_bytes points h), length-as_bytes points h))
        (Distinct-as_bytes points h d) (difference-nought r s br bs points h e) (x, b) in
    eq_of_xor-zero _ _ (
      sym (ap (bit_xor (horner r x)) (one-mul (horner s x) (horner-byte s x bs b)))
      ∙ ap (λ (v : Byte). v.0) z)

horner-zero : (c : ℕ) (r : List ℕ) → horner (c ∷ r) 0 ≡ c
unfolding horner
horner-zero c r = ap (λ v. bit_xor v c) (mul-zero (horner r 0)) ∙ zero-xor c

-- They are the same coefficients.
Agree-eq :
    (r s : List ℕ) (points : List (ℕ × ℕ))
    → Bytes r
    → Bytes s
    → length r ≡ length s
    → ArePoints points
    → DistinctPoints points
    → length r ≤ length points
    → Agree r s points
    → r ≡ s
Agree-eq [] [] points br bs same h d le e = refl
Agree-eq [] (b ∷ s) points br bs same h d le e = absurd (omega arith)
Agree-eq (c ∷ r) [] points br bs same h d le e = absurd (omega arith)
Agree-eq (c ∷ r) (b ∷ s) points br bs same h d le e =
    let heads : c ≡ b =
      sym (horner-zero c r)
      ∙ Agree-everywhere (c ∷ r) (b ∷ s) points br bs same h d le e 0 (omega arith)
      ∙ horner-zero b s in
    let e' : Agree (c ∷ r) (c ∷ s) points =
      subst (λ v. Agree (c ∷ r) (v ∷ s) points) (sym heads) e in
    ap₂ ◌∷◌ heads (
      Agree-eq r s points br.1 bs.1 (omega arith) h d (omega arith)
        (Agree-tail c r s points br.1 bs.1 h e'))

explained-Agree :
    (c : ℕ) (r s : List ℕ) (points : List (ℕ × ℕ))
    → All (λ (p : ℕ × ℕ). eval (c ∷ r) p.0 ≡ p.1) points
    → All (λ (p : ℕ × ℕ). eval (c ∷ s) p.0 ≡ p.1) points
    → Agree (c ∷ r) (c ∷ s) points
explained-Agree c r s [] a b = tt
explained-Agree c r s (p ∷ points) a b = (
  sym (eval-horner (c ∷ r) p.0) ∙ a.0 ∙ sym b.0 ∙ eval-horner (c ∷ s) p.0,
  explained-Agree c r s points a.1 b.1,
)

All-prop {ℓ} :
    {A : Type ℓ} {P : A → Type 0} → ((a : A) → IsProp (P a)) → (l : List A) → IsProp (All P l)
All-prop h [] = λ a b. refl
All-prop h (x ∷ l) = ×_prop (h x) (All-prop h l)

Explains-prop : (c k : ℕ) (points : List (ℕ × ℕ)) (r : List ℕ) → IsProp (Explains c k points r)
Explains-prop c k points r = λ a b i. (
  All-prop {P = λ n. n < 256} (λ n. le_prop) r a.0 b.0 i,
  hedberg ℕ_discrete (length r) k a.1 b.1 i,
  All-prop {P = λ (p : ℕ × ℕ). eval (c ∷ r) p.0 ≡ p.1}
      (λ p. hedberg ℕ_discrete (eval (c ∷ r) p.0) p.1) points a.2 b.2 i,
)

-- For bytes as values at distinct coordinates, which are bytes other than 0, and any byte as the secret there is
-- exactly one list of random bytes, as many as values, such that `eval` of the secret and the list has those values.
pub Explains-IsContr :
    (c : ℕ) (points : List (ℕ × ℕ))
    → c < 256
    → ArePoints points
    → DistinctPoints points
    → IsContr ((r : List ℕ) × Explains c (length points) points r)
Explains-IsContr c points b h d =
    let (r, x) = explain c (length points) points b h d (omega arith) in
    (
      (r, x),
      λ s. Σ_prop_path (Explains-prop c (length points) points) (
          Agree-eq s.0 r points s.1.0 x.0 (s.1.1 ∙ sym x.1) h d (omega (arith, s.1.1))
            (Agree-tail c s.0 r points s.1.0 x.0 h (explained-Agree c s.0 r points s.1.2 x.2))),
    )
