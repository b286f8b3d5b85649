-- ===== src/Shamir/Secrecy.antt =====
-- What fewer shares than the threshold say of the secret, for core/shamir/shamir.go: at one byte.
use nft_soket.Base.{
  ℕ, zero, suc, ◌≤◌, ◌<◌, ◌≡◌, ◌≢◌, refl, sym, ap, ◌∙◌, List, [], ◌∷◌, bit_xor, length, All, arith,
}
use nft_soket.Base.Xor.{zero-xor}
use nft_soket.Gf256.{gf_mul}
use nft_soket.Gf256.Laws.{mul-zero}
use nft_soket.Lagrange.Weights.{Distinct}
use nft_soket.Lagrange.Interpolate.{IsPoly, IsPoly-le}
use nft_soket.Lagrange.Through.{abscissas, through}
use nft_soket.Shamir.{eval}
use nft_soket.Shamir.Field.{Byte, gf256, Bytes, horner, eval-horner}

-- Coordinates of shares, which are bytes other than 0, with byte values.
abbrev pub ArePoints : List (ℕ × ℕ) → Type 0
ArePoints = All λ p. (p.0 ≢ 0) × (p.0 < 256) × (p.1 < 256)

abbrev pub DistinctPoints : List (ℕ × ℕ) → Type 0
DistinctPoints [] = Unit
DistinctPoints (p ∷ points) = All (λ (q : ℕ × ℕ). p.0 ≢ q.0) points × DistinctPoints points

-- Random coefficients behind the byte c for which the shares have these values.
abbrev pub Explains : ℕ → ℕ → List (ℕ × ℕ) → List ℕ → Type 0
Explains c k points r =
    Bytes r × (length r ≡ k) × All (λ (p : ℕ × ℕ). eval (c ∷ r) p.0 ≡ p.1) points

-- The coefficients of a polynomial function.
coefficients : (n : ℕ) (f : Byte → Byte) → IsPoly gf256 n f → List ℕ
coefficients zero f p = []
coefficients (suc n) f p = p.0.0 ∷ coefficients n p.1 p.2

coefficients-Bytes : (n : ℕ) (f : Byte → Byte) (p : IsPoly gf256 n f) → Bytes (coefficients n f p)
unfolding coefficients
coefficients-Bytes zero f p = tt
coefficients-Bytes (suc n) f p = (p.0.1, coefficients-Bytes n p.1 p.2)

length-coefficients :
    (n : ℕ) (f : Byte → Byte) (p : IsPoly gf256 n f) → length (coefficients n f p) ≡ n
unfolding coefficients
length-coefficients zero f p = refl
length-coefficients (suc n) f p = ap suc (length-coefficients n p.1 p.2)

horner-coefficients :
    (n : ℕ) (f : Byte → Byte) (p : IsPoly gf256 n f) (x : Byte)
    → horner (coefficients n f p) x.0 ≡ (f x).0
unfolding coefficients horner
horner-coefficients zero f p x = sym (ap (λ (b : Byte). b.0) (p x))
horner-coefficients (suc n) f p x =
    ap (λ v. bit_xor (gf_mul v x.0) p.0.0) (horner-coefficients n p.1 p.2 x)
    ∙ sym (ap (λ (b : Byte). b.0) (p.3 x))

-- The points as pairs of field elements.
unfoldable pub as_bytes : (points : List (ℕ × ℕ)) → ArePoints points → List (Byte × Byte)
as_bytes [] h = []
as_bytes (p ∷ points) h = ((p.0, h.0.1), (p.1, h.0.2)) ∷ as_bytes points h.1

pub length-as_bytes :
    (points : List (ℕ × ℕ)) (h : ArePoints points) → length (as_bytes points h) ≡ length points
unfolding as_bytes
length-as_bytes [] h = refl
length-as_bytes (p ∷ points) h = ap suc (length-as_bytes points h.1)

All-ne-as_bytes :
    (x : ℕ) (b : x < 256) (points : List (ℕ × ℕ)) (h : ArePoints points)
    → All (λ (q : ℕ × ℕ). x ≢ q.0) points
    → All (λ (z : Byte). ◌≢◌ {A = Byte} (x, b) z) (abscissas gf256 (as_bytes points h))
unfolding as_bytes
All-ne-as_bytes x b [] h d = tt
All-ne-as_bytes x b (p ∷ points) h d =
    ((λ e. d.0 (ap (λ (c : Byte). c.0) e)), All-ne-as_bytes x b points h.1 d.1)

pub Distinct-as_bytes :
    (points : List (ℕ × ℕ)) (h : ArePoints points)
    → DistinctPoints points
    → Distinct gf256 (abscissas gf256 (as_bytes points h))
unfolding as_bytes
Distinct-as_bytes [] h d = tt
Distinct-as_bytes (p ∷ points) h d =
    (All-ne-as_bytes p.0 h.0.1 points h.1 d.0, Distinct-as_bytes points h.1 d.1)

nonzero : (points : List (ℕ × ℕ)) → ArePoints points → All (λ (q : ℕ × ℕ). 0 ≢ q.0) points
nonzero [] h = tt
nonzero (p ∷ points) h = ((λ e. h.0.0 (sym e)), nonzero points h.1)

values-at :
    (c : ℕ) (r : List ℕ) (f : Byte → Byte) (points : List (ℕ × ℕ)) (h : ArePoints points)
    → ((x : Byte) → horner (c ∷ r) x.0 ≡ (f x).0)
    → All (λ (p : Byte × Byte). f p.0 ≡ p.1) (as_bytes points h)
    → All (λ (p : ℕ × ℕ). eval (c ∷ r) p.0 ≡ p.1) points
unfolding as_bytes
values-at c r f [] h e v = tt
values-at c r f (p ∷ points) h e v = (
  eval-horner (c ∷ r) p.0 ∙ e (p.0, h.0.1) ∙ ap (λ (b : Byte). b.0) v.0,
  values-at c r f points h.1 e v.1,
)

-- Shares that are not more than the random coefficients fit every byte.
pub explain :
    (c m : ℕ) (points : List (ℕ × ℕ))
    → c < 256
    → ArePoints points
    → DistinctPoints points
    → length points ≤ m
    → (r : List ℕ) × Explains c m points r
unfolding coefficients horner
explain c m points b h d le =
    let origin : Byte × Byte = ((0, omega arith), (c, b)) in
    let all = as_bytes points h in
    let (f, p, at) =
      through gf256 (origin ∷ all) (λ e. omega (arith, ap (λ (x : Byte). x.0) e))
        (
          All-ne-as_bytes 0 (omega arith) points h (nonzero points h),
          Distinct-as_bytes points h d,
        ) in
    let q =
      IsPoly-le gf256 (suc (length all)) (suc m) f (omega (arith, length-as_bytes points h)) p in
    let r = coefficients m q.1 q.2 in
    let run : (x : Byte) → horner (q.0.0 ∷ r) x.0 ≡ (f x).0 = horner-coefficients (suc m) f q in
    let first : q.0.0 ≡ c =
      sym (ap (λ v. bit_xor v q.0.0) (mul-zero (horner r 0)) ∙ zero-xor q.0.0)
      ∙ run (0, omega arith)
      ∙ ap (λ (x : Byte). x.0) at.0 in
    (
      r,
      (
        coefficients-Bytes m q.1 q.2,
        length-coefficients m q.1 q.2,
        values-at c r f points h (λ x. ap (λ k. horner (k ∷ r) x.0) (sym first) ∙ run x) at.1,
      ),
    )
