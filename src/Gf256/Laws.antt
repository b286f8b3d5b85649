-- ===== src/Gf256/Laws.antt =====
-- `gfMul` and `gfDiv` are the multiplication and division of a field whose addition is `^`.
use nft_soket.Base.{
  ℕ, zero, suc, ◌+◌, ◌-◌, ◌*◌, ◌%◌, ◌<◌, ◌≡◌, ◌≢◌, refl, sym, ap, ap₂, ◌∙◌, ◌≡⟨◌⟩◌, ◌∎, ◌⊎◌, inl,
  inr, none, some, bit_xor, ◌==◌, if◌then◌else◌, arith,
}
use native.Mathlib.Nat.{add_comm}
use nft_soket.Gf256.{fill, wrap, init, times_three, exp, log, gf_mul, gf_div}
use nft_soket.Gf256.Cycle.{
  exp-log, log_bound, log-exp, exp_bounds, exp-mod, exp-suc, times_three-xor,
}
use nft_soket.Base.Xor.{xor-byte}

zero-cases : (a : ℕ) → (a ≡ 0) ⊎ (a ≢ 0)
zero-cases zero = inl refl
zero-cases (suc a) = inr (λ e. omega arith)

pub gf_mul-byte : (a b : ℕ) → a < 256 → b < 256 → gf_mul a b < 256
unfolding gf_mul
gf_mul-byte a b p q = ground (arith, exp_bounds (log a + log b), log_bound a, log_bound b)

pub gf_mul_comm : (a b : ℕ) → gf_mul a b ≡ gf_mul b a
unfolding gf_mul
gf_mul_comm a b = ground (arith, ap exp (add_comm (log a) (log b)))

gf_mul-ne-zero : (a b : ℕ) → a ≢ 0 → b ≢ 0 → gf_mul a b ≡ exp (log a + log b)
unfolding gf_mul
gf_mul-ne-zero a b p q = ground arith

pub zero-mul : (a : ℕ) → gf_mul 0 a ≡ 0
unfolding gf_mul
zero-mul a = refl

pub mul-zero : (a : ℕ) → gf_mul a 0 ≡ 0
unfolding gf_mul
mul-zero a = ground arith

exp_congr : (i j : ℕ) → i < 512 → j < 512 → i % 255 ≡ j % 255 → exp i ≡ exp j
exp_congr i j p q e = exp-mod i p ∙ ap exp e ∙ sym (exp-mod j q)

-- Away from zero the product adds the logarithms modulo 255, and is not zero.
module _ (a b : ℕ) (p : a ≢ 0) (q : b ≢ 0) (r : a < 256) (s : b < 256) where
  sum_bound : log a + log b < 512
  sum_bound = omega (arith, log_bound a p r, log_bound b q s)

  log-mul : log (gf_mul a b) ≡ (log a + log b) % 255
  log-mul = ap log (gf_mul-ne-zero a b p q) ∙ log-exp (log a + log b) sum_bound

  mul-ne-zero : gf_mul a b ≢ 0
  mul-ne-zero e = omega (arith, exp_bounds (log a + log b) sum_bound, gf_mul-ne-zero a b p q)

-- The product of three, when no factor is zero.
module _ (a b c : ℕ) (p : a ≢ 0) (q : b ≢ 0) (r : c ≢ 0) where
  mul_assoc_ne_zero : a < 256 → b < 256 → c < 256 → gf_mul (gf_mul a b) c ≡ gf_mul a (gf_mul b c)
  mul_assoc_ne_zero s t u =
      gf_mul (gf_mul a b) c
      ≡⟨ gf_mul-ne-zero _ c (mul-ne-zero a b p q s t) r ⟩ exp (log (gf_mul a b) + log c)
      ≡⟨ exp_congr _ _ (omega (arith, bounds)) (omega (arith, bounds)) (omega (arith, bounds)) ⟩
        exp (log a + log (gf_mul b c))
      ≡⟨ sym (gf_mul-ne-zero a _ p (mul-ne-zero b c q r t u)) ⟩ gf_mul a (gf_mul b c) ∎
    where
      bounds :
          (log a < 255)
          × (log b < 255)
          × (log c < 255)
          × (log (gf_mul a b) ≡ (log a + log b) % 255)
          × (log (gf_mul b c) ≡ (log b + log c) % 255)
      bounds = (
        log_bound a p s,
        log_bound b q t,
        log_bound c r u,
        log-mul a b p q s t,
        log-mul b c q r t u,
      )

-- `gfMul` is associative on bytes.
pub gf_mul_assoc :
    (a b c : ℕ) → a < 256 → b < 256 → c < 256 → gf_mul (gf_mul a b) c ≡ gf_mul a (gf_mul b c)
gf_mul_assoc a b c s t u = elim (zero-cases a) [
  | inl p ↦ rw p (simp zero-mul)
  | inr p ↦ elim (zero-cases b) [
    | inl q ↦ rw q (simp (zero-mul, mul-zero))
    | inr q ↦ elim (zero-cases c) [
      | inl r ↦ rw r (simp mul-zero)
      | inr r ↦ mul_assoc_ne_zero a b c p q r s t u
    ]
  ]
]

exp-zero : exp 0 ≡ 1
unfolding exp init fill wrap times_three
exp-zero = refl

log-one : log 1 ≡ 0
log-one = ap log (sym exp-zero) ∙ log-exp 0 (omega arith)

pub one-mul : (a : ℕ) → a < 256 → gf_mul 1 a ≡ a
one-mul a s = elim (zero-cases a) [
  | inl p ↦ rw p (mul-zero 1)
  | inr p ↦
      gf_mul-ne-zero 1 a (λ e. omega arith) p ∙ ap exp (omega (arith, log-one)) ∙ exp-log a p s
]

-- The inverse, as `gfDiv` computes it: 255 minus the logarithm.
pub gf_inv : ℕ → ℕ
gf_inv b = if b == 0 then 0 else exp (255 - log b)

pub gf_inv-byte : (b : ℕ) → gf_inv b < 256
unfolding gf_inv
gf_inv-byte b = ground (arith, exp_bounds (255 - log b))

module _ (b : ℕ) (q : b ≢ 0) (s : b < 256) where
  inv-ne-zero : gf_inv b ≢ 0
  unfolding gf_inv
  inv-ne-zero e = ground (arith, exp_bounds (255 - log b))

  log-inv : log (gf_inv b) ≡ (255 - log b) % 255
  unfolding gf_inv
  log-inv = ground (arith, log-exp (255 - log b))

  pub mul-inv : gf_mul b (gf_inv b) ≡ 1
  mul-inv =
      gf_mul-ne-zero b (gf_inv b) q inv-ne-zero
      ∙ exp_congr _ 0 (omega (arith, log-inv, log_bound b q s)) (omega arith)
          (omega (arith, log-inv, log_bound b q s))
      ∙ exp-zero

  -- Division is multiplication by the inverse.
  pub div-eq-mul-inv : (a : ℕ) → a < 256 → gf_div a b ≡ some (gf_mul a (gf_inv b))
  unfolding gf_div
  div-eq-mul-inv a t = elim (zero-cases a) [
    | inl p ↦ rw p (ground (arith, zero-mul (gf_inv b)))
    | inr p ↦ ground (
      arith,
      gf_mul-ne-zero a (gf_inv b) p inv-ne-zero,
      exp_congr (log a + 255 - log b) (log a + log (gf_inv b)) (omega (arith, log_bound a p t))
          (omega (arith, log-inv, log_bound a p t))
          (omega (arith, log-inv, log_bound a p t, log_bound b q s)),
    )
  ]

-- `gfDiv` undoes `gfMul`: the product of two bytes divided by the second, when that is not zero, is
-- the first.
pub div-mul : (a b : ℕ) → a < 256 → b < 256 → b ≢ 0 → gf_div (gf_mul a b) b ≡ some a
div-mul a b s t q =
    div-eq-mul-inv b q t (gf_mul a b) (gf_mul-byte a b s t)
    ∙ ap some (
        gf_mul_assoc a b (gf_inv b) s t (gf_inv-byte b)
        ∙ ap (gf_mul a) (mul-inv b q t)
        ∙ gf_mul_comm a 1
        ∙ one-mul a s)

pub div-zero : (a : ℕ) → gf_div a 0 ≡ none
unfolding gf_div
div-zero a = refl

-- Multiplication by a power of 0x03 repeats the round of `init`, which is linear.
repeat_round : ℕ → ℕ → ℕ
repeat_round zero b = b
repeat_round (suc i) b = times_three (repeat_round i b)

repeat_round-zero : (i : ℕ) → repeat_round i 0 ≡ 0
unfolding repeat_round times_three
repeat_round-zero zero = refl
repeat_round-zero (suc i) = rw (repeat_round-zero i)

times_three-byte : (b : ℕ) → b < 256 → times_three b < 256
unfolding times_three
times_three-byte b h = ground (
  arith,
  xor-byte (b * 2 % 256) b,
  xor-byte (b * 2 % 256) 0x1b,
  xor-byte (bit_xor (b * 2 % 256) 0x1b) b,
)

repeat_round-byte : (i b : ℕ) → b < 256 → repeat_round i b < 256
unfolding repeat_round
repeat_round-byte zero b h = h
repeat_round-byte (suc i) b h = times_three-byte _ (repeat_round-byte i b h)

repeat_round-xor :
    (i a b : ℕ)
    → a < 256
    → b < 256
    → repeat_round i (bit_xor a b) ≡ bit_xor (repeat_round i a) (repeat_round i b)
unfolding repeat_round
repeat_round-xor zero a b p q = refl
repeat_round-xor (suc i) a b p q =
    ap times_three (repeat_round-xor i a b p q)
    ∙ times_three-xor _ _ (repeat_round-byte i a p) (repeat_round-byte i b q)

repeat_round-exp : (i j : ℕ) → i + j < 512 → repeat_round i (exp j) ≡ exp (i + j)
unfolding repeat_round
repeat_round-exp zero j h = ap exp (omega arith)
repeat_round-exp (suc i) j h =
    ap times_three (repeat_round-exp i j (omega arith))
    ∙ sym (exp-suc (i + j) (omega arith))
    ∙ ap exp (omega arith)

mul-repeat_round : (a b : ℕ) → a ≢ 0 → a < 256 → b < 256 → gf_mul a b ≡ repeat_round (log a) b
mul-repeat_round a b p s t = elim (zero-cases b) [
  | inl q ↦ rw q (mul-zero a ∙ sym (repeat_round-zero (log a)))
  | inr q ↦
      gf_mul-ne-zero a b p q
      ∙ sym (repeat_round-exp (log a) (log b) (sum_bound a b p q s t))
      ∙ ap (repeat_round (log a)) (exp-log b q t)
]

-- `gfMul` distributes over `^` on bytes.
pub mul-xor :
    (a b c : ℕ)
    → a < 256
    → b < 256
    → c < 256
    → gf_mul a (bit_xor b c) ≡ bit_xor (gf_mul a b) (gf_mul a c)
mul-xor a b c s t u = elim (zero-cases a) [
  | inl p ↦ rw p (simp zero-mul)
  | inr p ↦
      mul-repeat_round a _ p s (xor-byte b c t u)
      ∙ repeat_round-xor (log a) b c t u
      ∙ ap₂ bit_xor (sym (mul-repeat_round a b p s t)) (sym (mul-repeat_round a c p s u))
]
