-- ===== src/Base/Xor.antt =====
-- The laws of `bit_xor` at variables, from the recursion on binary digits that it stands for.
use Prim.Native.Nat.{
  ℕ, zero, suc, ◌+◌, ◌-◌, ◌*◌, ◌/◌, ◌%◌, ◌^◌, ◌≤◌, ◌<◌, bit_xor, digits, differ, bit_xor-bitwise,
}
use mathlib.Core.Path.{◌≡◌, refl, sym, ap, ◌∙◌, ◌≡⟨◌⟩◌, ◌∎}
use native.Mathlib.Omega.{arith}
use native.Mathlib.Nat.{pow-suc}

-- The digits of the exclusive or, with a number of rounds.
abbrev xor_digits : ℕ → ℕ → ℕ → ℕ
xor_digits rounds a b = digits (λ y. y) differ rounds a b

-- Another round changes nothing where there is one for each unit of the first number.
another_round : (rounds a b : ℕ) → a ≤ rounds → xor_digits (suc rounds) a b ≡ xor_digits rounds a b
another_round zero zero b h = refl
another_round zero (suc a) b h = absurd (omega (arith, h))
another_round (suc rounds) zero b h = refl
another_round (suc rounds) (suc a) b h =
    let half : suc a / 2 ≤ rounds = omega (arith, h) in
    ap (λ (d : ℕ). d * 2 + differ (suc a % 2) (b % 2))
      (another_round rounds (suc a / 2) (b / 2) half)

more_rounds : (more a b : ℕ) → xor_digits (a + more) a b ≡ xor_digits a a b
more_rounds zero a b = ap (λ (r : ℕ). xor_digits r a b) (omega arith)
more_rounds (suc more) a b =
    let next : a + suc more ≡ suc (a + more) = omega arith in
    ap (λ (r : ℕ). xor_digits r a b) next
    ∙ another_round (a + more) a b (omega arith)
    ∙ more_rounds more a b

-- After the lowest digit, halves are left; they need fewer rounds than remain.
xor_digits-suc :
    (a b : ℕ)
    → xor_digits (suc a) (suc a) b
      ≡ xor_digits (suc a / 2) (suc a / 2) (b / 2) * 2 + differ (suc a % 2) (b % 2)
xor_digits-suc a b =
    let half = suc a / 2 in
    let rounds : a ≡ half + (a - half) = omega arith in
    ap (λ (r : ℕ). xor_digits r half (b / 2) * 2 + differ (suc a % 2) (b % 2)) rounds
    ∙ ap (λ (d : ℕ). d * 2 + differ (suc a % 2) (b % 2)) (more_rounds (a - half) half (b / 2))

-- Exclusive or of two digits is their sum modulo 2.
differ-eq-mod : (a b : ℕ) → a < 2 → b < 2 → differ a b ≡ (a + b) % 2
differ-eq-mod zero b p q = omega arith
differ-eq-mod (suc zero) zero p q = refl
differ-eq-mod (suc zero) (suc zero) p q = refl
differ-eq-mod (suc zero) (suc (suc b)) p q = absurd (omega arith)
differ-eq-mod (suc (suc a)) b p q = absurd (omega arith)

pub zero-xor : (b : ℕ) → bit_xor 0 b ≡ b
zero-xor b = bit_xor-bitwise 0 b

pub xor_step : (a b : ℕ) → bit_xor a b ≡ bit_xor (a / 2) (b / 2) * 2 + (a + b) % 2
xor_step zero b = omega (arith, zero-xor b, zero-xor (b / 2))
xor_step (suc a) b = omega (
  arith,
  bit_xor-bitwise (suc a) b,
  bit_xor-bitwise (suc a / 2) (b / 2),
  xor_digits-suc a b,
  differ-eq-mod (suc a % 2) (b % 2) (omega arith) (omega arith),
)

-- The recursion is on a bound of the numbers, which halve.
xor_comm_below : (n a b : ℕ) → a ≤ n → b ≤ n → bit_xor a b ≡ bit_xor b a
xor_comm_below zero zero zero p q = refl
xor_comm_below zero (suc a) b p q = absurd (omega arith)
xor_comm_below zero zero (suc b) p q = absurd (omega arith)
xor_comm_below (suc n) a b p q = omega (
  arith,
  xor_step a b,
  xor_step b a,
  xor_comm_below n (a / 2) (b / 2) (omega arith) (omega arith),
)

pub xor_comm : (a b : ℕ) → bit_xor a b ≡ bit_xor b a
xor_comm a b = xor_comm_below (a + b) a b (omega arith) (omega arith)

pub xor-zero : (a : ℕ) → bit_xor a 0 ≡ a
xor-zero a = omega (arith, xor_comm a 0, zero-xor a)

xor_assoc_below :
    (n a b c : ℕ) → a ≤ n → b ≤ n → c ≤ n → bit_xor (bit_xor a b) c ≡ bit_xor a (bit_xor b c)
xor_assoc_below zero zero zero c p q r = simp zero-xor
xor_assoc_below zero (suc a) b c p q r = absurd (omega arith)
xor_assoc_below zero zero (suc b) c p q r = absurd (omega arith)
xor_assoc_below (suc n) a b c p q r =
    let ab : bit_xor a b / 2 ≡ bit_xor (a / 2) (b / 2) = omega (arith, xor_step a b) in
    let bc : bit_xor b c / 2 ≡ bit_xor (b / 2) (c / 2) = omega (arith, xor_step b c) in
    let left = ap (λ (t : ℕ). bit_xor t (c / 2)) ab in
    let right = ap (λ (t : ℕ). bit_xor (a / 2) t) bc in
    omega (
      arith,
      xor_step a b,
      xor_step b c,
      xor_step (bit_xor a b) c,
      xor_step a (bit_xor b c),
      left,
      right,
      xor_assoc_below n (a / 2) (b / 2) (c / 2) (omega arith) (omega arith) (omega arith),
    )

pub xor_assoc : (a b c : ℕ) → bit_xor (bit_xor a b) c ≡ bit_xor a (bit_xor b c)
xor_assoc a b c = xor_assoc_below (a + b + c) a b c (omega arith) (omega arith) (omega arith)

xor_self_below : (n a : ℕ) → a ≤ n → bit_xor a a ≡ 0
xor_self_below n zero p = refl
xor_self_below zero (suc a) p = absurd (omega arith)
xor_self_below (suc n) (suc a) p =
    omega (arith, xor_step (suc a) (suc a), xor_self_below n (suc a / 2) (omega arith))

pub xor_self : (a : ℕ) → bit_xor a a ≡ 0
xor_self a = xor_self_below a a (omega arith)

-- Numbers of `k` bits are closed under exclusive or.
pub xor_bound : (k a b : ℕ) → a < 2 ^ k → b < 2 ^ k → bit_xor a b < 2 ^ k
xor_bound zero zero zero p q = omega arith
xor_bound zero zero (suc b) p q = absurd (omega arith)
xor_bound zero (suc a) b p q = absurd (omega arith)
xor_bound (suc k) a b p q = omega (
  arith,
  pow-suc 2 k,
  xor_step a b,
  xor_bound k (a / 2) (b / 2) (omega (arith, pow-suc 2 k)) (omega (arith, pow-suc 2 k)),
)

pub xor-byte : (a b : ℕ) → a < 256 → b < 256 → bit_xor a b < 256
xor-byte a b p q = xor_bound 8 a b p q

-- Two numbers differ exactly when their exclusive or is not zero.
pub xor-eq-zero : (a b : ℕ) → bit_xor a b ≡ 0 → a ≡ b
xor-eq-zero a b h =
    a
    ≡⟨ sym (xor-zero a) ⟩ bit_xor a 0
    ≡⟨ ap (bit_xor a) (sym (xor_self b)) ⟩ bit_xor a (bit_xor b b)
    ≡⟨ sym (xor_assoc a b b) ⟩ bit_xor (bit_xor a b) b
    ≡⟨ ap (λ (t : ℕ). bit_xor t b) h ⟩ bit_xor 0 b
    ≡⟨ zero-xor b ⟩ b ∎
