-- ===== src/Cli/Size/Bounds.antt =====
-- The unit that `humanBytes` of core/cmd/vaultctl/main.go picks.
use native.Mathlib.Nat.{mul-le-mul_left, mul_assoc}
use nft_soket.Base.{
  ℕ, zero, suc, ◌+◌, ◌*◌, ◌/◌, ◌≤◌, ◌<◌, ◌≡◌, refl, ap, ◌∙◌, some, ltb, arith, Bool-cases, inl, inr,
}
use nft_soket.Cli.Size.{scale_down, human_bytes}

-- 1024 to the power of k.
abbrev pub kibi : ℕ → ℕ
kibi zero = 1
kibi (suc k) = kibi k * 1024

-- The divisor is the unit's size, and the quotient has less than four digits in base 1024.
abbrev pub IsUnitOf : ℕ → ℕ × ℕ → Type 0
IsUnitOf n (div, exp) = (div ≡ kibi (suc exp)) × (div ≤ n) × (n < 1024 * div)

-- What holds of x, div and exp in each round.
record Scaled (n x div exp : ℕ) : Type 0 where
  unit : div ≡ kibi (suc exp)
  positive : 1 ≤ x
  lower : div * x ≤ n
  upper : n < div * (x + 1)

Scaled-next :
    (n x div exp : ℕ) → 1024 ≤ x → Scaled n x div exp → Scaled n (x / 1024) (div * 1024) (exp + 1)
Scaled-next n x div exp big h =
    let y = x / 1024 in
    let low : div * (1024 * y) ≤ div * x = mul-le-mul_left div (omega arith) in
    let high : div * (x + 1) ≤ div * (1024 * (y + 1)) = mul-le-mul_left div (omega arith) in
    let a : div * 1024 * y ≡ div * (1024 * y) = mul_assoc div 1024 y in
    let b : div * 1024 * (y + 1) ≡ div * (1024 * (y + 1)) = mul_assoc div 1024 (y + 1) in
    let lower = h.lower in
    let upper = h.upper in
    let unit = h.unit in
    record {
      unit = ap (λ d. d * 1024) (unit ∙ ap kibi {x = suc exp} {y = exp + 1} (omega arith));
      positive = omega arith;
      lower = omega arith;
      upper = omega arith;
    }

Scaled-end : (n x div exp : ℕ) → x < 1024 → Scaled n x div exp → IsUnitOf n (div, exp)
Scaled-end n x div exp small h =
    let low : div * 1 ≤ div * x = mul-le-mul_left div h.positive in
    let high : div * (x + 1) ≤ div * 1024 = mul-le-mul_left div (omega arith) in
    let lower = h.lower in let upper = h.upper in (h.unit, omega arith, omega arith)

-- With enough rounds the loop ends by its own test, and each round takes the next unit.
scale_down-IsUnitOf :
    (rounds n x div exp : ℕ)
    → x < kibi rounds
    → Scaled n x div exp
    → IsUnitOf n (scale_down rounds x div exp) × ((scale_down rounds x div exp).1 < exp + rounds)
unfolding scale_down
scale_down-IsUnitOf zero n x div exp few h = absurd (omega (arith, h.positive))
scale_down-IsUnitOf (suc rounds) n x div exp few h = elim (Bool-cases (ltb x 1024)) [
  | inl small ↦
      let last = Scaled-end n x div exp (ground (arith, small)) h in
      ground (arith, small, last.0, last.1, last.2)
  | inr big ↦
      let rest =
        scale_down-IsUnitOf rounds n (x / 1024) (div * 1024) (exp + 1) (omega arith)
          (Scaled-next n x div exp (ground (arith, big)) h) in
      ground (arith, big, rest.0.0, rest.0.1, rest.0.2, rest.1)
]

-- For an int64 from 1024 on, the loop of `humanBytes` ends, its divisor does not overflow and is the
-- size of the unit at the index, which is a place of "KMGTPE", and the size is at least one and less
-- than 1024 of that unit.
pub human_bytes-IsUnitOf :
    (n : ℕ)
    → 1024 ≤ n
    → n < 0x8000_0000_0000_0000
    → (div : ℕ) × (exp : ℕ) × (human_bytes n ≡ some (div, exp))
      × IsUnitOf n (div, exp)
      × (exp < 6)
      × (div < 0x8000_0000_0000_0000)
unfolding human_bytes
human_bytes-IsUnitOf n big limit =
    let out = scale_down 6 (n / 1024) 1024 0 in
    let ends =
      scale_down-IsUnitOf 6 n (n / 1024) 1024 0 (omega arith) (record {
        unit = refl;
        positive = omega arith;
        lower = omega arith;
        upper = omega arith;
      }) in
    (out.0, out.1, ground arith, ends.0, ends.1, omega (arith, ends.0.1))
