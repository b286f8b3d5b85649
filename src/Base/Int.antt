-- ===== src/Base/Int.antt =====
-- Signed integers over the native numbers, and Go's int64: an integer that wraps.
use Prim.Native.Nat.{ℕ, suc, ◌+◌, ◌-◌, ◌*◌, ◌%◌, ◌≤◌, ◌<◌}
use mathlib.Core.Path.{◌≡◌}
use mathlib.Core.Bool.{Bool, false}
use native.Mathlib.Omega.{arith}
use nft_soket.Base.Tests.{ltb, leb, if◌then◌else◌}

-- `negsuc n` is -(n + 1).
pub data ℤ : Type 0 where
  pos : ℕ → ℤ
  negsuc : ℕ → ℤ

abbrev pub pos_part : ℤ → ℕ
pos_part (pos n) = n
pos_part (negsuc n) = 0

abbrev pub neg_part : ℤ → ℕ
neg_part (pos n) = 0
neg_part (negsuc n) = suc n

-- a - b, as an integer.
abbrev pub sub_ℕ : ℕ → ℕ → ℤ
sub_ℕ a b = if leb b a then pos (a - b) else negsuc (b - a - 1)

infixl 65 ◌+ℤ◌ ◌-ℤ◌
infix 50 ◌≤ℤ◌ ◌<ℤ◌
unfoldable pub ◌+ℤ◌ : ℤ → ℤ → ℤ
a +ℤ b = sub_ℕ (pos_part a + pos_part b) (neg_part a + neg_part b)

unfoldable pub ◌-ℤ◌ : ℤ → ℤ → ℤ
a -ℤ b = sub_ℕ (pos_part a + neg_part b) (neg_part a + pos_part b)

abbrev pub ◌≤ℤ◌ : ℤ → ℤ → Type 0
a ≤ℤ b = pos_part a + neg_part b ≤ pos_part b + neg_part a

abbrev pub ◌<ℤ◌ : ℤ → ℤ → Type 0
a <ℤ b = pos_part a + neg_part b < pos_part b + neg_part a

abbrev pub ltb_ℤ : ℤ → ℤ → Bool
ltb_ℤ a b = ltb (pos_part a + neg_part b) (pos_part b + neg_part a)

abbrev pub leb_ℤ : ℤ → ℤ → Bool
leb_ℤ a b = leb (pos_part a + neg_part b) (pos_part b + neg_part a)

pub +ℤ_parts :
    (a b : ℤ)
    → pos_part (a +ℤ b) + neg_part a + neg_part b ≡ neg_part (a +ℤ b) + pos_part a + pos_part b
unfolding ◌+ℤ◌
+ℤ_parts a b = ground arith

pub -ℤ_parts :
    (a b : ℤ)
    → pos_part (a -ℤ b) + neg_part a + pos_part b ≡ neg_part (a -ℤ b) + pos_part a + neg_part b
unfolding ◌-ℤ◌
-ℤ_parts a b = ground arith

pub eq_of_parts : (a b : ℤ) → pos_part a + neg_part b ≡ pos_part b + neg_part a → a ≡ b
eq_of_parts a b h = ground arith

-- The least number that an int64 cannot hold.
abbrev pub int64_limit : ℕ
int64_limit = 0x8000_0000_0000_0000

-- An integer in the range of an int64.
abbrev pub InInt64 : ℤ → Type 0
InInt64 a = (pos_part a < int64_limit) × (neg_part a ≤ int64_limit)

-- The int64 that a bit pattern, taken modulo 2 ^ 64, stands for.
abbrev of_bits : ℕ → ℤ
of_bits n = if ltb n int64_limit then pos n else negsuc (2 * int64_limit - n - 1)

-- An exact result cut to 64 bits, as Go's integer arithmetic does.
unfoldable pub wrap64 : ℤ → ℤ
wrap64 (pos n) = of_bits (n % (2 * int64_limit))
wrap64 (negsuc n) = of_bits (2 * int64_limit - 1 - n % (2 * int64_limit))

unfoldable pub add64 : ℤ → ℤ → ℤ
add64 a b = wrap64 (a +ℤ b)

unfoldable pub sub64 : ℤ → ℤ → ℤ
sub64 a b = wrap64 (a -ℤ b)

pub wrap64-InInt64 : (a : ℤ) → InInt64 (wrap64 a)
unfolding wrap64
wrap64-InInt64 a = ground arith

-- Within the range nothing is cut.
pub wrap64_exact : (a : ℤ) → InInt64 a → wrap64 a ≡ a
unfolding wrap64
wrap64_exact a h = ground arith

abbrev pub is_zero_ℤ : ℤ → Bool
is_zero_ℤ (pos n) = leb n 0
is_zero_ℤ (negsuc n) = false

pub add64_exact : (a b : ℤ) → InInt64 (a +ℤ b) → add64 a b ≡ a +ℤ b
unfolding add64
add64_exact a b h = wrap64_exact (a +ℤ b) h

pub sub64_exact : (a b : ℤ) → InInt64 (a -ℤ b) → sub64 a b ≡ a -ℤ b
unfolding sub64
sub64_exact a b h = wrap64_exact (a -ℤ b) h

pub ltb_ℤ→le : (a b : ℤ) → ltb_ℤ a b ≡ false → b ≤ℤ a
ltb_ℤ→le a b h = ground arith

pub ruleset int_laws = (arith, +ℤ_parts, -ℤ_parts, eq_of_parts)

-- The sum of two int64 that are not negative is negative where it passes the range.
pub add64_overflow :
    (a b : ℤ)
    → pos 0 ≤ℤ a
    → pos 0 ≤ℤ b
    → InInt64 a
    → InInt64 b
    → pos int64_limit ≤ℤ a +ℤ b
    → add64 a b <ℤ pos 0
unfolding add64 ◌+ℤ◌ wrap64
add64_overflow a b p q r s over = ground arith

-- The difference of two int64 that are not negative is an int64.
pub difference-InInt64 :
    (a b : ℤ) → pos 0 ≤ℤ a → pos 0 ≤ℤ b → InInt64 a → InInt64 b → InInt64 (a -ℤ b)
unfolding ◌-ℤ◌
difference-InInt64 a b p q r s = ground arith

pub not_negative→ltb : (a : ℤ) → pos 0 ≤ℤ a → ltb_ℤ a (pos 0) ≡ false
not_negative→ltb a h = ground arith

pub cancel_ℤ :
    (a b : ℤ) → pos 0 ≤ℤ a → (if ltb_ℤ (a +ℤ b -ℤ b) (pos 0) then pos 0 else a +ℤ b -ℤ b) ≡ a
unfolding ◌+ℤ◌ ◌-ℤ◌
cancel_ℤ a b h = ground arith

-- A product with a natural number, as int64.
unfoldable pub scale64 : ℕ → ℤ → ℤ
scale64 k (pos n) = wrap64 (pos (k * n))
scale64 k (negsuc n) = wrap64 (pos 0 -ℤ pos (k * suc n))
