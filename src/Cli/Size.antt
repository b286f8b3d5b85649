-- ===== src/Cli/Size.antt =====
-- Sizes in the commands: `humanBytes` of core/cmd/vaultctl/main.go and `parseSize` of
-- core/cmd/vaultadmin/main.go.
pub mod Bounds
use nft_soket.Base.{
  ℕ, zero, suc, ◌+◌, ◌*◌, ◌/◌, ◌^◌, ◌≤◌, ◌<◌, ◌≡◌, refl, ap, ◌∙◌, Bool, true, false, Option, none,
  some, List, [], ◌∷◌, ltb, if◌then◌else◌, ◌==◌, reverse, arith,
}
use nft_soket.Base.Int.{ℤ, pos, scale64}
use nft_soket.Base.Text.{Text, is_empty}
use nft_soket.Base.Strings.{trim_space, to_upper, parse_int}

-- The loop of `humanBytes` on x, with the rounds left: the divisor and the index of the unit.
unfoldable pub scale_down : ℕ → ℕ → ℕ → ℕ → ℕ × ℕ
scale_down zero x div exp = (div, exp)
scale_down (suc rounds) x div exp =
    let rest = scale_down rounds (x / 1024) (div * 1024) (exp + 1) in
    if ltb x 1024 then (div, exp) else rest

-- `humanBytes` of a size that is not negative: none for a number of bytes as it is, or the divisor and
-- the index into "KMGTPE". Six rounds are enough for an int64.
unfoldable pub human_bytes : ℕ → Option (ℕ × ℕ)
unfolding scale_down
human_bytes n = if ltb n 1024 then none else some (scale_down 6 (n / 1024) 1024 0)

-- The factor of a last letter, and the letters before it.
abbrev with_suffix : Text → ℕ → Text → ℕ × Text
with_suffix whole c before =
    if c == b'K'
    then (1024, reverse before)
    else if c == b'M'
    then (0x10_0000, reverse before)
    else if c == b'G'
    then (0x4000_0000, reverse before)
    else if c == b'T'
    then (0x100_0000_0000, reverse before)
    else (1, whole)

-- The letters backwards, to look at the last one.
abbrev split_suffix : Text → Text → ℕ × Text
split_suffix whole [] = (1, whole)
split_suffix whole (c ∷ before) = with_suffix whole c before

abbrev scaled : ℕ → Option ℤ → Option ℤ
scaled mult none = none
scaled mult (some n) = some (scale64 mult n)

-- `parseSize`; the product wraps.
unfoldable pub parse_size : Text → Option ℤ
parse_size text =
    let s = trim_space (to_upper text) in
    let (mult, digits) = split_suffix s (reverse s) in
    let n = parse_int (trim_space digits) in if is_empty s then some (pos 0) else scaled mult n
