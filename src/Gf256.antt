-- ===== src/Gf256.antt =====
-- The arithmetic of GF(256) in core/shamir/shamir.go: the tables that `init` fills, `gfMul`, `gfDiv`.
-- A byte is a number below 256; a shift wraps modulo 256.
mod Cycle
pub mod Laws
use nft_soket.Base.{
  ℕ, zero, suc, ◌+◌, ◌-◌, ◌*◌, ◌%◌, ◌||◌, Option, none, some, List, [], ◌∷◌, bit_xor, ltb, ◌==◌,
  if◌then◌else◌, get_or, set, replicate,
}

-- One round of `init`: x is doubled, reduced by 0x1b if a bit was lost, and added to itself.
unfoldable pub times_three : ℕ → ℕ
times_three x = bit_xor (if ltb x 128 then x * 2 % 256 else bit_xor (x * 2 % 256) 0x1b) x

pub record Tables : Type 0 where
  pub gf_exp : List ℕ
  pub gf_log : List ℕ

-- The first loop, with the rounds left, i and x: gfExp[i] = x; gfLog[x] = byte(i).
unfoldable pub fill : ℕ → ℕ → ℕ → Tables → Tables
fill zero i x t = t
fill (suc rounds) i x t =
    fill rounds (i + 1) (times_three x)
      (record { gf_exp = set t.gf_exp i x; gf_log = set t.gf_log x (i % 256) })

-- The second loop: gfExp[i] = gfExp[i-255] for i from 255 to 511.
unfoldable pub wrap : ℕ → ℕ → List ℕ → List ℕ
wrap zero i e = e
wrap (suc rounds) i e = wrap rounds (i + 1) (set e i (get_or e (i - 255) 0))

unfoldable pub init : Tables
unfolding fill wrap times_three
init =
    let t = fill 255 0 1 (record { gf_exp = replicate 512 0; gf_log = replicate 256 0 }) in
    record { gf_exp = wrap 257 255 t.gf_exp; gf_log = t.gf_log }

unfoldable pub exp : ℕ → ℕ
exp i = get_or init.gf_exp i 0

unfoldable pub log : ℕ → ℕ
log a = get_or init.gf_log a 0

unfoldable pub gf_mul : ℕ → ℕ → ℕ
gf_mul a b = if a == 0 || b == 0 then 0 else exp (log a + log b)

-- `none` is the panic on a zero divisor. The index is an int: log a - log b + 255 is not negative.
unfoldable pub gf_div : ℕ → ℕ → Option ℕ
gf_div a b = if b == 0 then none else if a == 0 then some 0 else some (exp (log a + 255 - log b))
