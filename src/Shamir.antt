-- ===== src/Shamir.antt =====
-- core/shamir/shamir.go: `eval`, `Share`, `Split` and `Combine`. Bytes are numbers below 256.
-- `rand.Read` is the parameter `read`: the bytes that its k-th call writes, or `none` for an error.
pub mod Field
pub mod Deal
pub mod ByteShares
pub mod Secrecy
pub mod Hidden
pub mod Withheld
pub mod Unique
pub mod Recover
pub mod Secret
use nft_soket.Base.{
  ℕ, zero, suc, ◌+◌, ◌-◌, ◌%◌, Bool, false, not, ◌||◌, Option, none, some, List, [], ◌∷◌, map,
  bit_xor, ltb, ◌==◌, if◌then◌else◌, length, get_or, get_elem?, set, replicate,
}
use nft_soket.Base.Result.{Result, ok, err, ◌>>=◌, ◌>>◌, fail_if, or_fail}
use nft_soket.Base.Int.{ℤ, pos, pos_part, ltb_ℤ}
use nft_soket.Gf256.{gf_mul, gf_div}

-- The loop of `eval` from the high degree, with the rounds left: the next index is one less.
unfoldable pub eval_down : ℕ → List ℕ → ℕ → ℕ → ℕ
eval_down zero coeffs x result = result
eval_down (suc i) coeffs x result =
    eval_down i coeffs x (bit_xor (gf_mul result x) (get_or coeffs i 0))

unfoldable pub eval : List ℕ → ℕ → ℕ
unfolding eval_down
eval coeffs x = eval_down (length coeffs) coeffs x 0

pub record Share : Type 0 where
  pub x : ℕ
  pub y : List ℕ

-- The errors of both functions. The last two are panics: a zero divisor and an index out of range.
pub data Error : Type 0 where
  threshold_too_small parts_below_threshold too_many_parts empty_secret no_randomness : Error
  too_few_shares zero_coordinate duplicate_coordinate inconsistent_length : Error
  division_by_zero index_out_of_range : Error

-- Share{X: byte(i + 1), Y: make([]byte, len(secret))} for i from `from`, `count` times.
unfoldable pub blank_shares : ℕ → ℕ → ℕ → List Share
blank_shares zero from size = []
blank_shares (suc count) from size =
    record { x = (from + 1) % 256; y = replicate size 0 } ∷ blank_shares count (from + 1) size

-- shares[i].Y[byteIdx] = eval(coeffs, shares[i].X) for every share.
unfoldable pub write_byte : List ℕ → ℕ → List Share → List Share
write_byte coeffs byte_idx = map λ (s : Share). record s { y = set s.y byte_idx (eval coeffs s.x) }

-- The loop over the secret's bytes; each draws `degree` random coefficients behind the byte.
unfoldable pub deal :
    (ℕ → ℕ → Option (List ℕ)) → ℕ → ℕ → List ℕ → List Share → Result Error (List Share)
deal read degree byte_idx [] shares = ok shares
deal read degree byte_idx (b ∷ secret) shares = do
  random ← or_fail (read byte_idx degree) no_randomness
  deal read degree (byte_idx + 1) secret (write_byte (b ∷ random) byte_idx shares)

unfoldable pub split : (ℕ → ℕ → Option (List ℕ)) → List ℕ → ℤ → ℤ → Result Error (List Share)
split read secret parts threshold = do
  fail_if (ltb_ℤ threshold (pos 2)) threshold_too_small
  fail_if (ltb_ℤ parts threshold) parts_below_threshold
  fail_if (ltb_ℤ (pos 255) parts) too_many_parts
  fail_if (length secret == 0) empty_secret
  deal read (pos_part threshold - 1) 0 secret (blank_shares (pos_part parts) 0 (length secret))

unfoldable pub contains : List ℕ → ℕ → Bool
contains [] a = false
contains (b ∷ bs) a = a == b || contains bs a

-- The loop that checks the shares, with the x coordinates seen so far.
unfoldable pub check_shares : ℕ → List ℕ → List Share → Result Error Unit
check_shares size seen [] = ok tt
check_shares size seen (s ∷ shares) = do
  fail_if (s.x == 0) zero_coordinate
  fail_if (contains seen s.x) duplicate_coordinate
  fail_if (not (length s.y == size)) inconsistent_length
  check_shares size (s.x ∷ seen) shares

-- The loop over j: numerator and denominator of the basis polynomial of share i at 0.
unfoldable pub basis : ℕ → ℕ → ℕ → List Share → ℕ → ℕ → ℕ × ℕ
basis i xi j [] num den = (num, den)
basis i xi j (sj ∷ shares) num den =
    basis i xi (j + 1) shares (if i == j then num else gf_mul num sj.x)
      (if i == j then den else gf_mul den (bit_xor xi sj.x))

-- The loop over i, at one byte: acc ^= gfMul(si.Y[byteIdx], gfDiv(num, den)).
unfoldable pub interpolate : List Share → ℕ → ℕ → List Share → ℕ → Result Error ℕ
interpolate shares byte_idx i [] acc = ok acc
interpolate shares byte_idx i (si ∷ rest) acc = do
  let fraction = basis i si.x 0 shares 1 1
  y ← or_fail (get_elem? si.y byte_idx) index_out_of_range
  quotient ← or_fail (gf_div fraction.0 fraction.1) division_by_zero
  interpolate shares byte_idx (i + 1) rest (bit_xor acc (gf_mul y quotient))

-- The loop over the bytes, with the rounds left and the index.
unfoldable pub combine_bytes : List Share → ℕ → ℕ → Result Error (List ℕ)
combine_bytes shares zero byte_idx = ok []
combine_bytes shares (suc rounds) byte_idx = do
  acc ← interpolate shares byte_idx 0 shares 0
  rest ← combine_bytes shares rounds (byte_idx + 1)
  ok (acc ∷ rest)

abbrev first_size : List Share → ℕ
first_size [] = 0
first_size (s ∷ shares) = length s.y

unfoldable pub combine : List Share → Result Error (List ℕ)
combine shares = do
  fail_if (ltb (length shares) 2) too_few_shares
  check_shares (first_size shares) [] shares
  combine_bytes shares (first_size shares) 0
