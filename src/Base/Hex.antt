-- ===== src/Base/Hex.antt =====
-- encoding/hex: two lowercase digits a byte. Decoding takes both cases and fails on any other byte.
use Prim.Native.Nat.{ℕ, ◌+◌, ◌-◌, ◌*◌, ◌/◌, ◌%◌, ◌<◌}
use mathlib.Core.Path.{◌≡◌, refl}
use mathlib.Core.Bool.{◌&&◌}
use mathlib.Core.List.{List, [], ◌∷◌}
use mathlib.Core.Option.{Option, none, some}
use native.Mathlib.Omega.{arith}
use nft_soket.Base.Tests.{ltb, leb, if◌then◌else◌}
use nft_soket.Base.Lists.{All}

unfoldable pub hex_digit : ℕ → ℕ
hex_digit n = if ltb n 10 then b'0' + n else b'a' + (n - 10)

unfoldable pub hex_encode : List ℕ → List ℕ
hex_encode [] = []
hex_encode (b ∷ bs) = hex_digit (b / 16) ∷ hex_digit (b % 16) ∷ hex_encode bs

unfoldable pub from_digit : ℕ → Option ℕ
from_digit c =
    if leb b'0' c && leb c b'9'
    then some (c - b'0')
    else if leb b'a' c && leb c b'f'
    then some (c - b'a' + 10)
    else if leb b'A' c && leb c b'F'
    then some (c - b'A' + 10)
    else none

abbrev join_digits : Option ℕ → Option ℕ → Option (List ℕ) → Option (List ℕ)
join_digits (some h) (some l) (some bs) = some ((h * 16 + l) ∷ bs)
join_digits (some h) (some l) none = none
join_digits (some h) none r = none
join_digits none l r = none

unfoldable pub hex_decode : List ℕ → Option (List ℕ)
unfolding from_digit
hex_decode [] = some []
hex_decode (h ∷ []) = none
hex_decode (h ∷ l ∷ cs) = join_digits (from_digit h) (from_digit l) (hex_decode cs)

from_digit-hex_digit : (n : ℕ) → n < 16 → from_digit (hex_digit n) ≡ some n
unfolding from_digit hex_digit
from_digit-hex_digit n h = ground arith

-- Decoding undoes encoding.
pub hex_decode-hex_encode :
    (bs : List ℕ) → All (λ b. b < 256) bs → hex_decode (hex_encode bs) ≡ some bs
unfolding hex_encode hex_decode
hex_decode-hex_encode [] h = refl
hex_decode-hex_encode (b ∷ bs) h = ground (
  arith,
  from_digit-hex_digit (b / 16) (omega arith),
  from_digit-hex_digit (b % 16) (omega arith),
  hex_decode-hex_encode bs h.1,
)
