-- ===== src/Base/Strings.antt =====
-- What the program uses of Go's packages strings and strconv, on ASCII.
use Prim.Native.Nat.{ℕ, ◌+◌, ◌-◌, ◌*◌}
use mathlib.Core.Bool.{Bool, true, false, ◌&&◌, ◌||◌}
use mathlib.Core.List.{List, [], ◌∷◌, reverse}
use mathlib.Core.Option.{Option, none, some}
use nft_soket.Base.Tests.{◌==◌, if◌then◌else◌, leb, ltb}
use nft_soket.Base.Int.{ℤ, pos, int64_limit, ◌-ℤ◌}
use nft_soket.Base.Text.{Text}

-- unicode.IsSpace on ASCII.
unfoldable pub is_space : ℕ → Bool
is_space c = c == 32 || (leb 9 c && leb c 13)

unfoldable pub trim_left : Text → Text
unfolding is_space
trim_left [] = []
trim_left (c ∷ cs) = let rest = trim_left cs in if is_space c then rest else c ∷ cs

-- strings.TrimSpace.
unfoldable pub trim_space : Text → Text
unfolding trim_left
trim_space s = reverse (trim_left (reverse (trim_left s)))

abbrev cons_first : ℕ → List Text → List Text
cons_first c [] = (c ∷ []) ∷ []
cons_first c (part ∷ parts) = (c ∷ part) ∷ parts

-- strings.Split(h, ",").
unfoldable pub split_commas : Text → List Text
split_commas [] = [] ∷ []
split_commas (c ∷ cs) =
    let rest = split_commas cs in if c == b',' then [] ∷ rest else cons_first c rest

unfoldable pub drop_slashes : Text → Text
drop_slashes [] = []
drop_slashes (c ∷ cs) = let rest = drop_slashes cs in if c == b'/' then rest else c ∷ cs

-- strings.TrimRight(s, "/").
unfoldable pub trim_right_slashes : Text → Text
unfolding drop_slashes
trim_right_slashes s = reverse (drop_slashes (reverse s))

-- strings.ToLower on ASCII.
unfoldable pub to_lower : Text → Text
to_lower [] = []
to_lower (c ∷ cs) = (if leb b'A' c && leb c b'Z' then c + 32 else c) ∷ to_lower cs

-- strings.ToUpper on ASCII.
unfoldable pub to_upper : Text → Text
to_upper [] = []
to_upper (c ∷ cs) = (if leb b'a' c && leb c b'z' then c - 32 else c) ∷ to_upper cs

-- strconv.ParseInt(s, 10, 64).
unfoldable pub parse_digits : Text → ℕ → Option ℕ
parse_digits [] n = some n
parse_digits (c ∷ cs) n =
    let rest = parse_digits cs (n * 10 + (c - b'0')) in
    if leb b'0' c && leb c b'9' then rest else none

abbrev signed : Bool → Option ℕ → Option ℤ
signed minus none = none
signed true (some n) = if leb n int64_limit then some (pos 0 -ℤ pos n) else none
signed false (some n) = if ltb n int64_limit then some (pos n) else none

abbrev unsigned : Bool → Text → Option ℤ
unsigned minus [] = none
unsigned minus (c ∷ cs) = signed minus (parse_digits (c ∷ cs) 0)

unfoldable pub parse_int : Text → Option ℤ
unfolding parse_digits
parse_int [] = none
parse_int (c ∷ cs) =
    if c == b'-'
    then unsigned true cs
    else if c == b'+'
    then unsigned false cs
    else unsigned false (c ∷ cs)
