-- ===== src/Cli/Shares.antt =====
-- Shares on paper: `cmdSplit`, `cmdCombine` and `parseShare` of core/cmd/vaultctl/main.go, from the
-- unlocked key on. The standard input comes as the lines that the scanner gives.
use nft_soket.Base.{
  ℕ, Bool, true, false, ◌||◌, Option, none, some, List, [], ◌∷◌, ◌++◌, map, if◌then◌else◌, ◌==◌,
}
use nft_soket.Base.Result.{Result, ok, ◌>>=◌, or_fail, map_err}
use nft_soket.Base.Int.{ℤ}
use nft_soket.Base.Text.{Text, codes, is_empty, after_prefix}
use nft_soket.Base.Strings.{trim_space}
use nft_soket.Base.Hex.{hex_encode, hex_decode}
use nft_soket.Shamir
use nft_soket.Shamir.{Share, split, combine}

pub data Error : Type 0 where
  bad_share bad_x bad_y : Error
  sharing : Shamir.Error → Error

-- %02x:%s.
unfoldable pub print_share : Share → Text
print_share s = hex_encode (s.x ∷ []) ++ b':' ∷ hex_encode s.y

-- What `cmdSplit` prints: two comments and a line for each share.
unfoldable pub split_lines :
    (ℤ → Text) → (ℕ → ℕ → Option (List ℕ)) → List ℕ → ℤ → ℤ → Result Error (List Text)
unfolding print_share
split_lines print_int read master shares threshold = do
  parts ← map_err sharing (split read master shares threshold)
  ok (
      (codes "# Master key split into "
        ++ print_int shares
        ++ codes " shares; any "
        ++ print_int threshold
        ++ codes " reconstruct it.")
      ∷ codes "# Give each share to a different custodian / location."
      ∷ map print_share parts)

abbrev push : ℕ → Option (Text × Text) → Option (Text × Text)
push c none = none
push c (some (x, y)) = some (c ∷ x, y)

-- The text before and after the first colon.
unfoldable pub cut_colon : Text → Option (Text × Text)
cut_colon [] = none
cut_colon (c ∷ cs) = let rest = cut_colon cs in if c == b':' then some ([], cs) else push c rest

abbrev single : List ℕ → Option ℕ
single [] = none
single (x ∷ []) = some x
single (x ∷ y ∷ ys) = none

abbrev one_byte : Option (List ℕ) → Option ℕ
one_byte none = none
one_byte (some bytes) = single bytes

unfoldable pub parse_share : Text → Result Error Share
unfolding cut_colon
parse_share line = do
  parts ← or_fail (cut_colon line) bad_share
  x ← or_fail (one_byte (hex_decode parts.0)) bad_x
  y ← or_fail (hex_decode parts.1) bad_y
  ok (record { x = x; y = y })

-- A blank line or a comment.
unfoldable pub is_skipped : Text → Bool
is_skipped line =
    is_empty line || (elim (after_prefix (codes "#") line) [ none ↦ false | some rest ↦ true ])

-- The loop of `cmdCombine`.
unfoldable pub read_shares : List Text → Result Error (List Share)
unfolding parse_share is_skipped
read_shares [] = ok []
read_shares (line ∷ lines) = elim (is_skipped (trim_space line)) [
  | true ↦ read_shares lines
  | false ↦ do s ← parse_share (trim_space line); rest ← read_shares lines; ok (s ∷ rest)
]

-- `cmdCombine`: what it prints after "master-key: ".
unfoldable pub combine_lines : List Text → Result Error Text
unfolding read_shares
combine_lines lines = do
  parts ← read_shares lines
  master ← map_err sharing (combine parts)
  ok (hex_encode master)
