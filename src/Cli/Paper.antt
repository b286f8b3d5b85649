-- ===== src/Cli/Paper.antt =====
-- Shares on paper: what `cmdSplit` prints, mixed with comments and blank lines, is read back by
-- `cmdCombine`.
use nft_soket.Base.{
  ℕ, ◌/◌, ◌%◌, ◌≤◌, ◌<◌, ◌≡◌, refl, true, false, Option, some, List, [], ◌∷◌, ◌++◌, length, All,
  arith,
}
use nft_soket.Base.Result.{ok}
use nft_soket.Base.Int.{ℤ, pos_part}
use nft_soket.Base.Text.{Text, after_prefix}
use nft_soket.Base.Strings.{is_space, trim_space}
use nft_soket.Base.Trim.{
  Blank, Solid, All-append, trim_space-append, trim_space-Blank, trim_space-first,
}
use nft_soket.Base.Hex.{hex_digit, hex_encode, hex_decode-hex_encode}
use nft_soket.Shamir.{Share, split}
use nft_soket.Shamir.Field.{Bytes}
use nft_soket.Shamir.Secret.{DistinctShares}
use nft_soket.Shamir.Deal.{FillsSlice, In, All-All-In, combine-split}
use nft_soket.Shamir.ByteShares.{split-IsByteShare, IsByteShare}
use nft_soket.Cli.Shares.{
  print_share, cut_colon, parse_share, is_skipped, read_shares, combine_lines,
}

-- A byte of the hexadecimal text of lower case.
IsHex : ℕ → Type 0
IsHex c = (is_space c ≡ false) × (c ≡ b':' → ⊥) × (c ≡ b'#' → ⊥)

hex_digit-IsHex : (n : ℕ) → n < 16 → IsHex (hex_digit n)
unfolding hex_digit is_space IsHex
hex_digit-IsHex n h = (ground arith, λ e. ground (arith, e), λ e. ground (arith, e))

hex_encode-IsHex : (bs : List ℕ) → Bytes bs → All IsHex (hex_encode bs)
unfolding hex_encode
hex_encode-IsHex [] h = tt
hex_encode-IsHex (b ∷ bs) h = (
  hex_digit-IsHex (b / 16) (omega (arith, h.0)),
  (hex_digit-IsHex (b % 16) (omega arith), hex_encode-IsHex bs h.1),
)

cut_colon-append : (xs ys : Text) → All IsHex xs → cut_colon (xs ++ b':' ∷ ys) ≡ some (xs, ys)
unfolding cut_colon IsHex
cut_colon-append [] ys h = ground arith
cut_colon-append (x ∷ xs) ys h = ground (arith, h.0, cut_colon-append xs ys h.1)

Solid-IsHex : (xs : Text) → All IsHex xs → Solid xs
unfolding IsHex
Solid-IsHex [] h = tt
Solid-IsHex (x ∷ xs) h = (h.0.0, Solid-IsHex xs h.1)

parse_share-print_share : (s : Share) → IsByteShare s → parse_share (print_share s) ≡ ok s
unfolding parse_share print_share
parse_share-print_share s h = ground (
  arith,
  cut_colon-append (hex_encode (s.x ∷ [])) (hex_encode s.y) (hex_encode-IsHex (s.x ∷ []) (h.0, tt)),
  hex_decode-hex_encode (s.x ∷ []) (h.0, tt),
  hex_decode-hex_encode s.y h.1,
)

-- A printed share has no white space and is no comment.
print_share-Solid : (s : Share) → IsByteShare s → Solid (print_share s)
unfolding print_share is_space
print_share-Solid s h =
    All-append (λ c. is_space c ≡ false) (hex_encode (s.x ∷ [])) (b':' ∷ hex_encode s.y)
      (Solid-IsHex (hex_encode (s.x ∷ [])) (hex_encode-IsHex (s.x ∷ []) (h.0, tt)))
      (ground arith, Solid-IsHex (hex_encode s.y) (hex_encode-IsHex s.y h.1))

is_skipped-print_share : (s : Share) → IsByteShare s → is_skipped (print_share s) ≡ false
unfolding is_skipped print_share IsHex hex_encode after_prefix
is_skipped-print_share s h = ground (arith, (hex_encode-IsHex (s.x ∷ []) (h.0, tt)).0.2)

-- The lines of a sheet that holds these shares: a share stands alone between white space, and the
-- other lines are blank or comments behind a hash.
pub data Sheet : List Text → List Share → Type 0 where
  ends : Sheet [] []
  blank :
      (pre : Text) {lines : List Text} {shares : List Share}
      → Blank pre
      → Sheet lines shares
      → Sheet (pre ∷ lines) shares
  comment :
      (pre rest : Text) {lines : List Text} {shares : List Share}
      → Blank pre
      → Sheet lines shares
      → Sheet ((pre ++ b'#' ∷ rest) ∷ lines) shares
  printed :
      (pre post : Text) (s : Share) {lines : List Text} {shares : List Share}
      → Blank pre
      → Blank post
      → Sheet lines shares
      → Sheet ((pre ++ (print_share s ++ post)) ∷ lines) (s ∷ shares)

is_skipped-comment :
    (pre rest : Text) → Blank pre → is_skipped (trim_space (pre ++ b'#' ∷ rest)) ≡ true
unfolding is_skipped after_prefix is_space
is_skipped-comment pre rest b =
    let (ys, e) = trim_space-first pre b'#' rest b (ground arith) in rw e (ground arith)

read_shares-Sheet :
    {lines : List Text} {shares : List Share}
    → Sheet lines shares
    → All IsByteShare shares
    → read_shares lines ≡ ok shares
unfolding read_shares is_skipped
read_shares-Sheet ends h = refl
read_shares-Sheet (blank pre b rest) h =
    ground (arith, trim_space-Blank pre b, read_shares-Sheet rest h)
read_shares-Sheet (comment pre text b rest) h =
    ground (arith, is_skipped-comment pre text b, read_shares-Sheet rest h)
read_shares-Sheet (printed pre post s b b' rest) h = ground (
  arith,
  trim_space-append pre (print_share s) post b (print_share-Solid s h.0) b',
  is_skipped-print_share s h.0,
  parse_share-print_share s h.0,
  read_shares-Sheet rest h.1,
)

-- A sheet with enough distinct shares of one run of `Split`, in any order, between comments, blank
-- lines and white space, prints the hexadecimal master key.
pub combine_lines-Sheet :
    (read : ℕ → ℕ → Option (List ℕ)) (master : List ℕ) (parts threshold : ℤ)
    (shares subset : List Share) (lines : List Text)
    → FillsSlice read
    → Bytes master
    → split read master parts threshold ≡ ok shares
    → Sheet lines subset
    → All (λ s. In s shares) subset
    → DistinctShares subset
    → pos_part threshold ≤ length subset
    → combine_lines lines ≡ ok (hex_encode master)
unfolding combine_lines
combine_lines-Sheet read master parts threshold shares subset lines fills b e sheet i d enough =
    ground (
      arith,
      read_shares-Sheet sheet (
          All-All-In IsByteShare subset shares
            (split-IsByteShare read master parts threshold shares fills b e) i),
      combine-split read master parts threshold shares subset fills b e i d enough,
    )
