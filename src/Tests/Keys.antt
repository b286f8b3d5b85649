-- ===== src/Tests/Keys.antt =====
-- Runs of core/cmd/vaultctl/main.go and core/paperkey/paperkey.go: shares on paper, a size and a
-- mnemonic.
use nft_soket.Base.{◌≡◌, refl, not, some, List, [], ◌∷◌, ◌++◌, inl, inr, arith}
use nft_soket.Base.Result.{ok}
use nft_soket.Base.Int.{pos}
use nft_soket.Base.Text.{Text, codes, is_empty}
use nft_soket.Base.Strings.{trim_space, trim_left, is_space, to_lower}
use nft_soket.Base.Hex.{hex_encode}
use nft_soket.Paperkey.{Library, AccessKey, restore, normalize, fields, fields_from, join}
use nft_soket.Cli.Shares.{print_share, combine_lines}
use nft_soket.Cli.Paper.{Sheet, ends, comment, printed, combine_lines-Sheet}
use nft_soket.Tests.Sharing.{fives, fives-FillsSlice, secret, first, second, third, secret-split}

-- A comment, the third share after two blanks, and the first share.
abbrev sheet : List Text
sheet =
    codes "# two of three"
    ∷ (codes "  " ++ (print_share third ++ []))
    ∷ ([] ++ (print_share first ++ []))
    ∷ []

sheet-Sheet : Sheet sheet (third ∷ first ∷ [])
unfolding is_space
sheet-Sheet =
    comment [] (codes " two of three") tt
      (printed (codes "  ") [] third (refl, (refl, tt)) tt (printed [] [] first tt tt ends))

combine_lines-Sheet_example : combine_lines sheet ≡ ok (hex_encode secret)
combine_lines-Sheet_example =
    combine_lines-Sheet fives secret (pos 3) (pos 2) (first ∷ second ∷ third ∷ [])
      (third ∷ first ∷ []) sheet fives-FillsSlice (omega arith, (omega arith, tt)) secret-split
      sheet-Sheet (inr (inr (inl refl)), (inl refl, tt)) (((λ e. omega (arith, e)), tt), (tt, tt))
      (omega arith)

abbrev pub library : Library
library = record {
  new_entropy = λ bits. some (0 ∷ []);
  new_mnemonic = λ entropy. some (codes "zoo");
  is_mnemonic_valid = λ m. not (is_empty m);
  new_seed = λ m passphrase. m ++ passphrase;
  hkdf = λ seed salt info size. some seed;
}

abbrev key : AccessKey
key = record { mnemonic = codes "zoo ant"; seed = [] }

key-restore : restore library (codes " Zoo   ANT ") ≡ ok key
unfolding restore normalize fields fields_from join to_lower trim_space trim_left is_space
key-restore = refl
