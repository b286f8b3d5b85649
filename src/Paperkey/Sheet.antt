-- ===== src/Paperkey/Sheet.antt =====
-- core/paperkey/sheet.go: the printed sheet. The printing of a number in decimal is a parameter. The
-- width of a text is its bytes: for `center` because Go's len is, for the columns because words are ASCII.
use nft_soket.Base.{
  ℕ, zero, suc, ◌+◌, ◌-◌, ◌/◌, not, List, [], ◌∷◌, ◌++◌, if◌then◌else◌, ltb, leb, length, get_or,
  replicate,
}
use nft_soket.Base.Result.{Result, ok, err}
use nft_soket.Base.Text.{Text, codes, is_empty}
use nft_soket.Paperkey
use nft_soket.Paperkey.{Library, AccessKey, fields, fingerprint}

abbrev width : ℕ
width = 64

abbrev newline : Text
newline = 10 ∷ []

-- The em dash and the middle dot, in UTF-8.
abbrev em_dash : Text
em_dash = 0xE2 ∷ 0x80 ∷ 0x94 ∷ []

abbrev middle_dot : Text
middle_dot = 0xC2 ∷ 0xB7 ∷ []

unfoldable pub center : Text → ℕ → Text
center s w = if leb w (length s) then s else replicate ((w - length s) / 2) 32 ++ s

-- The verbs %2d. %-14s on a number and a word.
unfoldable pub entry : (ℕ → Text) → ℕ → Text → Text
entry print_nat n word =
    replicate (2 - length (print_nat n)) 32
    ++ print_nat n
    ++ codes ". "
    ++ word
    ++ replicate (14 - length word) 32

-- The loop over the rows, with the rounds left and the index: the words i and i + half.
unfoldable pub rows : (ℕ → Text) → List Text → ℕ → ℕ → ℕ → Text
unfolding entry
rows print_nat words half zero i = []
rows print_nat words half (suc rounds) i =
    codes "    "
    ++ entry print_nat (i + 1) (get_or words i [])
    ++ codes "   "
    ++ (if ltb (i + half) (length words)
        then entry print_nat (i + half + 1) (get_or words (i + half) [])
        else [])
    ++ newline
    ++ rows print_nat words half rounds (i + 1)

abbrev locked_text : Text
locked_text = codes "(locked " ++ em_dash ++ codes " unlock to show)"

abbrev or_locked : Result Paperkey.Error Text → Text
or_locked (ok fp) = fp
or_locked (err e) = locked_text

-- `RenderSheet`, which never fails.
unfoldable pub render_sheet : Library → (ℕ → Text) → AccessKey → Text
unfolding center rows
render_sheet lib print_nat k =
    let words = fields k.mnemonic in
    let fp = if not (is_empty k.seed) then or_locked (fingerprint lib k) else locked_text in
    let line = replicate width b'=' in
    let thin = replicate width b'-' in
    let half = (length words + 1) / 2 in
    line
    ++ newline
    ++ center (codes "NFT VAULT " ++ em_dash ++ codes " PAPER ACCESS KEY") width
    ++ newline
    ++ center
        (codes "keep offline "
          ++ middle_dot
          ++ codes " never share "
          ++ middle_dot
          ++ codes " anyone with this controls the vault")
        width
    ++ newline
    ++ line
    ++ newline
    ++ newline
    ++ rows print_nat words half half 0
    ++ newline
    ++ thin
    ++ newline
    ++ codes " Vault fingerprint : "
    ++ fp
    ++ newline
    ++ codes " Words             : "
    ++ print_nat (length words)
    ++ newline
    ++ codes " Passphrase (25th) : ____________________  (optional, memorize)"
    ++ newline
    ++ thin
    ++ newline
    ++ newline
    ++ codes " RECOVERY: enter these words in order to restore access on any"
    ++ newline
    ++ codes " device. The order matters. If you set a passphrase you must also"
    ++ newline
    ++ codes " enter it "
    ++ em_dash
    ++ codes " it is NOT written here on purpose."
    ++ newline
    ++ line
    ++ newline
