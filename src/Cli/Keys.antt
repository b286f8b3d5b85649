-- ===== src/Cli/Keys.antt =====
-- How core/cmd/vaultctl/main.go comes to an unlocked key and to an account: the environment, a line
-- of the standard input and the terminal. The prompts are not part of the model.
use nft_soket.Base.{ℕ, Bool, not, ◌&&◌, Option, none, some, List, [], if◌then◌else◌}
use nft_soket.Base.Result.{Result, ok, err, ◌>>=◌, ◌>>◌, fail_if, or_fail, map_err}
use nft_soket.Base.Int.{ℤ}
use nft_soket.Base.Text.{Text, codes, is_empty, text_eq}
use nft_soket.Base.Strings.{trim_space, parse_int}
use nft_soket.Paperkey
use nft_soket.Paperkey.{Library, AccessKey, restore, unlock, generate, master_key, words12, words24}
use nft_soket.Cli.{flag_val}
use nft_soket.Cli.Shares
use nft_soket.Cli.Shares.{split_lines, combine_lines}

-- What a command sees: os.LookupEnv, one ReadString of a line with whether it failed, whether the
-- standard input is a terminal, and the password typed there.
pub record Terminal : Type 0 where
  pub lookup_env : Text → Option Text
  pub line : Text
  pub line_failed : Bool
  pub is_terminal : Bool
  pub password : Option Text

pub data Error : Type 0 where
  no_input no_password no_control no_invoice : Error
  key : Paperkey.Error → Error
  sharing : Shares.Error → Error

-- os.Getenv: an unset variable is empty.
unfoldable pub getenv : Terminal → Text → Text
getenv t name = elim (t.lookup_env name) [ none ↦ [] | some value ↦ value ]

unfoldable pub read_mnemonic : Terminal → Result Error Text
unfolding getenv
read_mnemonic t =
    let m = getenv t (codes "NFTVAULT_MNEMONIC") in
    if not (is_empty m)
    then ok m
    else if t.line_failed && is_empty t.line
    then err no_input
    else ok (trim_space t.line)

unfoldable pub read_passphrase : Terminal → Result Error Text
read_passphrase t = elim (t.lookup_env (codes "NFTVAULT_PASSPHRASE")) [
  | some p ↦ ok p
  | none ↦ if not t.is_terminal then ok [] else or_fail t.password no_password
]

unfoldable pub unlocked_key : Library → Terminal → Result Error AccessKey
unfolding read_mnemonic read_passphrase
unlocked_key lib t = do
  m ← read_mnemonic t
  ak ← map_err key (restore lib m)
  pass ← read_passphrase t
  ok (unlock lib ak pass)

-- `cmdKeygen`, up to the sheet that it prints.
unfoldable pub cmd_keygen : Library → Terminal → List Text → Result Error AccessKey
unfolding read_passphrase
cmd_keygen lib t args = do
  let strength =
      if text_eq (flag_val args (codes "--words") (codes "24")) (codes "12")
      then words12
      else words24
  ak ← map_err key (generate lib strength)
  pass ← read_passphrase t
  ok (unlock lib ak pass)

-- strconv.Atoi with the error dropped: 0 for what is no number, the nearest int64 for one out of range.
abbrev pub atoi : (Text → ℤ) → Text → Option ℤ → ℤ
atoi nearest s none = nearest s
atoi nearest s (some n) = n

-- `cmdSplit`. `nearest` is what strconv.Atoi returns beside an error.
unfoldable pub cmd_split :
    Library
    → (ℤ → Text)
    → (Text → ℤ)
    → (ℕ → ℕ → Option (List ℕ))
    → Terminal
    → List Text
    → Result Error (List Text)
unfolding unlocked_key
cmd_split lib print_int nearest read t args = do
  let shares_text = flag_val args (codes "--shares") (codes "3")
  let threshold_text = flag_val args (codes "--threshold") (codes "2")
  let shares = atoi nearest shares_text (parse_int shares_text)
  let threshold = atoi nearest threshold_text (parse_int threshold_text)
  ak ← unlocked_key lib t
  master ← map_err key (master_key lib ak)
  map_err sharing (split_lines print_int read master shares threshold)

-- The control server's URL and the account's token.
unfoldable pub control_auth : Terminal → List Text → Result Error (Text × Text)
control_auth t args = do
  let url = flag_val args (codes "--control") (getenv t (codes "NFTVAULT_CONTROL"))
  fail_if (is_empty url) no_control
  let token = getenv t (codes "NFTVAULT_ACCOUNT_TOKEN")
  ok (url, if is_empty token then trim_space t.line else token)
