-- ===== src/Cli.antt =====
-- The flags of core/cmd/vaultctl/main.go; core/cmd/vaultadmin/main.go has the same `flagVal`.
pub mod Admin
pub mod Keys
pub mod Points
pub mod Size
pub mod Servers
pub mod Accounts
pub mod Files
pub mod RoundTrip
pub mod Main
pub mod Shares
pub mod Paper
use nft_soket.Base.{ℕ, Bool, true, false, Option, none, some, List, [], ◌∷◌, ◌++◌, if◌then◌else◌}
use nft_soket.Base.Text.{Text, codes, text_eq, after_prefix}

-- The value after the first occurrence of the flag that has one.
unfoldable pub flag_val : List Text → Text → Text → Text
flag_val [] name default = default
flag_val (a ∷ []) name default = default
flag_val (a ∷ b ∷ args) name default =
    let rest = flag_val (b ∷ args) name default in if text_eq a name then b else rest

-- Every value of a repeatable flag. The values are looked at as flags, too.
unfoldable pub flag_vals : List Text → Text → List Text
flag_vals [] name = []
flag_vals (a ∷ []) name = []
flag_vals (a ∷ b ∷ args) name =
    let rest = flag_vals (b ∷ args) name in if text_eq a name then b ∷ rest else rest

abbrev pub has_prefix : Text → Text → Bool
has_prefix s prefix = elim (after_prefix prefix s) [ none ↦ false | some rest ↦ true ]

-- The arguments that are neither flags nor the values after them.
unfoldable pub positional : List Text → List Text
positional [] = []
positional (a ∷ []) = if has_prefix a (codes "--") then [] else a ∷ []
positional (a ∷ b ∷ args) = elim (has_prefix a (codes "--")) [
  | true ↦ positional args
  | false ↦ a ∷ positional (b ∷ args)
]
