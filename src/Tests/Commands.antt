-- ===== src/Tests/Commands.antt =====
-- A run of `vaultctl put` and one of `vaultctl get`, of core/cmd/vaultctl/main.go, that share no spelling.
use nft_soket.Base.{
  ℕ, ◌<◌, ◌≡◌, refl, true, false, none, some, List, [], ◌∷◌, ◌++◌, map, length, take, drop,
  replicate, arith,
}
use nft_soket.Base.Result.{Result, ok, err}
use nft_soket.Base.Text.{Text, codes, text_eq, after_prefix, is_empty}
use nft_soket.Base.Strings.{trim_space, trim_left, is_space, to_lower, to_upper, split_commas}
use nft_soket.Base.Hex.{hex_encode, hex_digit}
use nft_soket.Base.Int.{add64, wrap64, ◌+ℤ◌}
use nft_soket.Aead.{seal, aad, big_endian32}
use nft_soket.Cas.{new_store, put, put_all, address, get, find, accept, heal, heal_one, verify}
use nft_soket.Base.Dict.{Dict, lookup, insert}
use nft_soket.Cas.Survival.{getting, after_all}
use nft_soket.Vault
use nft_soket.Vault.Kept.{Clean}
use nft_soket.Vault.{Reader, Manifest, put_file, put_chunks, put_block, seal_block, store_block}
use nft_soket.Vault.Opening.{open_vault}
use nft_soket.Paperkey.{
  Library, restore, normalize, fields, fields_from, join, unlock, subkey, fingerprint,
}
use nft_soket.Cli.{flag_val, flag_vals, positional}
use nft_soket.Cli.Keys.{Terminal, unlocked_key, read_mnemonic, read_passphrase, getenv}
use nft_soket.Cli.Points.{Point, directory, build_store, node_urls, storage_desc}
use nft_soket.Cli.Files
use nft_soket.Cli.Files.{Setup, Stored, first, cmd_put, cmd_get}
use nft_soket.Cli.RoundTrip.{at_terminal, cmd_get-cmd_put}
use nft_soket.Tests.Storage.{memory, same, memory-IsLawful, config, config-IsSound, file}
use nft_soket.Tests.Lost.{memory-IsStable, first-OneLost}
use nft_soket.Tests.Keys.{library}

-- A terminal that types a line, without variables.
abbrev types : Text → Terminal
types line = record {
  lookup_env = λ name. none;
  line = line;
  line_failed = false;
  is_terminal = false;
  password = none;
}

-- A derivation that pads the seed with zeros to the length asked for.
abbrev padded : Library
padded = record library { hkdf = λ seed salt info size. some (take size (seed ++ replicate 32 0)) }

abbrev setup : Setup
setup = record {
  config = config;
  connect = λ points. map (λ p. []) points;
  library = padded;
  terminal = types (codes "zoo ant");
  print_nat = λ n. n ∷ [];
  base_name = λ path. path;
  join_path = λ dir name. dir ++ name;
  can_make = λ dir. true;
  open_file = λ path. some file;
  can_create = λ path. true;
}

abbrev put_args : List Text
put_args = codes "a" ∷ []

abbrev run : Result Files.Error (Result Vault.Error Stored × Vault.State config)
run = cmd_put setup put_args 0

abbrev root_of : Result Files.Error (Result Vault.Error Stored × Vault.State config) → Text
root_of (ok (ok stored, s)) = stored.root
root_of (ok (err e, s)) = []
root_of (err e) = []

abbrev state_of :
    Result Files.Error (Result Vault.Error Stored × Vault.State config) → Vault.State config
state_of (ok (r, s)) = s
state_of (err e) = ([], 0)

abbrev printed : Stored
printed = record {
  name = codes "a";
  points = codes "vault-data";
  fingerprint = codes "7A6F6F20-616E7400";
  root = root_of run;
}

abbrev left : Vault.State config
left = state_of run

-- Other letters and spaces.
abbrev later : Terminal
later = types (codes "  Zoo   ANT ")

abbrev get_args : List Text
get_args = root_of run ∷ codes "--out" ∷ codes "b" ∷ []

abbrev found : List Point
found =
    directory (codes "point-a") (codes "vault-dataa")
    ∷ directory (codes "point-b") (codes "vault-datab")
    ∷ []

abbrev kept : List (Dict (List ℕ))
kept = after_all memory same (getting (root_of run) ∷ []) left.0

abbrev damaged : List Point → List (Dict (List ℕ))
damaged points = [] ∷ drop 1 kept

empty-Clean :
    (points : List Point)
    → Clean config config-IsSound lookup memory-IsLawful memory-IsStable (setup.connect points)
unfolding lookup
empty-Clean [] = tt
empty-Clean (p ∷ points) = ((λ addr bytes a h. cc), empty-Clean points)

-- Both runs, as far as they go before the block is read.
both :
    (run ≡ ok (ok printed, left))
    × (read_mnemonic setup.terminal ≡ ok (codes "zoo ant"))
    × (read_mnemonic later ≡ ok (codes "Zoo   ANT"))
    × (normalize (codes "Zoo   ANT") ≡ normalize (codes "zoo ant"))
    × (read_passphrase later ≡ read_passphrase setup.terminal)
    × (first (positional get_args) ≡ some printed.root)
    × (is_empty (flag_val get_args (codes "--out") []) ≡ false)
    × (build_store setup.print_nat setup.join_path setup.can_make later get_args ≡ ok found)
    × (0 < length kept)
unfolding cmd_put positional flag_vals flag_val after_prefix unlocked_key read_mnemonic getenv
    read_passphrase trim_space trim_left is_space restore normalize fields fields_from join to_lower
    to_upper unlock build_store node_urls new_store split_commas open_vault subkey fingerprint
    storage_desc put_file put_chunks put_block seal_block store_block seal put put_all address
    hex_encode hex_digit aad big_endian32 lookup insert text_eq add64 wrap64 ◌+ℤ◌ get find accept
    verify heal heal_one
both = (refl, refl, refl, refl, refl, refl, refl, refl, omega arith)

cmd_get-cmd_put_example :
    (source : Text) × (content : Reader) × (manifest : Manifest) × (t : Vault.State config) × (first
        (positional put_args)
      ≡ some source)
    × (setup.open_file source ≡ some content)
    × (manifest.name ≡ printed.name)
    × (cmd_get (at_terminal setup later damaged) get_args 5
        ≡ ok (ok (manifest, content.content), t))
cmd_get-cmd_put_example =
    cmd_get-cmd_put setup config-IsSound lookup memory-IsLawful memory-IsStable later damaged
      put_args get_args 0 5 printed left (codes "zoo ant") (codes "Zoo   ANT") found
      (getting (root_of run) ∷ []) empty-Clean both.0 both.1 both.2 both.3 both.4 both.5 both.6 refl
      both.7 (first-OneLost kept both.8)
