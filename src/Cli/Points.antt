-- ===== src/Cli/Points.antt =====
-- The storage points that core/cmd/vaultctl/main.go asks for: `buildStore` and `storageDesc`. The
-- directories of local points are what `NewFSBackend` is called with; a parameter tells which can be made.
use nft_soket.Base.{ℕ, ◌+◌, Bool, not, List, [], ◌∷◌, ◌++◌, if◌then◌else◌}
use nft_soket.Base.Result.{Result, ◌>>◌, fail_if, map_err}
use nft_soket.Base.Text.{Text, codes, is_empty}
use nft_soket.Base.Strings.{trim_space, split_commas}
use nft_soket.Cas
use nft_soket.Cas.{new_store}
use nft_soket.Node.Client.{RemoteBackend, new_remote_backend}
use nft_soket.Cli.{flag_val, flag_vals}
use nft_soket.Cli.Keys.{Terminal, getenv}

pub data Point : Type 0 where
  remote : RemoteBackend → Point
  directory : Text → Text → Point

pub data Error : Type 0 where
  no_directory : Error
  store : Cas.Error → Error

-- The nodes of the flags, then those of the environment.
unfoldable pub node_urls : Terminal → List Text → List Text
node_urls t args =
    let env = getenv t (codes "NFTVAULT_NODES") in
    flag_vals args (codes "--node") ++ (if not (is_empty env) then split_commas env else [])

-- The loop over the nodes, from index i on. A blank one is left out and keeps its number.
unfoldable pub remote_points : (ℕ → Text) → Text → ℕ → List Text → List Point
remote_points print_nat token i [] = []
remote_points print_nat token i (u ∷ urls) =
    let rest = remote_points print_nat token (i + 1) urls in
    let url = trim_space u in
    if is_empty url
    then rest
    else remote (new_remote_backend (codes "point-" ++ print_nat (i + 1)) url token) ∷ rest

unfoldable pub build_store :
    (ℕ → Text)
    → (Text → Text → Text)
    → (Text → Bool)
    → Terminal
    → List Text
    → Result Error (List Point)
unfolding node_urls remote_points
build_store print_nat join_path can_make t args = elim (node_urls t args) [
  | u ∷ urls ↦
      map_err store
        (new_store (remote_points print_nat (getenv t (codes "NFTVAULT_NODE_TOKEN")) 0 (u ∷ urls)))
  | [] ↦ do
    let vault_dir = flag_val args (codes "--vault") (codes "vault-data")
    let a = join_path vault_dir (codes "a")
    let b = join_path vault_dir (codes "b")
    fail_if (not (can_make a)) no_directory
    fail_if (not (can_make b)) no_directory
    map_err store (new_store (directory (codes "point-a") a ∷ directory (codes "point-b") b ∷ []))
]

-- strings.Join(nodes, ", ").
unfoldable pub join_list : List Text → Text
join_list [] = []
join_list (u ∷ []) = u
join_list (u ∷ v ∷ urls) = u ++ codes ", " ++ join_list (v ∷ urls)

unfoldable pub storage_desc : Terminal → List Text → Text
unfolding node_urls join_list
storage_desc t args = elim (node_urls t args) [
  | [] ↦ flag_val args (codes "--vault") (codes "vault-data")
  | u ∷ urls ↦ join_list (u ∷ urls)
]
