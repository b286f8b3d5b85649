-- ===== src/Cli/RoundTrip.antt =====
-- `vaultctl put` and a later `vaultctl get` of core/cmd/vaultctl/main.go: the same mnemonic and passphrase, perhaps
-- typed another way, on points of which one may have been lost.
use nft_soket.Base.{
  ℕ, ◌≡◌, sym, ap, ◌∙◌, subst, true, false, Option, some, List, [], arith, Option-cases, inl, inr,
}
use nft_soket.Base.Result.{ok, Result-cases}
use nft_soket.Base.Text.{Text, codes, is_empty}
use nft_soket.Paperkey.{Library, AccessKey, restore, normalize}
use nft_soket.Vault
use nft_soket.Vault.{Vault, Reader, Manifest, put_file, get_file}
use nft_soket.Vault.Opening.{open_vault}
use nft_soket.Vault.Retrieve.{IsSound}
use nft_soket.Vault.Kept.{Clean}
use nft_soket.Vault.Survival.{get_file-put_file-lost}
use nft_soket.Cas.Replication.{IsLawful}
use nft_soket.Cas.Survival.{IsStable, Call, after_all}
use nft_soket.Cas.Loss.{OneLost}
use nft_soket.Cli.{flag_val, positional}
use nft_soket.Cli.Keys.{Terminal, read_mnemonic, read_passphrase, unlocked_key}
use nft_soket.Cli.Points.{Point, build_store}
use nft_soket.Cli.Files.{Setup, Stored, first, cmd_put, cmd_get}

-- Another spelling of the mnemonic unlocks the same key.
unlocked_key-same :
    (lib : Library) (t u : Terminal) (m n : Text)
    → read_mnemonic t ≡ ok m
    → read_mnemonic u ≡ ok n
    → normalize n ≡ normalize m
    → read_passphrase u ≡ read_passphrase t
    → unlocked_key lib u ≡ unlocked_key lib t
unfolding unlocked_key restore
unlocked_key-same lib t u m n a b same pass = ground (arith, a, b, same, pass)

-- What `cmdPut` did where it printed a root.
record Put (S : Setup) (args : List Text) (drawn : ℕ) (stored : Stored) (s : Vault.State S.config)
    : Type 0 where
  source : Text
  file : Reader
  key : AccessKey
  vault : Vault
  points : List Point
  named : first (positional args) ≡ some source
  read : S.open_file source ≡ some file
  unlocked : unlocked_key S.library S.terminal ≡ ok key
  opens : open_vault S.library key ≡ ok vault
  found : build_store S.print_nat S.join_path S.can_make S.terminal args ≡ ok points
  put :
      put_file S.config vault
        (flag_val args (codes "--name") (S.base_name source))
        file
        (S.connect points, drawn)
      ≡ (ok stored.root, s)
  name : stored.name ≡ flag_val args (codes "--name") (S.base_name source)

cmd_put-Put :
    (S : Setup) (args : List Text) (drawn : ℕ) (stored : Stored) (s : Vault.State S.config)
    → cmd_put S args drawn ≡ ok (ok stored, s)
    → Put S args drawn stored s
unfolding cmd_put
cmd_put-Put S args drawn stored s h = elim (Option-cases (first (positional args))) [
  | inl no_source ↦ absurd (ground (arith, no_source, h))
  | inr (src, named) ↦ elim (Result-cases (unlocked_key S.library S.terminal)) [
    | inr (e, failed) ↦ absurd (ground (arith, named, failed, h))
    | inl (ak, unlocked) ↦
        elim (Result-cases (build_store S.print_nat S.join_path S.can_make S.terminal args)) [
          | inr (e, failed) ↦ absurd (ground (arith, named, unlocked, failed, h))
          | inl (points, found) ↦ elim (Result-cases (open_vault S.library ak)) [
            | inr (e, failed) ↦ absurd (ground (arith, named, unlocked, found, failed, h))
            | inl (v, opens) ↦ elim (Option-cases (S.open_file src)) [
              | inl failed ↦ absurd (ground (arith, named, unlocked, found, opens, failed, h))
              | inr (f, read) ↦
                  let name = flag_val args (codes "--name") (S.base_name src) in
                  let run = put_file S.config v name f (S.connect points, drawn) in
                  elim (Result-cases run.0) [
                    | inr (e, failed) ↦
                        absurd (ground (arith, named, unlocked, found, opens, read, failed, h))
                    | inl (root, put) ↦
                        let same : (stored.root ≡ root) × (stored.name ≡ name) × (run.1 ≡ s) =
                          ground (arith, named, unlocked, found, opens, read, put, h) in
                        record {
                          source = src;
                          file = f;
                          key = ak;
                          vault = v;
                          points = points;
                          named = named;
                          read = read;
                          unlocked = unlocked;
                          opens = opens;
                          found = found;
                          put = ground (arith, put, same);
                          name = same.1;
                        }
                  ]
            ]
          ]
        ]
  ]
]

-- `cmdGet` hands over what `GetFile` returns, once the arguments and the key are right.
cmd_get-get_file :
    (S : Setup) (args : List Text) (drawn : ℕ) (root : Text) (ak : AccessKey) (v : Vault)
    (points : List Point)
    → first (positional args) ≡ some root
    → is_empty (flag_val args (codes "--out") []) ≡ false
    → S.can_create (flag_val args (codes "--out") []) ≡ true
    → unlocked_key S.library S.terminal ≡ ok ak
    → open_vault S.library ak ≡ ok v
    → build_store S.print_nat S.join_path S.can_make S.terminal args ≡ ok points
    → cmd_get S args drawn ≡ ok (get_file S.config v root (S.connect points, drawn))
unfolding cmd_get
cmd_get-get_file S args drawn root ak v points a b c d e f = ground (arith, a, b, c, d, e, f)

-- The setup of a later run, at another terminal and with the points as they are then.
abbrev pub at_terminal : (S : Setup) → Terminal → (List Point → List S.config.backend.State) → Setup
at_terminal S u connect = record S { terminal = u; connect = connect }

-- When `put` prints a root, a later `get` of that root writes the content of the file, under the name that was
-- printed: with a mnemonic that normalizes to the same words and the same passphrase, after any sequence of
-- calls on the store and with the state of one point replaced by any other. The arguments of `get` name a
-- file that can be created and points that can be opened. What the points held before at a block's address had
-- that address, and they keep what they hold; the cipher and the codec are lawful, nonces have 24 bytes and the
-- hash has no collisions.
pub cmd_get-cmd_put :
    (S : Setup) (sound : IsSound S.config) (view : Text → S.config.backend.State → Option (List ℕ))
    (law : IsLawful S.config.backend view) (stable : IsStable S.config.backend S.config.hash view)
    (u : Terminal) (connect : List Point → List S.config.backend.State)
    (args later_args : List Text) (drawn later_drawn : ℕ) (stored : Stored)
    (s : Vault.State S.config) (m n : Text) (points : List Point) (calls : List Call)
    → ((p : List Point) → Clean S.config sound view law stable (S.connect p))
    → cmd_put S args drawn ≡ ok (ok stored, s)
    → read_mnemonic S.terminal ≡ ok m
    → read_mnemonic u ≡ ok n
    → normalize n ≡ normalize m
    → read_passphrase u ≡ read_passphrase S.terminal
    → first (positional later_args) ≡ some stored.root
    → is_empty (flag_val later_args (codes "--out") []) ≡ false
    → S.can_create (flag_val later_args (codes "--out") []) ≡ true
    → build_store S.print_nat S.join_path S.can_make u later_args ≡ ok points
    → OneLost (after_all S.config.backend S.config.hash calls s.0) (connect points)
    → (source : Text) × (file : Reader) × (manifest : Manifest) × (t : Vault.State S.config)
      × (first (positional args) ≡ some source)
      × (S.open_file source ≡ some file)
      × (manifest.name ≡ stored.name)
      × (cmd_get (at_terminal S u connect) later_args later_drawn
          ≡ ok (ok (manifest, file.content), t))
cmd_get-cmd_put S sound view law stable u connect args later_args drawn later_drawn stored s m n
      points calls clean done typed retyped same pass root out create found loss =
    let p = cmd_put-Put S args drawn stored s done in
    let name = flag_val args (codes "--name") (S.base_name p.source) in
    let T = at_terminal S u connect in
    let key = unlocked_key-same S.library S.terminal u m n typed retyped same pass ∙ p.unlocked in
    let run =
      cmd_get-get_file T later_args later_drawn stored.root p.key p.vault points root out create key
        p.opens found in
    let (manifest, named, got) =
      get_file-put_file-lost S.config sound view law stable p.vault name p.file
        (S.connect p.points, drawn) stored.root calls (connect points) later_drawn (clean p.points)
        (ap (λ x. x.0) p.put)
        (subst
          (λ (x : Vault.State S.config).
            OneLost (after_all S.config.backend S.config.hash calls x.0) (connect points))
          (sym (ap (λ x. x.1) p.put)) loss) in
    let t = (get_file S.config p.vault stored.root (connect points, later_drawn)).1 in
    (
      p.source,
      p.file,
      manifest,
      t,
      p.named,
      p.read,
      named ∙ sym p.name,
      run ∙ ap (λ x. ok (x, t)) got,
    )
