-- ===== src/Vault/Survival.antt =====
-- A file that `PutFile` of core/vault/vault.go stored, after the loss of one backend.
use nft_soket.Base.{
  ℕ, suc, ◌≤◌, ◌≡◌, ◌≢◌, sym, ap, subst, Option, some, List, [], ◌∷◌, ◌++◌, All, inl, inr, length,
  arith, Option-cases,
}
use nft_soket.Base.Result.{Result, ok, err, Result-cases}
use nft_soket.Base.Int.{ℤ, pos}
use nft_soket.Base.Text.{Text}
use nft_soket.Aead
use nft_soket.Aead.{aad}
use nft_soket.Cas
use nft_soket.Cas.Replication.{IsLawful, copies}
use nft_soket.Cas.Survival.{IsStable, get-Later, Call, after_all, after_all-Later}
use nft_soket.Cas.Loss.{get-copy, OneLost}
use nft_soket.Vault.{
  Vault, Manifest, Reader, Config, Error, State, fetching, kind_chunk, kind_manifest, chunk_size,
  fetch_block, put_block, get_block, put_chunks, put_file, get_manifest, get_chunks, get_file,
}
use nft_soket.Vault.Retrieve.{IsSound, IsStored, put_block-IsStored, get_file-put_file}
use nft_soket.Vault.Kept.{
  Clean, After, OnBackends, All-OnBackends-Later, OnBackends-OneLost, put_chunks-OnBackends,
  put_block-All,
}

module _ (c : Config) (sound : IsSound c) (view : Text → c.backend.State → Option (List ℕ))
    (law : IsLawful c.backend view) (stable : IsStable c.backend c.hash view) where
  -- A block that a backend still holds can be fetched.
  get_block-copy :
      (v : Vault) (kind : ℕ) (addr : Text) (t : State c)
      → OnBackends c sound view law stable 1 t.0 addr
      → (get_block c v kind addr t).0 ≢ err (fetching Cas.not_found)
  unfolding get_block fetch_block
  get_block-copy v kind addr t (env, named, enough) h =
      let found =
        get-copy c.backend c.hash view law stable env t.0 (sound.collision_free env)
          (subst (λ a. 1 ≤ copies c.backend c.hash view law a env t.0) named enough) in
      let found' : (Cas.get c.backend c.hash addr t.0).0 ≡ ok env =
        subst (λ a. (Cas.get c.backend c.hash a t.0).0 ≡ ok env) (sym named) found in
      elim (Result-cases (Aead.unseal c.cipher v.enc_key env (aad v.fingerprint kind))) [
        | inl (bytes, opened) ↦ absurd (ground (arith, found', opened, h))
        | inr (e, failed) ↦ absurd (ground (arith, found', failed, h))
      ]

  get_block-Later :
      (v : Vault) (kind : ℕ) (addr : Text) (t : State c)
      → After c sound view law stable t.0 (get_block c v kind addr t).1.0
  unfolding get_block fetch_block
  get_block-Later v kind addr t =
      let kept = get-Later c.backend c.hash view law stable addr t.0 in
      elim (Result-cases (Cas.get c.backend c.hash addr t.0).0) [
        | inl (env, found) ↦ ground (arith, found, kept)
        | inr (e, failed) ↦ ground (arith, failed, kept)
      ]

  get_chunks-copies :
      (v : Vault) (chunks : List Text) (t : State c)
      → All (OnBackends c sound view law stable 1 t.0) chunks
      → (get_chunks c v chunks t).0 ≢ err (fetching Cas.not_found)
  unfolding get_chunks
  get_chunks-copies v [] t held h = cc
  get_chunks-copies v (addr ∷ chunks) t held h =
      let u = (get_block c v kind_chunk addr t).1 in
      let first = get_block-copy v kind_chunk addr t held.0 in
      elim (Result-cases (get_block c v kind_chunk addr t).0) [
        | inr (e, failed) ↦ absurd (ground (arith, failed, h, first))
        | inl (bytes, found) ↦
            let rest = get_chunks-copies v chunks u (
              All-OnBackends-Later c sound view law stable 1 t.0 u.0 chunks
                (get_block-Later v kind_chunk addr t) held.1) in
            elim (Result-cases (get_chunks c v chunks u).0) [
              | inr (e, failed) ↦ absurd (ground (arith, found, failed, h, rest))
              | inl (others, read) ↦ absurd (ground (arith, found, read, h))
            ]
      ]

  -- The manifest and the chunks of a stored file are on two backends each.
  put_file-OnBackends :
      (v : Vault) (name : Text) (r : Reader) (s : State c) (root : Text)
      → Clean c sound view law stable s.0
      → (put_file c v name r s).0 ≡ ok root
      → (m : Manifest) × (raw : List ℕ) × (c.json.marshal m ≡ some raw)
        × IsStored c sound v kind_manifest root raw
        × All
            (OnBackends c sound view law stable 2 (put_file c v name r s).1.0)
            (m.chunks ++ root ∷ [])
  unfolding put_file
  put_file-OnBackends v name r s root clean h =
      let stored =
        put_chunks c (suc (length r.content)) chunk_size v r.content r.fails [] (pos 0) s in
      elim (Result-cases stored.0) [
        | inr (e, failed) ↦ absurd (ground (arith, failed, h))
        | inl ((chunks, total), put) ↦
            let m : Manifest = record { name = name; size = total; chunks = chunks } in
            let (clean', kept) =
              put_chunks-OnBackends c sound view law stable (suc (length r.content)) chunk_size v
                r.content r.fails [] (pos 0) s stored.1 chunks total (omega arith) clean tt
                (ap (λ (x : Result Error (List Text × ℤ)). (x, stored.1)) put) in
            elim (Option-cases (c.json.marshal m)) [
              | inl none_given ↦ absurd (ground (arith, put, none_given, h))
              | inr (raw, marshalled) ↦
                  let done : (put_block c v kind_manifest raw stored.1).0 ≡ ok root =
                    ground (arith, put, marshalled, h) in
                  let last =
                    put_block-All c sound view law stable v kind_manifest raw stored.1 root chunks
                      clean' kept done in
                  (
                    m,
                    raw,
                    marshalled,
                    put_block-IsStored c sound v kind_manifest raw stored.1 root done,
                    ground (arith, put, marshalled, last.1),
                  )
            ]
      ]

  All-OnBackends-OneLost :
      (bs ds : List c.backend.State) (addrs : List Text)
      → OneLost bs ds
      → All (OnBackends c sound view law stable 2 bs) addrs
      → All (OnBackends c sound view law stable 1 ds) addrs
  All-OnBackends-OneLost bs ds [] p h = tt
  All-OnBackends-OneLost bs ds (addr ∷ addrs) p h = (
    OnBackends-OneLost c sound view law stable bs ds addr p h.0,
    All-OnBackends-OneLost bs ds addrs p h.1,
  )

  All-last : (P : Text → Type 0) (xs : List Text) (x : Text) → All P (xs ++ x ∷ []) → All P xs × P x
  All-last P [] x h = (tt, h.0)
  All-last P (y ∷ xs) x h = let (front, last) = All-last P xs x h.1 in ((h.0, front), last)

  get_file-copies :
      (v : Vault) (root : Text) (m : Manifest) (raw : List ℕ) (t : State c)
      → c.json.marshal m ≡ some raw
      → IsStored c sound v kind_manifest root raw
      → All (OnBackends c sound view law stable 1 t.0) m.chunks
      → OnBackends c sound view law stable 1 t.0 root
      → (get_file c v root t).0 ≢ err (fetching Cas.not_found)
  unfolding get_file get_manifest
  get_file-copies v root m raw t marshalled stored chunks held h = elim (stored t) [
    | inr lost ↦ get_block-copy v kind_manifest root t held lost
    | inl found ↦
        let u = (get_block c v kind_manifest root t).1 in
        let parsed = sound.codec m raw marshalled in
        let read = get_chunks-copies v m.chunks u (
          All-OnBackends-Later c sound view law stable 1 t.0 u.0 m.chunks
            (get_block-Later v kind_manifest root t) chunks) in
        elim (Result-cases (get_chunks c v m.chunks u).0) [
          | inl (bytes, all) ↦ absurd (ground (arith, found, parsed, all, h))
          | inr (e, failed) ↦ absurd (ground (arith, found, parsed, failed, h, read))
        ]
  ]

  -- A file that `PutFile` stored outlives any one backend: after any sequence of `Put`, `Get` and `Health` calls
  -- on the store, whatever they answered, and the replacement of one backend's state by any other, `GetFile` of
  -- the root returns the content under the name given. The cipher and the JSON codec are lawful, nonces have 24
  -- bytes, the hash has no collisions, what the backends held before at a block's address had that address, and
  -- they keep what they hold.
  pub get_file-put_file-lost :
      (v : Vault) (name : Text) (r : Reader) (s : State c) (root : Text) (calls : List Call)
      (ds : List c.backend.State) (drawn : ℕ)
      → Clean c sound view law stable s.0
      → (put_file c v name r s).0 ≡ ok root
      → OneLost (after_all c.backend c.hash calls (put_file c v name r s).1.0) ds
      → (m : Manifest) × (m.name ≡ name) × ((get_file c v root (ds, drawn)).0 ≡ ok (m, r.content))
  get_file-put_file-lost v name r s root calls ds drawn clean h loss =
      let (m, raw, marshalled, stored, kept) = put_file-OnBackends v name r s root clean h in
      let t = (put_file c v name r s).1 in
      let now = after_all c.backend c.hash calls t.0 in
      let (chunks, last) = All-last (OnBackends c sound view law stable 1 ds) m.chunks root (
        All-OnBackends-OneLost now ds (m.chunks ++ root ∷ []) loss (
          All-OnBackends-Later c sound view law stable 2 t.0 now (m.chunks ++ root ∷ [])
            (after_all-Later c.backend c.hash view law stable calls t.0) kept)) in
      elim (get_file-put_file c sound v name r s (ds, drawn) root h) [
        | inl found ↦ found
        | inr lost ↦
            absurd (get_file-copies v root m raw (ds, drawn) marshalled stored chunks last lost)
      ]
