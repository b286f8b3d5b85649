-- ===== src/Vault/Kept.antt =====
-- The backends through `PutFile` of core/vault/vault.go: each block is on two of them, and stays.
use nft_soket.Base.{
  ℕ, zero, suc, ◌<◌, ◌≤◌, ◌≡◌, sym, Bool, Option, List, [], ◌∷◌, ◌++◌, All, inl, inr, length, take,
  drop, ltb, arith, Bool-cases,
}
use nft_soket.Base.Result.{ok, Result-cases}
use nft_soket.Base.Int.{ℤ, pos, add64}
use nft_soket.Base.Text.{Text}
use nft_soket.Aead
use nft_soket.Aead.{aad}
use nft_soket.Cas
use nft_soket.Cas.Replication.{IsLawful, copies}
use nft_soket.Cas.Survival.{IsStable, Later, Later-refl, put-Later}
use nft_soket.Cas.Loss.{IsClean, put-All-IsClean, put-two, copies-Later, copies-OneLost, OneLost}
use nft_soket.Vault.{
  Vault, Config, State, kind_chunk, seal_block, store_block, put_block, put_chunks,
}
use nft_soket.Vault.Retrieve.{IsSound}

module _ (c : Config) (sound : IsSound c) (view : Text → c.backend.State → Option (List ℕ))
    (law : IsLawful c.backend view) (stable : IsStable c.backend c.hash view) where
  abbrev pub Clean : List c.backend.State → Type 0
  Clean = All (IsClean c.backend c.hash view law stable)

  abbrev pub After : List c.backend.State → List c.backend.State → Type 0
  After = Later c.backend c.hash view law stable

  -- Some bytes with this address are on so many backends.
  abbrev pub OnBackends : ℕ → List c.backend.State → Text → Type 0
  OnBackends n bs addr =
      (env : List ℕ) × (addr ≡ Cas.address c.hash env)
      × (n ≤ copies c.backend c.hash view law addr env bs)

  OnBackends-Later :
      (n : ℕ) (bs cs : List c.backend.State) (addr : Text)
      → After bs cs
      → OnBackends n bs addr
      → OnBackends n cs addr
  OnBackends-Later n bs cs addr p (env, named, enough) = (
    env,
    named,
    omega (
      arith,
      enough,
      copies-Later c.backend c.hash view law stable addr env bs cs (env, sym named) p,
    ),
  )

  pub All-OnBackends-Later :
      (n : ℕ) (bs cs : List c.backend.State) (addrs : List Text)
      → After bs cs
      → All (OnBackends n bs) addrs
      → All (OnBackends n cs) addrs
  All-OnBackends-Later n bs cs [] p h = tt
  All-OnBackends-Later n bs cs (addr ∷ addrs) p h =
      (OnBackends-Later n bs cs addr p h.0, All-OnBackends-Later n bs cs addrs p h.1)

  pub OnBackends-OneLost :
      (bs cs : List c.backend.State) (addr : Text)
      → OneLost bs cs
      → OnBackends 2 bs addr
      → OnBackends 1 cs addr
  OnBackends-OneLost bs cs addr p (env, named, enough) = (
    env,
    named,
    omega (arith, enough, copies-OneLost c.backend c.hash view law stable addr env p),
  )

  -- What a step does to the backends: they keep what they hold, and stay clean.
  abbrev IsKeeping : State c → State c → Type 0
  IsKeeping s t = After s.0 t.0 × (Clean s.0 → Clean t.0)

  put_block-IsKeeping :
      (v : Vault) (kind : ℕ) (bytes : List ℕ) (s : State c)
      → IsKeeping s (put_block c v kind bytes s).1
  unfolding put_block seal_block store_block
  put_block-IsKeeping v kind bytes s =
      elim (Result-cases
        (Aead.seal c.cipher (c.random s.1) v.enc_key bytes (aad v.fingerprint kind))) [
          | inl (env, sealed) ↦ ground (
            arith,
            sealed,
            put-Later c.backend c.hash view law stable env s.0,
            put-All-IsClean c.backend c.hash view law stable env s.0,
          )
          | inr (e, failed) ↦
              ground (arith, failed, Later-refl c.backend c.hash view law stable s.0)
        ]

  pub put_block-OnBackends :
      (v : Vault) (kind : ℕ) (bytes : List ℕ) (s : State c) (addr : Text)
      → Clean s.0
      → (put_block c v kind bytes s).0 ≡ ok addr
      → OnBackends 2 (put_block c v kind bytes s).1.0 addr
  unfolding put_block seal_block store_block
  put_block-OnBackends v kind bytes s addr clean h =
      elim (Result-cases
        (Aead.seal c.cipher (c.random s.1) v.enc_key bytes (aad v.fingerprint kind))) [
          | inl (env, sealed) ↦
              let done : (Cas.put c.backend c.hash env s.0).0 ≡ ok addr =
                ground (arith, sealed, h) in
              let two =
                put-two c.backend c.hash view law stable env s.0 addr (sound.collision_free env)
                  clean done in
              (env, two.0, ground (arith, sealed, two.1))
          | inr (e, failed) ↦ absurd (ground (arith, failed, h))
        ]

  All-append :
      (P : Text → Type 0) (xs : List Text) (x : Text) → All P xs → P x → All P (xs ++ x ∷ [])
  All-append P [] x h p = (p, tt)
  All-append P (y ∷ xs) x h p = (h.0, All-append P xs x h.1 p)

  -- A chunk that was stored, behind those before it.
  pub put_block-All :
      (v : Vault) (kind : ℕ) (bytes : List ℕ) (s : State c) (addr : Text) (chunks : List Text)
      → Clean s.0
      → All (OnBackends 2 s.0) chunks
      → (put_block c v kind bytes s).0 ≡ ok addr
      → Clean (put_block c v kind bytes s).1.0
        × All (OnBackends 2 (put_block c v kind bytes s).1.0) (chunks ++ addr ∷ [])
  put_block-All v kind bytes s addr chunks clean kept h =
      let t = (put_block c v kind bytes s).1 in
      let step = put_block-IsKeeping v kind bytes s in
      (
        step.1 clean,
        All-append (OnBackends 2 t.0) chunks addr
            (All-OnBackends-Later 2 s.0 t.0 chunks step.0 kept)
            (put_block-OnBackends v kind bytes s addr clean h),
      )

  pub put_chunks-OnBackends :
      (fuel size : ℕ) (v : Vault) (content : List ℕ) (fails : Bool) (chunks : List Text) (total : ℤ)
      (s t : State c) (all : List Text) (sum : ℤ)
      → 0 < size
      → Clean s.0
      → All (OnBackends 2 s.0) chunks
      → put_chunks c fuel size v content fails chunks total s ≡ (ok (all, sum), t)
      → Clean t.0 × All (OnBackends 2 t.0) all
  unfolding put_chunks
  put_chunks-OnBackends zero size v content fails chunks total s t all sum p clean kept h = cc
  put_chunks-OnBackends (suc fuel) zero v content fails chunks total s t all sum p clean kept h =
      absurd (omega (arith, p))
  put_chunks-OnBackends (suc fuel) (suc k) v [] fails chunks total s t all sum p clean kept h =
      elim (Bool-cases fails) [
        | inl failed ↦ absurd (ground (arith, rw failed at h))
        | inr ended ↦
            let same : (all ≡ chunks) × (t ≡ s) = ground (arith, rw ended at h) in
            rw (same.0, same.1) (clean, kept)
      ]
  put_chunks-OnBackends (suc fuel) (suc k) v (b ∷ content) fails chunks total s t all sum p clean
        kept h =
      let bytes = b ∷ take k content in
      let u = (put_block c v kind_chunk bytes s).1 in
      elim (Result-cases (put_block c v kind_chunk bytes s).0) [
        | inr (e, failed) ↦ absurd (ground (arith, failed, h))
        | inl (addr, stored) ↦
            let (clean', kept') =
              put_block-All v kind_chunk bytes s addr chunks clean kept stored in
            elim (Bool-cases (ltb (length bytes) (suc k))) [
              | inl short ↦ elim (Bool-cases fails) [
                | inl failed ↦ absurd (ground (arith, stored, short, failed, h))
                | inr ended ↦
                    let same : (all ≡ chunks ++ addr ∷ []) × (t ≡ u) =
                      ground (arith, stored, short, ended, h) in
                    rw (same.0, same.1) (clean', kept')
              ]
              | inr full ↦
                  put_chunks-OnBackends fuel (suc k) v (drop k content) fails (chunks ++ addr ∷ [])
                    (add64 total (pos (length bytes))) u t all sum p clean' kept'
                    (ground (arith, stored, full, h))
            ]
      ]
