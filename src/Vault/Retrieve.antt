-- ===== src/Vault/Retrieve.antt =====
-- What `GetFile` of core/vault/vault.go returns for a file that `PutFile` stored.
use nft_soket.Base.{
  ℕ, zero, suc, ◌<◌, ◌≡◌, refl, sym, ap, ◌∙◌, subst, Bool, some, List, [], ◌∷◌, ◌++◌, append_assoc,
  append-nil, ◌⊎◌, inl, inr, length, take, drop, ltb, take-append-drop, length-drop, arith, ltb→lt,
  Option-cases, Bool-cases,
}
use nft_soket.Base.Result.{Result, ok, err, Result-cases}
use nft_soket.Base.Int.{ℤ, pos, add64}
use nft_soket.Base.Text.{Text}
use nft_soket.Aead
use nft_soket.Aead.{Cipher, aad}
use nft_soket.Cas
use nft_soket.Cas.Integrity.{get-of_address, NoCollision}
use nft_soket.Vault.{
  Vault, Manifest, Reader, Config, Error, State, fetching, kind_chunk, kind_manifest, chunk_size,
  seal_block, store_block, put_block, get_block, put_chunks, put_file, get_manifest, get_chunks,
  get_file,
}

-- What the vault relies on: the cipher and the JSON codec are lawful, nonces have 24 bytes, and the
-- hash has no collisions.
pub record IsSound (c : Config) : Type 0 where
  pub cipher : Aead.IsLawful c.cipher
  pub codec :
      (m : Manifest) (raw : List ℕ) → c.json.marshal m ≡ some raw → c.json.unmarshal raw ≡ some m
  pub nonces : (n : ℕ) (bs : List ℕ) → c.random n ≡ some bs → length bs ≡ Aead.nonce_len
  pub collision_free : (bytes : List ℕ) → NoCollision c.backend c.hash bytes

module _ (c : Config) (sound : IsSound c) where
  abbrev pub missing : Error
  missing = fetching Cas.not_found

  -- In any later state the block comes back, or no backend has a copy that verifies.
  abbrev pub IsStored : Vault → ℕ → Text → List ℕ → Type 0
  IsStored v kind addr bytes =
      (t : State c)
      → ((get_block c v kind addr t).0 ≡ ok bytes) ⊎ ((get_block c v kind addr t).0 ≡ err missing)

  sealed-IsStored :
      (v : Vault) (kind : ℕ) (bytes env : List ℕ)
      → Aead.unseal c.cipher v.enc_key env (aad v.fingerprint kind) ≡ ok bytes
      → IsStored v kind (Cas.address c.hash env) bytes
  unfolding get_block
  sealed-IsStored v kind bytes env opens (bs, n) =
      elim (get-of_address c.backend c.hash env bs (sound.collision_free env)) [
        | inl found ↦ inl (ground (arith, found, opens))
        | inr lost ↦ inr (ground (arith, lost))
      ]

  pub put_block-IsStored :
      (v : Vault) (kind : ℕ) (bytes : List ℕ) (s : State c) (addr : Text)
      → (put_block c v kind bytes s).0 ≡ ok addr
      → IsStored v kind addr bytes
  unfolding put_block Cas.put seal_block store_block
  put_block-IsStored v kind bytes s addr h =
      elim (Result-cases
        (Aead.seal c.cipher (c.random s.1) v.enc_key bytes (aad v.fingerprint kind))) [
          | inl (env, sealed) ↦
              let (nonce, drawn) =
                Aead.seal-nonce c.cipher (c.random s.1) v.enc_key bytes (aad v.fingerprint kind) env
                  sealed in
              let opens =
                Aead.unseal-seal c.cipher nonce v.enc_key bytes (aad v.fingerprint kind) env
                  sound.cipher (sound.nonces s.1 nonce drawn) (rw drawn at sealed) in
              let same : addr ≡ Cas.address c.hash env = ground (arith, sealed, h) in
              subst (λ a. IsStored v kind a bytes) (sym same)
                (sealed-IsStored v kind bytes env opens)
          | inr (e, failed) ↦ absurd (ground (arith, failed, h))
        ]

  -- Each address holds a part, and the parts are the content.
  abbrev Holds : Vault → List Text → List ℕ → Type 0
  Holds v [] content = content ≡ []
  Holds v (addr ∷ chunks) content =
      (part rest : List ℕ) × IsStored v kind_chunk addr part
      × (content ≡ part ++ rest)
      × Holds v chunks rest

  get_chunks-Holds :
      (v : Vault) (chunks : List Text) (content : List ℕ) (t : State c)
      → Holds v chunks content
      → ((get_chunks c v chunks t).0 ≡ ok content) ⊎ ((get_chunks c v chunks t).0 ≡ err missing)
  unfolding get_chunks
  get_chunks-Holds v [] content t h = inl (ap ok (sym h))
  get_chunks-Holds v (addr ∷ chunks) content t (part, rest, stored, split, others) =
      elim (stored t) [
        | inr lost ↦ inr (ground (arith, lost))
        | inl found ↦
            elim (get_chunks-Holds v chunks rest (get_block c v kind_chunk addr t).1 others) [
              | inr lost ↦ inr (ground (arith, found, lost))
              | inl read ↦ inl (ground (arith, found, read, split))
            ]
      ]

  short_take : (n : ℕ) (xs : List ℕ) → length (take n xs) < n → xs ≡ take n xs ++ []
  short_take zero xs h = absurd (omega (arith, h))
  short_take (suc n) [] h = refl
  short_take (suc n) (x ∷ xs) h = ap (◌∷◌ x) (short_take n xs (omega (arith, h)))

  put_chunks-Holds :
      (fuel size : ℕ) (v : Vault) (content : List ℕ) (fails : Bool) (chunks : List Text) (total : ℤ)
      (s t : State c) (all : List Text) (sum : ℤ)
      → length content < fuel
      → 0 < size
      → put_chunks c fuel size v content fails chunks total s ≡ (ok (all, sum), t)
      → (new : List Text) × (all ≡ chunks ++ new) × Holds v new content
  unfolding put_chunks
  put_chunks-Holds zero size v content fails chunks total s t all sum l p h =
      absurd (omega (arith, l))
  put_chunks-Holds (suc fuel) zero v content fails chunks total s t all sum l p h =
      absurd (omega (arith, p))
  put_chunks-Holds (suc fuel) (suc k) v [] fails chunks total s t all sum l p h =
      elim (Bool-cases fails) [
        | inl failed ↦ absurd (ground (arith, rw failed at h))
        | inr ended ↦ ([], ground (arith, ended, h, append-nil chunks), refl)
      ]
  put_chunks-Holds (suc fuel) (suc k) v (b ∷ content) fails chunks total s t all sum l p h =
      let bytes = b ∷ take k content in
      elim (Result-cases (put_block c v kind_chunk bytes s).0) [
        | inr (e, failed) ↦ absurd (ground (arith, failed, h))
        | inl (addr, ok_addr) ↦
            let stored = put_block-IsStored v kind_chunk bytes s addr ok_addr in
            elim (Bool-cases (ltb (length bytes) (suc k))) [
              | inl short ↦ (
                addr ∷ [],
                elim (Bool-cases fails) [
                  | inl failed ↦ absurd (ground (arith, ok_addr, short, failed, h))
                  | inr ended ↦ ground (arith, ok_addr, short, ended, h)
                ],
                (
                  bytes,
                  [],
                  stored,
                  ap (◌∷◌ b)
                      (short_take k content (omega (arith, ltb→lt (length bytes) (suc k) short))),
                  refl,
                ),
              )
              | inr full ↦
                  let (new, shape, holds) =
                    put_chunks-Holds fuel (suc k) v (drop k content) fails (chunks ++ addr ∷ [])
                      (add64 total (pos (length bytes))) (put_block c v kind_chunk bytes s).1 t all
                      sum (omega (arith, l, length-drop k content)) p
                      (ground (arith, ok_addr, full, h)) in
                  (
                    addr ∷ new,
                    shape ∙ append_assoc chunks (addr ∷ []) new,
                    (
                      bytes,
                      drop k content,
                      stored,
                      ap (◌∷◌ b) (sym (take-append-drop k content)),
                      holds,
                    ),
                  )
            ]
      ]

  put_file-parts :
      (v : Vault) (name : Text) (r : Reader) (s : State c) (root : Text)
      → (put_file c v name r s).0 ≡ ok root
      → (m : Manifest) × (raw : List ℕ) × (c.json.marshal m ≡ some raw)
        × (m.name ≡ name)
        × Holds v m.chunks r.content
        × IsStored v kind_manifest root raw
  unfolding put_file
  put_file-parts v name r s root h =
      let stored =
        put_chunks c (suc (length r.content)) chunk_size v r.content r.fails [] (pos 0) s in
      elim (Result-cases stored.0) [
        | inr (e, failed) ↦ absurd (ground (arith, failed, h))
        | inl ((chunks, total), put) ↦
            let (new, shape, holds) =
              put_chunks-Holds (suc (length r.content)) chunk_size v r.content r.fails [] (pos 0) s
                stored.1 chunks total (omega arith) (omega arith)
                (ap (λ (x : Result Error (List Text × ℤ)). (x, stored.1)) put) in
            let m : Manifest = record { name = name; size = total; chunks = chunks } in
            elim (Option-cases (c.json.marshal m)) [
              | inl none_given ↦ absurd (ground (arith, put, none_given, h))
              | inr (raw, marshalled) ↦ (
                m,
                raw,
                marshalled,
                refl,
                subst (λ l. Holds v l r.content) (sym shape) holds,
                put_block-IsStored v kind_manifest raw stored.1 root
                    (ground (arith, put, marshalled, h)),
              )
            ]
      ]

  -- When `PutFile` returns a root, `GetFile` of that root in any later state of the backends returns
  -- the content that was read, under the name given, or the error that no backend has a copy that
  -- verifies of some block. The cipher and the JSON codec are lawful, nonces have 24 bytes and the
  -- hash has no collisions.
  pub get_file-put_file :
      (v : Vault) (name : Text) (r : Reader) (s t : State c) (root : Text)
      → (put_file c v name r s).0 ≡ ok root
      → ((m : Manifest) × (m.name ≡ name) × ((get_file c v root t).0 ≡ ok (m, r.content)))
        ⊎ ((get_file c v root t).0 ≡ err missing)
  unfolding get_file get_manifest
  get_file-put_file v name r s t root h =
      let (m, raw, marshalled, named, holds, stored) = put_file-parts v name r s root h in
      elim (stored t) [
        | inr lost ↦ inr (ground (arith, lost))
        | inl found ↦
            elim (get_chunks-Holds v m.chunks r.content (get_block c v kind_manifest root t).1
              holds) [
                | inr lost ↦ inr (ground (arith, found, lost, sound.codec m raw marshalled))
                | inl read ↦
                    inl (m, named, ground (arith, found, read, sound.codec m raw marshalled))
              ]
      ]
