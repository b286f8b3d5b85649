-- ===== src/Vault/Reading.antt =====
-- The loop of `PutFile` in core/vault/vault.go ends: it reports a read error only if the reader fails.
use nft_soket.Base.{
  ℕ, zero, suc, ◌<◌, ◌≡◌, ◌≢◌, subst, Bool, false, List, [], ◌∷◌, ◌++◌, ltb, length, take, drop,
  length-drop, arith, Bool-cases, Option-cases, inl, inr,
}
use nft_soket.Base.Result.{err, Result-cases}
use nft_soket.Base.Int.{ℤ, pos, add64}
use nft_soket.Base.Text.{Text}
use nft_soket.Aead
use nft_soket.Aead.{aad}
use nft_soket.Cas
use nft_soket.Vault.{
  Vault, Reader, Config, State, reading, kind_chunk, kind_manifest, chunk_size, seal_block,
  store_block, put_block, put_chunks, put_file,
}

module _ (c : Config) where
  put_block-reading :
      (v : Vault) (kind : ℕ) (bytes : List ℕ) (s : State c)
      → (put_block c v kind bytes s).0 ≢ err reading
  unfolding put_block seal_block store_block
  put_block-reading v kind bytes s h =
      elim (Result-cases
        (Aead.seal c.cipher (c.random s.1) v.enc_key bytes (aad v.fingerprint kind))) [
          | inr (e, failed) ↦ ground (arith, failed, h)
          | inl (sealed, made) ↦ elim (Result-cases (Cas.put c.backend c.hash sealed s.0).0) [
            | inr (e, failed) ↦ ground (arith, made, failed, h)
            | inl (addr, stored) ↦ ground (arith, made, stored, h)
          ]
        ]

  put_chunks-reading :
      (fuel size : ℕ) (v : Vault) (content : List ℕ) (chunks : List Text) (total : ℤ) (s : State c)
      → length content < fuel
      → 0 < size
      → (put_chunks c fuel size v content false chunks total s).0 ≢ err reading
  unfolding put_chunks
  put_chunks-reading zero size v content chunks total s l p h = omega (arith, l)
  put_chunks-reading (suc fuel) zero v content chunks total s l p h = omega (arith, p)
  put_chunks-reading (suc fuel) (suc k) v [] chunks total s l p h = ground (arith, h)
  put_chunks-reading (suc fuel) (suc k) v (b ∷ content) chunks total s l p h =
      let bytes = b ∷ take k content in
      let part = put_block c v kind_chunk bytes s in
      elim (Result-cases part.0) [
        | inr (e, failed) ↦ put_block-reading v kind_chunk bytes s (ground (arith, failed, h))
        | inl (addr, stored) ↦ elim (Bool-cases (ltb (length bytes) (suc k))) [
          | inl short ↦ ground (arith, stored, short, h)
          | inr full ↦
              put_chunks-reading fuel (suc k) v (drop k content) (chunks ++ addr ∷ [])
                (add64 total (pos (length bytes))) part.1 (omega (arith, l, length-drop k content))
                p (ground (arith, stored, full, h))
        ]
      ]

  -- Where the reader does not fail, `PutFile` does not report a read error: the rounds of its loop
  -- suffice for any content, so it ends with a root or with another error.
  pub put_file-reading :
      (v : Vault) (name : Text) (r : Reader) (s : State c)
      → r.fails ≡ false
      → (put_file c v name r s).0 ≢ err reading
  unfolding put_file
  put_file-reading v name r s works h =
      let stored =
        put_chunks c (suc (length r.content)) chunk_size v r.content r.fails [] (pos 0) s in
      elim (Result-cases stored.0) [
        | inr (e, failed) ↦
            put_chunks-reading (suc (length r.content)) chunk_size v r.content [] (pos 0) s
              (omega arith) (omega arith)
              (subst
                (λ (f : Bool).
                  (put_chunks c (suc (length r.content)) chunk_size v r.content f [] (pos 0) s).0
                  ≡ err reading)
                works (ground (arith, failed, h)))
        | inl ((chunks, total), put) ↦
            elim (Option-cases
              (c.json.marshal (record { name = name; size = total; chunks = chunks }))) [
                | inl none_given ↦ ground (arith, put, none_given, h)
                | inr (raw, marshalled) ↦
                    put_block-reading v kind_manifest raw stored.1
                      (ground (arith, put, marshalled, h))
              ]
      ]
