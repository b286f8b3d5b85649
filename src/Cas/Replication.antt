-- ===== src/Cas/Replication.antt =====
-- Writes of core/cas/cas.go: an acknowledged block is on at least two backends, and healing.
use nft_soket.Base.{
  ℕ, ◌+◌, ◌≤◌, ◌≡◌, sym, ap, ◌∙◌, subst, Bool, true, false, Option, none, some, List, [], ◌∷◌, All,
  arith, Option-cases, inl, inr, if◌then◌else◌,
}
use nft_soket.Base.Result.{ok, err, Result-cases}
use nft_soket.Base.Text.{Text, text_eq, text_eq_refl}
use nft_soket.Cas.{Backend, BackendError, address, put_all, put, heal_one, is_present}

-- What a store relies on in a backend, on the block that it holds at an address: an accepted write
-- leaves a block there, the old one if there was one; a refused write and a probe change nothing.
pub record IsLawful (B : Backend) (view : Text → B.State → Option (List ℕ)) : Type 0 where
  pub put_ok :
      (addr : Text) (bytes : List ℕ) (b : B.State)
      → (B.put addr bytes b).0 ≡ ok tt
      → view addr b ≡ none
      → view addr (B.put addr bytes b).1 ≡ some bytes
  pub put_old :
      (addr : Text) (bytes old : List ℕ) (b : B.State)
      → view addr b ≡ some old
      → view addr (B.put addr bytes b).1 ≡ some old
  pub put_err :
      (addr : Text) (bytes : List ℕ) (b : B.State) (e : BackendError)
      → (B.put addr bytes b).0 ≡ err e
      → view addr (B.put addr bytes b).1 ≡ view addr b
  pub has_keeps : (addr : Text) (b : B.State) → view addr (B.has addr b).1 ≡ view addr b

module _ (B : Backend) (hash : List ℕ → List ℕ) (view : Text → B.State → Option (List ℕ))
    (law : IsLawful B view) where
  -- The number of backends that hold these bytes at the address.
  abbrev pub holds : Text → List ℕ → B.State → Bool
  holds addr bytes b = elim (view addr b) [ none ↦ false | some got ↦ text_eq got bytes ]

  abbrev pub copies : Text → List ℕ → List B.State → ℕ
  copies addr bytes [] = 0
  copies addr bytes (b ∷ backends) =
      (if holds addr bytes b then 1 else 0) + copies addr bytes backends

  -- What a backend holds at the address, if anything, are these bytes.
  abbrev pub Agrees : Text → List ℕ → B.State → Type 0
  Agrees addr bytes b = (got : List ℕ) → view addr b ≡ some got → got ≡ bytes

  put-holds :
      (addr : Text) (bytes : List ℕ) (b : B.State)
      → Agrees addr bytes b
      → (B.put addr bytes b).0 ≡ ok tt
      → view addr (B.put addr bytes b).1 ≡ some bytes
  put-holds addr bytes b agrees done = elim (Option-cases (view addr b)) [
    | inl empty ↦ law.put_ok addr bytes b done empty
    | inr (old, there) ↦ law.put_old addr bytes old b there ∙ ap some (agrees old there)
  ]

  count-le-copies :
      (addr : Text) (bytes : List ℕ) (backends : List B.State) (n : ℕ)
      → All (Agrees addr bytes) backends
      → (put_all B hash addr bytes backends n).0
        ≤ n + copies addr bytes (put_all B hash addr bytes backends n).1
  unfolding put_all
  count-le-copies addr bytes [] n h = omega arith
  count-le-copies addr bytes (b ∷ backends) n h = elim (Result-cases (B.put addr bytes b).0) [
    | inl (u, done) ↦ ground (
      arith,
      done,
      put-holds addr bytes b h.0 done,
      text_eq_refl bytes,
      count-le-copies addr bytes backends (n + 1) h.1,
    )
    | inr (e, refused) ↦ ground (arith, refused, count-le-copies addr bytes backends n h.1)
  ]

  -- Where no backend holds other bytes at the address, an acknowledged write has left the bytes on at
  -- least two backends, under the address that is returned.
  pub put-copies :
      (bytes : List ℕ) (backends after : List B.State) (addr : Text)
      → All (Agrees (address hash bytes) bytes) backends
      → put B hash bytes backends ≡ (ok addr, after)
      → (addr ≡ address hash bytes) × (2 ≤ copies addr bytes after)
  unfolding put
  put-copies bytes backends after addr agrees done =
      let count = count-le-copies (address hash bytes) bytes backends 0 agrees in
      let written : (addr ≡ address hash bytes)
          × (after ≡ (put_all B hash (address hash bytes) bytes backends 0).1)
          × (2 ≤ (put_all B hash (address hash bytes) bytes backends 0).0) =
        ground arith in
      (
        written.0,
        subst (λ (a : Text). 2 ≤ copies a bytes after) (sym written.0)
            (subst (λ (l : List B.State). 2 ≤ copies (address hash bytes) bytes l) (sym written.1)
              (omega (arith, count, written.2))),
      )

  -- Healing leaves a backend that reports the block as it is, whatever bytes it holds; one that does
  -- not report it, holds none and accepts the write holds the block then.
  pub heal_one-view :
      (addr : Text) (bytes : List ℕ) (b : B.State)
      → ((B.has addr b).0 ≡ ok true → view addr (heal_one B hash addr bytes b) ≡ view addr b)
        × (is_present (B.has addr b).0 ≡ false
            → view addr b ≡ none
            → (B.put addr bytes (B.has addr b).1).0 ≡ ok tt
            → view addr (heal_one B hash addr bytes b) ≡ some bytes)
  unfolding heal_one
  heal_one-view addr bytes b = (
    λ h. ground (arith, h, law.has_keeps addr b),
    λ gone empty done.
        rw (gone, heal_one)
          (law.put_ok addr bytes (B.has addr b).1 done (law.has_keeps addr b ∙ empty)),
  )
