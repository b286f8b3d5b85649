-- ===== src/Cas/Integrity.antt =====
-- Reads of core/cas/cas.go: what `Get` returns has the address that was asked for.
use mathlib.Core.Option.{some-injective}
use nft_soket.Base.{
  subst, ◌↔◌, ◌⊎◌, ℕ, ◌≡◌, refl, ap, none, some, List, [], ◌∷◌, All, arith, Option-cases, inl, inr,
}
use nft_soket.Base.Result.{Result, ok, err}
use nft_soket.Base.Text.{Text, eq_of_text_eq}
use nft_soket.Cas.{Backend, BackendError, not_found, address, verify, accept, find, get}

module _ (B : Backend) (hash : List ℕ → List ℕ) where
  accept-address :
      (addr : Text) (r : Result BackendError (List ℕ)) (got : List ℕ)
      → accept B hash addr r ≡ some got
      → (address hash got ≡ addr) × (r ≡ ok got)
  unfolding accept verify
  accept-address addr (err e) got h = cc
  accept-address addr (ok x) got h = ground (arith, eq_of_text_eq (address hash x) addr)

  pub find-address :
      (addr : Text) (backends : List B.State) (got : List ℕ)
      → (find B hash addr backends).0 ≡ some got
      → address hash got ≡ addr
  unfolding find
  find-address addr [] got h = cc
  find-address addr (b ∷ backends) got h =
      elim (Option-cases (accept B hash addr (B.get addr b).0)) [
        | inl bad ↦ find-address addr backends got (rw (bad, find) at h)
        | inr (x, good) ↦
            let same : x ≡ got = some-injective x got (rw (good, find) at h) in
            subst (λ (l : List ℕ). address hash l ≡ addr) same
              (accept-address addr (B.get addr b).0 x good).0
      ]

  -- Whatever the backends answer, the bytes that `Get` returns have the address asked for.
  pub get-address :
      (addr : Text) (backends after : List B.State) (got : List ℕ)
      → get B hash addr backends ≡ (ok got, after)
      → address hash got ≡ addr
  unfolding get
  get-address addr backends after got h = elim (Option-cases (find B hash addr backends).0) [
    | inl none_found ↦ cc (rw (none_found, get) at h)
    | inr (x, found) ↦
        let same : x ≡ got = ground (arith, rw (found, get) at h) in
        subst (λ (l : List ℕ). address hash l ≡ addr) same (find-address addr backends x found)
  ]

  -- A backend answers with a copy that verifies.
  abbrev pub HasGoodCopy : Text → B.State → Type 0
  HasGoodCopy addr b = (got : List ℕ) × (accept B hash addr (B.get addr b).0 ≡ some got)

  find-none :
      (addr : Text) (backends : List B.State)
      → (find B hash addr backends).0 ≡ none
      → All (λ b. ¬ HasGoodCopy addr b) backends
  unfolding find
  find-none addr [] h = tt
  find-none addr (b ∷ backends) h = elim (Option-cases (accept B hash addr (B.get addr b).0)) [
    | inl bad ↦ ((λ g. cc (bad, g.1)), find-none addr backends (rw (bad, find) at h))
    | inr (x, good) ↦ cc (rw (good, find) at h)
  ]

  none-find :
      (addr : Text) (backends : List B.State)
      → All (λ b. ¬ HasGoodCopy addr b) backends
      → (find B hash addr backends).0 ≡ none
  unfolding find
  none-find addr [] h = refl
  none-find addr (b ∷ backends) h = elim (Option-cases (accept B hash addr (B.get addr b).0)) [
    | inl bad ↦ rw (bad, find) (none-find addr backends h.1)
    | inr good ↦ absurd (h.0 good)
  ]

  -- `Get` fails exactly when no backend answers with a copy that verifies: any one of them is enough.
  pub get-not_found :
      (addr : Text) (backends : List B.State)
      → ((get B hash addr backends).0 ≡ err not_found) ↔ All (λ b. ¬ HasGoodCopy addr b) backends
  unfolding get
  get-not_found addr backends = (
    λ h. elim (Option-cases (find B hash addr backends).0) [
      | inl none_found ↦ find-none addr backends none_found
      | inr (x, found) ↦ cc (rw (found, get) at h)
    ],
    λ h. rw (none-find addr backends h, get) refl,
  )

  -- No other bytes have the address of these: what a collision-free hash gives.
  abbrev pub NoCollision : List ℕ → Type 0
  NoCollision bytes = (other : List ℕ) → address hash other ≡ address hash bytes → other ≡ bytes

  -- Reading the address of a block gives the block or the error, from any backends in any state.
  pub get-of_address :
      (bytes : List ℕ) (backends : List B.State)
      → NoCollision bytes
      → ((get B hash (address hash bytes) backends).0 ≡ ok bytes)
        ⊎ ((get B hash (address hash bytes) backends).0 ≡ err not_found)
  unfolding get
  get-of_address bytes backends free =
      let addr = address hash bytes in
      elim (Option-cases (find B hash addr backends).0) [
        | inl none_found ↦ inr (rw (none_found, get) refl)
        | inr (x, found) ↦
            let same : x ≡ bytes = free x (find-address addr backends x found) in
            inl (rw (found, get) (ap ok same))
      ]
