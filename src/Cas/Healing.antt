-- ===== src/Cas/Healing.antt =====
-- `Get` of core/cas/cas.go brings every backend back to a copy of the block.
use nft_soket.Base.{
  ℕ, ◌≡◌, sym, ap, ◌∙◌, subst, Bool, true, false, Option, none, some, List, [], ◌∷◌, All, arith,
  Option-cases, inl, inr,
}
use nft_soket.Base.Result.{ok}
use nft_soket.Base.Text.{Text}
use nft_soket.Cas.{Backend, address, accept, find, heal, heal_one, get, is_present}
use nft_soket.Cas.Integrity.{NoCollision, find-address}
use nft_soket.Cas.Replication.{IsLawful, Agrees}
use nft_soket.Cas.Survival.{IsStable}
use nft_soket.Cas.Loss.{IsClean, Agrees-IsClean}

abbrev pub is_some : {A : Type 0} → Option A → Bool
is_some none = false
is_some (some a) = true

-- A backend that is up for a block: it reports whether it holds the block and accepts a write of it.
pub record IsUp (B : Backend) (view : Text → B.State → Option (List ℕ)) (addr : Text)
    (bytes : List ℕ) : Type 0 where
  pub reports : (b : B.State) → is_present (B.has addr b).0 ≡ is_some (view addr b)
  pub accepts : (b : B.State) → (B.put addr bytes b).0 ≡ ok tt

module _ (B : Backend) (hash : List ℕ → List ℕ) (view : Text → B.State → Option (List ℕ))
    (law : IsLawful B view) (stable : IsStable B hash view) where
  heal_one-holds :
      (addr : Text) (bytes : List ℕ) (b : B.State)
      → IsUp B view addr bytes
      → Agrees B hash view law addr bytes b
      → view addr (heal_one B hash addr bytes b) ≡ some bytes
  unfolding heal_one
  heal_one-holds addr bytes b up agrees =
      let c = (B.has addr b).1 in
      let kept : view addr c ≡ view addr b = stable.has_keeps addr addr b in
      elim (Option-cases (view addr b)) [
        | inl empty ↦
            let gone : is_present (B.has addr b).0 ≡ false = up.reports b ∙ ap is_some empty in
            rw (gone, heal_one) (law.put_ok addr bytes c (up.accepts c) (kept ∙ empty))
        | inr (got, there) ↦
            let present : is_present (B.has addr b).0 ≡ true = up.reports b ∙ ap is_some there in
            rw (present, heal_one) (kept ∙ there ∙ ap some (agrees got there))
      ]

  heal-holds :
      (addr : Text) (bytes : List ℕ) (bs : List B.State)
      → IsUp B view addr bytes
      → All (Agrees B hash view law addr bytes) bs
      → All (λ b. view addr b ≡ some bytes) (heal B hash addr bytes bs)
  unfolding heal
  heal-holds addr bytes [] up h = tt
  heal-holds addr bytes (b ∷ bs) up h =
      (heal_one-holds addr bytes b up h.0, heal-holds addr bytes bs up h.1)

  find-Agrees :
      (addr : Text) (bytes : List ℕ) (bs : List B.State)
      → All (Agrees B hash view law addr bytes) bs
      → All (Agrees B hash view law addr bytes) (find B hash addr bs).1
  unfolding find
  find-Agrees addr bytes [] h = tt
  find-Agrees addr bytes (b ∷ bs) h =
      let same : Agrees B hash view law addr bytes (B.get addr b).1 =
        λ got there. h.0 got (sym (stable.get_keeps addr addr b) ∙ there) in
      elim (Option-cases (accept B hash addr (B.get addr b).0)) [
        | inl bad ↦ rw (bad, find) (same, find-Agrees addr bytes bs h.1)
        | inr (got, good) ↦ rw (good, find) (same, h.1)
      ]

  -- After a `Get` that returned the block, every backend holds it, also those that had lost it or never had it.
  -- The backends report whether they hold this block, accept a write of it and keep what they hold; what they
  -- held at a block's address had that address, and no other bytes have this block's.
  pub get-holds :
      (addr : Text) (bytes : List ℕ) (bs after : List B.State)
      → IsUp B view addr bytes
      → NoCollision B hash bytes
      → All (IsClean B hash view law stable) bs
      → get B hash addr bs ≡ (ok bytes, after)
      → All (λ b. view addr b ≡ some bytes) after
  unfolding get
  get-holds addr bytes bs after up free clean done = elim (Option-cases (find B hash addr bs).0) [
    | inl none_found ↦ cc (rw (none_found, get) at done)
    | inr (x, found) ↦
        let ran : (x ≡ bytes) × (heal B hash addr x (find B hash addr bs).1 ≡ after) =
          ground (arith, rw (found, get) at done) in
        let named : address hash bytes ≡ addr =
          subst (λ y. address hash y ≡ addr) ran.0 (find-address B hash addr bs x found) in
        let agree : All (Agrees B hash view law addr bytes) bs =
          subst (λ a. All (Agrees B hash view law a bytes) bs) named
            (Agrees-IsClean B hash view law stable bytes bs free clean) in
        subst (All (λ b. view addr b ≡ some bytes)) ran.1 (
          subst
            (λ y. All (λ b. view addr b ≡ some bytes) (heal B hash addr y (find B hash addr bs).1))
            (sym ran.0)
            (heal-holds addr bytes (find B hash addr bs).1 up (find-Agrees addr bytes bs agree)))
  ]
