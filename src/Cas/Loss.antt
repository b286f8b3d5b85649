-- ===== src/Cas/Loss.antt =====
-- core/cas/cas.go when one backend is lost: its state is replaced by any other.
use nft_soket.Base.{
  ℕ, suc, ◌≤◌, ◌≡◌, refl, sym, ap, ◌∙◌, subst, true, Option, some, List, [], ◌∷◌, All, arith,
  Option-cases, Bool-cases, inl, inr,
}
use mathlib.Core.Option.{some-injective}
use nft_soket.Base.Result.{ok, Result-cases}
use nft_soket.Base.Text.{Text, text_eq, text_eq_refl, eq_of_text_eq, text_eq_iff}
use nft_soket.Cas.{Backend, address, verify, put_all, put, accept, get}
use nft_soket.Cas.Integrity.{NoCollision, get-of_address, get-not_found, HasGoodCopy}
use nft_soket.Cas.Replication.{IsLawful, copies, holds, put-copies, Agrees}
use nft_soket.Cas.Survival.{IsAddress, IsStable, Later, Call, after_all, after_all-Later}

-- The backends after one of them, at most, was replaced.
pub data OneLost {S : Type 0} : List S → List S → Type 0 where
  none_lost : (bs : List S) → OneLost bs bs
  lost : (b c : S) (bs : List S) → OneLost (b ∷ bs) (c ∷ bs)
  later : (b : S) (bs cs : List S) → OneLost bs cs → OneLost (b ∷ bs) (b ∷ cs)

module _ (B : Backend) (hash : List ℕ → List ℕ) (view : Text → B.State → Option (List ℕ))
    (law : IsLawful B view) (stable : IsStable B hash view) where
  -- What the backend holds at a block's address has that address.
  abbrev pub IsClean : B.State → Type 0
  IsClean b =
      (addr : Text) (bytes : List ℕ)
      → IsAddress hash addr
      → view addr b ≡ some bytes
      → address hash bytes ≡ addr

  put-IsClean :
      (bytes : List ℕ) (b : B.State) → IsClean b → IsClean (B.put (address hash bytes) bytes b).1
  put-IsClean bytes b clean other held a h =
      let addr = address hash bytes in
      elim (Bool-cases (text_eq addr other)) [
        | inr e ↦ clean other held a (
            sym (
              stable.put_other addr other bytes b (bytes, refl) a
                (λ same. cc (e, (text_eq_iff addr other).1 same)))
            ∙ h)
        | inl e ↦
            let same = eq_of_text_eq addr other e in
            let h' = ap (λ k. view k (B.put addr bytes b).1) same ∙ h in
            elim (Option-cases (view addr b)) [
              | inr (old, there) ↦
                  clean addr held (bytes, refl)
                    (there ∙ sym (law.put_old addr bytes old b there) ∙ h')
                  ∙ same
              | inl empty ↦ elim (Result-cases (B.put addr bytes b).0) [
                | inl (u, done) ↦
                    ap (address hash)
                      (some-injective held bytes (sym h' ∙ law.put_ok addr bytes b done empty))
                    ∙ same
                | inr (x, failed) ↦ cc (h', empty, law.put_err addr bytes b x failed)
              ]
            ]
      ]

  put_all-IsClean :
      (bytes : List ℕ) (bs : List B.State) (n : ℕ)
      → All IsClean bs
      → All IsClean (put_all B hash (address hash bytes) bytes bs n).1
  unfolding put_all
  put_all-IsClean bytes [] n h = tt
  put_all-IsClean bytes (b ∷ bs) n h = (put-IsClean bytes b h.0, put_all-IsClean bytes bs _ h.1)

  -- `Put` keeps every backend clean.
  pub put-All-IsClean :
      (bytes : List ℕ) (bs : List B.State) → All IsClean bs → All IsClean (put B hash bytes bs).1
  unfolding put
  put-All-IsClean bytes bs h = put_all-IsClean bytes bs 0 h

  pub Agrees-IsClean :
      (bytes : List ℕ) (bs : List B.State)
      → NoCollision B hash bytes
      → All IsClean bs
      → All (Agrees B hash view law (address hash bytes) bytes) bs
  Agrees-IsClean bytes [] free h = tt
  Agrees-IsClean bytes (b ∷ bs) free h = (
    (λ got there. free got (h.0 (address hash bytes) got (bytes, refl) there)),
    Agrees-IsClean bytes bs free h.1,
  )

  -- An acknowledged block is on two backends.
  pub put-two :
      (bytes : List ℕ) (bs : List B.State) (addr : Text)
      → NoCollision B hash bytes
      → All IsClean bs
      → (put B hash bytes bs).0 ≡ ok addr
      → (addr ≡ address hash bytes)
        × (2 ≤ copies B hash view law addr bytes (put B hash bytes bs).1)
  put-two bytes bs addr free clean done =
      put-copies B hash view law bytes bs (put B hash bytes bs).1 addr
        (Agrees-IsClean bytes bs free clean) (ap (λ r. (r, (put B hash bytes bs).1)) done)

  holds-view :
      (addr : Text) (bytes : List ℕ) (b : B.State)
      → holds B hash view law addr bytes b ≡ true
      → view addr b ≡ some bytes
  holds-view addr bytes b h = elim (Option-cases (view addr b)) [
    | inl empty ↦ cc (rw (empty, holds) at h)
    | inr (got, there) ↦ there ∙ ap some (eq_of_text_eq got bytes (rw (there, holds) at h))
  ]

  view-holds :
      (addr : Text) (bytes : List ℕ) (b : B.State)
      → view addr b ≡ some bytes
      → holds B hash view law addr bytes b ≡ true
  view-holds addr bytes b h = ground (arith, h, text_eq_refl bytes)

  pub copies-Later :
      (addr : Text) (bytes : List ℕ) (bs cs : List B.State)
      → IsAddress hash addr
      → Later B hash view law stable bs cs
      → copies B hash view law addr bytes bs ≤ copies B hash view law addr bytes cs
  copies-Later addr bytes [] [] own p = omega arith
  copies-Later addr bytes [] (c ∷ cs) own p = absurd p
  copies-Later addr bytes (b ∷ bs) [] own p = absurd p
  copies-Later addr bytes (b ∷ bs) (c ∷ cs) own p =
      let rest = copies-Later addr bytes bs cs own p.1 in
      elim (Bool-cases (holds B hash view law addr bytes b)) [
        | inr no_copy ↦ ground (arith, no_copy, rest)
        | inl copy ↦ ground (
          arith,
          copy,
          view-holds addr bytes c (p.0 addr bytes own (holds-view addr bytes b copy)),
          rest,
        )
      ]

  pub copies-OneLost :
      (addr : Text) (bytes : List ℕ) {bs cs : List B.State}
      → OneLost bs cs
      → copies B hash view law addr bytes bs ≤ suc (copies B hash view law addr bytes cs)
  copies-OneLost addr bytes (none_lost bs) = omega arith
  copies-OneLost addr bytes (lost b c rest) = ground arith
  copies-OneLost addr bytes (later b rest others p) = omega (arith, copies-OneLost addr bytes p)

  copy-GoodCopy :
      (bytes : List ℕ) (b : B.State)
      → view (address hash bytes) b ≡ some bytes
      → HasGoodCopy B hash (address hash bytes) b
  unfolding accept verify
  copy-GoodCopy bytes b h = (
    bytes,
    ground
        (arith, stable.get_view (address hash bytes) bytes b h, text_eq_refl (address hash bytes)),
  )

  no_copies :
      (bytes : List ℕ) (bs : List B.State)
      → All (λ b. ¬ HasGoodCopy B hash (address hash bytes) b) bs
      → copies B hash view law (address hash bytes) bytes bs ≡ 0
  no_copies bytes [] h = refl
  no_copies bytes (b ∷ bs) h =
      elim (Bool-cases (holds B hash view law (address hash bytes) bytes b)) [
        | inr no_copy ↦ ground (arith, no_copy, no_copies bytes bs h.1)
        | inl copy ↦
            absurd (h.0 (copy-GoodCopy bytes b (holds-view (address hash bytes) bytes b copy)))
      ]

  -- A block with a copy left reads as its bytes.
  pub get-copy :
      (bytes : List ℕ) (bs : List B.State)
      → NoCollision B hash bytes
      → 1 ≤ copies B hash view law (address hash bytes) bytes bs
      → (get B hash (address hash bytes) bs).0 ≡ ok bytes
  get-copy bytes bs free some_copy = elim (get-of_address B hash bytes bs free) [
    | inl found ↦ found
    | inr lost_all ↦ absurd (
        omega
          (arith, no_copies bytes bs ((get-not_found B hash (address hash bytes) bs).0 lost_all)))
  ]

  -- A block whose `Put` was acknowledged reads as its bytes after any sequence of `Put`, `Get` and `Health` calls,
  -- whatever they answered, and the loss of one backend, whatever it holds then. What the backends held before at
  -- a block's address had that address, they keep what they hold, and no other bytes have this block's address.
  pub get-put-lost :
      (bytes : List ℕ) (bs ds : List B.State) (calls : List Call) (addr : Text)
      → NoCollision B hash bytes
      → All IsClean bs
      → (put B hash bytes bs).0 ≡ ok addr
      → OneLost (after_all B hash calls (put B hash bytes bs).1) ds
      → (get B hash addr ds).0 ≡ ok bytes
  get-put-lost bytes bs ds calls addr free clean done loss =
      let (named, two) = put-two bytes bs addr free clean done in
      let stored = (put B hash bytes bs).1 in
      let there =
        copies-Later addr bytes stored (after_all B hash calls stored) (bytes, sym named)
          (after_all-Later B hash view law stable calls stored) in
      let left = copies-OneLost addr bytes loss in
      subst (λ a. (get B hash a ds).0 ≡ ok bytes) (sym named)
        (get-copy bytes ds free (
          subst (λ a. 1 ≤ copies B hash view law a bytes ds) named
            (omega (arith, two, there, left))))
