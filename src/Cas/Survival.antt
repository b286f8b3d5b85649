-- ===== src/Cas/Survival.antt =====
-- core/cas/cas.go over time: what was stored stays on its backends through later calls, and the loss of one
-- backend leaves it readable.
use nft_soket.Base.{
  ℕ, ◌≡◌, ◌≢◌, refl, ap, ◌∙◌, subst, Bool, Option, some, List, [], ◌∷◌, Option-cases, Bool-cases,
  inl, inr,
}
use nft_soket.Base.Result.{ok}
use nft_soket.Base.Text.{Text, text_eq, eq_of_text_eq, text_eq_iff}
use nft_soket.Base.Dict.{Dict}
use nft_soket.Cas.{
  Backend, address, put_all, put, accept, find, heal, heal_one, get, is_present, health,
  health_from,
}
use nft_soket.Cas.Integrity.{find-address}
use nft_soket.Cas.Replication.{IsLawful}

-- The address of some bytes: what a store writes to.
abbrev pub IsAddress : (List ℕ → List ℕ) → Text → Type 0
IsAddress hash addr = (bytes : List ℕ) × (address hash bytes ≡ addr)

-- What a store relies on over time: a write to one address keeps the blocks at the others, and a read answers
-- with the block that is held and changes none.
pub record IsStable (B : Backend) (hash : List ℕ → List ℕ) (view : Text → B.State → Option (List ℕ))
    : Type 0 where
  pub put_other :
      (addr other : Text) (bytes : List ℕ) (b : B.State)
      → IsAddress hash addr
      → IsAddress hash other
      → addr ≢ other
      → view other (B.put addr bytes b).1 ≡ view other b
  pub has_keeps : (addr other : Text) (b : B.State) → view other (B.has addr b).1 ≡ view other b
  pub get_keeps : (addr other : Text) (b : B.State) → view other (B.get addr b).1 ≡ view other b
  pub get_view :
      (addr : Text) (bytes : List ℕ) (b : B.State)
      → view addr b ≡ some bytes
      → (B.get addr b).0 ≡ ok bytes

module _ (B : Backend) (hash : List ℕ → List ℕ) (view : Text → B.State → Option (List ℕ))
    (law : IsLawful B view) (stable : IsStable B hash view) where
  -- A backend still holds what it held.
  abbrev pub Keeps : B.State → B.State → Type 0
  Keeps b c =
      (addr : Text) (bytes : List ℕ)
      → IsAddress hash addr
      → view addr b ≡ some bytes
      → view addr c ≡ some bytes

  -- Every backend still holds what it held.
  abbrev pub Later : List B.State → List B.State → Type 0
  Later [] [] = Unit
  Later [] (c ∷ cs) = ⊥
  Later (b ∷ bs) [] = ⊥
  Later (b ∷ bs) (c ∷ cs) = Keeps b c × Later bs cs

  pub Later-refl : (bs : List B.State) → Later bs bs
  Later-refl [] = tt
  Later-refl (b ∷ bs) = ((λ addr bytes a h. h), Later-refl bs)

  pub Later-trans : (bs cs ds : List B.State) → Later bs cs → Later cs ds → Later bs ds
  Later-trans [] [] [] p q = tt
  Later-trans [] [] (d ∷ ds) p q = absurd q
  Later-trans [] (c ∷ cs) ds p q = absurd p
  Later-trans (b ∷ bs) [] ds p q = absurd p
  Later-trans (b ∷ bs) (c ∷ cs) [] p q = absurd q
  Later-trans (b ∷ bs) (c ∷ cs) (d ∷ ds) p q =
      ((λ addr bytes a h. q.0 addr bytes a (p.0 addr bytes a h)), Later-trans bs cs ds p.1 q.1)

  put-Keeps :
      (addr : Text) (bytes : List ℕ) (b : B.State)
      → IsAddress hash addr
      → Keeps b (B.put addr bytes b).1
  put-Keeps addr bytes b own other held a h = elim (Bool-cases (text_eq addr other)) [
    | inl e ↦
        let same = eq_of_text_eq addr other e in
        subst (λ k. view k (B.put addr bytes b).1 ≡ some held) same
          (law.put_old addr bytes held b (ap (λ k. view k b) same ∙ h))
    | inr e ↦
        stable.put_other addr other bytes b own a (λ same. cc (e, (text_eq_iff addr other).1 same))
        ∙ h
  ]

  put_all-Later :
      (addr : Text) (bytes : List ℕ) (bs : List B.State) (n : ℕ)
      → IsAddress hash addr
      → Later bs (put_all B hash addr bytes bs n).1
  unfolding put_all
  put_all-Later addr bytes [] n own = tt
  put_all-Later addr bytes (b ∷ bs) n own =
      (put-Keeps addr bytes b own, put_all-Later addr bytes bs _ own)

  pub put-Later : (bytes : List ℕ) (bs : List B.State) → Later bs (put B hash bytes bs).1
  unfolding put
  put-Later bytes bs = put_all-Later (address hash bytes) bytes bs 0 (bytes, refl)

  heal_one-Keeps :
      (addr : Text) (bytes : List ℕ) (b : B.State)
      → IsAddress hash addr
      → Keeps b (heal_one B hash addr bytes b)
  unfolding heal_one
  heal_one-Keeps addr bytes b own other held a h =
      let c = (B.has addr b).1 in
      let there : view other c ≡ some held = stable.has_keeps addr other b ∙ h in
      elim (Bool-cases (is_present (B.has addr b).0)) [
        | inl present ↦ rw (present, heal_one) there
        | inr gone ↦ rw (gone, heal_one) (put-Keeps addr bytes c own other held a there)
      ]

  heal-Later :
      (addr : Text) (bytes : List ℕ) (bs : List B.State)
      → IsAddress hash addr
      → Later bs (heal B hash addr bytes bs)
  unfolding heal
  heal-Later addr bytes [] own = tt
  heal-Later addr bytes (b ∷ bs) own =
      (heal_one-Keeps addr bytes b own, heal-Later addr bytes bs own)

  find-Later : (addr : Text) (bs : List B.State) → Later bs (find B hash addr bs).1
  unfolding find
  find-Later addr [] = tt
  find-Later addr (b ∷ bs) =
      let kept : Keeps b (B.get addr b).1 = λ other held a h. stable.get_keeps addr other b ∙ h in
      elim (Option-cases (accept B hash addr (B.get addr b).0)) [
        | inl bad ↦ rw (bad, find) (kept, find-Later addr bs)
        | inr (got, good) ↦ rw (good, find) (kept, Later-refl bs)
      ]

  pub get-Later : (addr : Text) (bs : List B.State) → Later bs (get B hash addr bs).1
  unfolding get
  get-Later addr bs = elim (Option-cases (find B hash addr bs).0) [
    | inl none_found ↦ rw (none_found, get) (find-Later addr bs)
    | inr (got, found) ↦
        rw (found, get)
          (Later-trans bs (find B hash addr bs).1 (heal B hash addr got (find B hash addr bs).1)
            (find-Later addr bs)
            (heal-Later addr got (find B hash addr bs).1
              (got, find-address B hash addr bs got found)))
  ]

  health_from-Later :
      (addr : Text) (bs : List B.State) (out : Dict Bool)
      → Later bs (health_from B hash addr bs out).1
  unfolding health_from
  health_from-Later addr [] out = tt
  health_from-Later addr (b ∷ bs) out =
      ((λ other held a h. stable.has_keeps addr other b ∙ h), health_from-Later addr bs _)

  pub health-Later : (addr : Text) (bs : List B.State) → Later bs (health B hash addr bs).1
  unfolding health
  health-Later addr bs = health_from-Later addr bs []

-- The calls of a store.
pub data Call : Type 0 where
  putting : List ℕ → Call
  getting probing : Text → Call

module _ (B : Backend) (hash : List ℕ → List ℕ) where
  -- The backends after a call, whatever it answers.
  abbrev pub after : Call → List B.State → List B.State
  after (putting bytes) bs = (put B hash bytes bs).1
  after (getting addr) bs = (get B hash addr bs).1
  after (probing addr) bs = (health B hash addr bs).1

  abbrev pub after_all : List Call → List B.State → List B.State
  after_all [] bs = bs
  after_all (call ∷ calls) bs = after_all calls (after call bs)

module _ (B : Backend) (hash : List ℕ → List ℕ) (view : Text → B.State → Option (List ℕ))
    (law : IsLawful B view) (stable : IsStable B hash view) where
  after-Later :
      (call : Call) (bs : List B.State) → Later B hash view law stable bs (after B hash call bs)
  after-Later (putting bytes) bs = put-Later B hash view law stable bytes bs
  after-Later (getting addr) bs = get-Later B hash view law stable addr bs
  after-Later (probing addr) bs = health-Later B hash view law stable addr bs

  pub after_all-Later :
      (calls : List Call) (bs : List B.State)
      → Later B hash view law stable bs (after_all B hash calls bs)
  after_all-Later [] bs = Later-refl B hash view law stable bs
  after_all-Later (call ∷ calls) bs =
      Later-trans B hash view law stable bs (after B hash call bs)
        (after_all B hash calls (after B hash call bs)) (after-Later call bs)
        (after_all-Later calls (after B hash call bs))
