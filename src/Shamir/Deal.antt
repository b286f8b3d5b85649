-- ===== src/Shamir/Deal.antt =====
-- What `Split` hands out: shares at the coordinates 1..parts of one random polynomial per byte.
use nft_soket.Base.{
  ℕ, zero, suc, ◌+◌, ◌-◌, ◌%◌, ◌≤◌, ◌≡◌, refl, sym, ap, ap₂, subst, ◌∙◌, Option, some, List, [],
  ◌∷◌, ◌++◌, map, append_assoc, length, set, replicate, All, arith, ◌⊎◌, inl, inr, Option-cases,
  length-append,
}
use nft_soket.Base.Result.{ok}
use nft_soket.Base.Int.{ℤ, pos_part}
use nft_soket.Shamir.{Share, eval, split, combine, deal, write_byte, blank_shares}
use nft_soket.Shamir.Field.{Bytes}
use nft_soket.Shamir.Secret.{IsShareOf, DistinctShares, AreBytePolys, constants, combine-IsShareOf}

-- What `rand.Read` promises: it fills the whole slice with bytes, or reports an error.
abbrev pub FillsSlice : (ℕ → ℕ → Option (List ℕ)) → Type 0
FillsSlice read = (k n : ℕ) (bs : List ℕ) → read k n ≡ some bs → (length bs ≡ n) × Bytes bs

-- The entries that a list of polynomials writes into one share, from index k on.
pub fill_share : ℕ → List (List ℕ) → Share → Share
fill_share k [] s = s
fill_share k (cs ∷ polys) s = fill_share (k + 1) polys (record s { y = set s.y k (eval cs s.x) })

pub map-cons_write :
    (k : ℕ) (cs : List ℕ) (polys : List (List ℕ)) (ss : List Share)
    → map (fill_share (k + 1) polys) (write_byte cs k ss) ≡ map (fill_share k (cs ∷ polys)) ss
unfolding fill_share write_byte
map-cons_write k cs polys [] = refl
map-cons_write k cs polys (s ∷ ss) =
    ap (◌∷◌ (fill_share k (cs ∷ polys) s)) (map-cons_write k cs polys ss)

pub map-fill-nil : (k : ℕ) (ss : List Share) → map (fill_share k []) ss ≡ ss
unfolding fill_share
map-fill-nil k [] = refl
map-fill-nil k (s ∷ ss) = ap (◌∷◌ s) (map-fill-nil k ss)

-- The polynomials behind a successful run: one for each byte, whose constant term is the byte.
pub record Hides (degree : ℕ) (secret : List ℕ) (polys : List (List ℕ)) : Type 0 where
  pub count : length polys ≡ length secret
  pub bytes : AreBytePolys (suc degree) polys
  pub terms : constants polys ≡ secret

deal-polys :
    (read : ℕ → ℕ → Option (List ℕ)) (degree k : ℕ) (secret : List ℕ) (ss out : List Share)
    → FillsSlice read
    → Bytes secret
    → deal read degree k secret ss ≡ ok out
    → (polys : List (List ℕ)) × Hides degree secret polys × (out ≡ map (fill_share k polys) ss)
unfolding deal
deal-polys read degree k [] ss out fills b e = (
  [],
  record { count = refl; bytes = tt; terms = refl },
  sym (map-fill-nil k ss ∙ ground (arith, e)),
)
deal-polys read degree k (c ∷ secret) ss out fills b e = elim (Option-cases (read k degree)) [
  | inl failed ↦ absurd (ground (arith, failed, e))
  | inr (random, drawn) ↦
      let rest =
        deal-polys read degree (k + 1) secret (write_byte (c ∷ random) k ss) out fills b.1
          (ground (arith, drawn, e)) in
      let slice = fills k degree random drawn in
      (
        (c ∷ random) ∷ rest.0,
        record {
          count = ap suc rest.1.count;
          bytes = (((b.0, slice.1), omega (arith, slice.0)), rest.1.bytes);
          terms = ap (◌∷◌ c) rest.1.terms;
        },
        rest.2 ∙ map-cons_write k (c ∷ random) rest.0 ss,
      )
]

pub x-fill_share : (k : ℕ) (polys : List (List ℕ)) (s : Share) → (fill_share k polys s).x ≡ s.x
unfolding fill_share
x-fill_share k [] s = refl
x-fill_share k (cs ∷ polys) s =
    x-fill_share (k + 1) polys (record s { y = set s.y k (eval cs s.x) })

set-append :
    (done rest : List ℕ) (v w : ℕ)
    → set (done ++ v ∷ rest) (length done) w ≡ (done ++ w ∷ []) ++ rest
set-append [] rest v w = refl
set-append (d ∷ done) rest v w = ap (◌∷◌ d) (set-append done rest v w)

-- A share that holds `done` and zeros holds `done` and the values in the end.
pub y-fill_share :
    (polys : List (List ℕ)) (s : Share) (done : List ℕ)
    → s.y ≡ done ++ replicate (length polys) 0
    → (fill_share (length done) polys s).y ≡ done ++ map (λ cs. eval cs s.x) polys
unfolding fill_share
y-fill_share [] s done e = e
y-fill_share (cs ∷ polys) s done e =
    let v = eval cs s.x in
    let t : Share = record s { y = set s.y (length done) v } in
    ap (λ (k : ℕ). (fill_share k polys t).y) (sym (length-append done (v ∷ [])))
    ∙ y-fill_share polys t (done ++ v ∷ []) (
        ap (λ (l : List ℕ). set l (length done) v) e
        ∙ set-append done (replicate (length polys) 0) 0 v)
    ∙ append_assoc done (v ∷ []) (map (λ cs. eval cs s.x) polys)

-- The coordinates of `count` shares from `from` on stay bytes other than 0.
pub dealt :
    (polys : List (List ℕ)) (count from size : ℕ)
    → size ≡ length polys
    → from + count ≤ 255
    → All (IsShareOf polys) (map (fill_share 0 polys) (blank_shares count from size))
unfolding blank_shares
dealt polys zero from size e h = tt
dealt polys (suc count) from size e h =
    let s : Share = record { x = (from + 1) % 256; y = replicate size 0 } in
    (
      record {
        not_zero = λ z. omega (arith, x-fill_share 0 polys s);
        is_byte = omega (arith, x-fill_share 0 polys s);
        values =
            y-fill_share polys s [] (ap (λ (n : ℕ). replicate n 0) e)
            ∙ ap (λ (x : ℕ). map (λ cs. eval cs x) polys) (sym (x-fill_share 0 polys s));
      },
      dealt polys count (from + 1) size e (omega arith),
    )

abbrev pub coordinates_from : ℕ → ℕ → List ℕ
coordinates_from zero from = []
coordinates_from (suc count) from = (from + 1) ∷ coordinates_from count (from + 1)

coordinates-fill :
    (polys : List (List ℕ)) (count from size : ℕ)
    → from + count ≤ 255
    → map (λ (s : Share). s.x) (map (fill_share 0 polys) (blank_shares count from size))
      ≡ coordinates_from count from
unfolding blank_shares
coordinates-fill polys zero from size h = refl
coordinates-fill polys (suc count) from size h =
    ap₂ ◌∷◌
      (x-fill_share 0 polys (record { x = (from + 1) % 256; y = replicate size 0 }) ∙ omega arith)
      (coordinates-fill polys count (from + 1) size (omega arith))

-- A successful `Split` had valid parameters and handed out shares of hidden polynomials.
pub split-polys :
    (read : ℕ → ℕ → Option (List ℕ)) (secret : List ℕ) (parts threshold : ℤ) (shares : List Share)
    → FillsSlice read
    → Bytes secret
    → split read secret parts threshold ≡ ok shares
    → (polys : List (List ℕ)) × Hides (pos_part threshold - 1) secret polys
      × (shares ≡ map (fill_share 0 polys) (blank_shares (pos_part parts) 0 (length secret)))
      × (2 ≤ pos_part threshold)
      × (pos_part threshold ≤ pos_part parts)
      × (pos_part parts ≤ 255)
unfolding split
split-polys read secret parts threshold shares fills b e =
    let run : (deal read (pos_part threshold - 1) 0 secret
            (blank_shares (pos_part parts) 0 (length secret))
          ≡ ok shares)
        × (2 ≤ pos_part threshold)
        × (pos_part threshold ≤ pos_part parts)
        × (pos_part parts ≤ 255) =
      ground arith in
    let (polys, hides, out) =
      deal-polys read (pos_part threshold - 1) 0 secret
        (blank_shares (pos_part parts) 0 (length secret)) shares fills b run.0 in
    (polys, hides, out, run.1, run.2, run.3)

abbrev pub In : Share → List Share → Type 0
In s [] = ⊥
In s (t ∷ ts) = (s ≡ t) ⊎ In s ts

All-In : (P : Share → Type 0) (s : Share) (ts : List Share) → All P ts → In s ts → P s
All-In P s [] h i = absurd i
All-In P s (t ∷ ts) h (inl e) = subst P (sym e) h.0
All-In P s (t ∷ ts) h (inr i) = All-In P s ts h.1 i

pub All-All-In :
    (P : Share → Type 0) (ss ts : List Share) → All P ts → All (λ s. In s ts) ss → All P ss
All-All-In P [] ts h i = tt
All-All-In P (s ∷ ss) ts h i = (All-In P s ts h i.0, All-All-In P ss ts h i.1)

-- Shares from one run of `Split`, distinct and at least as many as the threshold, in any order and
-- with any of the others left out, give the secret back.
pub combine-split :
    (read : ℕ → ℕ → Option (List ℕ)) (secret : List ℕ) (parts threshold : ℤ)
    (shares subset : List Share)
    → FillsSlice read
    → Bytes secret
    → split read secret parts threshold ≡ ok shares
    → All (λ s. In s shares) subset
    → DistinctShares subset
    → pos_part threshold ≤ length subset
    → combine subset ≡ ok secret
combine-split read secret parts threshold shares subset fills b e i d enough =
    let (polys, hides, out, two, le, room) =
      split-polys read secret parts threshold shares fills b e in
    combine-IsShareOf (suc (pos_part threshold - 1)) polys subset hides.bytes
      (All-All-In (IsShareOf polys) subset shares
        (subst (All (IsShareOf polys)) (sym out)
          (dealt polys (pos_part parts) 0 (length secret) (sym hides.count) (omega arith)))
        i)
      d (omega arith) (omega arith)
    ∙ ap ok hides.terms
