-- ===== src/Shamir/Withheld.antt =====
-- Fewer shares of `Split` than the threshold, for core/shamir/shamir.go: what they leave open.
use nft_soket.Base.{
  ℕ, zero, suc, ◌+◌, ◌-◌, ◌%◌, ◌≤◌, ◌<◌, ◌≡◌, ◌≢◌, refl, sym, ap, ap₂, subst, ◌∙◌, Option, List, [],
  ◌∷◌, map, length, replicate, All, arith, inl, inr,
}
use nft_soket.Base.Result.{ok}
use nft_soket.Base.Int.{ℤ, pos_part}
use nft_soket.Shamir.{Share, eval, split, deal, blank_shares}
use nft_soket.Shamir.Field.{Bytes, eval-horner, horner-byte}
use nft_soket.Shamir.Secret.{IsShareOf, DistinctShares, AreBytePolys}
use nft_soket.Shamir.Secrecy.{ArePoints, DistinctPoints, explain}
use nft_soket.Shamir.Deal.{
  FillsSlice, fill_share, x-fill_share, y-fill_share, split-polys, dealt, In, All-All-In,
}
use nft_soket.Shamir.Hidden.{
  polys_of, length-polys_of, script, AreDraws, script-FillsSlice, Draws-script, deal-Draws,
}

-- The coordinates of the shares with the values of a polynomial there.
points_at : List ℕ → List Share → List (ℕ × ℕ)
points_at cs [] = []
points_at cs (s ∷ ss) = (s.x, eval cs s.x) ∷ points_at cs ss

length-points_at : (cs : List ℕ) (ss : List Share) → length (points_at cs ss) ≡ length ss
unfolding points_at
length-points_at cs [] = refl
length-points_at cs (s ∷ ss) = ap suc (length-points_at cs ss)

points_at-ArePoints :
    (polys : List (List ℕ)) (cs : List ℕ) (ss : List Share)
    → Bytes cs
    → All (IsShareOf polys) ss
    → ArePoints (points_at cs ss)
unfolding points_at
points_at-ArePoints polys cs [] b h = tt
points_at-ArePoints polys cs (s ∷ ss) b h =
    let value : eval cs s.x < 256 =
      subst (λ v. v < 256) (sym (eval-horner cs s.x)) (horner-byte cs s.x b h.0.is_byte) in
    ((h.0.not_zero, h.0.is_byte, value), points_at-ArePoints polys cs ss b h.1)

points_at-ne :
    (cs : List ℕ) (x : ℕ) (ss : List Share)
    → All (λ (t : Share). x ≢ t.x) ss
    → All (λ (q : ℕ × ℕ). x ≢ q.0) (points_at cs ss)
unfolding points_at
points_at-ne cs x [] d = tt
points_at-ne cs x (s ∷ ss) d = (d.0, points_at-ne cs x ss d.1)

points_at-Distinct :
    (cs : List ℕ) (ss : List Share) → DistinctShares ss → DistinctPoints (points_at cs ss)
unfolding points_at
points_at-Distinct cs [] d = tt
points_at-Distinct cs (s ∷ ss) d = (points_at-ne cs s.x ss d.0, points_at-Distinct cs ss d.1)

-- The polynomials give these shares the same entries.
abbrev SameEntries : List (List ℕ) → List (List ℕ) → List Share → Type 0
SameEntries p q = All λ (s : Share). map (λ cs. eval cs s.x) p ≡ map (λ cs. eval cs s.x) q

SameEntries-cons :
    (c : ℕ) (r cs : List ℕ) (p q : List (List ℕ)) (ss : List Share)
    → All (λ (z : ℕ × ℕ). eval (c ∷ r) z.0 ≡ z.1) (points_at cs ss)
    → SameEntries p q ss
    → SameEntries ((c ∷ r) ∷ p) (cs ∷ q) ss
unfolding points_at
SameEntries-cons c r cs p q [] v h = tt
SameEntries-cons c r cs p q (s ∷ ss) v h = (ap₂ ◌∷◌ v.0 h.0, SameEntries-cons c r cs p q ss v.1 h.1)

SameEntries-nil : (ss : List Share) → SameEntries [] [] ss
SameEntries-nil [] = tt
SameEntries-nil (s ∷ ss) = (refl, SameEntries-nil ss)

-- Draws with which another secret has the same entries in these shares.
choose :
    (degree n : ℕ) (all polys : List (List ℕ)) (secret : List ℕ) (ss : List Share)
    → Bytes secret
    → AreBytePolys n polys
    → length polys ≡ length secret
    → All (IsShareOf all) ss
    → DistinctShares ss
    → length ss ≤ degree
    → (drawn : List (List ℕ)) × (length drawn ≡ length secret)
      × AreDraws degree drawn
      × SameEntries (polys_of secret drawn) polys ss
unfolding polys_of
choose degree n all [] [] ss b p e h d le = ([], refl, tt, SameEntries-nil ss)
choose degree n all (cs ∷ polys) [] ss b p e h d le = absurd (omega arith)
choose degree n all [] (c ∷ secret) ss b p e h d le = absurd (omega arith)
choose degree n all (cs ∷ polys) (c ∷ secret) ss b p e h d le =
    let (drawn, count, draws, same) =
      choose degree n all polys secret ss b.1 p.1 (omega arith) h d le in
    let (r, fits) =
      explain c degree (points_at cs ss) b.0 (points_at-ArePoints all cs ss p.0.0 h)
        (points_at-Distinct cs ss d) (omega (arith, length-points_at cs ss)) in
    (
      r ∷ drawn,
      ap suc count,
      ((fits.0, fits.1), draws),
      SameEntries-cons c r cs (polys_of secret drawn) polys ss fits.2 same,
    )

-- A blank share filled by polynomials with the same values at its coordinate is the same share.
fill-eq :
    (p q : List (List ℕ)) (x size : ℕ)
    → size ≡ length p
    → size ≡ length q
    → map (λ cs. eval cs x) p ≡ map (λ cs. eval cs x) q
    → fill_share 0 p (record { x = x; y = replicate size 0 })
      ≡ fill_share 0 q (record { x = x; y = replicate size 0 })
fill-eq p q x size ep eq e =
    let s : Share = record { x = x; y = replicate size 0 } in
    ap₂ (λ a b. record { x = a; y = b }) (x-fill_share 0 p s ∙ sym (x-fill_share 0 q s))
      (y-fill_share p s [] (ap (λ (n : ℕ). replicate n 0) ep)
        ∙ e
        ∙ sym (y-fill_share q s [] (ap (λ (n : ℕ). replicate n 0) eq)))

In-fill :
    (p q : List (List ℕ)) (count from size : ℕ) (s : Share)
    → size ≡ length p
    → size ≡ length q
    → map (λ cs. eval cs s.x) p ≡ map (λ cs. eval cs s.x) q
    → In s (map (fill_share 0 p) (blank_shares count from size))
    → In s (map (fill_share 0 q) (blank_shares count from size))
unfolding blank_shares
In-fill p q zero from size s ep eq e i = absurd i
In-fill p q (suc count) from size s ep eq e (inl here) =
    let x = (from + 1) % 256 in
    let t : Share = record { x = x; y = replicate size 0 } in
    let at : s.x ≡ x = ap (λ (t : Share). t.x) here ∙ x-fill_share 0 p t in
    inl (
      here
      ∙ fill-eq p q x size ep eq
          (subst (λ v. map (λ cs. eval cs v) p ≡ map (λ cs. eval cs v) q) at e))
In-fill p q (suc count) from size s ep eq e (inr i) =
    inr (In-fill p q count (from + 1) size s ep eq e i)

All-In-fill :
    (p q : List (List ℕ)) (count size : ℕ) (ss : List Share)
    → size ≡ length p
    → size ≡ length q
    → SameEntries q p ss
    → All (λ s. In s (map (fill_share 0 p) (blank_shares count 0 size))) ss
    → All (λ s. In s (map (fill_share 0 q) (blank_shares count 0 size))) ss
All-In-fill p q count size [] ep eq e i = tt
All-In-fill p q count size (s ∷ ss) ep eq e i =
    (In-fill p q count 0 size s ep eq (sym e.0) i.0, All-In-fill p q count size ss ep eq e.1 i.1)

-- Where `Split` succeeds, it runs the loop on every secret of the same length.
split-deal :
    (read read' : ℕ → ℕ → Option (List ℕ)) (secret secret' : List ℕ) (parts threshold : ℤ)
    (shares : List Share)
    → split read secret parts threshold ≡ ok shares
    → length secret' ≡ length secret
    → split read' secret' parts threshold
      ≡ deal read'
          (pos_part threshold - 1)
          0
          secret'
          (blank_shares (pos_part parts) 0 (length secret'))
unfolding split
split-deal read read' secret secret' parts threshold shares e same = ground (arith, e, same)

-- Fewer shares of a run of `Split` than the threshold, at distinct coordinates, fit every secret of the same
-- length: there is a run of `Split` on that secret that has them among its shares. The random source of either run
-- fills its slices with bytes, and the secrets are bytes.
pub split-withheld :
    (read : ℕ → ℕ → Option (List ℕ)) (secret : List ℕ) (parts threshold : ℤ)
    (shares subset : List Share) (secret' : List ℕ)
    → FillsSlice read
    → Bytes secret
    → split read secret parts threshold ≡ ok shares
    → All (λ s. In s shares) subset
    → DistinctShares subset
    → length subset < pos_part threshold
    → Bytes secret'
    → length secret' ≡ length secret
    → (read' : ℕ → ℕ → Option (List ℕ)) × (shares' : List Share) × FillsSlice read'
      × (split read' secret' parts threshold ≡ ok shares')
      × All (λ s. In s shares') subset
split-withheld read secret parts threshold shares subset secret' fills b e i d few b' same =
    let (polys, hides, out, two, le, room) =
      split-polys read secret parts threshold shares fills b e in
    let degree = pos_part threshold - 1 in
    let size = length secret in
    let count = pos_part parts in
    let given =
      All-All-In (IsShareOf polys) subset shares
        (subst (All (IsShareOf polys)) (sym out)
          (dealt polys count 0 size (sym hides.count) (omega arith)))
        i in
    let (drawn, drawn_count, draws, entries) =
      choose degree (suc degree) polys polys secret' subset b' hides.bytes (hides.count ∙ sym same)
        given d (omega arith) in
    let q = polys_of secret' drawn in
    let read' = script degree drawn in
    let run =
      split-deal read read' secret secret' parts threshold shares e same
      ∙ deal-Draws read' degree 0 secret' drawn (blank_shares count 0 (length secret')) drawn_count
          (Draws-script degree drawn) in
    let kept =
      All-In-fill polys q count size subset (sym hides.count)
        (sym (length-polys_of secret' drawn drawn_count ∙ same)) entries
        (subst (λ l. All (λ s. In s l) subset) out i) in
    (
      read',
      map (fill_share 0 q) (blank_shares count 0 size),
      script-FillsSlice degree drawn draws,
      subst
          (λ n.
            split read' secret' parts threshold
            ≡ ok (map (fill_share 0 q) (blank_shares count 0 n)))
          same run,
      kept,
    )
