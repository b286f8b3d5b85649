-- ===== src/Shamir/Secret.antt =====
-- `Combine` on valid shares of one polynomial per byte: the checks pass, and the result is the list
-- of the constant terms.
use native.Mathlib.Nat.{add-zero, zero-add}
use mathlib.Core.Option.{some-injective}
use nft_soket.Base.{
  ℕ, zero, suc, ◌+◌, ◌≤◌, ◌<◌, ◌≡◌, ◌≢◌, refl, sym, ap, ◌∙◌, false, some, List, [], ◌∷◌, map,
  bit_xor, length, length-map, get_or, get_elem?, All, arith,
}
use nft_soket.Base.Xor.{zero-xor}
use nft_soket.Base.Result.{ok}
use nft_soket.Gf256.Laws.{mul-zero}
use nft_soket.Lagrange.Weights.{Distinct}
use nft_soket.Shamir.{Share, combine_bytes, combine, check_shares, interpolate, contains, eval}
use nft_soket.Shamir.Field.{Byte, Bytes, gf256, poly, poly-IsPoly, horner, eval-horner}
use nft_soket.Shamir.Recover.{Points, interpolate-value}

-- A share of the secret that the polynomials `polys` hide, one for each byte.
pub record IsShareOf (polys : List (List ℕ)) (s : Share) : Type 0 where
  pub not_zero : s.x ≢ 0
  pub is_byte : s.x < 256
  pub values : s.y ≡ map (λ cs. eval cs s.x) polys

-- No two shares have the same coordinate.
abbrev pub DistinctShares : List Share → Type 0
DistinctShares [] = Unit
DistinctShares (s ∷ ss) = All (λ (t : Share). s.x ≢ t.x) ss × DistinctShares ss

abbrev pub AreBytePolys : ℕ → List (List ℕ) → Type 0
AreBytePolys n = All (λ cs. Bytes cs × (length cs ≤ n))

-- The coordinates as field elements.
coordinates : (polys : List (List ℕ)) (ss : List Share) → All (IsShareOf polys) ss → List Byte
coordinates polys [] h = []
coordinates polys (s ∷ ss) h = (s.x, h.0.is_byte) ∷ coordinates polys ss h.1

length-coordinates :
    (polys : List (List ℕ)) (ss : List Share) (h : All (IsShareOf polys) ss)
    → length (coordinates polys ss h) ≡ length ss
unfolding coordinates
length-coordinates polys [] h = refl
length-coordinates polys (s ∷ ss) h = ap suc (length-coordinates polys ss h.1)

All-ne-coordinates :
    (polys : List (List ℕ)) (x : ℕ) (b : x < 256) (ss : List Share) (h : All (IsShareOf polys) ss)
    → All (λ (t : Share). x ≢ t.x) ss
    → All (λ (z : Byte). ◌≢◌ {A = Byte} (x, b) z) (coordinates polys ss h)
unfolding coordinates
All-ne-coordinates polys x b [] h d = tt
All-ne-coordinates polys x b (s ∷ ss) h d =
    ((λ e. d.0 (ap (λ (c : Byte). c.0) e)), All-ne-coordinates polys x b ss h.1 d.1)

Distinct-coordinates :
    (polys : List (List ℕ)) (ss : List Share) (h : All (IsShareOf polys) ss)
    → DistinctShares ss
    → Distinct gf256 (coordinates polys ss h)
unfolding coordinates
Distinct-coordinates polys [] h d = tt
Distinct-coordinates polys (s ∷ ss) h d =
    (All-ne-coordinates polys s.x h.0.is_byte ss h.1 d.0, Distinct-coordinates polys ss h.1 d.1)

-- Entry k of every share is the value of the polynomial cs.
abbrev EntriesAt : ℕ → List ℕ → List Share → Type 0
EntriesAt k cs = All (λ (s : Share). get_elem? s.y k ≡ some (eval cs s.x))

Points-coordinates :
    (polys : List (List ℕ)) (k : ℕ) (cs : List ℕ) (b : Bytes cs) (ss : List Share)
    (h : All (IsShareOf polys) ss)
    → EntriesAt k cs ss
    → Points k (poly cs b) (coordinates polys ss h) ss
unfolding coordinates poly
Points-coordinates polys k cs b [] h e = tt
Points-coordinates polys k cs b (s ∷ ss) h e =
    (refl, e.0 ∙ ap some (eval-horner cs s.x), Points-coordinates polys k cs b ss h.1 e.1)

get-map :
    (x k : ℕ) (cs : List ℕ) (all : List (List ℕ))
    → get_elem? all k ≡ some cs
    → get_elem? (map (λ c. eval c x) all) k ≡ some (eval cs x)
get-map x k cs [] e = cc
get-map x zero cs (c ∷ all) e = ap some (ap (λ (t : List ℕ). eval t x) (some-injective c cs e))
get-map x (suc k) cs (c ∷ all) e = get-map x k cs all e

-- Every polynomial has its entry in every share.
entries :
    (all : List (List ℕ)) (k : ℕ) (cs : List ℕ) (ss : List Share)
    → get_elem? all k ≡ some cs
    → All (IsShareOf all) ss
    → EntriesAt k cs ss
entries all k cs [] e h = tt
entries all k cs (s ∷ ss) e h = (
  ap (λ (l : List ℕ). get_elem? l k) h.0.values ∙ get-map s.x k cs all e,
  entries all k cs ss e h.1,
)

-- The value at 0 is the constant term.
horner-at_zero : (cs : List ℕ) → horner cs 0 ≡ get_or cs 0 0
unfolding horner
horner-at_zero [] = refl
horner-at_zero (c ∷ cs) = ap (λ (t : ℕ). bit_xor t c) (mul-zero (horner cs 0)) ∙ zero-xor c

abbrev pub constants : List (List ℕ) → List ℕ
constants = map (λ cs. get_or cs 0 0)

-- At least `n` distinct shares of polynomials with at most `n` coefficients.
module _ (n : ℕ) (all : List (List ℕ)) (ss : List Share) (h : All (IsShareOf all) ss)
    (d : DistinctShares ss) (enough : n ≤ length ss) where
  byte_at :
      (k : ℕ) (cs : List ℕ)
      → get_elem? all k ≡ some cs
      → Bytes cs
      → length cs ≤ n
      → interpolate ss k 0 ss 0 ≡ ok (get_or cs 0 0)
  unfolding poly
  byte_at k cs e b l =
      interpolate-value k (poly cs b) (coordinates all ss h) ss (Distinct-coordinates all ss h d)
        (Points-coordinates all k cs b ss h (entries all k cs ss e h)) (length cs)
        (poly-IsPoly cs b) (omega (arith, length-coordinates all ss h))
      ∙ ap ok (horner-at_zero cs)

  -- The loop over the bytes, from index k on.
  bytes_from :
      (k : ℕ) (polys : List (List ℕ))
      → AreBytePolys n polys
      → ((j : ℕ) (cs : List ℕ) → get_elem? polys j ≡ some cs → get_elem? all (k + j) ≡ some cs)
      → combine_bytes ss (length polys) k ≡ ok (constants polys)
  unfolding combine_bytes
  bytes_from k [] p e = refl
  bytes_from k (cs ∷ polys) p e = rw (
    byte_at k cs (ap (get_elem? all) (sym (add-zero k)) ∙ e 0 cs refl) p.0.0 p.0.1,
    bytes_from (k + 1) polys p.1 (λ j c q. ap (get_elem? all) (omega arith) ∙ e (suc j) c q),
  )

contains-false : (seen : List ℕ) (x : ℕ) → All (λ z. x ≢ z) seen → contains seen x ≡ false
unfolding contains
contains-false [] x h = refl
contains-false (z ∷ seen) x h = ground (arith, h.0, contains-false seen x h.1)

push_seen :
    (x : ℕ) (seen : List ℕ) (ss : List Share)
    → All (λ (t : Share). x ≢ t.x) ss
    → All (λ (s : Share). All (λ z. s.x ≢ z) seen) ss
    → All (λ (s : Share). All (λ z. s.x ≢ z) (x ∷ seen)) ss
push_seen x seen [] h u = tt
push_seen x seen (s ∷ ss) h u = (((λ e. h.0 (sym e)), u.0), push_seen x seen ss h.1 u.1)

nothing_seen : (ss : List Share) → All (λ (s : Share). All (λ z. s.x ≢ z) []) ss
nothing_seen [] = tt
nothing_seen (s ∷ ss) = (tt, nothing_seen ss)

-- The checks pass.
check_shares-IsShareOf :
    (all : List (List ℕ)) (size : ℕ) (seen : List ℕ) (ss : List Share)
    → All (IsShareOf all) ss
    → DistinctShares ss
    → All (λ (s : Share). All (λ z. s.x ≢ z) seen) ss
    → size ≡ length all
    → check_shares size seen ss ≡ ok tt
unfolding check_shares
check_shares-IsShareOf all size seen [] h d u e = refl
check_shares-IsShareOf all size seen (s ∷ ss) h d u e = ground (
  arith,
  h.0.not_zero,
  contains-false seen s.x u.0,
  ap length h.0.values,
  length-map (λ cs. eval cs s.x) all,
  check_shares-IsShareOf all size (s.x ∷ seen) ss h.1 d.1 (push_seen s.x seen ss d.0 u.1) e,
)

-- Enough distinct shares of byte polynomials give the constant terms back.
pub combine-IsShareOf :
    (n : ℕ) (polys : List (List ℕ)) (ss : List Share)
    → AreBytePolys n polys
    → All (IsShareOf polys) ss
    → DistinctShares ss
    → 2 ≤ length ss
    → n ≤ length ss
    → combine ss ≡ ok (constants polys)
unfolding combine
combine-IsShareOf n polys [] b h d two enough = absurd (omega arith)
combine-IsShareOf n polys (s ∷ ss) b h d two enough =
    let size : length s.y ≡ length polys =
      ap length h.0.values ∙ length-map (λ cs. eval cs s.x) polys in
    rw size (
      ground (
        arith,
        check_shares-IsShareOf polys (length polys) [] (s ∷ ss) h d (nothing_seen (s ∷ ss)) refl,
        bytes_from n polys (s ∷ ss) h d enough 0 polys b
            (λ j cs e. ap (get_elem? polys) (zero-add j) ∙ e),
      ))
