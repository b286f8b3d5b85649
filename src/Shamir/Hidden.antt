-- ===== src/Shamir/Hidden.antt =====
-- A source of random bytes whose draws are given, and the run of `Split` in core/shamir/shamir.go that draws from it.
use nft_soket.Base.{
  ℕ, zero, suc, ◌+◌, ◌≡◌, refl, sym, ap, subst, ◌∙◌, Option, some, List, [], ◌∷◌, map, length,
  replicate, All, arith, inl, inr, ◌==◌, ==→eq, Bool, true, false, Bool-cases, if◌then◌else◌,
}
use mathlib.Core.Option.{some-injective}
use nft_soket.Base.Result.{ok}
use nft_soket.Shamir.{Share, deal, write_byte}
use nft_soket.Shamir.Field.{Bytes}
use nft_soket.Shamir.Deal.{FillsSlice, fill_share, map-cons_write, map-fill-nil}

-- The coefficient lists that a run with these draws works with.
unfoldable pub polys_of : List ℕ → List (List ℕ) → List (List ℕ)
polys_of [] drawn = []
polys_of (c ∷ secret) [] = []
polys_of (c ∷ secret) (r ∷ drawn) = (c ∷ r) ∷ polys_of secret drawn

pub length-polys_of :
    (secret : List ℕ) (drawn : List (List ℕ))
    → length drawn ≡ length secret
    → length (polys_of secret drawn) ≡ length secret
unfolding polys_of
length-polys_of [] drawn e = refl
length-polys_of (c ∷ secret) [] e = absurd (omega arith)
length-polys_of (c ∷ secret) (r ∷ drawn) e = ap suc (length-polys_of secret drawn (omega arith))

-- A source of random bytes whose first draws of `degree` bytes are given.
unfoldable pub script : ℕ → List (List ℕ) → ℕ → ℕ → Option (List ℕ)
script degree [] k n = some (replicate n 0)
script degree (r ∷ drawn) zero n = if n == degree then some r else some (replicate n 0)
script degree (r ∷ drawn) (suc k) n = script degree drawn k n

abbrev pub AreDraws : ℕ → List (List ℕ) → Type 0
AreDraws degree = All λ r. Bytes r × (length r ≡ degree)

zeros-Bytes : (n : ℕ) → (length {A = ℕ} (replicate n 0) ≡ n) × Bytes (replicate n 0)
zeros-Bytes zero = (refl, tt)
zeros-Bytes (suc n) = (ap suc (zeros-Bytes n).0, (omega arith, (zeros-Bytes n).1))

pub script-FillsSlice :
    (degree : ℕ) (drawn : List (List ℕ)) → AreDraws degree drawn → FillsSlice (script degree drawn)
unfolding script
script-FillsSlice degree [] h k n bs e =
    subst (λ l. (length l ≡ n) × Bytes l) (some-injective (replicate n 0) bs e) (zeros-Bytes n)
script-FillsSlice degree (r ∷ drawn) h zero n bs e =
    let drew : (b : Bool)
        → (n == degree) ≡ b
        → (if b then some r else some (replicate n 0)) ≡ some bs =
      λ b q. ap (λ c. if c then some r else some (replicate n 0)) (sym q) ∙ e in
    let same_size : List ℕ → Type 0 = λ l. (length l ≡ n) × Bytes l in
    elim (Bool-cases (n == degree)) [
      | inl q ↦
          subst same_size (some-injective r bs (drew true q))
            (h.0.1 ∙ sym (==→eq n degree q), h.0.0)
      | inr q ↦ subst same_size (some-injective (replicate n 0) bs (drew false q)) (zeros-Bytes n)
    ]
script-FillsSlice degree (r ∷ drawn) h (suc k) n bs e = script-FillsSlice degree drawn h.1 k n bs e

-- The k-th call of `read` and those after it give these bytes.
abbrev Draws : (ℕ → ℕ → Option (List ℕ)) → ℕ → ℕ → List (List ℕ) → Type 0
Draws read degree k [] = Unit
Draws read degree k (r ∷ drawn) = (read k degree ≡ some r) × Draws read degree (k + 1) drawn

Draws-suc :
    (r : List ℕ) (all drawn : List (List ℕ)) (degree k : ℕ)
    → Draws (script degree all) degree k drawn
    → Draws (script degree (r ∷ all)) degree (k + 1) drawn
unfolding script
Draws-suc r all [] degree k h = tt
Draws-suc r all (d ∷ drawn) degree k h =
    let next : k + 1 ≡ suc k = omega arith in
    (
      ap (λ j. script degree (r ∷ all) j degree) next ∙ h.0,
      Draws-suc r all drawn degree (k + 1) h.1,
    )

pub Draws-script : (degree : ℕ) (drawn : List (List ℕ)) → Draws (script degree drawn) degree 0 drawn
unfolding script
Draws-script degree [] = tt
Draws-script degree (r ∷ drawn) =
    (ground arith, Draws-suc r drawn drawn degree 0 (Draws-script degree drawn))

pub deal-Draws :
    (read : ℕ → ℕ → Option (List ℕ)) (degree k : ℕ) (secret : List ℕ) (drawn : List (List ℕ))
    (ss : List Share)
    → length drawn ≡ length secret
    → Draws read degree k drawn
    → deal read degree k secret ss ≡ ok (map (fill_share k (polys_of secret drawn)) ss)
unfolding deal polys_of
deal-Draws read degree k [] drawn ss e h = ap ok (sym (map-fill-nil k ss))
deal-Draws read degree k (c ∷ secret) [] ss e h = absurd (omega arith)
deal-Draws read degree k (c ∷ secret) (r ∷ drawn) ss e h =
    let rest =
      deal-Draws read degree (k + 1) secret drawn (write_byte (c ∷ r) k ss) (omega arith) h.1 in
    rw (h.0) (rest ∙ ap ok (map-cons_write k (c ∷ r) (polys_of secret drawn) ss))
