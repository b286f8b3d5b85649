-- ===== src/Tests/Sharing.antt =====
-- Runs of core/shamir/shamir.go: two of three shares of a secret of two bytes.
use nft_soket.Base.{
  ℕ, zero, suc, ◌≡◌, refl, subst, Option, some, List, [], ◌∷◌, inl, inr, length, replicate,
  length-replicate, arith,
}
use mathlib.Core.Option.{some-injective}
use nft_soket.Base.Result.{ok}
use nft_soket.Base.Int.{pos}
use nft_soket.Gf256.{times_three, fill, wrap, init, exp, log, gf_mul}
use nft_soket.Shamir.{Share, split, combine, deal, blank_shares, write_byte, eval, eval_down}
use nft_soket.Shamir.Field.{Bytes}
use nft_soket.Shamir.Deal.{FillsSlice, combine-split}

-- Coefficients that are all 5.
pub fives : ℕ → ℕ → Option (List ℕ)
fives k n = some (replicate n 5)

replicate-Bytes : (n : ℕ) → Bytes (replicate n 5)
replicate-Bytes zero = tt
replicate-Bytes (suc n) = (omega arith, replicate-Bytes n)

pub fives-FillsSlice : FillsSlice fives
unfolding fives
fives-FillsSlice k n bs e =
    let same : replicate n 5 ≡ bs = some-injective (replicate n 5) bs e in
    subst (λ (l : List ℕ). (length l ≡ n) × Bytes l) same (length-replicate n 5, replicate-Bytes n)

abbrev pub secret : List ℕ
secret = 42 ∷ 7 ∷ []

abbrev pub first : Share
first = record { x = 1; y = 47 ∷ 2 ∷ [] }

abbrev pub second : Share
second = record { x = 2; y = 32 ∷ 13 ∷ [] }

abbrev pub third : Share
third = record { x = 3; y = 37 ∷ 8 ∷ [] }

pub secret-split : split fives secret (pos 3) (pos 2) ≡ ok (first ∷ second ∷ third ∷ [])
unfolding fives split deal blank_shares write_byte eval eval_down gf_mul exp log init fill wrap
    times_three
secret-split = refl

combine-split_example : combine (third ∷ first ∷ []) ≡ ok secret
combine-split_example =
    combine-split fives secret (pos 3) (pos 2) (first ∷ second ∷ third ∷ []) (third ∷ first ∷ [])
      fives-FillsSlice (omega arith, (omega arith, tt)) secret-split
      (inr (inr (inl refl)), (inl refl, tt)) (((λ e. omega (arith, e)), tt), (tt, tt)) (omega arith)
