-- ===== src/Tests/Withheld.antt =====
-- One share of three of core/shamir/shamir.go, where two are needed.
use mathlib.Core.Equiv.{IsContr}
use nft_soket.Base.{ℕ, ◌≡◌, refl, Option, List, [], ◌∷◌, All, inl, inr, arith}
use nft_soket.Base.Result.{ok}
use nft_soket.Base.Int.{pos}
use nft_soket.Shamir.{Share, split}
use nft_soket.Shamir.Secrecy.{Explains}
use nft_soket.Shamir.Unique.{Explains-IsContr}
use nft_soket.Shamir.Deal.{FillsSlice, In}
use nft_soket.Shamir.Withheld.{split-withheld}
use nft_soket.Tests.Sharing.{fives, fives-FillsSlice, secret, first, second, third, secret-split}

-- The values of the first and the third share, for a byte that was not shared.
Explains-IsContr_example : IsContr ((r : List ℕ) × Explains 200 2 ((1, 47) ∷ (3, 37) ∷ []) r)
Explains-IsContr_example =
    Explains-IsContr 200 ((1, 47) ∷ (3, 37) ∷ []) (omega arith)
      (
        ((λ e. omega (arith, e)), omega arith, omega arith),
        (((λ e. omega (arith, e)), omega arith, omega arith), tt),
      )
      (((λ e. omega (arith, e)), tt), (tt, tt))

split-withheld_example :
    (read : ℕ → ℕ → Option (List ℕ)) × (shares : List Share) × FillsSlice read
    × (split read (200 ∷ 0 ∷ []) (pos 3) (pos 2) ≡ ok shares)
    × All (λ s. In s shares) (second ∷ [])
split-withheld_example =
    split-withheld fives secret (pos 3) (pos 2) (first ∷ second ∷ third ∷ []) (second ∷ [])
      (200 ∷ 0 ∷ []) fives-FillsSlice (omega arith, (omega arith, tt)) secret-split
      (inr (inl refl), tt) (tt, tt) (omega arith) (omega arith, (omega arith, tt)) refl
