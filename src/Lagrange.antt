-- ===== src/Lagrange.antt =====
-- Interpolation at 0 over a field of characteristic 2, where addition is its own inverse: the
-- mathematics that `Combine` of core/shamir/shamir.go rests on. The field is a parameter.
pub mod Weights
pub mod Interpolate
pub mod Through
use nft_soket.Base.{◌≡◌, ◌≢◌}

pub record BinaryField : Type 1 where
  pub Elem : Type 0
  pub nought : Elem
  pub unit : Elem
  pub ◌⊕◌ : Elem → Elem → Elem
  pub ◌⊗◌ : Elem → Elem → Elem
  pub inv : Elem → Elem
  pub discrete : Discrete Elem
  pub ⊕_comm : (a b : Elem) → ◌⊕◌ a b ≡ ◌⊕◌ b a
  pub ⊕_assoc : (a b c : Elem) → ◌⊕◌ (◌⊕◌ a b) c ≡ ◌⊕◌ a (◌⊕◌ b c)
  pub nought-⊕ : (a : Elem) → ◌⊕◌ nought a ≡ a
  pub ⊕_self : (a : Elem) → ◌⊕◌ a a ≡ nought
  pub ⊗_comm : (a b : Elem) → ◌⊗◌ a b ≡ ◌⊗◌ b a
  pub ⊗_assoc : (a b c : Elem) → ◌⊗◌ (◌⊗◌ a b) c ≡ ◌⊗◌ a (◌⊗◌ b c)
  pub unit-⊗ : (a : Elem) → ◌⊗◌ unit a ≡ a
  pub ⊗-⊕ : (a b c : Elem) → ◌⊗◌ a (◌⊕◌ b c) ≡ ◌⊕◌ (◌⊗◌ a b) (◌⊗◌ a c)
  pub ⊗-inv : (a : Elem) → a ≢ nought → ◌⊗◌ a (inv a) ≡ unit
