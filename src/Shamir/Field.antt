-- ===== src/Shamir/Field.antt =====
-- GF(256) as the field of the interpolation theorem, and `eval` as a polynomial function over it.
use mathlib.Core.HLevel.{Σ_prop_path}
use native.Mathlib.Decide.{ℕ_discrete}
use nft_soket.Base.{
  ℕ, zero, suc, ◌≤◌, ◌<◌, ◌≡◌, ◌≢◌, refl, sym, ap, ◌∙◌, List, [], ◌∷◌, bit_xor, length, get_or,
  drop, All, arith, le_prop,
}
use nft_soket.Base.Xor.{xor_comm, xor_assoc, xor_self, zero-xor, xor-byte}
use nft_soket.Gf256.{gf_mul}
use nft_soket.Gf256.Laws.{
  gf_mul-byte, gf_mul_comm, gf_mul_assoc, one-mul, mul-xor, mul-inv, gf_inv, gf_inv-byte,
}
use nft_soket.Lagrange.{BinaryField}
use nft_soket.Lagrange.Interpolate.{IsPoly}
use nft_soket.Shamir.{eval, eval_down}

abbrev pub Byte : Type 0
Byte = (n : ℕ) × (n < 256)

pub Byte-ext : (a b : Byte) → a.0 ≡ b.0 → a ≡ b
Byte-ext a b h = Σ_prop_path (λ n. le_prop) h

pub byte_discrete : Discrete Byte
byte_discrete a b = elim (ℕ_discrete a.0 b.0) [
  | yes p ↦ yes (Byte-ext a b p)
  | no p ↦ no (λ e. p (ap (λ (c : Byte). c.0) e))
]

pub ne_value : (a b : Byte) → a ≢ b → a.0 ≢ b.0
ne_value a b h e = h (Byte-ext a b e)

-- The laws of `^` and `gfMul` on bytes.
abbrev pub gf256 : BinaryField
gf256 = record {
  Elem = Byte;
  nought = (0, omega arith);
  unit = (1, omega arith);
  ◌⊕◌ = λ a b. (bit_xor a.0 b.0, xor-byte a.0 b.0 a.1 b.1);
  ◌⊗◌ = λ a b. (gf_mul a.0 b.0, gf_mul-byte a.0 b.0 a.1 b.1);
  inv = λ a. (gf_inv a.0, gf_inv-byte a.0);
  discrete = byte_discrete;
  ⊕_comm = λ a b. Byte-ext _ _ (xor_comm a.0 b.0);
  ⊕_assoc = λ a b c. Byte-ext _ _ (xor_assoc a.0 b.0 c.0);
  nought-⊕ = λ a. Byte-ext _ _ (zero-xor a.0);
  ⊕_self = λ a. Byte-ext _ _ (xor_self a.0);
  ⊗_comm = λ a b. Byte-ext _ _ (gf_mul_comm a.0 b.0);
  ⊗_assoc = λ a b c. Byte-ext _ _ (gf_mul_assoc a.0 b.0 c.0 a.1 b.1 c.1);
  unit-⊗ = λ a. Byte-ext _ _ (one-mul a.0 a.1);
  ⊗-⊕ = λ a b c. Byte-ext _ _ (mul-xor a.0 b.0 c.0 a.1 b.1 c.1);
  ⊗-inv = λ a h. Byte-ext _ _ (mul-inv a.0 (ne_value a (0, omega arith) h) a.1);
}

-- Horner's rule, lowest coefficient first.
unfoldable pub horner : List ℕ → ℕ → ℕ
horner [] x = 0
horner (c ∷ cs) x = bit_xor (gf_mul (horner cs x) x) c

horner-drop :
    (i : ℕ) (cs : List ℕ) (x : ℕ)
    → i < length cs
    → horner (drop i cs) x ≡ bit_xor (gf_mul (horner (drop (suc i) cs) x) x) (get_or cs i 0)
unfolding horner
horner-drop i [] x h = absurd (omega arith)
horner-drop zero (c ∷ cs) x h = refl
horner-drop (suc i) (c ∷ cs) x h = horner-drop i cs x (omega arith)

eval_down-horner :
    (i : ℕ) (cs : List ℕ) (x : ℕ)
    → i ≤ length cs
    → eval_down i cs x (horner (drop i cs) x) ≡ horner cs x
unfolding eval_down
eval_down-horner zero cs x h = refl
eval_down-horner (suc i) cs x h =
    ap (eval_down i cs x) (sym (horner-drop i cs x (omega arith)))
    ∙ eval_down-horner i cs x (omega arith)

drop-length : (cs : List ℕ) → drop (length cs) cs ≡ []
drop-length [] = refl
drop-length (c ∷ cs) = drop-length cs

-- The loop of `eval` computes Horner's rule.
pub eval-horner : (cs : List ℕ) (x : ℕ) → eval cs x ≡ horner cs x
unfolding eval horner
eval-horner cs x =
    sym (ap (λ (l : List ℕ). eval_down (length cs) cs x (horner l x)) (drop-length cs))
    ∙ eval_down-horner (length cs) cs x (omega arith)

pub horner-byte : (cs : List ℕ) (x : ℕ) → All (λ c. c < 256) cs → x < 256 → horner cs x < 256
unfolding horner
horner-byte [] x h p = omega arith
horner-byte (c ∷ cs) x h p = xor-byte _ c (gf_mul-byte _ x (horner-byte cs x h.1 p) p) h.0

abbrev pub Bytes : List ℕ → Type 0
Bytes cs = All (λ c. c < 256) cs

unfoldable pub poly : (cs : List ℕ) → Bytes cs → Byte → Byte
poly cs h x = (horner cs x.0, horner-byte cs x.0 h x.1)

pub poly-IsPoly : (cs : List ℕ) (h : Bytes cs) → IsPoly gf256 (length cs) (poly cs h)
unfolding poly horner
poly-IsPoly [] h = λ x. Byte-ext _ _ refl
poly-IsPoly (c ∷ cs) h = ((c, h.0), poly cs h.1, poly-IsPoly cs h.1, λ x. Byte-ext _ _ refl)
