-- ===== src/Base/Trim.antt =====
-- What strings.TrimSpace does to a text without white space that stands between white space.
use mathlib.Core.List.{reverse-append, reverse-reverse, reverse-cons}
use nft_soket.Base.{
  ℕ, ◌≡◌, refl, sym, ap, ◌∙◌, subst, true, false, [], ◌∷◌, ◌++◌, reverse, All, Bool-cases, inl, inr,
  arith,
}
use nft_soket.Base.Text.{Text}
use nft_soket.Base.Strings.{is_space, trim_left, trim_space}

-- Only white space, and none of it.
abbrev pub Blank : Text → Type 0
Blank = All λ c. is_space c ≡ true

abbrev pub Solid : Text → Type 0
Solid = All λ c. is_space c ≡ false

module _ (P : ℕ → Type 0) where
  pub All-append : (xs ys : Text) → All P xs → All P ys → All P (xs ++ ys)
  All-append [] ys hx hy = hy
  All-append (x ∷ xs) ys hx hy = (hx.0, All-append xs ys hx.1 hy)

  pub All-reverse : (xs : Text) → All P xs → All P (reverse xs)
  All-reverse [] h = tt
  All-reverse (x ∷ xs) h =
      subst (All P) (sym (reverse-cons x xs))
        (All-append (reverse xs) (x ∷ []) (All-reverse xs h.1) (h.0, tt))

trim_left-append : (pre t : Text) → Blank pre → trim_left (pre ++ t) ≡ trim_left t
unfolding trim_left
trim_left-append [] t h = refl
trim_left-append (c ∷ pre) t h = ground (arith, h.0, trim_left-append pre t h.1)

trim_left-Blank : (post : Text) → Blank post → trim_left post ≡ []
unfolding trim_left
trim_left-Blank [] h = refl
trim_left-Blank (c ∷ post) h = ground (arith, h.0, trim_left-Blank post h.1)

trim_left-Solid : (t : Text) → Solid t → trim_left t ≡ t
unfolding trim_left
trim_left-Solid [] h = refl
trim_left-Solid (c ∷ t) h = ground (arith, h.0)

pub trim_left-cons : (c : ℕ) (t : Text) → is_space c ≡ false → trim_left (c ∷ t) ≡ c ∷ t
unfolding trim_left
trim_left-cons c t h = ground (arith, h)

-- White space on both sides is cut off, and nothing else.
pub trim_space-append :
    (pre t post : Text) → Blank pre → Solid t → Blank post → trim_space (pre ++ (t ++ post)) ≡ t
unfolding trim_space trim_left
trim_space-append pre [] post b s b' =
    ap (λ (r : Text). reverse (trim_left (reverse r)))
      (trim_left-append pre post b ∙ trim_left-Blank post b')
trim_space-append pre (c ∷ t) post b s b' =
    ap (λ (r : Text). reverse (trim_left (reverse r)))
      (trim_left-append pre ((c ∷ t) ++ post) b ∙ trim_left-cons c (t ++ post) s.0)
    ∙ ap (λ (r : Text). reverse (trim_left r)) (reverse-append (c ∷ t) post)
    ∙ ap reverse (
        trim_left-append (reverse post) (reverse (c ∷ t))
          (All-reverse (λ d. is_space d ≡ true) post b')
        ∙ trim_left-Solid (reverse (c ∷ t)) (All-reverse (λ d. is_space d ≡ false) (c ∷ t) s))
    ∙ reverse-reverse (c ∷ t)

trim_left-last :
    (xs : Text) (c : ℕ)
    → is_space c ≡ false
    → (ys : Text) × (trim_left (xs ++ c ∷ []) ≡ ys ++ c ∷ [])
unfolding trim_left
trim_left-last [] c s = ([], ground (arith, s))
trim_left-last (x ∷ xs) c s = elim (Bool-cases (is_space x)) [
  | inl blank ↦ let (ys, e) = trim_left-last xs c s in (ys, ground (arith, blank, e))
  | inr solid ↦ (x ∷ xs, ground (arith, solid))
]

pub trim_space-Blank : (pre : Text) → Blank pre → trim_space pre ≡ []
unfolding trim_space trim_left
trim_space-Blank pre b = ap (λ (r : Text). reverse (trim_left (reverse r))) (trim_left-Blank pre b)

-- The first letter that is no white space stays the first.
pub trim_space-first :
    (pre : Text) (c : ℕ) (rest : Text)
    → Blank pre
    → is_space c ≡ false
    → (ys : Text) × (trim_space (pre ++ c ∷ rest) ≡ c ∷ ys)
unfolding trim_space
trim_space-first pre c rest b s =
    let (ys, e) = trim_left-last (reverse rest) c s in
    (
      reverse ys,
      ap (λ (r : Text). reverse (trim_left (reverse r)))
            (trim_left-append pre (c ∷ rest) b ∙ trim_left-cons c rest s)
          ∙ ap (λ (r : Text). reverse (trim_left r)) (reverse-cons c rest)
          ∙ ap reverse e
          ∙ reverse-append ys (c ∷ []),
    )
