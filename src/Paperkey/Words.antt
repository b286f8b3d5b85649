-- ===== src/Paperkey/Words.antt =====
-- What `normalize` of core/paperkey/paperkey.go makes of a mnemonic: words of lower case with single
-- spaces, which it leaves as they are.
use mathlib.Core.List.{reverse-append, reverse-reverse, reverse-cons}
use nft_soket.Base.{
  ℕ, ◌≡◌, refl, sym, ap, ap₂, ◌∙◌, subst, false, List, [], ◌∷◌, ◌++◌, append-nil, append_assoc,
  reverse, All, arith, Bool-cases, inl, inr,
}
use nft_soket.Base.Result.{ok}
use nft_soket.Base.Text.{Text}
use nft_soket.Base.Strings.{is_space, trim_left, trim_space, to_lower}
use nft_soket.Base.Trim.{Solid, All-append, All-reverse, trim_left-cons}
use nft_soket.Paperkey
use nft_soket.Paperkey.{Library, AccessKey, fields_from, fields, join, normalize, restore}

-- A letter that to_lower keeps.
IsLower : ℕ → Type 0
IsLower c = to_lower (c ∷ []) ≡ c ∷ []

to_lower-IsLower : (t : Text) → All IsLower (to_lower t)
unfolding to_lower IsLower
to_lower-IsLower [] = tt
to_lower-IsLower (c ∷ t) = (ground arith, to_lower-IsLower t)

to_lower_id : (t : Text) → All IsLower t → to_lower t ≡ t
unfolding to_lower IsLower
to_lower_id [] h = refl
to_lower_id (c ∷ t) h = ground (arith, h.0, to_lower_id t h.1)

-- A word: not empty, of lower case, without white space.
abbrev NonEmpty : Text → Type 0
NonEmpty [] = ⊥
NonEmpty (c ∷ cs) = Unit

abbrev IsWord : Text → Type 0
IsWord w = NonEmpty w × Solid w × All IsLower w

flush-IsWord : (w : Text) → Solid w → All IsLower w → All IsWord (Paperkey.flush w)
flush-IsWord [] s l = tt
flush-IsWord (c ∷ w) s l = ((tt, s, l), tt)

All-concat : (xs ys : List Text) → All IsWord xs → All IsWord ys → All IsWord (xs ++ ys)
All-concat [] ys h k = k
All-concat (x ∷ xs) ys h k = (h.0, All-concat xs ys h.1 k)

fields_from-IsWord :
    (w t : Text) → Solid w → All IsLower w → All IsLower t → All IsWord (fields_from w t)
unfolding fields_from
fields_from-IsWord w [] s l h = flush-IsWord w s l
fields_from-IsWord w (c ∷ t) s l h = elim (Bool-cases (is_space c)) [
  | inl blank ↦
      rw (All, blank)
        (All-concat (Paperkey.flush w) (fields_from [] t) (flush-IsWord w s l)
          (fields_from-IsWord [] t tt tt h.1))
  | inr solid ↦
      rw (All, solid)
        (fields_from-IsWord (w ++ c ∷ []) t (All-append _ w (c ∷ []) s (solid, tt))
          (All-append _ w (c ∷ []) l (h.0, tt)) h.1)
]

fields_from-append :
    (acc w t : Text) → Solid w → fields_from acc (w ++ t) ≡ fields_from (acc ++ w) t
unfolding fields_from
fields_from-append acc [] t s = ap (λ a. fields_from a t) (sym (append-nil acc))
fields_from-append acc (c ∷ w) t s =
    rw (fields_from, s.0)
      (fields_from-append (acc ++ c ∷ []) w t s.1
        ∙ ap (λ a. fields_from a t) (append_assoc acc (c ∷ []) w))

flush-NonEmpty : (w : Text) → NonEmpty w → Paperkey.flush w ≡ w ∷ []
flush-NonEmpty [] n = absurd n
flush-NonEmpty (c ∷ w) n = refl

-- The words of a joined line are the words.
fields_from-join : (ws : List Text) → All IsWord ws → fields_from [] (join ws) ≡ ws
unfolding fields_from join is_space
fields_from-join [] h = refl
fields_from-join (w ∷ []) h =
    ap (fields_from []) (sym (append-nil w))
    ∙ fields_from-append [] w [] h.0.1
    ∙ flush-NonEmpty w h.0.0
fields_from-join (w ∷ v ∷ ws) h =
    fields_from-append [] w (32 ∷ join (v ∷ ws)) h.0.1
    ∙ ap₂ ◌++◌ (flush-NonEmpty w h.0.0) (fields_from-join (v ∷ ws) h.1)

-- A text that begins with something else than white space.
abbrev Begins : Text → Type 0
Begins t = (c : ℕ) × (u : Text) × (t ≡ c ∷ u) × (is_space c ≡ false)

trim_left-Begins : (t : Text) → Begins t → trim_left t ≡ t
trim_left-Begins t (c, u, e, s) = subst (λ r. trim_left r ≡ r) (sym e) (trim_left-cons c u s)

Begins-append : (t u : Text) → Begins t → Begins (t ++ u)
Begins-append t u (c, r, e, s) = (c, r ++ u, ap (λ x. x ++ u) e, s)

Begins-word : (w : Text) → NonEmpty w → Solid w → Begins w
Begins-word [] n s = absurd n
Begins-word (c ∷ w) n s = (c, w, refl, s.0)

NonEmpty-snoc : (t : Text) (c : ℕ) → NonEmpty (t ++ c ∷ [])
NonEmpty-snoc [] c = tt
NonEmpty-snoc (d ∷ t) c = tt

NonEmpty-reverse : (w : Text) → NonEmpty w → NonEmpty (reverse w)
NonEmpty-reverse [] n = absurd n
NonEmpty-reverse (c ∷ w) n = subst NonEmpty (sym (reverse-cons c w)) (NonEmpty-snoc (reverse w) c)

Begins-reverse-word : (w : Text) → IsWord w → Begins (reverse w)
Begins-reverse-word w h = Begins-word (reverse w) (NonEmpty-reverse w h.0) (All-reverse _ w h.1)

Begins-join : (w : Text) (ws : List Text) → IsWord w → Begins (join (w ∷ ws))
unfolding join
Begins-join w [] h = Begins-word w h.0 h.1
Begins-join w (v ∷ ws) h = Begins-append w (32 ∷ join (v ∷ ws)) (Begins-word w h.0 h.1)

Begins-reverse-join :
    (w : Text) (ws : List Text) → All IsWord (w ∷ ws) → Begins (reverse (join (w ∷ ws)))
unfolding join
Begins-reverse-join w [] h = Begins-reverse-word w h.0
Begins-reverse-join w (v ∷ ws) h =
    subst Begins
      (sym (
        reverse-append w (32 ∷ join (v ∷ ws))
        ∙ ap (λ r. r ++ reverse w) (reverse-cons 32 (join (v ∷ ws)))))
      (Begins-append _ (reverse w) (Begins-append _ (32 ∷ []) (Begins-reverse-join v ws h.1)))

trim_space-join : (ws : List Text) → All IsWord ws → trim_space (join ws) ≡ join ws
unfolding trim_space join
trim_space-join [] h = refl
trim_space-join (w ∷ ws) h =
    ap (λ r. reverse (trim_left (reverse r)))
      (trim_left-Begins (join (w ∷ ws)) (Begins-join w ws h.0))
    ∙ ap reverse (trim_left-Begins (reverse (join (w ∷ ws))) (Begins-reverse-join w ws h))
    ∙ reverse-reverse (join (w ∷ ws))

join-IsLower : (ws : List Text) → All IsWord ws → All IsLower (join ws)
unfolding join IsLower to_lower
join-IsLower [] h = tt
join-IsLower (w ∷ []) h = h.0.2
join-IsLower (w ∷ v ∷ ws) h =
    All-append _ w (32 ∷ join (v ∷ ws)) h.0.2 (ground arith, join-IsLower (v ∷ ws) h.1)

normalize-join : (ws : List Text) → All IsWord ws → normalize (join ws) ≡ join ws
unfolding normalize fields
normalize-join ws h =
    ap (λ t. join (fields_from [] (to_lower t))) (trim_space-join ws h)
    ∙ ap (λ t. join (fields_from [] t)) (to_lower_id (join ws) (join-IsLower ws h))
    ∙ ap join (fields_from-join ws h)

-- The normal form is a fixed point.
normalize_idempotent : (m : Text) → normalize (normalize m) ≡ normalize m
unfolding normalize fields
normalize_idempotent m =
    normalize-join (fields (to_lower (trim_space m)))
      (fields_from-IsWord [] (to_lower (trim_space m)) tt tt (to_lower-IsLower (trim_space m)))

-- The mnemonic of a restored key restores the same key: what `Restore` accepts and stores is the one
-- spelling of the words, which it accepts again.
pub restore_idempotent :
    (lib : Library) (m : Text) (k : AccessKey)
    → restore lib m ≡ ok k
    → restore lib k.mnemonic ≡ ok k
unfolding restore
restore_idempotent lib m k e = ground (arith, e, normalize_idempotent m)
