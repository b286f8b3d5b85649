-- ===== src/Shamir/ByteShares.antt =====
-- The shares that `Split` hands out are bytes through and through.
use nft_soket.Base.{
  ℕ, suc, ◌-◌, ◌<◌, ◌≡◌, sym, subst, Option, List, [], ◌∷◌, map, length, All, arith,
}
use nft_soket.Base.Result.{ok}
use nft_soket.Base.Int.{ℤ, pos_part}
use nft_soket.Shamir.{Share, eval, split}
use nft_soket.Shamir.Field.{Bytes, eval-horner, horner-byte}
use nft_soket.Shamir.Secret.{IsShareOf, AreBytePolys}
use nft_soket.Shamir.Deal.{FillsSlice, split-polys, dealt}

-- One byte and a list of bytes.
abbrev pub IsByteShare : Share → Type 0
IsByteShare s = (s.x < 256) × Bytes s.y

evals-Bytes :
    (n : ℕ) (polys : List (List ℕ)) (x : ℕ)
    → AreBytePolys n polys
    → x < 256
    → Bytes (map (λ cs. eval cs x) polys)
evals-Bytes n [] x h b = tt
evals-Bytes n (cs ∷ polys) x h b = (
  subst (λ v. v < 256) (sym (eval-horner cs x)) (horner-byte cs x h.0.0 b),
  evals-Bytes n polys x h.1 b,
)

All-IsByteShare :
    (n : ℕ) (polys : List (List ℕ)) (ss : List Share)
    → AreBytePolys n polys
    → All (IsShareOf polys) ss
    → All IsByteShare ss
All-IsByteShare n polys [] h i = tt
All-IsByteShare n polys (s ∷ ss) h i = (
  (i.0.is_byte, subst Bytes (sym i.0.values) (evals-Bytes n polys s.x h i.0.is_byte)),
  All-IsByteShare n polys ss h i.1,
)

-- `Split` hands out bytes.
pub split-IsByteShare :
    (read : ℕ → ℕ → Option (List ℕ)) (secret : List ℕ) (parts threshold : ℤ) (shares : List Share)
    → FillsSlice read
    → Bytes secret
    → split read secret parts threshold ≡ ok shares
    → All IsByteShare shares
split-IsByteShare read secret parts threshold shares fills b e =
    let (polys, hides, out, two, le, room) =
      split-polys read secret parts threshold shares fills b e in
    All-IsByteShare (suc (pos_part threshold - 1)) polys shares hides.bytes (
      subst (All (IsShareOf polys)) (sym out)
        (dealt polys (pos_part parts) 0 (length secret) (sym hides.count) (omega arith)))
