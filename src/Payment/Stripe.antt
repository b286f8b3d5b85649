-- ===== src/Payment/Stripe.antt =====
-- core/payment/stripe/stripe.go: `VerifyWebhook` and the reading of its signature header.
-- Parameters: HMAC-SHA256, encoding/json on Stripe's events, and the time since a Unix second.
use nft_soket.Base.{
  ℕ, ◌≡◌, ◌⊎◌, Bool, true, false, not, ◌&&◌, ◌||◌, Option, none, some, List, [], ◌∷◌, ◌++◌, ◌==◌,
  if◌then◌else◌, arith, Bool-cases, Option-cases, inl, inr,
}
use nft_soket.Base.Result.{Result, ok, ◌>>=◌, ◌>>◌, fail_if, or_fail, Result-cases}
use nft_soket.Base.Int.{ℤ, pos, ltb_ℤ, ◌-ℤ◌, ◌≤ℤ◌, ltb_ℤ→le}
use nft_soket.Base.Text.{Text, codes, text_eq, eq_of_text_eq, is_empty}
use nft_soket.Base.Hex.{hex_encode}
use nft_soket.Base.Strings.{trim_space, split_commas, parse_int}
use nft_soket.Payment.{
  WebhookResult, Headers, Error, missing_signature, malformed_signature, bad_timestamp,
  outside_tolerance, wrong_signature, undecodable,
}

-- The fields of an event that the provider reads; a missing metadata entry is empty.
pub record Event : Type 0 where
  pub event_type : Text
  pub payment_status : Text
  pub amount_total : ℤ
  pub client_reference_id : Text
  pub metadata_invoice_id : Text
  pub id : Text

pub record Library : Type 0 where
  pub hmac_sha256 : Text → List ℕ → List ℕ
  pub unmarshal : List ℕ → Option Event
  -- p.Now().Sub(time.Unix(n, 0)).
  pub since : ℤ → ℤ

pub record Stripe : Type 0 where
  pub webhook_secret : Text
  pub tolerance : ℤ

abbrev key_more : ℕ → Option (Text × Text) → Option (Text × Text)
key_more c none = none
key_more c (some (key, value)) = some (c ∷ key, value)

-- strings.SplitN(part, "=", 2), where it gives two parts.
unfoldable pub split_equals : Text → Option (Text × Text)
split_equals [] = none
split_equals (c ∷ cs) =
    let rest = split_equals cs in if c == b'=' then some ([], cs) else key_more c rest

unfoldable pub add_part : Option (Text × Text) → Text × List Text → Text × List Text
add_part none (ts, v1s) = (ts, v1s)
add_part (some (key, value)) (ts, v1s) =
    if text_eq key (codes "t")
    then (value, v1s)
    else if text_eq key (codes "v1")
    then (ts, v1s ++ value ∷ [])
    else (ts, v1s)

unfoldable pub parse_parts : List Text → Text × List Text → Text × List Text
unfolding add_part
parse_parts [] found = found
parse_parts (part ∷ parts) found =
    parse_parts parts (add_part (split_equals (trim_space part)) found)

unfoldable pub parse_sig_header : Text → Text × List Text
unfolding parse_parts
parse_sig_header h = parse_parts (split_commas h) ([], [])

-- The loop over the signatures: whether one is the expected one.
unfoldable pub any_match : Text → List Text → Bool
any_match expected [] = false
any_match expected (v ∷ v1s) = text_eq v expected || any_match expected v1s

unfoldable pub or_default : Text → Text → Text
or_default s default = if is_empty s then default else s

abbrev has_none : List Text → Bool
has_none [] = true
has_none (v ∷ v1s) = false

module _ (lib : Library) where
  -- Replay protection, where the tolerance is positive.
  unfoldable pub check_age : Stripe → Text → Result Error (Unit {0})
  check_age p ts =
      if ltb_ℤ (pos 0) p.tolerance
      then (do
        n ← or_fail (parse_int ts) bad_timestamp
        fail_if (ltb_ℤ p.tolerance (lib.since n) || ltb_ℤ (lib.since n) (pos 0 -ℤ p.tolerance))
            outside_tolerance)
      else ok tt

  unfoldable pub verify_webhook : Stripe → Headers → List ℕ → Result Error WebhookResult
  verify_webhook p headers body = do
    let sig = headers (codes "Stripe-Signature")
    fail_if (is_empty sig) missing_signature
    let (ts, v1s) = parse_sig_header sig
    fail_if (is_empty ts || has_none v1s) malformed_signature
    check_age p ts
    let expected = hex_encode (lib.hmac_sha256 p.webhook_secret (ts ++ codes "." ++ body))
    fail_if (not (any_match expected v1s)) wrong_signature
    ev ← or_fail (lib.unmarshal body) undecodable
    ok (record {
      provider = codes "stripe";
      invoice_id = or_default ev.metadata_invoice_id ev.client_reference_id;
      is_paid =
          text_eq ev.event_type (codes "checkout.session.completed")
          && text_eq ev.payment_status (codes "paid");
      reference = ev.id;
      amount_cents = ev.amount_total;
    })

abbrev pub Listed : Text → List Text → Type 0
Listed v [] = ⊥
Listed v (w ∷ ws) = (w ≡ v) ⊎ Listed v ws

any_match-Listed : (v : Text) (ws : List Text) → any_match v ws ≡ true → Listed v ws
unfolding any_match
any_match-Listed v [] h = cc
any_match-Listed v (w ∷ ws) h = elim (Bool-cases (text_eq w v)) [
  | inl same ↦ inl (eq_of_text_eq w v same)
  | inr other ↦ inr (any_match-Listed v ws (ground (arith, other, h)))
]

module _ (lib : Library) where
  -- The time of a signature is within the tolerance of now, on either side.
  abbrev pub IsFresh : Stripe → Text → Type 0
  IsFresh p ts =
      (n : ℤ) × (parse_int ts ≡ some n)
      × (lib.since n ≤ℤ p.tolerance)
      × ((pos 0 -ℤ p.tolerance) ≤ℤ lib.since n)

  abbrev expected : Stripe → Text → List ℕ → Text
  expected p ts body = hex_encode (lib.hmac_sha256 p.webhook_secret (ts ++ codes "." ++ body))

  check_age-IsFresh :
      (p : Stripe) (ts : Text)
      → check_age lib p ts ≡ ok tt
      → ltb_ℤ (pos 0) p.tolerance ≡ true
      → IsFresh p ts
  unfolding check_age
  check_age-IsFresh p ts h positive = elim (Option-cases (parse_int ts)) [
    | inl failed ↦ absurd (ground (arith, failed, positive, h))
    | inr (n, parsed) ↦ (
      n,
      parsed,
      ltb_ℤ→le p.tolerance (lib.since n) (ground (arith, parsed, positive, h)),
      ltb_ℤ→le (lib.since n) (pos 0 -ℤ p.tolerance) (ground (arith, parsed, positive, h)),
    )
  ]

  -- What an accepted webhook shows, of the time and the signatures in its header.
  pub record IsSigned (p : Stripe) (headers : Headers) (body : List ℕ) (res : WebhookResult)
      : Type 0 where
    pub signature :
        Listed
          (expected p (parse_sig_header (headers (codes "Stripe-Signature"))).0 body)
          (parse_sig_header (headers (codes "Stripe-Signature"))).1
    pub fresh :
        ltb_ℤ (pos 0) p.tolerance ≡ true
        → IsFresh p (parse_sig_header (headers (codes "Stripe-Signature"))).0
    pub event : Event
    pub decoded : lib.unmarshal body ≡ some event
    pub paid :
        res.is_paid ≡ true
        → (event.event_type ≡ codes "checkout.session.completed")
          × (event.payment_status ≡ codes "paid")

  -- A webhook that is accepted lists, among its v1 signatures, the HMAC of its time, a dot and its
  -- body; where the tolerance is positive its time is a number within the tolerance of now; and one
  -- that reports a payment has an event of a completed session that is paid.
  pub verify_webhook-IsSigned :
      (p : Stripe) (headers : Headers) (body : List ℕ) (res : WebhookResult)
      → verify_webhook lib p headers body ≡ ok res
      → IsSigned p headers body res
  unfolding verify_webhook
  verify_webhook-IsSigned p headers body res h =
      let found = parse_sig_header (headers (codes "Stripe-Signature")) in
      elim (Result-cases (check_age lib p found.0)) [
        | inr (e, stale) ↦ absurd (ground (arith, stale, h))
        | inl (u, aged) ↦ elim (Bool-cases (any_match (expected p found.0 body) found.1)) [
          | inr unsigned ↦ absurd (ground (arith, aged, unsigned, h))
          | inl matched ↦ elim (Option-cases (lib.unmarshal body)) [
            | inl failed ↦ absurd (ground (arith, aged, matched, failed, h))
            | inr (ev, decoded) ↦ record {
              signature = any_match-Listed (expected p found.0 body) found.1 matched;
              fresh = check_age-IsFresh p found.0 aged;
              event = ev;
              decoded = decoded;
              paid = λ paid.
                  let same_type = text_eq ev.event_type (codes "checkout.session.completed") in
                  let same_status = text_eq ev.payment_status (codes "paid") in
                  let both : (same_type && same_status) ≡ true =
                    ground (arith, aged, matched, decoded, paid, h) in
                  (
                    eq_of_text_eq _ _ (ground (arith, both)),
                    eq_of_text_eq _ _ (ground (arith, both)),
                  );
            }
          ]
        ]
      ]
