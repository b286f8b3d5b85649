-- ===== src/Payment/Bitcoin.antt =====
-- core/payment/bitcoin/bitcoin.go: the provider whose callbacks carry an HMAC of their body.
-- Parameters: HMAC-SHA256, encoding/json on the watcher's events, and the printing of numbers.
use nft_soket.Base.{
  ℕ, ◌≡◌, true, not, Option, none, some, List, [], ◌∷◌, ◌++◌, ◌==◌, if◌then◌else◌, arith,
  Bool-cases, Option-cases, inl, inr,
}
use nft_soket.Base.Result.{Result, ok, ◌>>=◌, ◌>>◌, fail_if, or_fail}
use nft_soket.Base.Int.{ℤ, pos, ltb_ℤ, leb_ℤ, ◌≤ℤ◌, ltb_ℤ→le}
use nft_soket.Base.Text.{Text, codes, text_eq, eq_of_text_eq, is_empty}
use nft_soket.Base.Hex.{hex_encode}
use nft_soket.Payment.{
  CheckoutRequest, CheckoutSession, WebhookResult, Headers, Error, crypto, no_address, no_rate,
  missing_signature, wrong_signature, undecodable,
}

pub record WatcherEvent : Type 0 where
  pub invoice_id : Text
  pub tx_id : Text
  pub confirmations : ℤ
  pub amount_sat : ℤ

pub record Library : Type 0 where
  pub hmac_sha256 : Text → List ℕ → List ℕ
  pub unmarshal : List ℕ → Option WatcherEvent
  -- strconv.FormatFloat(float64(sats) / 1e8, 'f', 8, 64).
  pub print_btc : ℤ → Text
  -- The verb %d.
  pub print_int : ℤ → Text

-- `Provider`: an address for an invoice, and the optional rate, either of which may fail.
pub record Bitcoin : Type 0 where
  pub next_address : Text → Option Text
  pub rate : Option (ℤ → Text → Option ℤ)
  pub webhook_secret : Text
  pub min_conf : ℤ

-- `StaticAddress`.
unfoldable pub static_address : Text → Text → Option Text
static_address s invoice_id = if is_empty s then none else some s

unfoldable pub new : (Text → Option Text) → Option (ℤ → Text → Option ℤ) → Text → ℤ → Bitcoin
new addresses rate secret min_confirmations = record {
  next_address = addresses;
  rate = rate;
  webhook_secret = secret;
  min_conf = if ltb_ℤ min_confirmations (pos 1) then pos 1 else min_confirmations;
}

-- strings.ReplaceAll(s, " ", "%20").
unfoldable pub url_escape : Text → Text
url_escape [] = []
url_escape (c ∷ s) = let rest = url_escape s in if c == 32 then codes "%20" ++ rest else c ∷ rest

module _ (lib : Library) where
  -- The parameter "amount=", where there is a rate, and the ampersand that joins it to the label.
  unfoldable pub amount_param : Option (ℤ → Text → Option ℤ) → CheckoutRequest → Result Error Text
  amount_param none req = ok []
  amount_param (some to_sats) req = do
    sats ← or_fail (to_sats req.amount_cents req.currency) no_rate
    ok (codes "amount=" ++ lib.print_btc sats ++ codes "&")

  unfoldable pub start_checkout : Bitcoin → CheckoutRequest → Result Error CheckoutSession
  unfolding amount_param url_escape
  start_checkout p req = do
    addr ← or_fail (p.next_address req.invoice_id) no_address
    amount ← amount_param p.rate req
    ok (record {
      provider = codes "bitcoin";
      invoice_id = req.invoice_id;
      kind = crypto;
      redirect_url = [];
      pay_address = addr;
      pay_uri =
          codes "bitcoin:"
          ++ addr
          ++ codes "?"
          ++ amount
          ++ codes "label="
          ++ url_escape (codes "NFT Vault invoice " ++ req.invoice_id);
      amount_cents = req.amount_cents;
      currency = req.currency;
      reference = [];
      expires_at = none;
      instructions =
          codes "Send the exact amount to "
          ++ addr
          ++ codes ". Payment confirms after "
          ++ lib.print_int p.min_conf
          ++ codes " block confirmation(s).";
    })

  unfoldable pub verify_webhook : Bitcoin → Headers → List ℕ → Result Error WebhookResult
  verify_webhook p headers body = do
    let sig = headers (codes "X-Signature")
    fail_if (is_empty sig) missing_signature
    fail_if (not (text_eq sig (hex_encode (lib.hmac_sha256 p.webhook_secret body)))) wrong_signature
    ev ← or_fail (lib.unmarshal body) undecodable
    ok (record {
      provider = codes "bitcoin";
      invoice_id = ev.invoice_id;
      is_paid = leb_ℤ p.min_conf ev.confirmations;
      reference = ev.tx_id;
      amount_cents = pos 0;
    })

  -- What an accepted callback shows: the signature is the HMAC of the body under the secret, and the
  -- invoice is the event's; a paid one has the confirmations asked for, at least one.
  pub record IsAuthentic (p : Bitcoin) (headers : Headers) (body : List ℕ) (res : WebhookResult)
      : Type 0 where
    pub signature :
        headers (codes "X-Signature") ≡ hex_encode (lib.hmac_sha256 p.webhook_secret body)
    pub event : WatcherEvent
    pub decoded : lib.unmarshal body ≡ some event
    pub invoice : res.invoice_id ≡ event.invoice_id
    pub confirmed :
        res.is_paid ≡ true → (p.min_conf ≤ℤ event.confirmations) × (pos 1 ≤ℤ event.confirmations)

  new-min_conf :
      (a : Text → Option Text) (r : Option (ℤ → Text → Option ℤ)) (secret : Text) (n : ℤ)
      → pos 1 ≤ℤ (new a r secret n).min_conf
  unfolding new
  new-min_conf a r secret n = elim (Bool-cases (ltb_ℤ n (pos 1))) [
    | inl low ↦ rw (low, new) (omega arith)
    | inr enough ↦ rw (enough, new) (ltb_ℤ→le n (pos 1) enough)
  ]

  -- A callback that a provider made by `New` accepts carries the HMAC of its body, and if it reports
  -- a payment, its event has the confirmations asked for and at least one.
  pub verify_webhook-IsAuthentic :
      (a : Text → Option Text) (r : Option (ℤ → Text → Option ℤ)) (secret : Text) (n : ℤ)
      (headers : Headers) (body : List ℕ) (res : WebhookResult)
      → verify_webhook (new a r secret n) headers body ≡ ok res
      → IsAuthentic (new a r secret n) headers body res
  unfolding verify_webhook
  verify_webhook-IsAuthentic a r secret n headers body res h =
      let p = new a r secret n in
      let sig = headers (codes "X-Signature") in
      elim (Bool-cases (text_eq sig (hex_encode (lib.hmac_sha256 p.webhook_secret body)))) [
        | inr differs ↦ absurd (ground (arith, differs, h))
        | inl equal ↦ elim (Option-cases (lib.unmarshal body)) [
          | inl failed ↦ absurd (ground (arith, equal, failed, h))
          | inr (ev, decoded) ↦ record {
            signature = eq_of_text_eq _ _ equal;
            event = ev;
            decoded = decoded;
            invoice = ground (arith, equal, decoded, h);
            confirmed = λ paid.
                let reached : leb_ℤ p.min_conf ev.confirmations ≡ true =
                  ground (arith, equal, decoded, paid, h) in
                let le : p.min_conf ≤ℤ ev.confirmations = ground (arith, reached) in
                (le, omega (arith, le, new-min_conf a r secret n));
          }
        ]
      ]
