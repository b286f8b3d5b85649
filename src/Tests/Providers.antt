-- ===== src/Tests/Providers.antt =====
-- Runs of the payment providers, with the body itself in place of its HMAC.
use nft_soket.Base.{ℕ, ◌≡◌, refl, true, Option, none, some, List, [], ◌∷◌}
use nft_soket.Base.Result.{ok}
use nft_soket.Base.Int.{pos, ◌-ℤ◌}
use nft_soket.Base.Text.{Text, codes, text_eq}
use nft_soket.Base.Hex.{hex_encode, hex_digit}
use nft_soket.Base.Strings.{trim_space, trim_left, is_space, split_commas, parse_int, parse_digits}
use nft_soket.Payment.{WebhookResult, Headers}
use nft_soket.Payment.Bitcoin
use nft_soket.Payment.Bitcoin.{WatcherEvent}
use nft_soket.Payment.Stripe
use nft_soket.Payment.Stripe.{Event}

abbrev watched : WatcherEvent
watched = record {
  invoice_id = codes "i";
  tx_id = codes "x";
  confirmations = pos 3;
  amount_sat = pos 9;
}

abbrev watcher : Bitcoin.Library
watcher = record {
  hmac_sha256 = λ secret body. body;
  unmarshal = λ body. some watched;
  print_btc = λ n. [];
  print_int = λ n. [];
}

abbrev source : Text → Option Text
source id = some (codes "addr")

abbrev signed_body : Headers
signed_body name = codes "0709"

abbrev body : List ℕ
body = 7 ∷ 9 ∷ []

abbrev confirmed : WebhookResult
confirmed = record {
  provider = codes "bitcoin";
  invoice_id = codes "i";
  is_paid = true;
  reference = codes "x";
  amount_cents = pos 0;
}

confirmed-verify_webhook :
    Bitcoin.verify_webhook watcher (Bitcoin.new source none (codes "s") (pos 2)) signed_body body
    ≡ ok confirmed
unfolding Bitcoin.verify_webhook Bitcoin.new hex_encode hex_digit text_eq
confirmed-verify_webhook = refl

verify_webhook-IsAuthentic_example :
    Bitcoin.IsAuthentic watcher
      (Bitcoin.new source none (codes "s") (pos 2))
      signed_body
      body
      confirmed
verify_webhook-IsAuthentic_example =
    Bitcoin.verify_webhook-IsAuthentic watcher source none (codes "s") (pos 2) signed_body body
      confirmed confirmed-verify_webhook

abbrev completed : Event
completed = record {
  event_type = codes "checkout.session.completed";
  payment_status = codes "paid";
  amount_total = pos 500;
  client_reference_id = codes "i";
  metadata_invoice_id = [];
  id = codes "cs";
}

abbrev shop : Stripe.Library
shop = record {
  hmac_sha256 = λ secret text. text;
  unmarshal = λ text. some completed;
  since = λ n. pos 4;
}

abbrev stripe : Stripe.Stripe
stripe = record { webhook_secret = codes "s"; tolerance = pos 300 }

-- The hex of "12." and the body, after another signature.
abbrev stripe_header : Headers
stripe_header name = codes "t=12,v1=00, v1=31322e0709"

abbrev paid_session : WebhookResult
paid_session = record {
  provider = codes "stripe";
  invoice_id = codes "i";
  is_paid = true;
  reference = codes "cs";
  amount_cents = pos 500;
}

session-verify_webhook : Stripe.verify_webhook shop stripe stripe_header body ≡ ok paid_session
unfolding Stripe.verify_webhook Stripe.check_age Stripe.parse_sig_header Stripe.parse_parts
    Stripe.add_part Stripe.split_equals split_commas parse_int parse_digits Stripe.any_match
    Stripe.or_default hex_encode hex_digit text_eq trim_space trim_left is_space ◌-ℤ◌
session-verify_webhook = refl

verify_webhook-IsSigned_example : Stripe.IsSigned shop stripe stripe_header body paid_session
verify_webhook-IsSigned_example =
    Stripe.verify_webhook-IsSigned shop stripe stripe_header body paid_session
      session-verify_webhook
