-- ===== src/Payment/StripeCheckout.antt =====
-- core/payment/stripe/stripe.go: `New` and `StartCheckout`.
-- Parameters: the HTTP request, encoding/json on the answer, and the printing of numbers.
use nft_soket.Base.{ℕ, Option, none, List, [], ◌∷◌, ◌++◌, if◌then◌else◌, leb}
use nft_soket.Base.Result.{Result, ok, ◌>>=◌, ◌>>◌, fail_if, or_fail}
use nft_soket.Base.Int.{ℤ}
use nft_soket.Base.Text.{Text, codes, is_empty}
use nft_soket.Base.Strings.{trim_right_slashes, to_lower}
use nft_soket.Payment.{
  CheckoutRequest, CheckoutSession, Error, redirect, request_failed, undecodable,
}
use nft_soket.Payment.Stripe.{or_default}

pub record Client : Type 0 where
  pub secret_key : Text
  pub base_url : Text

-- The id and the url of a session.
pub record Session : Type 0 where
  pub id : Text
  pub url : Text

-- `post` takes the URL, the secret key of the Authorization header and the form; it returns the status
-- and the body, or none where no answer came.
pub record Library : Type 0 where
  pub post : Text → Text → List (Text × Text) → Option (ℕ × List ℕ)
  pub unmarshal : List ℕ → Option Session
  pub print_int : ℤ → Text

unfoldable pub new : Text → Text → Client
unfolding trim_right_slashes
new secret_key base_url = record {
  secret_key = secret_key;
  base_url =
      trim_right_slashes (if is_empty base_url then codes "https://api.stripe.com" else base_url);
}

module _ (lib : Library) where
  unfoldable pub form : CheckoutRequest → List (Text × Text)
  unfolding to_lower
  form req =
      (codes "mode", codes "payment")
      ∷ (codes "success_url", or_default req.success_url (codes "https://example.com/paid"))
      ∷ (codes "cancel_url", or_default req.cancel_url (codes "https://example.com/cancel"))
      ∷ (codes "client_reference_id", req.invoice_id)
      ∷ (codes "metadata[invoice_id]", req.invoice_id)
      ∷ (codes "metadata[account_id]", req.account_id)
      ∷ (codes "line_items[0][quantity]", codes "1")
      ∷ (
        codes "line_items[0][price_data][currency]",
        to_lower (or_default req.currency (codes "eur")),
      )
      ∷ (codes "line_items[0][price_data][unit_amount]", lib.print_int req.amount_cents)
      ∷ (
        codes "line_items[0][price_data][product_data][name]",
        or_default req.description (codes "NFT Vault storage"),
      )
      ∷ []

  unfoldable pub start_checkout : Client → CheckoutRequest → Result Error CheckoutSession
  unfolding form
  start_checkout p req = do
    answer ←
        or_fail (lib.post (p.base_url ++ codes "/v1/checkout/sessions") p.secret_key (form req))
          request_failed
    fail_if (leb 300 answer.0) request_failed
    out ← or_fail (lib.unmarshal answer.1) undecodable
    ok (record {
      provider = codes "stripe";
      invoice_id = req.invoice_id;
      kind = redirect;
      redirect_url = out.url;
      pay_address = [];
      pay_uri = [];
      amount_cents = req.amount_cents;
      currency = req.currency;
      reference = out.id;
      expires_at = none;
      instructions = [];
    })
