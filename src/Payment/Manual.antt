-- ===== src/Payment/Manual.antt =====
-- core/payment/manual/manual.go: payment by instructions, confirmed by an operator.
-- The printing of an amount in cents with two decimals is a parameter.
use nft_soket.Base.{ℕ, false, none, List, [], ◌++◌, if◌then◌else◌}
use nft_soket.Base.Result.{Result, ok}
use nft_soket.Base.Int.{ℤ, pos}
use nft_soket.Base.Text.{Text, codes, is_empty}
use nft_soket.Payment.{CheckoutRequest, CheckoutSession, WebhookResult, Headers, Error, manual}

unfoldable pub start_checkout : (ℤ → Text) → Text → CheckoutRequest → Result Error CheckoutSession
start_checkout print_cents payee req =
    let instr =
      codes "Pay "
      ++ print_cents req.amount_cents
      ++ codes " "
      ++ req.currency
      ++ codes " for invoice "
      ++ req.invoice_id in
    ok (record {
      provider = codes "manual";
      invoice_id = req.invoice_id;
      kind = manual;
      redirect_url = [];
      pay_address = [];
      pay_uri = [];
      amount_cents = req.amount_cents;
      currency = req.currency;
      reference = [];
      expires_at = none;
      instructions = if is_empty payee then instr else instr ++ codes " to " ++ payee;
    })

unfoldable pub verify_webhook : Headers → List ℕ → Result Error WebhookResult
verify_webhook headers body = ok (record {
  provider = codes "manual";
  invoice_id = [];
  is_paid = false;
  reference = [];
  amount_cents = pos 0;
})
