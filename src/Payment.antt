-- ===== src/Payment.antt =====
-- core/payment/payment.go: what a payment method is, and the registry of the enabled ones.
pub mod Bitcoin
pub mod Manual
pub mod Stripe
pub mod StripeCheckout
use nft_soket.Base.{Bool, true, false, Option, List, [], ◌∷◌, if◌then◌else◌, ltb, ◌==◌}
use nft_soket.Base.Result.{Result, or_fail}
use nft_soket.Base.Int.{ℤ}
use nft_soket.Base.Text.{Text}
use nft_soket.Base.Dict.{Dict, lookup, insert, keys}

pub data Kind : Type 0 where
  redirect crypto manual : Kind

pub record CheckoutRequest : Type 0 where
  pub invoice_id : Text
  pub account_id : Text
  pub amount_cents : ℤ
  pub currency : Text
  pub description : Text
  pub success_url : Text
  pub cancel_url : Text

pub record CheckoutSession : Type 0 where
  pub provider : Text
  pub invoice_id : Text
  pub kind : Kind
  pub redirect_url : Text
  pub pay_address : Text
  pub pay_uri : Text
  pub amount_cents : ℤ
  pub currency : Text
  pub reference : Text
  pub instructions : Text
  -- `none` is the zero time, which every provider leaves.
  pub expires_at : Option ℤ

pub record WebhookResult : Type 0 where
  pub provider : Text
  pub invoice_id : Text
  pub is_paid : Bool
  pub reference : Text
  pub amount_cents : ℤ

-- Why a payment method refuses, by the messages of the three providers.
pub data Error : Type 0 where
  unknown_provider : Error
  missing_signature malformed_signature bad_timestamp outside_tolerance : Error
  wrong_signature undecodable : Error
  no_address no_rate request_failed : Error

-- http.Header, read by Get: an absent header is the empty string.
abbrev pub Headers : Type 0
Headers = Text → Text

pub record Provider : Type 0 where
  pub name : Text
  pub start_checkout : CheckoutRequest → Result Error CheckoutSession
  pub verify_webhook : Headers → Text → Result Error WebhookResult

abbrev pub Registry : Type 0
Registry = Dict Provider

abbrev pub new_registry : Registry
new_registry = []

unfoldable pub register : Provider → Registry → Registry
register p r = insert p.name p r

unfoldable pub get : Text → Registry → Result Error Provider
get name r = or_fail (lookup name r) unknown_provider

-- The order of strings, by bytes.
unfoldable pub text_lt : Text → Text → Bool
text_lt s [] = false
text_lt [] (d ∷ t) = true
text_lt (c ∷ s) (d ∷ t) = let rest = text_lt s t in if c == d then rest else ltb c d

unfoldable pub insert_sorted : Text → List Text → List Text
insert_sorted a [] = a ∷ []
insert_sorted a (b ∷ bs) = if text_lt b a then b ∷ insert_sorted a bs else a ∷ b ∷ bs

unfoldable pub sort : List Text → List Text
unfolding insert_sorted
sort [] = []
sort (a ∷ names) = insert_sorted a (sort names)

-- The registered names, sorted.
unfoldable pub names : Registry → List Text
unfolding sort
names r = sort (keys r)
