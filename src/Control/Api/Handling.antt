-- ===== src/Control/Api/Handling.antt =====
-- What the handlers of core/control/api.go share. Parameters: what encoding/json makes of a request's
-- body, where `none` is an error; a handler that drops the error takes what the field holds after it.
use nft_soket.Base.{ℕ, ◌||◌, Option, none, some, List, [], length, ltb, take}
use nft_soket.Base.Result.{Result, ok, err}
use nft_soket.Base.Int.{ℤ}
use nft_soket.Base.Text.{Text}
use nft_soket.Http.{Body}
use nft_soket.Payment.{Registry, names}
use nft_soket.Control.Model.{Account, AccountStatus, Period, Error}
use nft_soket.Control.Exec.{State, Exec}
use nft_soket.Control.Service.Billing.{Charge, manual_charge}
use nft_soket.Control.Api.{write_err}
use nft_soket.Control.Api.Routes.{Reply, Payload, error_message}

pub record PlanRequest : Type 0 where
  pub name : Text
  pub quota_bytes : ℤ
  pub price_cents : ℤ
  pub currency : Text
  pub period : Period

pub record AccountRequest : Type 0 where
  pub name : Text
  pub email : Text
  pub plan_id : Text

pub record CheckoutBody : Type 0 where
  pub provider : Text
  pub success_url : Text
  pub cancel_url : Text

pub record Json : Type 0 where
  pub plan_request : Body → Option PlanRequest
  pub account_request : Body → Option AccountRequest
  pub new_status : Body → Option AccountStatus
  pub byte_count : Body → Option ℤ
  pub checkout_body : Body → Option CheckoutBody
  pub grace_hours : Body → ℤ
  pub pay_method : Body → Text
  pub amount_cents : Body → ℤ

-- `Service`, without its store and its clock: the state and the environment.
pub record Service : Type 0 where
  pub charge : Charge
  pub payments : Option Registry

-- `NewService` with no provider.
abbrev pub new_service : Service
new_service = record { charge = manual_charge; payments = none }

abbrev pub with_payments : Registry → Service → Service
with_payments reg svc = record svc { payments = some reg }

unfoldable pub payment_providers : Service → List Text
payment_providers svc = elim svc.payments [ none ↦ [] | some reg ↦ names reg ]

-- http.MaxBytesReader with 1 << 20: reading a longer body fails at the limit.
unfoldable pub limited : Body → Body
limited b = record {
  content = take 0x10_0000 b.content;
  fails = b.fails || ltb 0x10_0000 (length b.content);
}

-- `httpError`.
abbrev pub http_error : ℕ → Reply
http_error code = record { status = code; payload = error_message }

abbrev pub write_json : ℕ → Payload → Reply
write_json code value = record { status = code; payload = value }

-- `writeErr`, or the reply to a success.
abbrev pub answer : {A : Type 0} → (A → Reply) → Result Error A → Reply
answer f (ok a) = f a
answer f (err e) = http_error (write_err e)

abbrev pub respond : {A : Type 0} → Exec A → (A → Reply) → State → Reply × State
respond m f s = let (r, s') = m s in (answer f r, s')

-- `decode`, and what follows it in the handlers.
abbrev pub with_body : {A : Type 0} → Option A → (A → State → Reply × State) → State → Reply × State
with_body none handler s = (http_error 400, s)
with_body (some a) handler s = handler a s

abbrev pub hide_hash : Account → Account
hide_hash a = record a { token_hash = [] }
