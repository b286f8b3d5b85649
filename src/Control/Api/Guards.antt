-- ===== src/Control/Api/Guards.antt =====
-- Who may change the state of the control server through core/control/api.go.
use nft_soket.Base.{◌≡◌, ◌≢◌, ◌⊎◌, refl, ap₂, true, [], arith, Bool-cases, inl, inr}
use nft_soket.Base.Result.{ok, err, Result-cases}
use nft_soket.Base.Text.{Text, eq_of_text_eq}
use nft_soket.Http.{Headers, bearer}
use nft_soket.Control.Model.{Account, Error}
use nft_soket.Control.Exec.{Env, State}
use nft_soket.Control.Store.{get_account_by_token_hash}
use nft_soket.Control.Service.{authenticate}
use nft_soket.Control.Api.Routes.{Route, Request, Reply, route}
use nft_soket.Control.Api.Admin
use nft_soket.Control.Api.Accounts
use nft_soket.Control.Api.Server.{Api, handle, dispatch, account, admin, is_admin}

-- Looking an account up writes nothing.
pub authenticate-keeps : (env : Env) (token : Text) (s : State) → (authenticate env token s).1 ≡ s
unfolding authenticate get_account_by_token_hash
authenticate-keeps env token s = ground arith

pub authenticate-cases :
    (env : Env) (token : Text) (s : State)
    → ((acc : Account) × (authenticate env token s ≡ (ok acc, s)))
      ⊎ ((e : Error) × (authenticate env token s ≡ (err e, s)))
authenticate-cases env token s = elim (Result-cases (authenticate env token s).0) [
  | inl (acc, found) ↦ inl (acc, ap₂ (λ r t. (r, t)) found (authenticate-keeps env token s))
  | inr (e, failed) ↦ inr (e, ap₂ (λ r t. (r, t)) failed (authenticate-keeps env token s))
]

-- Whom a route asks for. A webhook is checked by its provider.
pub data Caller : Type 0 where
  anyone administrator owner sender : Caller

unfoldable pub caller : Route → Caller
caller (Route.set_status id) = administrator
caller (Route.pay_invoice id) = administrator
caller (Route.issue_invoice id) = administrator
caller (Route.checkout id) = owner
caller (Route.webhook name) = sender
caller Route.account_status = owner
caller Route.account_invoices = owner
caller Route.reserve = owner
caller Route.release = owner
caller Route.health = anyone
caller Route.nowhere = anyone
caller Route.wrong_method = anyone
caller Route.create_plan = administrator
caller Route.list_plans = administrator
caller Route.create_account = administrator
caller Route.list_accounts = administrator
caller Route.run_billing = administrator
caller Route.enforce = administrator
caller Route.list_providers = administrator

-- Which of them may change the state, by the token of the request.
unfoldable pub MayChange : Api → Headers → State → Caller → Type 0
MayChange api headers s anyone = ⊥
MayChange api headers s administrator = (bearer headers ≡ api.admin_token) × (api.admin_token ≢ [])
MayChange api headers s owner =
    (acc : Account) × (authenticate api.env (bearer headers) s ≡ (ok acc, s))
MayChange api headers s sender = Unit

is_admin-token :
    (api : Api) (headers : Headers)
    → is_admin api headers ≡ true
    → (bearer headers ≡ api.admin_token) × (api.admin_token ≢ [])
unfolding is_admin
is_admin-token api headers h =
    (ground (arith, h, eq_of_text_eq (bearer headers) api.admin_token), λ e. ground (arith, h, e))

-- A guard keeps the state, or the caller is who it asks for.
admin-keeps :
    (api : Api) (headers : Headers) (handler : State → Reply × State) (s : State)
    → ((admin api headers handler s).1 ≡ s) ⊎ MayChange api headers s administrator
unfolding admin MayChange
admin-keeps api headers handler s = elim (Bool-cases (is_admin api headers)) [
  | inl known ↦ inr (is_admin-token api headers known)
  | inr unknown ↦ inl (rw (unknown, admin))
]

account-keeps :
    (api : Api) (headers : Headers) (handler : Account → State → Reply × State) (s : State)
    → ((account api headers handler s).1 ≡ s) ⊎ MayChange api headers s owner
unfolding account MayChange
account-keeps api headers handler s = elim (authenticate-cases api.env (bearer headers) s) [
  | inl found ↦ inr found
  | inr (e, failed) ↦ inl (rw (failed, account))
]

dispatch-keeps :
    (api : Api) (r : Request) (s : State) (to : Route)
    → ((dispatch api r to s).1 ≡ s) ⊎ MayChange api r.headers s (caller to)
unfolding dispatch caller MayChange
dispatch-keeps api r s Route.health = inl refl
dispatch-keeps api r s Route.create_plan =
    admin-keeps api r.headers (Admin.create_plan api.json api.env r.body) s
dispatch-keeps api r s Route.list_plans = admin-keeps api r.headers Admin.list_plans s
dispatch-keeps api r s Route.create_account =
    admin-keeps api r.headers (Admin.create_account api.json api.env r.body) s
dispatch-keeps api r s Route.list_accounts = admin-keeps api r.headers Admin.list_accounts s
dispatch-keeps api r s Route.run_billing =
    admin-keeps api r.headers (Admin.run_billing api.env api.service) s
dispatch-keeps api r s Route.enforce =
    admin-keeps api r.headers (Admin.enforce api.json api.env r.body) s
dispatch-keeps api r s Route.list_providers =
    admin-keeps api r.headers (Admin.list_providers api.service) s
dispatch-keeps api r s (Route.set_status id) =
    admin-keeps api r.headers (Admin.set_status api.json api.env id r.body) s
dispatch-keeps api r s (Route.pay_invoice id) =
    admin-keeps api r.headers (Admin.pay_invoice api.json api.env id r.body) s
dispatch-keeps api r s (Route.issue_invoice id) =
    admin-keeps api r.headers (Admin.issue_invoice api.json api.env id r.body) s
dispatch-keeps api r s Route.account_status = account-keeps api r.headers Accounts.account_status s
dispatch-keeps api r s Route.account_invoices =
    account-keeps api r.headers Accounts.account_invoices s
dispatch-keeps api r s Route.reserve =
    account-keeps api r.headers (λ acc. Accounts.reserve api.json api.env acc r.body) s
dispatch-keeps api r s Route.release =
    account-keeps api r.headers (λ acc. Accounts.release api.json api.env acc r.body) s
dispatch-keeps api r s (Route.checkout id) =
    account-keeps api r.headers
      (λ acc. Accounts.checkout api.json api.env api.service api.meanwhile acc id r.body) s
dispatch-keeps api r s (Route.webhook provider) = inr tt
dispatch-keeps api r s Route.nowhere = inl refl
dispatch-keeps api r s Route.wrong_method = inl refl

-- A request changes the state only with the admin token, which is then not empty, on an admin route,
-- with the token of an account on an account route, or as a payment provider's webhook.
pub handle-MayChange :
    (api : Api) (r : Request) (s : State)
    → ((handle api r s).1 ≡ s) ⊎ MayChange api r.headers s (caller (route r.method r.path))
unfolding handle
handle-MayChange api r s = ground (arith, dispatch-keeps api r s (route r.method r.path))
