-- ===== src/Control/Api/Server.antt =====
-- `Handler` of core/control/api.go: the version, the guards and the routes.
use nft_soket.Base.{Bool, true, false, not, ◌&&◌, if◌then◌else◌}
use nft_soket.Base.Result.{Result, ok, err}
use nft_soket.Base.Text.{Text, text_eq, is_empty}
use nft_soket.Http.{Headers, api_header, api_version, bearer}
use nft_soket.Control.Exec.{Env, State}
use nft_soket.Control.Model.{Account, Error}
use nft_soket.Control.Service.{authenticate}
use nft_soket.Control.Api.Routes.{Route, Request, Reply, status_ok, route}
use nft_soket.Control.Api.Handling.{Json, Service, http_error, write_json}
use nft_soket.Control.Api.Admin
use nft_soket.Control.Api.Accounts

-- `API`, and the world around a request: the decoders, the environment, and what other requests do
-- while a payment provider works.
pub record Api : Type 0 where
  pub service : Service
  pub admin_token : Text
  pub json : Json
  pub env : Env
  pub meanwhile : State → State

-- `admin`; ConstantTimeCompare is equality.
unfoldable pub is_admin : Api → Headers → Bool
is_admin api headers = not (is_empty api.admin_token) && text_eq (bearer headers) api.admin_token

unfoldable pub admin : Api → Headers → (State → Reply × State) → State → Reply × State
unfolding is_admin
admin api headers handler s = elim (is_admin api headers) [
  | true ↦ handler s
  | false ↦ (http_error 401, s)
]

abbrev pub as_account :
    (Account → State → Reply × State) → Result Error Account × State → Reply × State
as_account handler (ok acc, s) = handler acc s
as_account handler (err e, s) = (http_error 401, s)

unfoldable pub account : Api → Headers → (Account → State → Reply × State) → State → Reply × State
account api headers handler s = as_account handler (authenticate api.env (bearer headers) s)

-- What the patterns lead to.
unfoldable pub dispatch : Api → Request → Route → State → Reply × State
unfolding admin account
dispatch api r Route.health s = (write_json 200 status_ok, s)
dispatch api r Route.create_plan s =
    admin api r.headers (Admin.create_plan api.json api.env r.body) s
dispatch api r Route.list_plans s = admin api r.headers Admin.list_plans s
dispatch api r Route.create_account s =
    admin api r.headers (Admin.create_account api.json api.env r.body) s
dispatch api r Route.list_accounts s = admin api r.headers Admin.list_accounts s
dispatch api r Route.run_billing s = admin api r.headers (Admin.run_billing api.env api.service) s
dispatch api r Route.enforce s = admin api r.headers (Admin.enforce api.json api.env r.body) s
dispatch api r Route.list_providers s = admin api r.headers (Admin.list_providers api.service) s
dispatch api r (Route.set_status id) s =
    admin api r.headers (Admin.set_status api.json api.env id r.body) s
dispatch api r (Route.pay_invoice id) s =
    admin api r.headers (Admin.pay_invoice api.json api.env id r.body) s
dispatch api r (Route.issue_invoice id) s =
    admin api r.headers (Admin.issue_invoice api.json api.env id r.body) s
dispatch api r Route.account_status s = account api r.headers Accounts.account_status s
dispatch api r Route.account_invoices s = account api r.headers Accounts.account_invoices s
dispatch api r Route.reserve s =
    account api r.headers (λ acc. Accounts.reserve api.json api.env acc r.body) s
dispatch api r Route.release s =
    account api r.headers (λ acc. Accounts.release api.json api.env acc r.body) s
dispatch api r (Route.checkout id) s =
    account api r.headers
      (λ acc. Accounts.checkout api.json api.env api.service api.meanwhile acc id r.body) s
dispatch api r (Route.webhook provider) s =
    Accounts.webhook api.env api.service provider r.headers r.body s
dispatch api r Route.nowhere s = (http_error 404, s)
dispatch api r Route.wrong_method s = (http_error 405, s)

-- `Handler` with `withAPIVersion`: an absent version is taken for the current one.
unfoldable pub handle : Api → Request → State → Reply × State
unfolding dispatch
handle api r s =
    let answered = dispatch api r (route r.method r.path) s in
    let version = r.headers api_header in
    if not (is_empty version) && not (text_eq version api_version)
    then (http_error 400, s)
    else answered
