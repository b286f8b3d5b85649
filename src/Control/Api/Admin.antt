-- ===== src/Control/Api/Admin.antt =====
-- The admin handlers of core/control/api.go.
use nft_soket.Base.{none, some, map}
use nft_soket.Base.Int.{scale64}
use nft_soket.Base.Text.{Text}
use nft_soket.Http.{Body}
use nft_soket.Control.Exec.{Env, State}
use nft_soket.Control.Store
use nft_soket.Control.Service as Methods
use nft_soket.Control.Service.Billing
use nft_soket.Control.Service.Settlement
use nft_soket.Control.Api.{write_err}
use nft_soket.Control.Api.Routes.{
  Reply, one_plan, all_plans, new_account, all_accounts, status_set, issued, suspended_ids,
  one_payment, one_invoice, provider_names,
}
use nft_soket.Control.Api.Handling.{
  Json, Service, limited, payment_providers, http_error, write_json, respond, with_body, hide_hash,
}

module _ (json : Json) (env : Env) where
  unfoldable pub create_plan : Body → State → Reply × State
  create_plan body = with_body (json.plan_request (limited body)) (λ r.
      respond (Methods.create_plan env r.name r.quota_bytes r.price_cents r.currency r.period)
        (λ p. write_json 201 (one_plan p)))

  unfoldable pub create_account : Body → State → Reply × State
  create_account body = with_body (json.account_request (limited body)) (λ r.
      respond (Methods.create_account env r.name r.email r.plan_id)
        (λ made. write_json 201 (new_account (hide_hash made.0) made.1)))

  unfoldable pub set_status : Text → Body → State → Reply × State
  set_status id body =
      with_body (json.new_status (limited body))
        (λ st. respond (Methods.set_status env id st) (λ u. write_json 200 (status_set st)))

  unfoldable pub pay_invoice : Text → Body → State → Reply × State
  pay_invoice id body =
      respond (Settlement.pay_invoice env id (json.pay_method body))
        (λ pay. write_json 200 (one_payment pay))

  unfoldable pub issue_invoice : Text → Body → State → Reply × State
  issue_invoice id body =
      respond (Settlement.issue_invoice env id (json.amount_cents body))
        (λ inv. write_json 201 (one_invoice inv))

  -- time.Duration(hours) * time.Hour, in nanoseconds.
  unfoldable pub enforce : Body → State → Reply × State
  enforce body s =
      let (ids, s') =
        Settlement.enforce_delinquency env (scale64 3600_000_000_000 (json.grace_hours body)) s in
      (write_json 200 (suspended_ids ids), s')

unfoldable pub list_plans : State → Reply × State
list_plans = respond Store.list_plans (λ plans. write_json 200 (all_plans plans))

unfoldable pub list_accounts : State → Reply × State
list_accounts =
    respond Store.list_accounts (λ accounts. write_json 200 (all_accounts (map hide_hash accounts)))

abbrev billed : Billing.Issued → Reply
billed (invoices, none) = write_json 200 (issued invoices)
billed (invoices, some e) = http_error (write_err e)

unfoldable pub run_billing : Env → Service → State → Reply × State
run_billing env svc s = let (out, s') = Billing.run_billing env svc.charge s in (billed out, s')

unfoldable pub list_providers : Service → State → Reply × State
list_providers svc s = (write_json 200 (provider_names (payment_providers svc)), s)
