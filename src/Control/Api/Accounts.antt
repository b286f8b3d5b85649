-- ===== src/Control/Api/Accounts.antt =====
-- The account handlers and the payment webhook of core/control/api.go.
use nft_soket.Base.{Bool, true, false, List, [], ◌∷◌, if◌then◌else◌}
use nft_soket.Base.Result.{Result, ok, err}
use nft_soket.Base.Int.{pos}
use nft_soket.Base.Text.{Text, text_eq}
use nft_soket.Http.{Body, Headers}
use nft_soket.Control.Exec.{Env, State}
use nft_soket.Control.Model.{Account, AccountStatus, AccountStatusView, Error, Invoice}
use nft_soket.Control.Store.{list_invoices}
use nft_soket.Control.Service as Methods
use nft_soket.Control.Service.Billing
use nft_soket.Control.Service.Settlement
use nft_soket.Control.Api.{write_err}
use nft_soket.Control.Api.Routes.{Reply, status_ok, status_view, account_bills, session, settled}
use nft_soket.Control.Api.Handling.{
  Json, Service, limited, http_error, write_json, respond, with_body,
}

abbrev zero_view : AccountStatusView
zero_view = record {
  account_id = [];
  name = [];
  status = AccountStatus.other [];
  plan_id = [];
  plan_name = [];
  quota_bytes = pos 0;
  bytes_used = pos 0;
  remaining_bytes = pos 0;
  object_count = pos 0;
  currency = [];
  outstanding_cts = pos 0;
  period_end = pos 0;
}

-- `st, _ := a.svc.Status(acc.ID)`.
abbrev view_or_zero : Result Error AccountStatusView → AccountStatusView
view_or_zero (ok view) = view
view_or_zero (err e) = zero_view

unfoldable pub account_status : Account → State → Reply × State
account_status acc = respond (Billing.status acc.id) (λ view. write_json 200 (status_view view))

unfoldable pub account_invoices : Account → State → Reply × State
account_invoices acc s = (write_json 200 (account_bills (list_invoices acc.id s.store)), s)

-- The loop of `checkout` over the account's invoices.
unfoldable pub owns : Text → List Invoice → Bool
owns id [] = false
owns id (inv ∷ invoices) = let rest = owns id invoices in if text_eq inv.id id then true else rest

module _ (json : Json) (env : Env) where
  abbrev pub reserved : Account → Result Error Unit × State → Reply × State
  reserved acc (ok u, s) =
      let (r, s') = Billing.status acc.id s in (write_json 200 (status_view (view_or_zero r)), s')
  reserved acc (err e, s) = (http_error (write_err e), s)

  unfoldable pub reserve : Account → Body → State → Reply × State
  reserve acc body =
      with_body (json.byte_count (limited body))
        (λ bytes s. reserved acc (Methods.reserve env acc.id bytes s))

  unfoldable pub release : Account → Body → State → Reply × State
  release acc body =
      with_body (json.byte_count (limited body))
        (λ bytes. respond (Methods.release env acc.id bytes) (λ u. write_json 200 status_ok))

  -- `meanwhile` is what other requests do while the payment provider works.
  unfoldable pub checkout :
      Service → (State → State) → Account → Text → Body → State → Reply × State
  unfolding owns
  checkout svc meanwhile acc id body s = elim (owns id (list_invoices acc.id s.store)) [
    | false ↦ (http_error 404, s)
    | true ↦
        with_body (json.checkout_body (limited body))
          (λ r.
            respond
              (Settlement.create_checkout env svc.payments meanwhile id r.provider r.success_url
                r.cancel_url)
              (λ sess. write_json 201 (session sess)))
          s
  ]

-- Any error of `HandleWebhook` is a bad request.
abbrev webhook_reply : Result Error Bool → Reply
webhook_reply (ok b) = write_json 200 (settled b)
webhook_reply (err e) = http_error 400

unfoldable pub webhook : Env → Service → Text → Headers → Body → State → Reply × State
webhook env svc provider headers body s =
    let (r, s') =
      Settlement.handle_webhook env svc.payments provider headers (limited body).content s in
    if (limited body).fails then (http_error 400, s) else (webhook_reply r, s')
