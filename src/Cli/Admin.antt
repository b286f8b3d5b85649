-- ===== src/Cli/Admin.antt =====
-- core/cmd/vaultadmin/main.go: the request that each command makes of the control server. Parameters:
-- encoding/json on the bodies, the exchange with the server, and what strconv returns beside an error.
use nft_soket.Base.{ℕ, not, Option, none, some, List, [], ◌++◌, if◌then◌else◌, leb}
use nft_soket.Base.Result.{Result, ok, err}
use nft_soket.Base.Int.{ℤ}
use nft_soket.Base.Text.{Text, codes, is_empty, text_eq}
use nft_soket.Base.Strings.{trim_right_slashes, parse_int}
use nft_soket.Http.{Method, Headers, Response, api_header, api_version, auth_header, auth_scheme}
use nft_soket.Control.Api.Handling.{AccountRequest}
use nft_soket.Cli.{flag_val}
use nft_soket.Cli.Keys.{Terminal, getenv}
use nft_soket.Cli.Size.{parse_size}

-- The maps that the commands encode.
pub data AdminBody : Type 0 where
  no_body empty_map : AdminBody
  plan_map : Text → ℤ → ℤ → Text → AdminBody
  account_map : AccountRequest → AdminBody
  status_map method_map : Text → AdminBody
  amount_map hours_map : ℤ → AdminBody

pub data Error : Type 0 where
  invalid_size unknown_command not_sent : Error
  refused : ℕ → Error

pub record AdminRequest : Type 0 where
  pub method : Method
  pub path : Text
  pub body : AdminBody

abbrev posted : Text → AdminBody → Option AdminRequest
posted path body = some (record { method = Method.post; path = path; body = body })

abbrev got : Text → Option AdminRequest
got path = some (record { method = Method.get; path = path; body = no_body })

abbrev number : (Text → ℤ) → Text → Option ℤ → ℤ
number nearest s none = nearest s
number nearest s (some n) = n

abbrev plan_request : Text → ℤ → Text → Text → Option ℤ → Result Error (Option AdminRequest)
plan_request name price currency path none = err invalid_size
plan_request name price currency path (some quota) =
    ok (posted path (plan_map name quota price currency))

-- `run`, up to `do`: the request, or none for the usage text.
unfoldable pub request_of : (Text → ℤ) → Text → List Text → Result Error (Option AdminRequest)
request_of nearest cmd args =
    let flag = λ (name : Text) (default : Text). flag_val args name default in
    let int_flag = λ (name : Text) (default : Text).
      number nearest (flag name default) (parse_int (flag name default)) in
    let id = flag (codes "--id") [] in
    let account = λ (what : Text). codes "/v1/admin/accounts/" ++ id ++ what in
    if text_eq cmd (codes "plan-create")
    then plan_request (flag (codes "--name") []) (int_flag (codes "--price") (codes "0"))
        (flag (codes "--currency") (codes "EUR")) (codes "/v1/admin/plans")
        (parse_size (flag (codes "--quota") (codes "0")))
    else if text_eq cmd (codes "plan-list")
    then ok (got (codes "/v1/admin/plans"))
    else if text_eq cmd (codes "account-create")
    then ok (
        posted (codes "/v1/admin/accounts") (
          account_map (record {
            name = flag (codes "--name") [];
            email = flag (codes "--email") [];
            plan_id = flag (codes "--plan") [];
          })))
    else if text_eq cmd (codes "account-list")
    then ok (got (codes "/v1/admin/accounts"))
    else if text_eq cmd (codes "account-suspend")
    then ok (posted (account (codes "/status")) (status_map (codes "suspended")))
    else if text_eq cmd (codes "account-activate")
    then ok (posted (account (codes "/status")) (status_map (codes "active")))
    else if text_eq cmd (codes "invoice-create")
    then ok
        (posted (account (codes "/invoice")) (amount_map (int_flag (codes "--amount") (codes "0"))))
    else if text_eq cmd (codes "providers")
    then ok (got (codes "/v1/admin/payment-providers"))
    else if text_eq cmd (codes "billing-run")
    then ok (posted (codes "/v1/admin/billing/run") empty_map)
    else if text_eq cmd (codes "billing-enforce")
    then ok (
        posted (codes "/v1/admin/billing/enforce")
          (hours_map (int_flag (codes "--grace-hours") (codes "168"))))
    else if text_eq cmd (codes "invoice-pay")
    then ok (
        posted (codes "/v1/admin/invoices/" ++ id ++ codes "/pay")
          (method_map (flag (codes "--method") (codes "manual"))))
    else if text_eq cmd (codes "-h")
    then ok none
    else if text_eq cmd (codes "--help")
    then ok none
    else if text_eq cmd (codes "help")
    then ok none
    else err unknown_command

unfoldable pub base : Terminal → Text
base t =
    let u = getenv t (codes "NFTVAULT_CONTROL") in
    if not (is_empty u) then trim_right_slashes u else codes "http://127.0.0.1:9000"

-- The headers of `do`, which sends the scheme even before an empty token.
unfoldable pub admin_headers : Terminal → Headers
admin_headers t name =
    if text_eq name api_header
    then api_version
    else if text_eq name auth_header
    then auth_scheme ++ getenv t (codes "NFTVAULT_ADMIN_TOKEN")
    else []

abbrev shown : Option Response → Result Error (List ℕ)
shown none = err not_sent
shown (some resp) = if leb 300 resp.status then err (refused resp.status) else ok resp.body

module _ (World : Type 0)
    (exchange : Method → Text → Headers → List ℕ → World → Option Response × World)
    (marshal : AdminBody → List ℕ) where
  -- `do`, whose answer is printed.
  unfoldable pub send : Terminal → AdminRequest → World → Result Error (List ℕ) × World
  unfolding base admin_headers
  send t r w =
      let (resp, w') = exchange r.method (base t ++ r.path) (admin_headers t) (marshal r.body) w in
      (shown resp, w')

  abbrev sent :
      Terminal → Result Error (Option AdminRequest) → World → Result Error (List ℕ) × World
  sent t (err e) w = (err e, w)
  sent t (ok none) w = (ok [], w)
  sent t (ok (some r)) w = send t r w

  unfoldable pub run :
      (Text → ℤ) → Terminal → Text → List Text → World → Result Error (List ℕ) × World
  unfolding send request_of
  run nearest t cmd args w = sent t (request_of nearest cmd args) w
