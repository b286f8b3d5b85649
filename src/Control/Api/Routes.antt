-- ===== src/Control/Api/Routes.antt =====
-- The routes of core/control/api.go: the patterns of `Handler`, the requests and the replies. A path
-- comes as its segments, cleaned and unescaped; matching is what http.ServeMux documents.
use nft_soket.Base.{ℕ, Bool, true, false, Option, none, some, List, [], ◌∷◌, if◌then◌else◌, String}
use nft_soket.Base.Text.{Text, codes, text_eq}
use nft_soket.Http.{Method, Headers, Body}
use nft_soket.Payment.{CheckoutSession}
use nft_soket.Control.Model.{Plan, Account, AccountStatus, AccountStatusView, Invoice, Payment}

pub data Route : Type 0 where
  health create_plan list_plans create_account list_accounts run_billing enforce : Route
  list_providers account_status account_invoices reserve release : Route
  set_status pay_invoice issue_invoice checkout webhook : Text → Route
  nowhere wrong_method : Route

pub record Request : Type 0 where
  pub method : Method
  pub path : List Text
  pub headers : Headers
  pub body : Body

-- The values that the handlers encode.
pub data Payload : Type 0 where
  error_message status_ok : Payload
  one_plan : Plan → Payload
  all_plans : List Plan → Payload
  new_account : Account → Text → Payload
  all_accounts : List Account → Payload
  status_set : AccountStatus → Payload
  issued : List Invoice → Payload
  suspended_ids : List Text → Payload
  one_payment : Payment → Payload
  one_invoice : Invoice → Payload
  provider_names : List Text → Payload
  status_view : AccountStatusView → Payload
  account_bills : List Invoice → Payload
  session : CheckoutSession → Payload
  settled : Bool → Payload

pub record Reply : Type 0 where
  pub status : ℕ
  pub payload : Payload

-- A part of a pattern: the text itself, or {id}.
pub data Segment : Type 0 where
  part : String → Segment
  wildcard : Segment

-- What stands for the wildcard of a pattern; nothing in a pattern without one.
unfoldable pub match_path : List Segment → List Text → Text → Option Text
match_path [] [] value = some value
match_path [] (t ∷ path) value = none
match_path (p ∷ pattern) [] value = none
match_path (part word ∷ pattern) (t ∷ path) value =
    let rest = match_path pattern path value in if text_eq t (codes word) then rest else none
match_path (wildcard ∷ pattern) (t ∷ path) value = match_path pattern path t

-- A pattern of GET serves HEAD as well.
unfoldable pub serves : Method → Method → Bool
serves Method.get Method.get = true
serves Method.get Method.head = true
serves Method.get Method.put = false
serves Method.get Method.post = false
serves Method.head m = false
serves Method.put m = false
serves Method.post Method.get = false
serves Method.post Method.head = false
serves Method.post Method.put = false
serves Method.post Method.post = true

pub record Pattern : Type 0 where
  pub method : Method
  pub segments : List Segment
  pub handler : Text → Route

abbrev on : Method → List Segment → (Text → Route) → Pattern
on method segments handler = record { method = method; segments = segments; handler = handler }

abbrev v1 : List Segment → List Segment
v1 segments = part "v1" ∷ segments

abbrev admin_path : List Segment → List Segment
admin_path segments = v1 (part "admin" ∷ segments)

-- The patterns of `Handler`; no two of one method match one path.
abbrev pub patterns : List Pattern
patterns =
    on Method.get (v1 (part "healthz" ∷ [])) (λ id. health)
    ∷ on Method.post (admin_path (part "plans" ∷ [])) (λ id. create_plan)
    ∷ on Method.get (admin_path (part "plans" ∷ [])) (λ id. list_plans)
    ∷ on Method.post (admin_path (part "accounts" ∷ [])) (λ id. create_account)
    ∷ on Method.get (admin_path (part "accounts" ∷ [])) (λ id. list_accounts)
    ∷ on Method.post (admin_path (part "accounts" ∷ wildcard ∷ part "status" ∷ []))
        (λ id. set_status id)
    ∷ on Method.post (admin_path (part "billing" ∷ part "run" ∷ [])) (λ id. run_billing)
    ∷ on Method.post (admin_path (part "billing" ∷ part "enforce" ∷ [])) (λ id. enforce)
    ∷ on Method.post (admin_path (part "invoices" ∷ wildcard ∷ part "pay" ∷ []))
        (λ id. pay_invoice id)
    ∷ on Method.post (admin_path (part "accounts" ∷ wildcard ∷ part "invoice" ∷ []))
        (λ id. issue_invoice id)
    ∷ on Method.get (admin_path (part "payment-providers" ∷ [])) (λ id. list_providers)
    ∷ on Method.get (v1 (part "account" ∷ [])) (λ id. account_status)
    ∷ on Method.get (v1 (part "account" ∷ part "invoices" ∷ [])) (λ id. account_invoices)
    ∷ on Method.post (v1 (part "account" ∷ part "usage" ∷ part "reserve" ∷ [])) (λ id. reserve)
    ∷ on Method.post (v1 (part "account" ∷ part "usage" ∷ part "release" ∷ [])) (λ id. release)
    ∷ on Method.post (v1 (part "account" ∷ part "invoices" ∷ wildcard ∷ part "checkout" ∷ []))
        (λ id. checkout id)
    ∷ on Method.post (v1 (part "payments" ∷ part "webhook" ∷ wildcard ∷ [])) (λ id. webhook id)
    ∷ []

-- The first pattern that matches the path and serves the method; `seen` where one had the path only.
unfoldable pub find_route : List Pattern → Method → List Text → Bool → Route
unfolding match_path serves
find_route [] method path seen = if seen then wrong_method else nowhere
find_route (p ∷ rows) method path seen =
    let other = find_route rows method path seen in
    let refused = find_route rows method path true in
    elim (match_path p.segments path []) [
      | none ↦ other
      | some value ↦ if serves p.method method then p.handler value else refused
    ]

unfoldable pub route : Method → List Text → Route
unfolding find_route
route method path = find_route patterns method path false
