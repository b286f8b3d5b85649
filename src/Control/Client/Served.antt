-- ===== src/Control/Client/Served.antt =====
-- core/control/client.go against core/control/api.go: the client gives the service's own answers.
use nft_soket.Base.{
  ℕ, ◌≡◌, refl, ap, ◌∙◌, false, Option, none, some, List, [], ◌∷◌, ◌==◌, arith, inl, inr,
}
use nft_soket.Base.Result.{Result, ok, err, map_err}
use nft_soket.Base.Int.{ℤ}
use nft_soket.Base.Text.{Text, codes, text_eq, after_prefix, after_prefix-append}
use nft_soket.Http.{Method, Headers, Body, Response, client_headers, bearer-client_headers}
use nft_soket.Payment.{CheckoutSession}
use nft_soket.Control.Model.{Account, AccountStatusView, Invoice, Error}
use nft_soket.Control.Exec.{Env, Exec, State}
use nft_soket.Control.Store.{get_account, get_plan}
use nft_soket.Control.Service as Methods
use nft_soket.Control.Service.{authenticate}
use nft_soket.Control.Service.Billing
use nft_soket.Control.Api.{ClientError, map_status, write_err}
use nft_soket.Control.Api.Routes.{Reply, status_ok, match_path, serves, find_route, Payload, route}
use nft_soket.Control.Api.Handling.{CheckoutBody, limited, answer, write_json}
use nft_soket.Control.Api.Accounts
use nft_soket.Control.Api.Guards.{authenticate-cases}
use nft_soket.Control.Api.Server.{Api, handle, dispatch, account}
use nft_soket.Control.Client.{Link, Client}
use nft_soket.Control.Client as Calls

-- The client's side of encoding/json, and the server's writer.
pub record Codec : Type 0 where
  pub encode_bytes : ℤ → List ℕ
  pub encode_checkout : CheckoutBody → List ℕ
  pub encode : Payload → List ℕ
  pub decode_status : List ℕ → Option AccountStatusView
  pub decode_invoices : List ℕ → Option (List Invoice)
  pub decode_session : List ℕ → Option CheckoutSession

-- The body that a client sends.
abbrev pub sent : List ℕ → Body
sent bytes = record { content = bytes; fails = false }

module _ (codec : Codec) (segments : Text → List Text) (api : Api) where
  abbrev answered : Reply × State → Option Response × State
  answered (rep, s) = (some (record { status = rep.status; body = codec.encode rep.payload }), s)

  abbrev reached : Method → Headers → List ℕ → Option Text → State → Option Response × State
  reached method headers bytes none s = (none, s)
  reached method headers bytes (some path) s = answered (
      handle api
        (record { method = method; path = segments path; headers = headers; body = sent bytes }) s)

  -- The server at this base URL answers every request; `segments` is what the mux makes of a path.
  abbrev pub link_to : Text → Link
  link_to base = record {
    World = State;
    exchange = λ method url headers bytes s. reached method headers bytes (after_prefix base url) s;
    encode_bytes = codec.encode_bytes;
    encode_checkout = codec.encode_checkout;
    decode_status = codec.decode_status;
    decode_invoices = codec.decode_invoices;
    decode_session = codec.decode_session;
  }

status-keeps : (id : Text) (s : State) → (Billing.status id s).1 ≡ s
unfolding Billing.status get_account get_plan
status-keeps id s = ground (arith)

write_err-ne-200 : (e : Error) → (write_err e == 200) ≡ false
unfolding write_err
write_err-ne-200 e = ground arith

-- What a method of the service answers to the owner of a token, seen through the errors of HTTP.
unfoldable pub metered :
    Env → (Text → Exec (Unit {0})) → Text → State → Result ClientError (Unit {0}) × State
metered env method token s = elim (authenticate env token s).0 [
  | err e ↦ (err ClientError.unauthorized, s)
  | ok acc ↦ let (r, s') = method acc.id s in (map_err (λ e. map_status (write_err e)) r, s')
]

-- A request with a client's headers passes the check of the version.
handle-client_headers :
    (api : Api) (method : Method) (path : List Text) (token : Text) (body : Body) (s : State)
    → handle api
        (record { method = method; path = path; headers = client_headers token; body = body })
        s
      ≡ dispatch api
          (record { method = method; path = path; headers = client_headers token; body = body })
          (route method path)
          s
unfolding handle client_headers text_eq
handle-client_headers api method path token body s = refl

-- What the client makes of the server's reply to a request that has no answer but its status.
abbrev outcome : Codec → Reply × State → Result ClientError (Unit {0}) × State
outcome codec (rep, s) = (
  Calls.expect Calls.is_200 (λ b. ok tt)
      (some (record { status = rep.status; body = codec.encode rep.payload })),
  s,
)

-- The result of a method, as HTTP carries it.
abbrev carried : Result Error Unit × State → Result ClientError (Unit {0}) × State
carried (r, s) = (map_err (λ e. map_status (write_err e)) r, s)

reserved-carried :
    (codec : Codec) (api : Api) (acc : Account) (r : Result Error Unit) (s : State)
    → outcome codec (Accounts.reserved api.json api.env acc (r, s)) ≡ carried (r, s)
reserved-carried codec api acc (ok u) s = ap (λ t. (ok tt, t)) (status-keeps acc.id s)
reserved-carried codec api acc (err e) s = ground (arith, write_err-ne-200 e)

answer-carried :
    (codec : Codec) (r : Result Error Unit) (s : State)
    → outcome codec (answer (λ u. write_json 200 status_ok) r, s) ≡ carried (r, s)
answer-carried codec (ok u) s = refl
answer-carried codec (err e) s = ground (arith, write_err-ne-200 e)

module _ (codec : Codec) (api : Api) (token : Text) (bytes : ℤ) (body : Body) (s : State) where
  reserve-outcome :
      api.json.byte_count (limited body) ≡ some bytes
      → outcome codec
          (account api (client_headers token) (λ acc. Accounts.reserve api.json api.env acc body) s)
        ≡ metered api.env (λ id. Methods.reserve api.env id bytes) token s
  unfolding account metered Accounts.reserve map_status
  reserve-outcome decodes = elim (authenticate-cases api.env token s) [
    | inl (acc, found) ↦
        rw (metered, bearer-client_headers token, found, decodes)
          (let out = Methods.reserve api.env acc.id bytes s in
            reserved-carried codec api acc out.0 out.1)
    | inr (e, failed) ↦ rw (metered, bearer-client_headers token, failed) refl
  ]

  release-outcome :
      api.json.byte_count (limited body) ≡ some bytes
      → outcome codec
          (account api (client_headers token) (λ acc. Accounts.release api.json api.env acc body) s)
        ≡ metered api.env (λ id. Methods.release api.env id bytes) token s
  unfolding account metered Accounts.release map_status
  release-outcome decodes = elim (authenticate-cases api.env token s) [
    | inl (acc, found) ↦
        rw (metered, bearer-client_headers token, found, decodes)
          (let out = Methods.release api.env acc.id bytes s in answer-carried codec out.0 out.1)
    | inr (e, failed) ↦ rw (metered, bearer-client_headers token, failed) refl
  ]

abbrev pub usage_path : Text → List Text
usage_path word = codes "v1" ∷ codes "account" ∷ codes "usage" ∷ word ∷ []

-- A posted number meets the handler of the path, and the client keeps the status of the reply.
post-outcome :
    (codec : Codec) (segments : Text → List Text) (api : Api) (c : Client) (token path word : Text)
    (bytes : List ℕ) (s : State)
    → segments path ≡ usage_path word
    → (let (resp, s') =
          Calls.req (link_to codec segments api c.base_url) c Method.post path token bytes s in
        ◌≡◌ {A = Result ClientError (Unit {0}) × State}
          (Calls.expect Calls.is_200 (λ b. ok tt) resp, s')
          (outcome codec (
            dispatch api
              (record {
                method = Method.post;
                path = usage_path word;
                headers = client_headers token;
                body = sent bytes;
              })
              (route Method.post (usage_path word))
              s)))
unfolding Calls.req
post-outcome codec segments api c token path word bytes s to =
    ap
      (λ (found : Option Text).
        let (resp, s') =
          reached codec segments api Method.post (client_headers token) bytes found s in
        (Calls.expect {A = Unit {0}} Calls.is_200 (λ b. ok tt) resp, s'))
      (after_prefix-append c.base_url path)
    ∙ ap
        (λ (p : List Text). outcome codec (
          handle api
            (record {
              method = Method.post;
              path = p;
              headers = client_headers token;
              body = sent bytes;
            })
            s))
        to
    ∙ ap (outcome codec)
        (handle-client_headers api Method.post (usage_path word) token (sent bytes) s)

-- Over a server that answers, `Reserve` and `Release` of a client give what the service gives to the
-- owner of the token, with its error as HTTP carries it, and leave the state that the service leaves;
-- a token of no account is unauthorized and changes nothing. The paths are split at their slashes, and
-- the server reads the number that the client wrote.
pub client-metered :
    (codec : Codec) (segments : Text → List Text) (api : Api) (c : Client) (token : Text)
    (bytes : ℤ) (s : State)
    → segments Calls.reserve_path ≡ usage_path (codes "reserve")
    → segments Calls.release_path ≡ usage_path (codes "release")
    → api.json.byte_count (limited (sent (codec.encode_bytes bytes))) ≡ some bytes
    → (Calls.reserve (link_to codec segments api c.base_url) c token bytes s
        ≡ metered api.env (λ id. Methods.reserve api.env id bytes) token s)
      × (Calls.release (link_to codec segments api c.base_url) c token bytes s
          ≡ metered api.env (λ id. Methods.release api.env id bytes) token s)
unfolding Calls.reserve Calls.release dispatch route match_path serves find_route text_eq
client-metered codec segments api c token bytes s to_reserve to_release decodes = (
  post-outcome codec segments api c token Calls.reserve_path (codes "reserve")
        (codec.encode_bytes bytes) s to_reserve
      ∙ reserve-outcome codec api token bytes (sent (codec.encode_bytes bytes)) s decodes,
  post-outcome codec segments api c token Calls.release_path (codes "release")
        (codec.encode_bytes bytes) s to_release
      ∙ release-outcome codec api token bytes (sent (codec.encode_bytes bytes)) s decodes,
)
