-- ===== src/Control/Client.antt =====
-- core/control/client.go. Parameters: the exchange of a request for a response, `none` where the request
-- cannot be made or sent, and encoding/json, which reads a body or fails.
pub mod Served
use nft_soket.Base.{
  ℕ, Bool, true, false, ◌||◌, Option, none, some, List, [], ◌∷◌, ◌++◌, if◌then◌else◌, ◌==◌,
}
use nft_soket.Base.Result.{Result, ok, err}
use nft_soket.Base.Int.{ℤ}
use nft_soket.Base.Text.{Text, codes}
use nft_soket.Base.Strings.{trim_right_slashes}
use nft_soket.Http.{Method, Headers, Response, client_headers}
use nft_soket.Payment.{CheckoutSession}
use nft_soket.Control.Model.{AccountStatusView, Invoice}
use nft_soket.Control.Api.{ClientError, transport, map_status}
use nft_soket.Control.Api.Handling.{CheckoutBody}

pub record Link : Type 1 where
  pub World : Type 0
  pub exchange : Method → Text → Headers → List ℕ → World → Option Response × World
  pub encode_bytes : ℤ → List ℕ
  pub encode_checkout : CheckoutBody → List ℕ
  pub decode_status : List ℕ → Option AccountStatusView
  pub decode_invoices : List ℕ → Option (List Invoice)
  pub decode_session : List ℕ → Option CheckoutSession

pub record Client : Type 0 where
  pub base_url : Text

unfoldable pub new_client : Text → Client
new_client base_url = record { base_url = trim_right_slashes base_url }

abbrev pub reserve_path : Text
reserve_path = codes "/v1/account/usage/reserve"

abbrev pub release_path : Text
release_path = codes "/v1/account/usage/release"

abbrev pub checkout_path : Text → Text
checkout_path invoice_id = codes "/v1/account/invoices/" ++ invoice_id ++ codes "/checkout"

-- A response of another status than these is an error; a lost one, too.
abbrev pub expect :
    {A : Type 0}
    → (ℕ → Bool)
    → (List ℕ → Result ClientError A)
    → Option Response
    → Result ClientError A
expect good read none = err transport
expect good read (some resp) =
    if good resp.status then read resp.body else err (map_status resp.status)

abbrev pub is_200 : ℕ → Bool
is_200 code = code == 200

abbrev pub decoded : {A : Type 0} → Option A → Result ClientError A
decoded none = err transport
decoded (some a) = ok a

module _ (L : Link) where
  open L use {World, exchange}

  -- `req`; a Content-Type goes with a body.
  unfoldable pub req : Client → Method → Text → Text → List ℕ → World → Option Response × World
  req c method path token body w =
      exchange method (c.base_url ++ path) (client_headers token) body w

  unfoldable pub reserve : Client → Text → ℤ → World → Result ClientError (Unit {0}) × World
  unfolding req
  reserve c token bytes w =
      let (resp, w') = req c Method.post reserve_path token (L.encode_bytes bytes) w in
      (expect is_200 (λ body. ok tt) resp, w')

  unfoldable pub release : Client → Text → ℤ → World → Result ClientError (Unit {0}) × World
  unfolding req
  release c token bytes w =
      let (resp, w') = req c Method.post release_path token (L.encode_bytes bytes) w in
      (expect is_200 (λ body. ok tt) resp, w')

  unfoldable pub status : Client → Text → World → Result ClientError AccountStatusView × World
  unfolding req
  status c token w =
      let (resp, w') = req c Method.get (codes "/v1/account") token [] w in
      (expect is_200 (λ body. decoded (L.decode_status body)) resp, w')

  unfoldable pub invoices : Client → Text → World → Result ClientError (List Invoice) × World
  unfolding req
  invoices c token w =
      let (resp, w') = req c Method.get (codes "/v1/account/invoices") token [] w in
      (expect is_200 (λ body. decoded (L.decode_invoices body)) resp, w')

  unfoldable pub checkout :
      Client → Text → Text → Text → Text → Text → World → Result ClientError CheckoutSession × World
  unfolding req
  checkout c token invoice_id provider success cancel w =
      let body : CheckoutBody = record {
        provider = provider;
        success_url = success;
        cancel_url = cancel;
      } in
      let (resp, w') =
        req c Method.post (checkout_path invoice_id) token (L.encode_checkout body) w in
      (
        expect (λ code. code == 201 || code == 200) (λ bytes. decoded (L.decode_session bytes))
            resp,
        w',
      )

  abbrev is_ok : Option Response → Bool
  is_ok none = false
  is_ok (some resp) = resp.status == 200

  unfoldable pub healthy : Client → World → Bool × World
  unfolding req
  healthy c w = let (resp, w') = req c Method.get (codes "/v1/healthz") [] [] w in (is_ok resp, w')
