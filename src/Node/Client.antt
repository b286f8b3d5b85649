-- ===== src/Node/Client.antt =====
-- core/node/client.go: a storage point behind HTTP as a backend.
-- Parameters: the URL-escaping of an address, and the exchange of a request for a response, `none`
-- where the request cannot be made or sent, or its answer cannot be read: `Put` and `Has` ignore a body that
-- breaks off behind its status, which is a failure here.
use nft_soket.Base.{
  ℕ, Bool, true, false, Option, none, some, List, [], ◌++◌, if◌then◌else◌, ◌==◌, ◌||◌,
}
use nft_soket.Base.Result.{Result, ok, err}
use nft_soket.Base.Text.{Text}
use nft_soket.Base.Strings.{trim_right_slashes}
use nft_soket.Http
use nft_soket.Http.{Method, Headers, Response, client_headers}
use nft_soket.Cas.{Backend, BackendError, absent, failure}
use nft_soket.Node.{block_path, health_path}

pub record Wire : Type 1 where
  pub World : Type 0
  pub escape : Text → Text
  pub exchange : Method → Text → Headers → List ℕ → World → Option Response × World

pub record RemoteBackend : Type 0 where
  pub name : Text
  pub base_url : Text
  pub token : Text

unfoldable pub new_remote_backend : Text → Text → Text → RemoteBackend
new_remote_backend name base_url token = record {
  name = name;
  base_url = trim_right_slashes base_url;
  token = token;
}

module _ (W : Wire) where
  open W use {World, escape, exchange}

  unfoldable pub url : RemoteBackend → Text → Text
  url r addr = r.base_url ++ block_path ++ escape addr

  -- `do`.
  unfoldable pub send : RemoteBackend → Method → Text → List ℕ → World → Option Response × World
  unfolding client_headers url
  send r method addr body w = exchange method (url r addr) (client_headers r.token) body w

  abbrev put_result : Option Response → Result BackendError (Unit {0})
  put_result none = err failure
  put_result (some resp) = if resp.status == 201 || resp.status == 200 then ok tt else err failure

  unfoldable pub put :
      RemoteBackend → Text → List ℕ → World → Result BackendError (Unit {0}) × World
  unfolding send
  put r addr bytes w = let (resp, w') = send r Http.put addr bytes w in (put_result resp, w')

  abbrev get_result : Option Response → Result BackendError (List ℕ)
  get_result none = err failure
  get_result (some resp) =
      if resp.status == 404
      then err absent
      else if resp.status == 200
      then ok resp.body
      else err failure

  unfoldable pub get : RemoteBackend → Text → World → Result BackendError (List ℕ) × World
  unfolding send
  get r addr w = let (resp, w') = send r Http.get addr [] w in (get_result resp, w')

  abbrev has_result : Option Response → Result BackendError Bool
  has_result none = err failure
  has_result (some resp) =
      if resp.status == 200 then ok true else if resp.status == 404 then ok false else err failure

  unfoldable pub has : RemoteBackend → Text → World → Result BackendError Bool × World
  unfolding send
  has r addr w = let (resp, w') = send r Http.head addr [] w in (has_result resp, w')

  abbrev is_ok : Option Response → Bool
  is_ok none = false
  is_ok (some resp) = resp.status == 200

  -- `Healthy` sends no token.
  unfoldable pub healthy : RemoteBackend → World → Bool × World
  healthy r w =
      let (resp, w') = exchange Http.get (r.base_url ++ health_path) (λ name. []) [] w in
      (is_ok resp, w')

  -- A `cas.Backend`, as the line at the end of the file asks.
  abbrev pub remote : RemoteBackend → Backend
  remote r = record { State = World; name = λ w. r.name; put = put r; get = get r; has = has r }
