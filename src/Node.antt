-- ===== src/Node.antt =====
-- core/node/server.go: a storage point that serves a backend over HTTP.
-- A request comes with the route that http.ServeMux finds for its path.
pub mod Client
pub mod Statuses
pub mod Wire
pub mod Remote
pub mod Lasting
pub mod Admission
pub mod Metered
use nft_soket.Base.{
  ℕ, Bool, true, false, not, ◌&&◌, ◌||◌, Option, none, some, List, [], ◌∷◌, if◌then◌else◌, length,
  ltb,
}
use nft_soket.Base.Result.{Result, ok, err}
use nft_soket.Base.Int.{ℤ, pos}
use nft_soket.Base.Text.{Text, codes, text_eq, is_empty}
use nft_soket.Http.{
  Method, get, head, put, post, Headers, Body, Response, reply, bearer, api_header, api_version,
}
use nft_soket.Cas.{Backend, BackendError, absent, failure, address, is_present}
use nft_soket.Control.Api.{ClientError, quota, suspended, unauthorized, missing, transport, server}

abbrev pub block_path : Text
block_path = codes "/v1/block/"

abbrev pub health_path : Text
health_path = codes "/v1/healthz"

-- Where a path leads: the probe, a block with {addr} unescaped, or nowhere.
pub data Route : Type 0 where
  health nowhere : Route
  block : Text → Route

pub record Request : Type 0 where
  pub method : Method
  pub route : Route
  pub headers : Headers
  pub body : Body

-- `QuotaEnforcer`: the control server, whose state a reservation changes.
pub record Quota : Type 1 where
  pub Ledger : Type 0
  pub reserve : Text → ℤ → Ledger → Result ClientError (Unit {0}) × Ledger

-- `Server`: the token, the cap on a body, and whether `WithQuota` was called.
pub record Server : Type 0 where
  pub token : Text
  pub with_quota : Bool
  pub max_body : ℕ

-- `NewServer`: the cap is 64 << 20.
abbrev pub new_server : Text → Server
new_server token = record { token = token; with_quota = false; max_body = 0x400_0000 }

-- `WithQuota`.
abbrev pub use_quota : Server → Server
use_quota s = record s { with_quota = true }

-- `authorized`; ConstantTimeCompare is equality.
unfoldable pub authorized : Server → Headers → Bool
authorized s headers = is_empty s.token || text_eq (bearer headers) s.token

-- The tests of `withAPIVersion`: the status of a refusal. The probe is exempt.
unfoldable pub refusal : Server → Request → Option ℕ
unfolding authorized
refusal s r =
    let version = r.headers api_header in
    let checked : Option ℕ =
      if not (is_empty version) && not (text_eq version api_version)
      then some 400
      else if s.with_quota
      then (if is_empty (bearer r.headers) then some 401 else none)
      else if authorized s r.headers
      then none
      else some 401 in
    elim r.route [ health ↦ none | nowhere ↦ checked | block addr ↦ checked ]

-- The status for a reservation that failed.
unfoldable pub quota_status : ClientError → ℕ
quota_status quota = 507
quota_status suspended = 403
quota_status unauthorized = 401
quota_status missing = 401
quota_status transport = 401
quota_status (server code) = 401

module _ (B : Backend) (Q : Quota) (hash : List ℕ → List ℕ) where
  open Q use {Ledger, reserve}

  -- The backend's blocks and the control server's ledger.
  abbrev pub Store : Type 0
  Store = B.State × Ledger

  abbrev found : Result BackendError (List ℕ) → Response
  found (ok bytes) = record { status = 200; body = bytes }
  found (err absent) = reply 404
  found (err failure) = reply 500

  unfoldable pub get_block : Text → Store → Response × Store
  get_block addr (b, q) = let (r, b') = B.get addr b in (found r, (b', q))

  abbrev probed : Result BackendError Bool → Response
  probed (ok true) = reply 200
  probed (ok false) = reply 404
  probed (err e) = reply 500

  unfoldable pub head_block : Text → Store → Response × Store
  head_block addr (b, q) = let (r, b') = B.has addr b in (probed r, (b', q))

  abbrev stored : Result BackendError (Unit {0}) → Response
  stored (ok u) = reply 201
  stored (err e) = reply 500

  -- backend.Put at the end of `putBlock`.
  unfoldable pub write_block : Text → List ℕ → Store → Response × Store
  write_block addr bytes (b, q) = let (r, b') = B.put addr bytes b in (stored r, (b', q))

  -- A new block is charged to the account of the token before it is written.
  unfoldable pub charge_block : Text → Text → List ℕ → Store → Response × Store
  unfolding write_block quota_status
  charge_block token addr bytes (b, q) =
      let (r, b') = B.has addr b in
      let (charged, q') = reserve token (pos (length bytes)) q in
      if is_present r then write_block addr bytes (b', q) else elim charged [
        | ok u ↦ write_block addr bytes (b', q')
        | err e ↦ (reply (quota_status e), (b', q'))
      ]

  unfoldable pub put_block : Server → Headers → Text → Body → Store → Response × Store
  unfolding charge_block
  put_block s headers addr body t =
      if body.fails || ltb s.max_body (length body.content)
      then (reply 400, t)
      else if not (text_eq (address hash body.content) addr)
      then (reply 400, t)
      else if s.with_quota
      then charge_block (bearer headers) addr body.content t
      else write_block addr body.content t

  -- What the mux calls; a method that no pattern names gets a 405, an unknown path a 404. A pattern of
  -- GET serves HEAD too where no other does.
  unfoldable pub serve : Server → Request → Store → Response × Store
  unfolding get_block head_block put_block
  serve s r t = elim r.route [
    | nowhere ↦ (reply 404, t)
    | health ↦ elim r.method [
      | get ↦ (record { status = 200; body = codes "ok" }, t)
      | head ↦ (reply 200, t)
      | put ↦ (reply 405, t)
      | post ↦ (reply 405, t)
    ]
    | block addr ↦ elim r.method [
      | get ↦ get_block addr t
      | head ↦ head_block addr t
      | put ↦ put_block s r.headers addr r.body t
      | post ↦ (reply 405, t)
    ]
  ]

  -- `Handler`.
  unfoldable pub handle : Server → Request → Store → Response × Store
  unfolding refusal serve
  handle s r t = elim (refusal s r) [ some code ↦ (reply code, t) | none ↦ serve s r t ]
