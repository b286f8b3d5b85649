-- ===== src/Control/Api.antt =====
-- The domain errors over HTTP: `writeErr` of core/control/api.go and `mapStatus` of
-- core/control/client.go.
pub mod Routes
pub mod Handling
pub mod Admin
pub mod Accounts
pub mod Server
pub mod Guards
pub mod Ownership
use nft_soket.Base.{ℕ, ◌≡◌, ◌≢◌, ◌↔◌, if◌then◌else◌, ◌==◌, arith}
use nft_soket.Control.Model.{
  Error, not_found, quota_exceeded, not_active, conflict, invalid, storage, provider,
}

-- The status that the server answers with.
unfoldable pub write_err : Error → ℕ
write_err quota_exceeded = 507
write_err not_active = 403
write_err not_found = 404
write_err conflict = 409
write_err invalid = 400
write_err storage = 500
write_err provider = 500

-- What the client makes of a status; `transport` is a request or a response that is lost or unreadable.
pub data ClientError : Type 0 where
  quota suspended unauthorized missing transport : ClientError
  server : ℕ → ClientError

unfoldable pub map_status : ℕ → ClientError
map_status code =
    if code == 507
    then ClientError.quota
    else if code == 403
    then ClientError.suspended
    else if code == 401
    then ClientError.unauthorized
    else if code == 404
    then ClientError.missing
    else ClientError.server code

-- The client reports an exceeded quota, a suspended account or a missing object exactly when the
-- service failed for that reason, and no domain error reads as an unauthorized request.
pub map_status-write_err :
    (e : Error)
    → ((map_status (write_err e) ≡ ClientError.quota) ↔ (e ≡ quota_exceeded))
      × ((map_status (write_err e) ≡ ClientError.suspended) ↔ (e ≡ not_active))
      × ((map_status (write_err e) ≡ ClientError.missing) ↔ (e ≡ not_found))
      × (map_status (write_err e) ≢ ClientError.unauthorized)
unfolding map_status write_err
map_status-write_err quota_exceeded = ground arith
map_status-write_err not_active = ground arith
map_status-write_err not_found = ground arith
map_status-write_err conflict = ground arith
map_status-write_err invalid = ground arith
map_status-write_err storage = ground arith
map_status-write_err provider = ground arith
