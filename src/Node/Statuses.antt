-- ===== src/Node/Statuses.antt =====
-- The statuses of core/node/server.go: no refusal reads as a success.
use nft_soket.Base.{ℕ, ◌≡◌, ◌≢◌, some, arith}
use nft_soket.Control.Api.{ClientError}
use nft_soket.Node.{Request, Server, refusal, quota_status}

pub quota_status-bounds : (e : ClientError) → (quota_status e ≢ 200) × (quota_status e ≢ 201)
unfolding quota_status
quota_status-bounds e = ground arith

pub refusal-bounds :
    (s : Server) (r : Request) (code : ℕ) → refusal s r ≡ some code → (code ≢ 200) × (code ≢ 201)
unfolding refusal
refusal-bounds s r code h = ground (arith, h)
