-- ===== src/Tests/Network.antt =====
-- Runs of core/node/server.go and core/node/client.go over a backend in memory.
use nft_soket.Base.{ℕ, suc, ◌≡◌, refl, true, false, Option, none, some, [], ◌∷◌, if◌then◌else◌}
use nft_soket.Base.Result.{ok, err, map_err}
use nft_soket.Base.Text.{Text, codes, text_eq, after_prefix}
use nft_soket.Base.Hex.{hex_encode, hex_digit}
use nft_soket.Base.Dict.{lookup, insert}
use nft_soket.Http.{Method, Headers, bearer}
use nft_soket.Cas.{Backend, failure, address}
use nft_soket.Cas.Replication.{IsLawful}
use nft_soket.Node.{
  Route, Request, Quota, Server, Store, new_server, refusal, authorized, handle, serve, put_block,
  charge_block, write_block,
}
use nft_soket.Node.Client.{Wire, RemoteBackend, remote, url}
use nft_soket.Node.Wire.{wire_to}
use nft_soket.Node.Remote.{remote-IsLawful, get-remote}
use nft_soket.Node.Admission.{IsAdmitted, handle-IsAdmitted}
use nft_soket.Tests.Storage.{memory, memory-IsLawful, same, block, block_addr}

-- A ledger that counts the reservations.
abbrev pub counter : Quota
counter = record { Ledger = ℕ; reserve = λ token bytes n. (ok tt, suc n) }

abbrev pub server : Server
server = new_server (codes "t")

abbrev pub point : RemoteBackend
point = record { name = codes "n"; base_url = codes "http://n"; token = codes "t" }

abbrev to_route : Option Text → Route
to_route none = Route.nowhere
to_route (some addr) = Route.block addr

abbrev pub escape : Text → Text
escape addr = addr

abbrev pub route : Text → Route
route path = to_route (after_prefix (codes "http://n/v1/block/") path)

pub routed :
    (addr : Text)
    → route (url (wire_to memory counter same server escape route) point addr) ≡ Route.block addr
unfolding url after_prefix
routed addr = refl

abbrev pub wire : Wire
wire = wire_to memory counter same server escape route

remote-IsLawful_example : IsLawful (remote wire point) (λ addr t. lookup addr t.0)
remote-IsLawful_example =
    remote-IsLawful memory counter same server point escape route routed lookup memory-IsLawful

abbrev held : Store memory counter same
held = ((block_addr, block) ∷ [], 0)

get-remote_example :
    ((remote wire point).get block_addr held ≡ ((memory.get block_addr held.0).0, held))
    × ((remote wire point).has block_addr held
        ≡ (map_err (λ e. failure) (memory.has block_addr held.0).0, held))
unfolding lookup text_eq
get-remote_example =
    get-remote memory counter same server point escape route block_addr held (routed block_addr)
      refl refl

-- A node in quota mode that is given a new block with a token.
abbrev metering : Server
metering = record server { with_quota = true }

abbrev headers : Headers
headers name = if text_eq name (codes "Authorization") then codes "Bearer u" else []

abbrev upload : Request
upload = record {
  method = Method.put;
  route = Route.block block_addr;
  headers = headers;
  body = record { content = block; fails = false };
}

abbrev empty : Store memory counter same
empty = ([], 0)

upload-handle :
    handle memory counter same metering upload empty
    ≡ (record { status = 201; body = [] }, ((block_addr, block) ∷ [], 1))
unfolding handle refusal authorized bearer serve put_block charge_block write_block address
    hex_encode hex_digit lookup insert text_eq after_prefix
upload-handle = refl

handle-IsAdmitted_example :
    IsAdmitted memory counter same metering upload block_addr empty ((block_addr, block) ∷ [], 1)
handle-IsAdmitted_example =
    handle-IsAdmitted memory counter same metering upload block_addr empty
      ((block_addr, block) ∷ [], 1) [] refl refl upload-handle

-- A backend whose disk is full.
abbrev full : Backend
full = record memory { put = λ addr bytes d. (err failure, d) }

block-address : address same block ≡ block_addr
unfolding address hex_encode hex_digit
block-address = refl
