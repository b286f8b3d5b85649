-- ===== src/Tests/Metered.antt =====
-- A run of core/node/server.go with the control server as its quota.
use nft_soket.Base.{◌≡◌, refl, true, false, [], Bool-cases, inl, inr, arith}
use nft_soket.Base.Result.{ok}
use nft_soket.Base.Int.{pos, InInt64, ◌+ℤ◌, add64, wrap64}
use nft_soket.Base.Text.{codes, text_eq, after_prefix}
use nft_soket.Base.Strings.{trim_space, trim_left, is_space}
use nft_soket.Base.Hex.{hex_encode, hex_digit}
use nft_soket.Base.Dict.{lookup, insert}
use nft_soket.Http.{Method, bearer, client_headers}
use nft_soket.Cas.{address}
use nft_soket.Control.Model.{Plan, Account}
use nft_soket.Control.Store.{
  get_account, get_plan, get_usage, save_usage, persist, get_account_by_token_hash, find_by_hash,
}
use nft_soket.Control.Service.{authenticate, hash_token, charged_usage}
use nft_soket.Control.Service as Methods
use nft_soket.Control.Service.Billing.{status}
use nft_soket.Control.Space.{used, IsReservation}
use nft_soket.Control.Api.Handling.{limited}
use nft_soket.Control.Api.Routes as Routes
use nft_soket.Control.Api.Accounts
use nft_soket.Control.Api.Server as Api
use nft_soket.Control.Client as Calls
use nft_soket.Control.Client.Served.{link_to}
use nft_soket.Node.{
  Route, Request, Server, Store, new_server, refusal, authorized, handle, serve, put_block,
  charge_block, write_block,
}
use nft_soket.Node.Metered.{control_quota, handle-IsReservation}
use nft_soket.Tests.Storage.{memory, same, block, block_addr}
use nft_soket.Tests.Served.{api, codec, segments, client, ledger, to_reserve, to_release}

abbrev node : Server
node = record (new_server []) { with_quota = true }

abbrev upload : Request
upload = record {
  method = Method.put;
  route = Route.block block_addr;
  headers = client_headers (codes "u");
  body = record { content = block; fails = false };
}

abbrev Both : Type 0
Both = Store memory (control_quota (link_to codec segments api client.base_url) client) same

abbrev before : Both
before = ([], ledger)

abbrev after : Both
after =
    (handle memory (control_quota (link_to codec segments api client.base_url) client) same node
      upload before).1

upload-handle :
    handle memory
      (control_quota (link_to codec segments api client.base_url) client)
      same
      node
      upload
      before
    ≡ (record { status = 201; body = [] }, after)
unfolding handle refusal authorized bearer serve put_block charge_block write_block address
    hex_encode hex_digit lookup insert text_eq after_prefix Calls.reserve Calls.req client_headers
    Api.handle Api.dispatch Api.account Routes.route Routes.find_route Routes.match_path
    Routes.serves Accounts.reserve limited authenticate hash_token trim_space trim_left is_space
    get_account_by_token_hash find_by_hash Methods.reserve get_account get_plan get_usage save_usage
    persist add64 wrap64 ◌+ℤ◌ status charged_usage
upload-handle = refl

small : (acc : Account) → InInt64 (used acc.id ledger +ℤ pos 2)
unfolding get_usage lookup ◌+ℤ◌
small acc = elim (Bool-cases (text_eq (codes "a") acc.id)) [
  | inl own ↦ ground (arith, own)
  | inr other ↦ ground (arith, other)
]

handle-IsReservation_example :
    (acc : Account) × (authenticate api.env (codes "u") ledger ≡ (ok acc, ledger))
    × (a : Account) × (plan : Plan) × IsReservation acc.id (pos 2) ledger after.1 a plan
unfolding bearer client_headers limited lookup after_prefix text_eq
handle-IsReservation_example =
    handle-IsReservation memory same codec segments api client node upload block_addr before after
      [] to_reserve to_release refl small refl refl refl refl upload-handle
