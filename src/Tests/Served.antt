-- ===== src/Tests/Served.antt =====
-- Runs of core/control/api.go and core/control/client.go with one account, alone and behind a node.
use nft_soket.Base.{ℕ, ◌≡◌, refl, false, Option, none, some, List, [], ◌∷◌, ◌⊎◌, if◌then◌else◌}
use nft_soket.Base.Int.{ℤ, pos, negsuc}
use nft_soket.Base.Text.{Text, codes, text_eq}
use nft_soket.Http.{Method, client_headers}
use nft_soket.Control.Exec.{State}
use nft_soket.Control.Service.{reserve, release}
use nft_soket.Control.Api.Routes.{Request, route}
use nft_soket.Control.Api.Handling.{Json, new_service, limited}
use nft_soket.Control.Api.Server.{Api, handle}
use nft_soket.Control.Api.Guards.{MayChange, caller, handle-MayChange}
use nft_soket.Control.Client as Calls
use nft_soket.Control.Client.{Client, reserve_path, release_path}
use nft_soket.Control.Client.Served.{Codec, link_to, metered, usage_path, client-metered}
use nft_soket.Tests.Offers.{env, account, start_with}

-- The account's token is "u".
abbrev pub ledger : State
ledger = record (start_with (pos 100) (pos 40)) {
  store = record (start_with (pos 100) (pos 40)).store {
    accounts = (codes "a", record account { token_hash = codes "75" }) ∷ [];
  };
}

-- A number stands for itself in one byte.
abbrev first_byte : List ℕ → Option ℤ
first_byte [] = none
first_byte (n ∷ bytes) = some (pos n)

abbrev one_byte : ℤ → List ℕ
one_byte (pos n) = n ∷ []
one_byte (negsuc n) = []

abbrev pub json : Json
json = record {
  plan_request = λ b. none;
  account_request = λ b. none;
  new_status = λ b. none;
  byte_count = λ b. first_byte b.content;
  checkout_body = λ b. none;
  grace_hours = λ b. pos 0;
  pay_method = λ b. [];
  amount_cents = λ b. pos 0;
}

abbrev pub api : Api
api = record {
  service = new_service;
  admin_token = codes "root";
  json = json;
  env = env;
  meanwhile = λ s. s;
}

abbrev pub codec : Codec
codec = record {
  encode_bytes = one_byte;
  encode_checkout = λ b. [];
  encode = λ p. [];
  decode_status = λ b. none;
  decode_invoices = λ b. none;
  decode_session = λ b. none;
}

abbrev pub segments : Text → List Text
segments path =
    if text_eq path reserve_path
    then usage_path (codes "reserve")
    else if text_eq path release_path
    then usage_path (codes "release")
    else []

pub to_reserve : segments reserve_path ≡ usage_path (codes "reserve")
unfolding text_eq
to_reserve = refl

pub to_release : segments release_path ≡ usage_path (codes "release")
unfolding text_eq
to_release = refl

abbrev pub client : Client
client = record { base_url = codes "http://c" }

client-metered_example :
    (Calls.reserve (link_to codec segments api client.base_url) client (codes "u") (pos 60) ledger
      ≡ metered env (λ id. reserve env id (pos 60)) (codes "u") ledger)
    × (Calls.release (link_to codec segments api client.base_url) client (codes "u") (pos 60) ledger
        ≡ metered env (λ id. release env id (pos 60)) (codes "u") ledger)
unfolding limited
client-metered_example =
    client-metered codec segments api client (codes "u") (pos 60) ledger to_reserve to_release refl

-- A reservation over the wire by the account's own token.
abbrev reservation : Request
reservation = record {
  method = Method.post;
  path = usage_path (codes "reserve");
  headers = client_headers (codes "u");
  body = record { content = 60 ∷ []; fails = false };
}

handle-MayChange_example :
    ((handle api reservation ledger).1 ≡ ledger)
    ⊎ MayChange api
        (client_headers (codes "u"))
        ledger
        (caller (route Method.post (usage_path (codes "reserve"))))
handle-MayChange_example = handle-MayChange api reservation ledger
