-- ===== src/Tests/Owned.antt =====
-- A run of the checkout of core/control/api.go by the owner of the one invoice.
use nft_soket.Base.{◌≡◌, refl, false, some, [], ◌∷◌}
use nft_soket.Base.Result.{ok}
use nft_soket.Base.Text.{codes, text_eq, after_prefix}
use nft_soket.Base.Strings.{trim_space, trim_left, is_space}
use nft_soket.Base.Hex.{hex_encode, hex_digit}
use nft_soket.Base.Dict.{lookup, insert}
use nft_soket.Http.{Method, bearer, client_headers}
use nft_soket.Payment
use nft_soket.Payment.Manual
use nft_soket.Control.Model.{Account}
use nft_soket.Control.Keyed.{IsKeyed}
use nft_soket.Control.Store.{
  get_account, get_account_by_token_hash, find_by_hash, list_invoices, invoices_of, get_invoice,
  save_invoice, persist,
}
use nft_soket.Control.Service.{authenticate, hash_token}
use nft_soket.Control.Service.Settlement.{
  create_checkout, read_checkout, note_checkout, account_name,
}
use nft_soket.Control.Api.Routes as Routes
use nft_soket.Control.Api.Routes.{Request}
use nft_soket.Control.Api.Handling.{limited, new_service, with_payments}
use nft_soket.Control.Api.Accounts
use nft_soket.Control.Api.Server.{Api, handle, dispatch, account}
use nft_soket.Control.Api.Ownership.{IsCheckout, handle-Owned}
use nft_soket.Tests.Reached.{registry}
use nft_soket.Tests.Served.{api, json, ledger}

abbrev paid_api : Api
paid_api = record api {
  service = with_payments registry new_service;
  json = record json {
    checkout_body =
        λ b. some (record { provider = codes "manual"; success_url = []; cancel_url = [] });
  };
}

abbrev checkout : Request
checkout = record {
  method = Method.post;
  path = codes "v1" ∷ codes "account" ∷ codes "invoices" ∷ codes "i" ∷ codes "checkout" ∷ [];
  headers = client_headers (codes "u");
  body = record { content = []; fails = false };
}

ledger-IsKeyed : IsKeyed ledger
unfolding text_eq
ledger-IsKeyed = record {
  plans = (refl, tt, tt);
  accounts = (refl, tt, tt);
  usage = (refl, tt, tt);
  invoices = (refl, tt, tt);
  payments = tt;
}

created : (handle paid_api checkout ledger).0.status ≡ 201
unfolding handle dispatch account Routes.route Routes.find_route Routes.match_path Routes.serves
    Accounts.checkout Accounts.owns limited authenticate hash_token trim_space trim_left is_space
    hex_encode hex_digit get_account_by_token_hash find_by_hash list_invoices invoices_of
    create_checkout read_checkout note_checkout account_name get_account get_invoice save_invoice
    persist lookup insert text_eq after_prefix bearer client_headers Payment.get
    Manual.start_checkout
created = refl

handle-Owned_example :
    (acc : Account) × (authenticate paid_api.env (bearer checkout.headers) ledger
      ≡ (ok acc, ledger))
    × IsCheckout paid_api checkout (codes "i") acc ledger
unfolding Routes.route Routes.find_route Routes.match_path Routes.serves text_eq
handle-Owned_example = handle-Owned paid_api checkout (codes "i") ledger ledger-IsKeyed refl created
