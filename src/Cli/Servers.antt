-- ===== src/Cli/Servers.antt =====
-- What core/cmd/vaultserver/main.go and core/cmd/vaultnode/main.go assemble: the payment methods, the
-- control server and the node. Listening and logging are not part of the model.
use nft_soket.Base.{Bool, true, false, not, none, if◌then◌else◌}
use nft_soket.Base.Int.{ℤ, pos}
use nft_soket.Base.Text.{Text, codes, is_empty}
use nft_soket.Base.Strings.{parse_int}
use nft_soket.Payment.{Provider, Registry, register, new_registry}
use nft_soket.Payment.Manual
use nft_soket.Payment.Stripe
use nft_soket.Payment.StripeCheckout
use nft_soket.Payment.Bitcoin
use nft_soket.Control.Exec.{Env, State}
use nft_soket.Control.Api.Handling.{Json, new_service, with_payments}
use nft_soket.Control.Api.Server.{Api}
use nft_soket.Node.{Server, new_server, use_quota}
use nft_soket.Cli.Keys.{Terminal, getenv, atoi}

-- What the three providers take from outside.
pub record Libraries : Type 0 where
  pub print_cents : ℤ → Text
  pub stripe_checkout : StripeCheckout.Library
  pub stripe : Stripe.Library
  pub bitcoin : Bitcoin.Library
  -- What strconv.Atoi returns beside an error.
  pub nearest : Text → ℤ

module _ (lib : Libraries) where
  abbrev manual_method : Text → Provider
  manual_method payee = record {
    name = codes "manual";
    start_checkout = Manual.start_checkout lib.print_cents payee;
    verify_webhook = Manual.verify_webhook;
  }

  -- The tolerance of `stripe.New` is five minutes, in nanoseconds.
  abbrev stripe_method : Text → Text → Text → Provider
  stripe_method key secret base = record {
    name = codes "stripe";
    start_checkout =
        StripeCheckout.start_checkout lib.stripe_checkout (StripeCheckout.new key base);
    verify_webhook =
        Stripe.verify_webhook lib.stripe
          (record { webhook_secret = secret; tolerance = pos 300_000_000_000 });
  }

  abbrev bitcoin_method : Text → Text → ℤ → Provider
  bitcoin_method addr secret min_conf =
      let p = Bitcoin.new (Bitcoin.static_address addr) none secret min_conf in
      record {
        name = codes "bitcoin";
        start_checkout = Bitcoin.start_checkout lib.bitcoin p;
        verify_webhook = Bitcoin.verify_webhook lib.bitcoin p;
      }

  abbrev add_if : Bool → Provider → Registry → Registry
  add_if true p reg = register p reg
  add_if false p reg = reg

  unfoldable pub build_payments : Terminal → Registry
  build_payments t =
      let key = getenv t (codes "STRIPE_SECRET_KEY") in
      let addr = getenv t (codes "BITCOIN_ADDRESS") in
      let conf = getenv t (codes "BITCOIN_MIN_CONF") in
      let with_manual =
        register (manual_method (getenv t (codes "NFTVAULT_MANUAL_PAYEE"))) new_registry in
      let with_stripe =
        add_if (not (is_empty key))
          (stripe_method key (getenv t (codes "STRIPE_WEBHOOK_SECRET"))
            (getenv t (codes "STRIPE_API_BASE")))
          with_manual in
      add_if (not (is_empty addr))
        (bitcoin_method addr (getenv t (codes "BITCOIN_WEBHOOK_SECRET"))
          (atoi lib.nearest conf (parse_int conf)))
        with_stripe

  -- The API that `main` of vaultserver serves.
  unfoldable pub control_server : Terminal → Json → Env → (State → State) → Api
  unfolding build_payments
  control_server t json env meanwhile = record {
    service = with_payments (build_payments t) new_service;
    admin_token = getenv t (codes "NFTVAULT_ADMIN_TOKEN");
    json = json;
    env = env;
    meanwhile = meanwhile;
  }

-- The server that `main` of vaultnode serves, with the value of its flag -control.
unfoldable pub node_server : Terminal → Text → Server
node_server t control_url =
    let s = new_server (getenv t (codes "NFTVAULT_NODE_TOKEN")) in
    if not (is_empty control_url) then use_quota s else s
