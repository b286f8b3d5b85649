-- ===== src/Control/Offered.antt =====
-- What `CreateCheckout` of core/control/service.go asks the payment provider for.
use nft_soket.Base.{
  ◌≡◌, refl, ap, ◌∙◌, true, Option, none, some, ◌∷◌, [], ◌++◌, arith, Bool-cases, Option-cases, inl,
  inr,
}
use nft_soket.Base.Result.{ok, Result-cases}
use nft_soket.Base.Text.{Text, codes}
use nft_soket.Base.Dict.{lookup}
use nft_soket.Payment
use nft_soket.Payment.{Registry, Provider, CheckoutSession, CheckoutRequest}
use nft_soket.Control.Model.{Invoice, is_open}
use nft_soket.Control.Exec.{Env, State}
use nft_soket.Control.Store.{get_invoice, get_account}
use nft_soket.Control.Service.Settlement.{
  read_checkout, note_checkout, account_name, create_checkout,
}

-- The session is the answer of the registered provider of that name to a request for the invoice: for its
-- identifier, its account, its amount and its currency.
pub record IsOffered (reg : Registry) (method : Text) (inv : Invoice) (session : CheckoutSession)
    : Type 0 where
  pub prov : Provider
  pub registered : Payment.get method reg ≡ ok prov
  pub req : CheckoutRequest
  pub asked : prov.start_checkout req ≡ ok session
  pub invoice_id : req.invoice_id ≡ inv.id
  pub account_id : req.account_id ≡ inv.account_id
  pub amount_cents : req.amount_cents ≡ inv.amount_cents
  pub currency : req.currency ≡ inv.currency

read_checkout-ok :
    (id : Text) (s : State) (found : Invoice × Text)
    → (read_checkout id s).0 ≡ ok found
    → (lookup id s.store.invoices ≡ some found.0) × (is_open found.0.status ≡ true)
unfolding read_checkout get_invoice account_name
read_checkout-ok id s found e = elim (Option-cases (lookup id s.store.invoices)) [
  | inl missing ↦ absurd (ground (arith, missing, e))
  | inr (inv, there) ↦ elim (Bool-cases (is_open inv.status)) [
    | inr closed ↦ absurd (ground (arith, there, closed, e))
    | inl unpaid ↦ elim (Result-cases (get_account inv.account_id s).0) [
      | inr (x, missing) ↦ ground (arith, there, unpaid, missing, e)
      | inl (a, known) ↦ ground (arith, there, unpaid, known, e)
    ]
  ]
]

-- A checkout that succeeds was offered by the provider for the open invoice under the identifier.
pub create_checkout-IsOffered :
    (env : Env) (payments : Option Registry) (meanwhile : State → State)
    (id method success cancel : Text) (s : State) (session : CheckoutSession)
    → (create_checkout env payments meanwhile id method success cancel s).0 ≡ ok session
    → (reg : Registry) × (payments ≡ some reg)
      × (inv : Invoice) × (lookup id s.store.invoices ≡ some inv)
      × (is_open inv.status ≡ true)
      × IsOffered reg method inv session
unfolding create_checkout
create_checkout-IsOffered env none meanwhile id method success cancel s session e = cc
create_checkout-IsOffered env (some reg) meanwhile id method success cancel s session e =
    elim (Result-cases (Payment.get method reg)) [
      | inr (x, unknown) ↦ absurd (ground (arith, unknown, e))
      | inl (prov, known) ↦ elim (Result-cases (read_checkout id s).0) [
        | inr (x, failed) ↦ absurd (ground (arith, known, failed, e))
        | inl (found, was_read) ↦
            let req : CheckoutRequest = record {
              invoice_id = found.0.id;
              account_id = found.0.account_id;
              amount_cents = found.0.amount_cents;
              currency = found.0.currency;
              description = codes "NFT Vault " ++ (0xE2 ∷ 0x80 ∷ 0x94 ∷ []) ++ codes " " ++ found.1;
              success_url = success;
              cancel_url = cancel;
            } in
            elim (Result-cases (prov.start_checkout req)) [
              | inr (x, failed) ↦ absurd (ground (arith, known, was_read, failed, e))
              | inl (answer, started) ↦
                  let noted =
                    note_checkout env id method answer.reference
                      (meanwhile (read_checkout id s).1) in
                  elim (Result-cases noted.0) [
                    | inr (x, failed) ↦ absurd (ground (arith, known, was_read, started, failed, e))
                    | inl (u, done) ↦
                        let same : answer ≡ session =
                          ground (arith, known, was_read, started, done, e) in
                        let (there, unpaid) = read_checkout-ok id s found was_read in
                        (
                          reg,
                          refl,
                          found.0,
                          there,
                          unpaid,
                          record {
                            prov = prov;
                            registered = known;
                            req = req;
                            asked = started ∙ ap ok same;
                            invoice_id = refl;
                            account_id = refl;
                            amount_cents = refl;
                            currency = refl;
                          },
                        )
                  ]
            ]
      ]
    ]
