-- ===== src/Control/Api/Ownership.antt =====
-- Whose invoices a checkout of core/control/api.go can pay.
use mathlib.Core.Option.{some-injective}
use nft_soket.Base.{
  ◌≡◌, ◌≢◌, ◌⊎◌, refl, sym, ap, ◌∙◌, true, false, some, List, [], ◌∷◌, ◌||◌, subst, arith,
  Bool-cases, Option-cases, inl, inr,
}
use nft_soket.Base.Result.{ok, Result-cases}
use nft_soket.Base.Text.{Text, text_eq, eq_of_text_eq, is_empty}
use nft_soket.Base.Dict.{Dict, lookup, values}
use nft_soket.Http.{Body, bearer}
use nft_soket.Payment.{Registry, CheckoutSession}
use nft_soket.Control.Model.{Account, Invoice, Error, is_open}
use nft_soket.Control.Exec.{State}
use nft_soket.Control.Store.{list_invoices, invoices_of}
use nft_soket.Control.Service.{authenticate}
use nft_soket.Control.Service.Settlement.{create_checkout}
use nft_soket.Control.Offered.{IsOffered, create_checkout-IsOffered}
use nft_soket.Control.Keyed.{IsKeyed, IsKeyedBy, Absent}
use nft_soket.Control.Api.{write_err}
use nft_soket.Control.Api.Handling.{CheckoutBody, limited, write_json}
use nft_soket.Control.Api.Routes.{Route, Request, route, session}
use nft_soket.Control.Api.Accounts
use nft_soket.Control.Api.Accounts.{owns}
use nft_soket.Control.Api.Server.{Api, handle, dispatch, account}
use nft_soket.Control.Api.Guards.{authenticate-cases}

-- An invoice that is stored under the identifier and belongs to the account; an account without an
-- identifier, which lists all invoices, owns them all.
abbrev pub Owned : Text → Text → Dict Invoice → Type 0
Owned owner id m =
    (inv : Invoice) × (lookup id m ≡ some inv) × ((owner ≡ []) ⊎ (inv.account_id ≡ owner))

Owned-cons :
    (owner id k : Text) (v : Invoice) (m : Dict Invoice)
    → text_eq k id ≡ false
    → Owned owner id m
    → Owned owner id ((k, v) ∷ m)
unfolding lookup
Owned-cons owner id k v m other (inv, found, mine) = (inv, ground (arith, other, found), mine)

empty_of : (t : Text) → is_empty t ≡ true → t ≡ []
empty_of [] h = refl
empty_of (c ∷ t) h = cc

-- The listed invoice is the one that `owns` looks for, or the search goes on.
owns-cons :
    (owner id : Text) (v : Invoice) (invoices : List Invoice)
    → owns id (invoices_of owner (v ∷ invoices)) ≡ true
    → ((text_eq v.id id ≡ true) × ((owner ≡ []) ⊎ (v.account_id ≡ owner)))
      ⊎ (owns id (invoices_of owner invoices) ≡ true)
unfolding owns invoices_of
owns-cons owner id v invoices e = elim (Bool-cases (is_empty owner || text_eq v.account_id owner)) [
  | inr left_out ↦ inr (ground (arith, left_out, e))
  | inl listed ↦ elim (Bool-cases (text_eq v.id id)) [
    | inr other ↦ inr (ground (arith, listed, other, e))
    | inl same ↦ inl (
      same,
      elim (Bool-cases (is_empty owner)) [
        | inl all ↦ inl (empty_of owner all)
        | inr some_owner ↦
            inr (eq_of_text_eq v.account_id owner (ground (arith, listed, some_owner)))
      ],
    )
  ]
]

owns-Absent :
    (owner id : Text) (m : Dict Invoice)
    → IsKeyedBy (λ (i : Invoice). i.id) m
    → Absent id m
    → owns id (invoices_of owner (values m)) ≡ true
    → ⊥
unfolding owns invoices_of
owns-Absent owner id [] h a e = cc
owns-Absent owner id ((k, v) ∷ m) h a e = elim (owns-cons owner id v (values m) e) [
  | inl (same, mine) ↦ ground (arith, same, a.0, h.0)
  | inr rest ↦ owns-Absent owner id m h.2 a.1 rest
]

owns-Owned :
    (owner id : Text) (m : Dict Invoice)
    → IsKeyedBy (λ (i : Invoice). i.id) m
    → owns id (invoices_of owner (values m)) ≡ true
    → Owned owner id m
unfolding owns invoices_of lookup
owns-Owned owner id [] h e = cc
owns-Owned owner id ((k, v) ∷ m) h e = elim (owns-cons owner id v (values m) e) [
  | inl (same, mine) ↦ (v, ground (arith, same, h.0), mine)
  | inr rest ↦ elim (Bool-cases (text_eq k id)) [
    | inr other ↦ Owned-cons owner id k v m other (owns-Owned owner id m h.2 rest)
    | inl same ↦
        absurd
          (owns-Absent owner id m h.2 (subst (λ j. Absent j m) (eq_of_text_eq k id same) h.1) rest)
  ]
]

-- What is paid by the checkout that the account asked for: the open invoice stored under the identifier of the
-- path, which is the account's, through the provider that the body names. An account without an identifier, which
-- lists all invoices, owns them all.
pub record IsCheckout (api : Api) (r : Request) (id : Text) (acc : Account) (s : State)
    : Type 0 where
  pub body : CheckoutBody
  pub decoded : api.json.checkout_body (limited r.body) ≡ some body
  pub reg : Registry
  pub enabled : api.service.payments ≡ some reg
  pub inv : Invoice
  pub stored : lookup id s.store.invoices ≡ some inv
  pub owned : (acc.id ≡ []) ⊎ (inv.account_id ≡ acc.id)
  pub unpaid : is_open inv.status ≡ true
  pub paying : CheckoutSession
  pub offered : IsOffered reg body.provider inv paying
  pub answered : (handle api r s).0 ≡ write_json 201 (session paying)

write_err-ne : (e : Error) → write_err e ≢ 201
unfolding write_err
write_err-ne Error.not_found h = omega (arith, h)
write_err-ne Error.quota_exceeded h = omega (arith, h)
write_err-ne Error.not_active h = omega (arith, h)
write_err-ne Error.conflict h = omega (arith, h)
write_err-ne Error.invalid h = omega (arith, h)
write_err-ne Error.storage h = omega (arith, h)
write_err-ne Error.provider h = omega (arith, h)

-- A checkout of an owned invoice that is answered with 201.
checkout-created :
    (api : Api) (acc : Account) (id : Text) (b : Body) (s : State)
    → owns id (list_invoices acc.id s.store) ≡ true
    → (Accounts.checkout api.json api.env api.service api.meanwhile acc id b s).0.status ≡ 201
    → (body : CheckoutBody) × (api.json.checkout_body (limited b) ≡ some body)
      × (sess : CheckoutSession) × ((create_checkout api.env api.service.payments api.meanwhile id
            body.provider body.success_url body.cancel_url s).0
          ≡ ok sess)
      × ((Accounts.checkout api.json api.env api.service api.meanwhile acc id b s).0
          ≡ write_json 201 (session sess))
unfolding Accounts.checkout
checkout-created api acc id b s mine created =
    elim (Option-cases (api.json.checkout_body (limited b))) [
      | inl undecoded ↦ absurd (ground (arith, mine, undecoded, created))
      | inr (body, decoded) ↦
          let run =
            create_checkout api.env api.service.payments api.meanwhile id body.provider
              body.success_url body.cancel_url s in
          elim (Result-cases run.0) [
            | inl (sess, done) ↦ (body, decoded, sess, done, ground (arith, mine, decoded, done))
            | inr (e, failed) ↦
                absurd (write_err-ne e (ground (arith, mine, decoded, failed, created)))
          ]
    ]

-- The request comes to the handler of the account, and an invoice of another account is not found.
via_checkout :
    (api : Api) (r : Request) (id : Text) (acc : Account) (s : State)
    → route r.method r.path ≡ Route.checkout id
    → authenticate api.env (bearer r.headers) s ≡ (ok acc, s)
    → (handle api r s).0.status ≡ 201
    → (handle api r s).0
      ≡ (Accounts.checkout api.json api.env api.service api.meanwhile acc id r.body s).0
unfolding handle dispatch account
via_checkout api r id acc s to found created = ground (arith, to, found, created)

foreign_checkout :
    (api : Api) (acc : Account) (id : Text) (b : Body) (s : State)
    → owns id (list_invoices acc.id s.store) ≡ false
    → (Accounts.checkout api.json api.env api.service api.meanwhile acc id b s).0.status ≢ 201
unfolding Accounts.checkout
foreign_checkout api acc id b s foreign created = ground (arith, foreign, created)

-- A checkout that is answered with 201 was asked for by the owner of the token, and the answer is the session that
-- the enabled provider named in the body made for the open invoice stored under the identifier of the path: the
-- provider was asked for the identifier, account, amount and currency of this invoice, which belongs to that
-- account; only an account with an empty identifier could pay all invoices. Each map of the state is keyed by its
-- entries.
pub handle-Owned :
    (api : Api) (r : Request) (id : Text) (s : State)
    → IsKeyed s
    → route r.method r.path ≡ Route.checkout id
    → (handle api r s).0.status ≡ 201
    → (acc : Account) × (authenticate api.env (bearer r.headers) s ≡ (ok acc, s))
      × IsCheckout api r id acc s
unfolding handle dispatch account list_invoices
handle-Owned api r id s h to created = elim (authenticate-cases api.env (bearer r.headers) s) [
  | inr (e, failed) ↦ absurd (ground (arith, to, failed, created))
  | inl (acc, found) ↦
      let run : (handle api r s).0
          ≡ (Accounts.checkout api.json api.env api.service api.meanwhile acc id r.body s).0 =
        via_checkout api r id acc s to found created in
      elim (Bool-cases (owns id (invoices_of acc.id (values s.store.invoices)))) [
        | inr foreign ↦
            absurd (
              foreign_checkout api acc id r.body s foreign (ap (λ x. x.status) (sym run) ∙ created))
        | inl mine ↦
            let (body, decoded, sess, done, answer) =
              checkout-created api acc id r.body s mine (ap (λ x. x.status) (sym run) ∙ created) in
            let (reg, enabled, inv, there, unpaid, offered) =
              create_checkout-IsOffered api.env api.service.payments api.meanwhile id body.provider
                body.success_url body.cancel_url s sess done in
            let (inv', there', own) = owns-Owned acc.id id s.store.invoices h.invoices mine in
            (
              acc,
              found,
              record {
                body = body;
                decoded = decoded;
                reg = reg;
                enabled = enabled;
                inv = inv;
                stored = there;
                owned =
                    subst (λ (i : Invoice). (acc.id ≡ []) ⊎ (i.account_id ≡ acc.id))
                      (some-injective inv' inv (sym there' ∙ there)) own;
                unpaid = unpaid;
                paying = sess;
                offered = offered;
                answered = run ∙ answer;
              },
            )
      ]
]
