-- ===== src/Control/Settling.antt =====
-- What settling an invoice does: `settleLocked` and `HandleWebhook` of core/control/service.go.
pub mod Reactivation
use nft_soket.Base.{
  ◌+◌, ◌++◌, ◌≡◌, refl, ap, ◌∙◌, subst, true, false, not, ◌||◌, some, arith, Bool-cases, inl, inr,
}
use nft_soket.Base.Result.{ok, err, Result-cases}
use nft_soket.Base.Int.{is_zero_ℤ}
use nft_soket.Base.Text.{Text, codes, text_eq_refl, is_empty}
use nft_soket.Base.Hex.{hex_encode}
use nft_soket.Base.Dict.{Dict, lookup, insert, lookup-insert}
use nft_soket.Payment
use nft_soket.Payment.{Headers, Registry, Provider, WebhookResult}
use nft_soket.Control.Model.{
  Invoice, InvoiceStatus, Payment, storage, invalid, is_open, is_suspended,
}
use nft_soket.Control.Exec.{Env, State, Snapshot}
use nft_soket.Control.Store.{
  get_account, get_invoice, save_account, save_invoice, save_payment, persist,
}
use nft_soket.Control.Service.{rand_id}
use nft_soket.Control.Service.Billing.{outstanding}
use nft_soket.Control.Service.Settlement.{settle, reactivate, handle_webhook}

pub lookup_new : {A : Type 0} (k : Text) (a : A) (d : Dict A) → lookup k (insert k a d) ≡ some a
lookup_new k a d = lookup-insert k k a d ∙ rw (text_eq_refl k)

-- Reactivation touches accounts only.
pub reactivate_keeps :
    (env : Env) (id : Text) (s : State)
    → ((reactivate env id s).0 ≡ ok tt)
      × ((reactivate env id s).1.store.invoices ≡ s.store.invoices)
      × ((reactivate env id s).1.store.payments ≡ s.store.payments)
unfolding reactivate save_account
reactivate_keeps env id s = elim (Result-cases (get_account id s).0) [
  | inr (e, missing) ↦ rw (missing, reactivate) (refl, refl, refl)
  | inl (a, found) ↦ elim (Bool-cases (is_suspended a.status)) [
    | inl yes_suspended ↦ ground (arith, found, yes_suspended)
    | inr not_suspended ↦ ground (arith, found, not_suspended)
  ]
]

-- What a settlement promises: the invoice is paid and otherwise the same, and a payment of its amount
-- is recorded under the payment's identifier.
pub record IsSettled (env : Env) (inv : Invoice) (method : Text) (pay : Payment) (t : State)
    : Type 0 where
  pub marked :
      lookup inv.id t.store.invoices
      ≡ some (record inv { status = InvoiceStatus.paid; paid_at = some env.now })
  pub recorded : lookup pay.id t.store.payments ≡ some pay
  pub amount : pay.amount_cents ≡ inv.amount_cents
  pub invoice : pay.invoice_id ≡ inv.id
  pub by : pay.method ≡ method

unfoldable pub paid_now : Env → Invoice → Invoice
paid_now env inv = record inv { status = InvoiceStatus.paid; paid_at = some env.now }

-- The state with the invoice marked, and the one with the payment recorded.
unfoldable pub marked_state : Env → Invoice → State → State
unfolding paid_now
marked_state env inv s = record s {
  store = record s.store { invoices = insert inv.id (paid_now env inv) s.store.invoices };
}

unfoldable pub new_payment : Env → Invoice → Text → State → Payment
unfolding rand_id marked_state paid_now
new_payment env inv method s = record {
  id = codes "pay" ++ codes "_" ++ hex_encode (env.random s.drawn);
  account_id = inv.account_id;
  invoice_id = inv.id;
  amount_cents = inv.amount_cents;
  method = method;
  created_at = env.now;
}

unfoldable pub paid_state : Env → Invoice → Payment → State → State
unfolding marked_state paid_now
paid_state env inv pay s = record {
  store = record s.store {
    invoices = insert inv.id (paid_now env inv) s.store.invoices;
    payments = insert pay.id pay s.store.payments;
  };
  drawn = s.drawn + 1;
}

settle-writes :
    (env : Env) (id method : Text) (s t : State) (inv : Invoice) (pay : Payment)
    → lookup id s.store.invoices ≡ some inv
    → settle env id method s ≡ (ok pay, t)
    → (is_open inv.status ≡ true)
      × (t.store.invoices ≡ insert inv.id (paid_now env inv) s.store.invoices)
      × (t.store.payments ≡ insert pay.id pay s.store.payments)
      × (pay.amount_cents ≡ inv.amount_cents)
      × (pay.invoice_id ≡ inv.id)
      × (pay.method ≡ method)
unfolding settle get_invoice save_invoice save_payment persist paid_now rand_id marked_state
    new_payment paid_state
settle-writes env id method s t inv pay found e = elim (Bool-cases (is_open inv.status)) [
  | inr closed ↦ absurd (ground (arith, found, closed, e))
  | inl is_unpaid ↦ elim (Bool-cases (env.writable (marked_state env inv s).store)) [
    | inr failed ↦ absurd (ground (arith, found, is_unpaid, failed, e))
    | inl written ↦
        let pay' : Payment = new_payment env inv method s in
        let s' : State = paid_state env inv pay' s in
        elim (Bool-cases (env.writable s'.store)) [
          | inr failed ↦ absurd (ground (arith, found, is_unpaid, written, failed, e))
          | inl written' ↦ elim (Bool-cases (is_zero_ℤ (outstanding inv.account_id s'.store))) [
            | inl clear ↦ ground (
              arith,
              found,
              is_unpaid,
              written,
              written',
              clear,
              e,
              reactivate_keeps env inv.account_id s',
            )
            | inr owing ↦ ground (arith, found, is_unpaid, written, written', owing, e)
          ]
        ]
  ]
]

-- Settling succeeds only for an open invoice. Then the invoice, under its identifier, is paid as of
-- now and otherwise the same, and a payment of its amount by the given method is recorded.
pub settle-ok :
    (env : Env) (id method : Text) (s t : State) (inv : Invoice) (pay : Payment)
    → lookup id s.store.invoices ≡ some inv
    → settle env id method s ≡ (ok pay, t)
    → (is_open inv.status ≡ true) × IsSettled env inv method pay t
unfolding paid_now
settle-ok env id method s t inv pay found e =
    let w = settle-writes env id method s t inv pay found e in
    (
      w.0,
      record {
        marked = ap (lookup inv.id) w.1 ∙ lookup_new inv.id (paid_now env inv) s.store.invoices;
        recorded = ap (lookup pay.id) w.2 ∙ lookup_new pay.id pay s.store.payments;
        amount = w.3;
        invoice = w.4;
        by = w.5;
      },
    )

settle-paid :
    (env : Env) (id method : Text) (t : State) (inv : Invoice)
    → lookup id t.store.invoices ≡ some (paid_now env inv)
    → settle env id method t ≡ (err invalid, t)
unfolding settle get_invoice paid_now
settle-paid env id method t inv found = ground (arith, found)

-- A settled invoice is not settled again: where an invoice is stored under its own identifier, a
-- second settlement is refused as invalid and changes nothing.
pub settle-twice :
    (env : Env) (id method again : Text) (s t : State) (inv : Invoice) (pay : Payment)
    → lookup id s.store.invoices ≡ some inv
    → inv.id ≡ id
    → settle env id method s ≡ (ok pay, t)
    → settle env id again t ≡ (err invalid, t)
unfolding paid_now
settle-twice env id method again s t inv pay found same e = settle-paid env id again t inv (
    subst (λ (k : Text). lookup k t.store.invoices ≡ some (paid_now env inv)) same
      (settle-ok env id method s t inv pay found e).1.marked)

-- Where the state file cannot be written, settling an open invoice, which is stored under its own identifier,
-- reports the storage error, but the invoice is paid in memory as of now and otherwise the same, and no payment
-- is recorded; a retry is refused as invalid.
pub settle-unwritable :
    (env : Env) (id method : Text) (s : State) (inv : Invoice)
    → lookup id s.store.invoices ≡ some inv
    → inv.id ≡ id
    → is_open inv.status ≡ true
    → ((st : Snapshot) → env.writable st ≡ false)
    → (t : State) × (settle env id method s ≡ (err storage, t))
      × (settle env id method t ≡ (err invalid, t))
      × (lookup id t.store.invoices
          ≡ some (record inv { status = InvoiceStatus.paid; paid_at = some env.now }))
      × (t.store.payments ≡ s.store.payments)
unfolding settle get_invoice save_invoice persist paid_now marked_state
settle-unwritable env id method s inv found same is_unpaid w =
    let t = marked_state env inv s in
    let marked =
      subst (λ (k : Text). lookup k t.store.invoices ≡ some (paid_now env inv)) same
        (lookup_new inv.id (paid_now env inv) s.store.invoices) in
    (
      t,
      ground (arith, found, is_unpaid, w t.store),
      settle-paid env id method t inv marked,
      marked,
      refl,
    )

-- A webhook that the provider delivers again after it settled an invoice, which is stored under its
-- own identifier, settles nothing and changes nothing.
pub handle_webhook-twice :
    (env : Env) (reg : Registry) (prov : Provider) (name : Text) (headers : Headers) (body : Text)
    (res : WebhookResult) (inv : Invoice) (s t : State)
    → Payment.get name reg ≡ ok prov
    → prov.verify_webhook headers body ≡ ok res
    → lookup res.invoice_id s.store.invoices ≡ some inv
    → inv.id ≡ res.invoice_id
    → handle_webhook env (some reg) name headers body s ≡ (ok true, t)
    → handle_webhook env (some reg) name headers body t ≡ (ok false, t)
unfolding handle_webhook
handle_webhook-twice env reg prov name headers body res inv s t known verified found same e =
    elim (Bool-cases (not res.is_paid || is_empty res.invoice_id)) [
      | inl skipped ↦ absurd (ground (arith, known, verified, skipped, e))
      | inr valid ↦ elim (Result-cases (settle env res.invoice_id name s).0) [
        | inl (pay, done) ↦
            let run : settle env res.invoice_id name s ≡ (ok pay, t) =
              ground (arith, known, verified, valid, done, e) in
            let twice = settle-twice env res.invoice_id name name s t inv pay found same run in
            ground (arith, known, verified, valid, twice)
        | inr (x, failed) ↦ absurd (ground (arith, known, verified, valid, failed, e))
      ]
    ]
