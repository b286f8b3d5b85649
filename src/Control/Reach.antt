-- ===== src/Control/Reach.antt =====
-- The states of the control plane, core/control/service.go, as its methods run one after the other in
-- any order. Between two steps the clock, the state file and the random bytes may be others.
use nft_soket.Base.{◌≡◌, not, ◌||◌, Option, none, some, [], ◌∷◌, ◌++◌, arith, Bool-cases, inl, inr}
use nft_soket.Base.Result.{Result-cases}
use nft_soket.Base.Int.{ℤ}
use nft_soket.Base.Text.{Text, codes, is_empty}
use nft_soket.Base.Dict.{values}
use nft_soket.Payment
use nft_soket.Payment.{Registry, Headers, Provider}
use nft_soket.Control.Model.{Money, Period, AccountStatus, Invoice, is_open}
use nft_soket.Control.Exec.{Env, State}
use nft_soket.Control.Store.{empty_snapshot, get_invoice, get_account}
use nft_soket.Control.Service.{create_plan, create_account, set_status, reserve, release}
use nft_soket.Control.Service.Billing.{Charge, run_billing}
use nft_soket.Control.Service.Settlement.{
  issue_invoice, settle, note_checkout, create_checkout, handle_webhook, enforce_delinquency,
  read_checkout, account_name,
}
use nft_soket.Control.Keyed.{
  IsKeyed, create_plan-IsKeyed, create_account-IsKeyed, set_status-IsKeyed, reserve-IsKeyed,
  release-IsKeyed,
}
use nft_soket.Control.Keyed.Billing.{
  issue_invoice-IsKeyed, settle-IsKeyed, note_checkout-IsKeyed, bill_all-IsKeyed,
  suspend_overdue-IsKeyed,
}

-- One critical section of a method. `CreateCheckout` reads in a first one and writes in a second one.
pub data Step (s : State) : State → Type 0 where
  by_create_plan :
      (env : Env) (name : Text) (quota : ℤ) (price : Money) (currency : Text) (period : Period)
      → Step s (create_plan env name quota price currency period s).1
  by_create_account :
      (env : Env) (name email plan_id : Text) → Step s (create_account env name email plan_id s).1
  by_set_status :
      (env : Env) (id : Text) (status : AccountStatus) → Step s (set_status env id status s).1
  by_reserve : (env : Env) (id : Text) (bytes : ℤ) → Step s (reserve env id bytes s).1
  by_release : (env : Env) (id : Text) (bytes : ℤ) → Step s (release env id bytes s).1
  by_run_billing : (env : Env) (charge : Charge) → Step s (run_billing env charge s).1
  by_issue_invoice : (env : Env) (id : Text) (amount : ℤ) → Step s (issue_invoice env id amount s).1
  by_settle : (env : Env) (id method : Text) → Step s (settle env id method s).1
  by_note_checkout :
      (env : Env) (id provider reference : Text)
      → Step s (note_checkout env id provider reference s).1
  by_enforce : (env : Env) (grace : ℤ) → Step s (enforce_delinquency env grace s).1

abbrev pub start : State
start = record { store = empty_snapshot; drawn = 0 }

pub data Reach : State → Type 0 where
  here : Reach start
  later : {s t : State} → Reach s → Step s t → Reach t

start-IsKeyed : IsKeyed start
start-IsKeyed = record { plans = tt; accounts = tt; usage = tt; invoices = tt; payments = tt }

Step-IsKeyed : {s t : State} → Step s t → IsKeyed s → IsKeyed t
unfolding run_billing enforce_delinquency
Step-IsKeyed {s} (by_create_plan env n q p c d) h = (create_plan-IsKeyed env s h n q p c d).here
Step-IsKeyed {s} (by_create_account env n e p) h = (create_account-IsKeyed env s h n e p).here
Step-IsKeyed {s} (by_set_status env id x) h = (set_status-IsKeyed env s h id x).here
Step-IsKeyed {s} (by_reserve env id b) h = (reserve-IsKeyed env s h id b).here
Step-IsKeyed {s} (by_release env id b) h = (release-IsKeyed env s h id b).here
Step-IsKeyed {s} (by_run_billing env charge) h =
    bill_all-IsKeyed env charge (values s.store.accounts) [] s h
Step-IsKeyed {s} (by_issue_invoice env id n) h = (issue_invoice-IsKeyed env s h id n).here
Step-IsKeyed {s} (by_settle env id m) h = (settle-IsKeyed env s h id m).here
Step-IsKeyed {s} (by_note_checkout env id p r) h = (note_checkout-IsKeyed env s h id p r).here
Step-IsKeyed {s} (by_enforce env grace) h =
    suspend_overdue-IsKeyed env _ (values s.store.accounts) s h

-- In every state that the methods reach from the empty store, whatever they were given and whether
-- they failed, each plan, account, usage, invoice and payment is stored under its own identifier,
-- and no identifier has two entries in one map.
pub Reach-IsKeyed : (s : State) → Reach s → IsKeyed s
Reach-IsKeyed s here = start-IsKeyed
Reach-IsKeyed s (later r st) = Step-IsKeyed st (Reach-IsKeyed _ r)

-- `HandleWebhook` and `CreateCheckout` are made of these steps.
handle_webhook-Reach :
    (env : Env) (reg : Option Registry) (name : Text) (headers : Headers) (body : Text) (s : State)
    → Reach s
    → Reach (handle_webhook env reg name headers body s).1
unfolding handle_webhook
handle_webhook-Reach env none name headers body s r = r
handle_webhook-Reach env (some reg) name headers body s r =
    elim (Result-cases (Payment.get name reg)) [
      | inr (e, failed) ↦ rw (failed, handle_webhook) r
      | inl (prov, known) ↦ elim (Result-cases (prov.verify_webhook headers body)) [
        | inr (e, failed) ↦ rw (known, failed, handle_webhook) r
        | inl (res, verified) ↦ elim (Bool-cases (not res.is_paid || is_empty res.invoice_id)) [
          | inl skipped ↦ rw (known, verified, skipped, handle_webhook) r
          | inr valid ↦
              let t = (settle env res.invoice_id name s).1 in
              let after : (handle_webhook env (some reg) name headers body s).1 ≡ t =
                ground (arith, known, verified, valid) in
              rw after (later r (by_settle env res.invoice_id name))
        ]
      ]
    ]

read_checkout-state : (id : Text) (s : State) → (read_checkout id s).1 ≡ s
unfolding read_checkout get_invoice account_name
read_checkout-state id s = elim (Result-cases (get_invoice id s).0) [
  | inr (e, missing) ↦ ground (arith, missing)
  | inl (i, found) ↦ elim (Bool-cases (is_open i.status)) [
    | inr closed ↦ ground (arith, found, closed)
    | inl unpaid ↦ elim (Result-cases (get_account i.account_id s).0) [
      | inr (e, missing) ↦ ground (arith, found, unpaid, missing)
      | inl (a, known) ↦ ground (arith, found, unpaid, known)
    ]
  ]
]

-- What the provider is asked for.
request : Invoice → Text → Text → Text → Payment.CheckoutRequest
request i name success cancel = record {
  invoice_id = i.id;
  account_id = i.account_id;
  amount_cents = i.amount_cents;
  currency = i.currency;
  description = codes "NFT Vault " ++ (0xE2 ∷ 0x80 ∷ 0x94 ∷ []) ++ codes " " ++ name;
  success_url = success;
  cancel_url = cancel;
}

-- `CreateCheckout` leaves a reachable state where the calls that run between its two critical sections
-- do: an interleaving of its sections with them is one of the sequences of steps.
pub create_checkout-Reach :
    (env : Env) (reg : Option Registry) (meanwhile : State → State) (id name success cancel : Text)
    (s : State)
    → ((t : State) → Reach t → Reach (meanwhile t))
    → Reach s
    → Reach (create_checkout env reg meanwhile id name success cancel s).1
unfolding create_checkout request
create_checkout-Reach env none meanwhile id name success cancel s others r = r
create_checkout-Reach env (some reg) meanwhile id name success cancel s others r =
    elim (Result-cases (Payment.get name reg)) [
      | inr (e, failed) ↦ rw (failed, create_checkout) r
      | inl (prov, known) ↦
          let same = read_checkout-state id s in
          elim (Result-cases (read_checkout id s).0) [
            | inr (e, failed) ↦
                let after : (create_checkout env (some reg) meanwhile id name success cancel s).1
                    ≡ s =
                  ground (arith, known, failed, same) in
                rw after r
            | inl (found, was_read) ↦
                let req = request found.0 found.1 success cancel in
                let t = meanwhile s in
                elim (Result-cases (prov.start_checkout req)) [
                  | inr (e, failed) ↦
                      let after : (create_checkout env (some reg) meanwhile id name success cancel
                            s).1
                          ≡ t =
                        ground (arith, known, was_read, same, failed) in
                      rw after (others s r)
                  | inl (session, started) ↦
                      let noted = note_checkout env id name session.reference t in
                      let after : (create_checkout env (some reg) meanwhile id name success cancel
                            s).1
                          ≡ noted.1 =
                        elim (Result-cases noted.0) [
                          | inl (u, done) ↦ ground (arith, known, was_read, same, started, done)
                          | inr (e, failed) ↦ ground (arith, known, was_read, same, started, failed)
                        ] in
                      rw after (later (others s r) (by_note_checkout env id name session.reference))
                ]
          ]
    ]
