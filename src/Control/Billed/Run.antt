-- ===== src/Control/Billed/Run.antt =====
-- The loop of `RunBilling` of core/control/service.go over all accounts.
use nft_soket.Base.{
  ◌≡◌, refl, sym, ap, ◌∙◌, none, some, List, [], ◌∷◌, ◌++◌, append_assoc, append-nil, map, arith,
  Bool-cases, Option-cases, inl, inr,
}
use nft_soket.Base.Int.{ltb_ℤ}
use nft_soket.Base.Text.{Text}
use nft_soket.Base.Dict.{Dict, insert, lookup, values}
use nft_soket.Control.Model.{Account, Invoice, is_closed}
use nft_soket.Control.Exec.{Env, State}
use nft_soket.Control.Store.{save_account, get_plan, persist}
use nft_soket.Control.Service.Billing.{
  Charge, Issued, issue_period, next_period, bill_account, bill_all, run_billing,
}
use nft_soket.Control.Keyed.{IsKeyed, IsKeyedBy, Absent}
use nft_soket.Control.Overdue.{insert-middle, Apart, Apart-next, Apart-nil, map_values}
use nft_soket.Control.Billed.{
  Due, charged_by, due_plan, dues_on, advanced_on, billed, dues, IsWritable, saved,
  issue_period-Issues,
}

-- What a run issued and stored besides the invoices that were there, with the accounts that it leaves.
pub record Bills (due : List Due) (left : Dict Account) (before : Dict Invoice) (s : State)
    (out : Issued × State) : Type 0 where
  pub charged : map charged_by out.0.0 ≡ due
  pub stored : out.1.store.invoices ≡ saved out.0.0 before
  pub ended : out.0.1 ≡ none
  pub accounts : out.1.store.accounts ≡ left
  pub plans : out.1.store.plans ≡ s.store.plans
  pub usage : out.1.store.usage ≡ s.store.usage

bill_account-Bills :
    (env : Env) (charge : Charge) (k : Text) (a : Account) (done rest : Dict Account) (s : State)
    → IsWritable env
    → s.store.accounts ≡ done ++ (k, a) ∷ rest
    → a.id ≡ k
    → Absent k done
    → Bills
        (dues_on env s.store.plans a (due_plan env s.store.plans a))
        (done ++ (k, billed env s.store.plans a) ∷ rest)
        s.store.invoices
        s
        (bill_account env charge a s)
unfolding bill_account get_plan save_account persist next_period
bill_account-Bills env charge k a done rest s w e same absent =
    let unchanged : due_plan env s.store.plans a ≡ none
        → bill_account env charge a s ≡ (([], none), s)
        → Bills (dues_on env s.store.plans a (due_plan env s.store.plans a))
            (done ++ (k, billed env s.store.plans a) ∷ rest) s.store.invoices s
            (bill_account env charge a s) =
      λ no_plan skipped. record {
        charged = ground (arith, no_plan, skipped);
        stored = ground (arith, skipped);
        ended = ground (arith, skipped);
        accounts =
            ap (λ x. x.1.store.accounts) skipped
            ∙ e
            ∙ ap (λ p. done ++ (k, advanced_on env s.store.plans a p) ∷ rest) (sym no_plan);
        plans = ground (arith, skipped);
        usage = ground (arith, skipped);
      } in
    elim (Bool-cases (is_closed a.status)) [
      | inl closed ↦ unchanged (ground (arith, closed)) (ground (arith, closed))
      | inr not_closed ↦ elim (Bool-cases (ltb_ℤ env.now a.period_end)) [
        | inl early ↦
            unchanged (ground (arith, not_closed, early)) (ground (arith, not_closed, early))
        | inr over ↦ elim (Option-cases (lookup a.plan_id s.store.plans)) [
          | inl missing ↦
              unchanged (ground (arith, not_closed, over, missing))
                (ground (arith, not_closed, over, missing))
          | inr (plan, found) ↦
              let p = issue_period-Issues env charge a plan s w in
              let t = (issue_period env charge a plan s).1 in
              let a' = next_period env plan a in
              let written = w (record t.store { accounts = insert a.id a' t.store.accounts }) in
              let due : due_plan env s.store.plans a ≡ some plan =
                ground (arith, not_closed, over, found) in
              let run : bill_account env charge a s ≡ (
                (p.invoices, none),
                record t { store = record t.store { accounts = insert a.id a' t.store.accounts } },
              ) =
                ground (arith, not_closed, over, found, p.succeeds, written) in
              record {
                charged =
                    ap (λ x. map charged_by x.0.0) run
                    ∙ p.charged
                    ∙ sym (ap (dues_on env s.store.plans a) due);
                stored =
                    ap (λ x. x.1.store.invoices) run
                    ∙ p.stored
                    ∙ ap (λ x. saved x.0.0 s.store.invoices) (sym run);
                ended = ap (λ x. x.0.1) run;
                accounts =
                    ap (λ x. x.1.store.accounts) run
                    ∙ ap (insert a.id a') (p.accounts ∙ e)
                    ∙ ap (λ j. insert j a' (done ++ (k, a) ∷ rest)) same
                    ∙ insert-middle k a' a done rest absent
                    ∙ ap (λ q. done ++ (k, advanced_on env s.store.plans a q) ∷ rest) (sym due);
                plans = ap (λ x. x.1.store.plans) run ∙ p.plans;
                usage = ap (λ x. x.1.store.usage) run ∙ p.usage;
              }
        ]
      ]
    ]

map-append : (f : Invoice → Due) (xs ys : List Invoice) → map f (xs ++ ys) ≡ map f xs ++ map f ys
map-append f [] ys = refl
map-append f (x ∷ xs) ys = ap (◌∷◌ (f x)) (map-append f xs ys)

saved-append :
    (xs ys : List Invoice) (m : Dict Invoice) → saved (xs ++ ys) m ≡ saved ys (saved xs m)
saved-append [] ys m = refl
saved-append (x ∷ xs) ys m = saved-append xs ys (insert x.id x m)

bill_all-Bills :
    (env : Env) (charge : Charge) (done rest : Dict Account) (issued : List Invoice)
    (before : Dict Invoice) (s : State)
    → IsWritable env
    → s.store.invoices ≡ saved issued before
    → s.store.accounts ≡ done ++ rest
    → Apart done rest
    → IsKeyedBy (λ (a : Account). a.id) rest
    → Bills
        (map charged_by issued ++ dues env s.store.plans (values rest))
        (done ++ map_values (billed env s.store.plans) rest)
        before
        s
        (bill_all env charge (values rest) issued s)
unfolding bill_all
bill_all-Bills env charge done [] issued before s w have e apart keyed = record {
  stored = have;
  charged = sym (append-nil (map charged_by issued));
  ended = refl;
  accounts = e;
  plans = refl;
  usage = refl;
}
bill_all-Bills env charge done ((k, a) ∷ rest) issued before s w have e apart keyed =
    let one = bill_account-Bills env charge k a done rest s w e keyed.0 apart.0 in
    let out = bill_account env charge a s in
    let a' = billed env s.store.plans a in
    let all =
      bill_all-Bills env charge (done ++ (k, a') ∷ []) rest (issued ++ out.0.0) before out.1 w
        (one.stored ∙ ap (saved out.0.0) have ∙ sym (saved-append issued out.0.0 before))
        (one.accounts ∙ sym (append_assoc done ((k, a') ∷ []) rest))
        (Apart-next k a' done rest apart.1 keyed.1) keyed.2 in
    let run : bill_all env charge (values ((k, a) ∷ rest)) issued s
        ≡ bill_all env charge (values rest) (issued ++ out.0.0) out.1 =
      ground (arith, one.ended) in
    let plans = s.store.plans in
    record {
      charged =
          ap (λ x. map charged_by x.0.0) run
          ∙ all.charged
          ∙ ap (λ p. map charged_by (issued ++ out.0.0) ++ dues env p (values rest)) one.plans
          ∙ ap (λ x. x ++ dues env plans (values rest))
              (map-append charged_by issued out.0.0
                ∙ ap (λ x. map charged_by issued ++ x) one.charged)
          ∙ append_assoc (map charged_by issued) (dues_on env plans a (due_plan env plans a))
              (dues env plans (values rest));
      stored =
          ap (λ x. x.1.store.invoices) run ∙ all.stored ∙ ap (λ x. saved x.0.0 before) (sym run);
      ended = ap (λ x. x.0.1) run ∙ all.ended;
      accounts =
          ap (λ x. x.1.store.accounts) run
          ∙ all.accounts
          ∙ ap (λ p. (done ++ (k, a') ∷ []) ++ map_values (billed env p) rest) one.plans
          ∙ append_assoc done ((k, a') ∷ []) (map_values (billed env plans) rest);
      plans = ap (λ x. x.1.store.plans) run ∙ all.plans ∙ one.plans;
      usage = ap (λ x. x.1.store.usage) run ∙ all.usage ∙ one.usage;
    }

-- A run of `RunBilling`, whatever the payment provider collects, goes over every account, where the state file can
-- be written and every account stands under its own identifier, and reports no error. An account that is not closed,
-- whose period is over and whose plan exists begins its next period, to the calendar's next month, and is charged
-- the plan's price for the period that ended if that is positive; the others stay as they are. The invoices returned
-- are these charges, one each, in the order of the map, and the store has its invoices as before, but with these
-- saved one after the other under their identifiers; plans and usage do not change.
pub run_billing-exact :
    (env : Env) (charge : Charge) (s : State)
    → IsWritable env
    → IsKeyed s
    → Bills
        (dues env s.store.plans (values s.store.accounts))
        (map_values (billed env s.store.plans) s.store.accounts)
        s.store.invoices
        s
        (run_billing env charge s)
unfolding run_billing
run_billing-exact env charge s w keyed =
    bill_all-Bills env charge [] s.store.accounts [] s.store.invoices s w refl refl
      (Apart-nil Account s.store.accounts) keyed.accounts
