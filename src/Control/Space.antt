-- ===== src/Control/Space.antt =====
-- What `Reserve` of core/control/service.go guarantee about the offered space.
pub mod Release
use mathlib.Core.Option.{some-injective}
use nft_soket.Base.{
  ◌≡◌, ◌⊎◌, sym, ap, ◌∙◌, subst, true, false, some, if◌then◌else◌, arith, Option-cases, Bool-cases,
  inl, inr,
}
use nft_soket.Base.Result.{Result, ok, err}
use nft_soket.Base.Int.{
  ℤ, pos, pos_part, neg_part, ◌≤ℤ◌, ◌<ℤ◌, ltb_ℤ, add64, InInt64, add64_exact, sub64_exact, ltb_ℤ→le,
  int_laws, int64_limit, add64_overflow, difference-InInt64, not_negative→ltb, cancel_ℤ, ◌+ℤ◌, ◌-ℤ◌,
}
use nft_soket.Base.Text.{Text, text_eq, text_eq_refl, eq_of_text_eq}
use nft_soket.Base.Dict.{lookup, insert, lookup-insert}
use nft_soket.Control.Model.{
  Plan, Account, Usage, Error, is_active, not_found, invalid, not_active, quota_exceeded,
}
use nft_soket.Control.Exec.{Env, State, Snapshot}
use nft_soket.Control.Store.{get_account, get_plan, get_usage, save_usage, persist}
use nft_soket.Control.Service.{reserve, release, charged_usage, released_usage}

-- The bytes that an account uses.
abbrev pub used : Text → State → ℤ
used id s = (get_usage id s.store).bytes_used

pub get_usage-insert :
    (j k : Text) (u : Usage) (st : Snapshot)
    → get_usage j (record st { usage = insert k u st.usage })
      ≡ (if text_eq k j then u else get_usage j st)
unfolding get_usage
get_usage-insert j k u st = ground (arith, lookup-insert k j u st.usage)

-- What a reservation that passed its tests found and wrote.
record Reserved (env : Env) (id : Text) (bytes : ℤ) (s t : State) : Type 0 where
  account : Account
  plan : Plan
  found : lookup id s.store.accounts ≡ some account
  on_plan : lookup account.plan_id s.store.plans ≡ some plan
  is_live : is_active account.status ≡ true
  not_negative : ltb_ℤ bytes (pos 0) ≡ false
  fits : ltb_ℤ plan.quota_bytes (add64 (used id s) bytes) ≡ false
  written : t.store ≡ record s.store {
    usage = insert id (charged_usage env id bytes (get_usage id s.store)) s.store.usage;
  }

module _ (env : Env) (id : Text) (bytes : ℤ) (s : State) where
  reserve-cases :
      ((e : Error) × (reserve env id bytes s ≡ (err e, s)))
      ⊎ Reserved env id bytes s (reserve env id bytes s).1
  unfolding reserve get_account get_plan save_usage charged_usage
  reserve-cases = elim (Bool-cases (ltb_ℤ bytes (pos 0))) [
    | inl negative ↦ inl (invalid, ground (arith, negative))
    | inr not_negative ↦ elim (Option-cases (lookup id s.store.accounts)) [
      | inl missing ↦ inl (not_found, ground (arith, not_negative, missing))
      | inr (a, found) ↦ elim (Bool-cases (is_active a.status)) [
        | inr dead ↦ inl (not_active, ground (arith, not_negative, found, dead))
        | inl is_live ↦ elim (Option-cases (lookup a.plan_id s.store.plans)) [
          | inl missing ↦ inl (not_found, ground (arith, not_negative, found, is_live, missing))
          | inr (plan, on_plan) ↦ tested not_negative a found is_live plan on_plan
        ]
      ]
    ]
  ]
    where
      tested :
          ltb_ℤ bytes (pos 0) ≡ false
          → (a : Account) → lookup id s.store.accounts ≡ some a
          → is_active a.status ≡ true
          → (plan : Plan) → lookup a.plan_id s.store.plans ≡ some plan
          → ((e : Error) × (reserve env id bytes s ≡ (err e, s)))
            ⊎ Reserved env id bytes s (reserve env id bytes s).1
      tested not_negative a found is_live plan on_plan =
          elim (Bool-cases (ltb_ℤ plan.quota_bytes (add64 (used id s) bytes))) [
            | inl over ↦
                inl (quota_exceeded, ground (arith, not_negative, found, is_live, on_plan, over))
            | inr fits ↦ inr (record {
              account = a;
              plan = plan;
              found = found;
              on_plan = on_plan;
              is_live = is_live;
              not_negative = not_negative;
              fits = fits;
              written = ground (arith, found, on_plan);
            })
          ]

  -- A reservation that fits what was offered: the sum does not pass an int64.
  used-Reserved :
      (t : State) (j : Text)
      → Reserved env id bytes s t
      → used j t ≡ (if text_eq id j then add64 (used id s) bytes else used j s)
  unfolding charged_usage
  used-Reserved t j r =
      ap (λ (st : Snapshot). (get_usage j st).bytes_used) r.written
      ∙ ap (λ (u : Usage). u.bytes_used)
          (get_usage-insert j id (charged_usage env id bytes (get_usage id s.store)) s.store)
      ∙ ground arith

-- What a reservation promises of the account, its plan and every account's use.
pub record IsReservation (id : Text) (bytes : ℤ) (s t : State) (a : Account) (plan : Plan)
    : Type 0 where
  pub found : lookup id s.store.accounts ≡ some a
  pub on_plan : lookup a.plan_id s.store.plans ≡ some plan
  pub is_live : is_active a.status ≡ true
  pub not_negative : pos 0 ≤ℤ bytes
  pub charged : used id t ≡ used id s +ℤ bytes
  pub within_quota : used id t ≤ℤ plan.quota_bytes
  pub others : (j : Text) → text_eq id j ≡ false → used j t ≡ used j s

-- A reservation that succeeds, where the sum of the bytes in use and the new ones is an int64, is of
-- an active account and not negative; it adds the bytes to the account's use, which is within the
-- quota of its plan then, and changes no other account's use.
pub reserve-ok :
    (env : Env) (id : Text) (bytes : ℤ) (s t : State)
    → InInt64 (used id s +ℤ bytes)
    → reserve env id bytes s ≡ (ok tt, t)
    → (a : Account) × (plan : Plan) × IsReservation id bytes s t a plan
reserve-ok env id bytes s t range e = elim (reserve-cases env id bytes s) [
  | inl (x, failed) ↦ cc (failed, e)
  | inr r ↦
      reserved (subst (Reserved env id bytes s) (ap (λ (p : Result Error Unit × State). p.1) e) r)
]
  where
    reserved :
        Reserved env id bytes s t
        → (a : Account) × (plan : Plan) × IsReservation id bytes s t a plan
    reserved r =
        let exact : add64 (used id s) bytes ≡ used id s +ℤ bytes =
          add64_exact (used id s) bytes range in
        let new : used id t ≡ add64 (used id s) bytes =
          used-Reserved env id bytes s t id r ∙ rw (text_eq_refl id) in
        (
          r.account,
          r.plan,
          record {
            found = r.found;
            on_plan = r.on_plan;
            is_live = r.is_live;
            not_negative = ltb_ℤ→le bytes (pos 0) r.not_negative;
            charged = new ∙ exact;
            within_quota = rw new (ltb_ℤ→le r.plan.quota_bytes _ r.fits);
            others = λ j h. used-Reserved env id bytes s t j r ∙ rw h;
          },
        )

-- Every account on a plan uses at most the plan's quota, and no account uses less than nothing.
pub record IsWithinQuota (s : State) : Type 0 where
  pub quota :
      (id : Text) (a : Account) (plan : Plan)
      → lookup id s.store.accounts ≡ some a
      → lookup a.plan_id s.store.plans ≡ some plan
      → used id s ≤ℤ plan.quota_bytes
  pub not_negative : (id : Text) → pos 0 ≤ℤ used id s

-- `Reserve`, whatever its outcome, keeps every account within its quota, if the sum of the bytes in
-- use and the new ones is an int64.
pub reserve-IsWithinQuota :
    (env : Env) (id : Text) (bytes : ℤ) (s : State)
    → InInt64 (used id s +ℤ bytes)
    → IsWithinQuota s
    → IsWithinQuota (reserve env id bytes s).1
reserve-IsWithinQuota env id bytes s range v = elim (reserve-cases env id bytes s) [
  | inl (x, failed) ↦ rw failed v
  | inr r ↦ keep (reserve env id bytes s).1 r
]
  where
    same_plan :
        (t : State) (r : Reserved env id bytes s t) (j : Text) (a : Account) (plan : Plan)
        → id ≡ j
        → lookup j s.store.accounts ≡ some a
        → lookup a.plan_id s.store.plans ≡ some plan
        → add64 (used id s) bytes ≤ℤ plan.quota_bytes
    same_plan t r j a plan e found on_plan =
        let pa : r.account ≡ a =
          some-injective r.account a
            (sym r.found ∙ ap (λ (k : Text). lookup k s.store.accounts) e ∙ found) in
        let pp : r.plan ≡ plan =
          some-injective r.plan plan
            (sym r.on_plan ∙ ap (λ (c : Account). lookup c.plan_id s.store.plans) pa ∙ on_plan) in
        subst (λ (p : Plan). add64 (used id s) bytes ≤ℤ p.quota_bytes) pp
          (ltb_ℤ→le r.plan.quota_bytes _ r.fits)

    keep : (t : State) → Reserved env id bytes s t → IsWithinQuota t
    keep t r = record {
      quota = λ j a plan found on_plan.
          let found' : lookup j s.store.accounts ≡ some a =
            sym (ap (λ (st : Snapshot). lookup j st.accounts) r.written) ∙ found in
          let on_plan' : lookup a.plan_id s.store.plans ≡ some plan =
            sym (ap (λ (st : Snapshot). lookup a.plan_id st.plans) r.written) ∙ on_plan in
          elim (Bool-cases (text_eq id j)) [
            | inr h ↦ rw (used-Reserved env id bytes s t j r, h) (v.quota j a plan found' on_plan')
            | inl h ↦
                rw (used-Reserved env id bytes s t j r, h)
                  (same_plan t r j a plan (eq_of_text_eq id j h) found' on_plan')
          ];
      not_negative = λ j. elim (Bool-cases (text_eq id j)) [
        | inr h ↦ rw (used-Reserved env id bytes s t j r, h) (v.not_negative j)
        | inl h ↦
            rw (used-Reserved env id bytes s t j r, h, add64_exact (used id s) bytes range)
              (omega (int_laws, v.not_negative id, ltb_ℤ→le bytes (pos 0) r.not_negative))
      ];
    }

persist_ok : (env : Env) (s : State) → env.writable s.store ≡ true → persist env s ≡ (ok tt, s)
unfolding persist
persist_ok env s w = rw w

-- A reservation that passes its tests is accepted, where the state file can be written.
pub reserve_accepts :
    (env : Env) (id : Text) (bytes : ℤ) (s : State) (a : Account) (plan : Plan)
    → ((st : Snapshot) → env.writable st ≡ true)
    → lookup id s.store.accounts ≡ some a
    → lookup a.plan_id s.store.plans ≡ some plan
    → is_active a.status ≡ true
    → pos 0 ≤ℤ bytes
    → add64 (used id s) bytes ≤ℤ plan.quota_bytes
    → (t : State) × (reserve env id bytes s ≡ (ok tt, t)) × (used id t ≡ add64 (used id s) bytes)
unfolding reserve get_account get_plan save_usage charged_usage
reserve_accepts env id bytes s a plan w found on_plan is_live h fits =
    let u = charged_usage env id bytes (get_usage id s.store) in
    let st : Snapshot = record s.store { usage = insert id u s.store.usage } in
    (
      record s { store = st },
      ground (arith, found, on_plan, is_live, w st),
      ap (λ (v : Usage). v.bytes_used) (get_usage-insert id id u s.store) ∙ rw (text_eq_refl id),
    )

-- The sum of the bytes in use and the new ones is cut to 64 bits before it is compared: where it
-- passes the largest int64, the test succeeds on any plan and the use becomes negative.
pub reserve_overflow :
    (env : Env) (id : Text) (bytes : ℤ) (s : State) (a : Account) (plan : Plan)
    → ((st : Snapshot) → env.writable st ≡ true)
    → lookup id s.store.accounts ≡ some a
    → lookup a.plan_id s.store.plans ≡ some plan
    → is_active a.status ≡ true
    → pos 0 ≤ℤ plan.quota_bytes
    → pos 0 ≤ℤ used id s
    → pos 0 ≤ℤ bytes
    → InInt64 (used id s)
    → InInt64 bytes
    → pos int64_limit ≤ℤ used id s +ℤ bytes
    → (t : State) × (reserve env id bytes s ≡ (ok tt, t)) × (used id t <ℤ pos 0)
reserve_overflow env id bytes s a plan w found on_plan is_live q u b ru rb over =
    let negative : add64 (used id s) bytes <ℤ pos 0 =
      add64_overflow (used id s) bytes u b ru rb over in
    let (t, done, charged) =
      reserve_accepts env id bytes s a plan w found on_plan is_live b (omega arith) in
    (t, done, rw charged negative)
