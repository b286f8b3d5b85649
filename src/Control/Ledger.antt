-- ===== src/Control/Ledger.antt =====
-- `Reserve` and `Release` of core/control/service.go as a ledger: one number per account that stays within a quota.
use nft_soket.Base.{
  ℕ, ◌+◌, ◌-◌, ◌≤◌, ◌<◌, ◌≡◌, refl, ap, ap₂, ◌∙◌, Bool, true, false, some, List, [], ◌∷◌, All,
  if◌then◌else◌, leb, arith, Bool-cases, inl, inr,
}
use nft_soket.Base.Result.{Result, ok, err}
use nft_soket.Base.Int.{pos, ltb_ℤ, add64, sub64, wrap64, int64_limit, ◌+ℤ◌, ◌-ℤ◌}
use nft_soket.Base.Text.{Text, text_eq_refl}
use nft_soket.Base.Dict.{lookup, insert}
use nft_soket.Control.Model.{Plan, Account, Usage, Error, is_active}
use nft_soket.Control.Exec.{Env, State, Snapshot}
use nft_soket.Control.Store.{get_account, get_plan, get_usage, save_usage, persist}
use nft_soket.Control.Service.{reserve, release, charged_usage, released_usage}
use nft_soket.Control.Space.{used, get_usage-insert}

pub data Op : Type 0 where
  reserving releasing : ℕ → Op

abbrev pub amount : Op → ℕ
amount (reserving b) = b
amount (releasing b) = b

-- The ledger: whether an operation is accepted, and the bytes in use then.
unfoldable pub ledger : ℕ → ℕ → Op → Bool × ℕ
ledger quota n (reserving b) = if leb (n + b) quota then (true, n + b) else (false, n)
ledger quota n (releasing b) = (true, n - b)

unfoldable pub ledger_all : ℕ → ℕ → List Op → List Bool × ℕ
unfolding ledger
ledger_all quota n [] = ([], n)
ledger_all quota n (op ∷ ops) =
    let (answer, m) = ledger quota n op in
    let (answers, k) = ledger_all quota m ops in (answer ∷ answers, k)

abbrev accepted : Result Error (Unit {0}) × State → Bool × State
accepted (ok u, s) = (true, s)
accepted (err e, s) = (false, s)

-- The service's call, and whether it returned no error.
abbrev pub call : Env → Text → Op → State → Bool × State
call env id (reserving b) s = accepted (reserve env id (pos b) s)
call env id (releasing b) s = accepted (release env id (pos b) s)

abbrev pub call_all : Env → Text → List Op → State → List Bool × State
call_all env id [] s = ([], s)
call_all env id (op ∷ ops) s =
    let (answer, t) = call env id op s in
    let (answers, u) = call_all env id ops t in (answer ∷ answers, u)

-- The account is active on a plan with this quota, and uses so many bytes of it.
pub record IsLedger (id : Text) (quota n : ℕ) (s : State) : Type 0 where
  pub account : Account
  pub plan : Plan
  pub found : lookup id s.store.accounts ≡ some account
  pub on_plan : lookup account.plan_id s.store.plans ≡ some plan
  pub is_live : is_active account.status ≡ true
  pub offered : plan.quota_bytes ≡ pos quota
  pub in_use : used id s ≡ pos n
  pub within : n ≤ quota

module _ (env : Env) (id : Text) (quota : ℕ) (w : (st : Snapshot) → env.writable st ≡ true) where
  -- Only the account's use changes.
  written :
      (n m : ℕ) (s : State) (u : Usage)
      → IsLedger id quota n s
      → u.bytes_used ≡ pos m
      → m ≤ quota
      → IsLedger id quota m
          (record s { store = record s.store { usage = insert id u s.store.usage } })
  written n m s u l new le = record {
    account = l.account;
    plan = l.plan;
    found = l.found;
    on_plan = l.on_plan;
    is_live = l.is_live;
    offered = l.offered;
    in_use =
        ap (λ (v : Usage). v.bytes_used) (get_usage-insert id id u s.store)
        ∙ rw (text_eq_refl id) new;
    within = le;
  }

  add_exact : (n b : ℕ) → n + b < int64_limit → add64 (pos n) (pos b) ≡ pos (n + b)
  unfolding add64 wrap64 ◌+ℤ◌
  add_exact n b h = ground arith

  sub_exact :
      (n b : ℕ)
      → n < int64_limit
      → b < int64_limit
      → (if ltb_ℤ (sub64 (pos n) (pos b)) (pos 0) then pos 0 else sub64 (pos n) (pos b))
        ≡ pos (n - b)
  unfolding sub64 wrap64 ◌-ℤ◌
  sub_exact n b h k = ground arith

  call-reserving :
      (b n : ℕ) (s : State)
      → quota + b < int64_limit
      → IsLedger id quota n s
      → ((call env id (reserving b) s).0 ≡ (ledger quota n (reserving b)).0)
        × IsLedger id quota (ledger quota n (reserving b)).1 (call env id (reserving b) s).1
  unfolding reserve get_account get_plan save_usage persist ledger charged_usage
  call-reserving b n s small l =
      let u = charged_usage env id (pos b) (get_usage id s.store) in
      let st : Snapshot = record s.store { usage = insert id u s.store.usage } in
      let sum : add64 (used id s) (pos b) ≡ pos (n + b) =
        ap (λ x. add64 x (pos b)) l.in_use ∙ add_exact n b (omega (arith, small, l.within)) in
      elim (Bool-cases (leb (n + b) quota)) [
        | inr over ↦
            let same : call env id (reserving b) s ≡ (false, s) =
              ground (arith, l.found, l.on_plan, l.is_live, l.offered, sum, over) in
            rw (same, over) (refl, l)
        | inl fits ↦
            let run : call env id (reserving b) s ≡ (true, record s { store = st }) =
              ground (arith, l.found, l.on_plan, l.is_live, l.offered, sum, fits, w st) in
            rw (run, fits) (refl, written n (n + b) s u l sum (ground (arith, fits)))
      ]

  call-releasing :
      (b n : ℕ) (s : State)
      → quota + b < int64_limit
      → IsLedger id quota n s
      → ((call env id (releasing b) s).0 ≡ true)
        × IsLedger id quota (n - b) (call env id (releasing b) s).1
  unfolding release save_usage persist released_usage
  call-releasing b n s small l =
      let u = released_usage env id (pos b) (get_usage id s.store) in
      let st : Snapshot = record s.store { usage = insert id u s.store.usage } in
      let run : call env id (releasing b) s ≡ (true, record s { store = st }) =
        ground (arith, w st) in
      let left : u.bytes_used ≡ pos (n - b) =
        ap (λ x. if ltb_ℤ (sub64 x (pos b)) (pos 0) then pos 0 else sub64 x (pos b)) l.in_use
        ∙ sub_exact n b (omega (arith, small, l.within)) (omega (arith, small)) in
      rw run (refl, written n (n - b) s u l left (omega (arith, l.within)))

  call-ledger :
      (op : Op) (n : ℕ) (s : State)
      → quota + amount op < int64_limit
      → IsLedger id quota n s
      → ((call env id op s).0 ≡ (ledger quota n op).0)
        × IsLedger id quota (ledger quota n op).1 (call env id op s).1
  unfolding ledger
  call-ledger (reserving b) n s small l = call-reserving b n s small l
  call-ledger (releasing b) n s small l = call-releasing b n s small l

-- A sequence of `Reserve` and `Release` calls for an active account on a plan answers as the ledger does, and
-- leaves the use that the ledger has, as long as the state file can be written and the quota and the bytes of each
-- call together are an int64. The ledger accepts a reservation exactly when the bytes fit the quota, accepts every
-- release, and does not go below 0.
pub call_all-ledger :
    (env : Env) (id : Text) (quota n : ℕ) (ops : List Op) (s : State)
    → ((st : Snapshot) → env.writable st ≡ true)
    → All (λ op. quota + amount op < int64_limit) ops
    → IsLedger id quota n s
    → ((call_all env id ops s).0 ≡ (ledger_all quota n ops).0)
      × IsLedger id quota (ledger_all quota n ops).1 (call_all env id ops s).1
unfolding ledger_all
call_all-ledger env id quota n [] s w small l = (refl, l)
call_all-ledger env id quota n (op ∷ ops) s w small l =
    let (answer, l') = call-ledger env id quota w op n s small.0 l in
    let (answers, l'') =
      call_all-ledger env id quota (ledger quota n op).1 ops (call env id op s).1 w small.1 l' in
    (ap₂ ◌∷◌ answer answers, l'')
