-- ===== src/Control/Service.antt =====
-- core/control/service.go: plans, accounts and space. Billing and payments are in the children.
-- `s.mu` makes each method atomic, so a method is one action.
pub mod Billing
pub mod Settlement
use nft_soket.Base.{
  ℕ, ◌+◌, Bool, true, false, not, ◌||◌, ◌&&◌, Option, none, some, List, [], ◌∷◌, ◌++◌,
  if◌then◌else◌, leb, ◌==◌, reverse,
}
use nft_soket.Base.Result.{Result, ok, err}
use nft_soket.Base.Int.{ℤ, pos, ltb_ℤ, leb_ℤ, add64, sub64}
use nft_soket.Base.Text.{Text, codes, is_empty}
use nft_soket.Base.Strings.{trim_space}
use nft_soket.Base.Hex.{hex_encode}
use nft_soket.Control.Model.{
  Plan, Account, AccountStatus, Usage, Money, Period, period_monthly, advance, is_active, Error,
  not_found, invalid, not_active, quota_exceeded,
}
use nft_soket.Control.Exec.{
  Env, State, Snapshot, Exec, continue, ◌>>=◌, ◌>>◌, pure, raise, raise_if, gets,
}
use nft_soket.Control.Store.{
  save_plan, get_plan, list_plans, save_account, get_account, get_account_by_token_hash,
  list_accounts, save_usage, get_usage,
}

-- `randID`: the prefix, an underscore and eight random bytes in hex.
unfoldable pub rand_id : Env → Text → Exec Text
rand_id env prefix s =
    (ok (prefix ++ codes "_" ++ hex_encode (env.random s.drawn)), record s { drawn = s.drawn + 1 })

unfoldable pub hash_token : Env → Text → Text
hash_token env token = hex_encode (env.sha256 (trim_space token))

unfoldable pub new_token : Env → Exec (Text × Text)
new_token env s =
    let token = codes "vlt_" ++ hex_encode (env.random s.drawn) in
    (ok (token, hash_token env token), record s { drawn = s.drawn + 1 })

unfoldable pub create_plan : Env → Text → ℤ → Money → Text → Period → Exec Plan
create_plan env name quota_bytes price_cents currency period = do
  raise_if (is_empty name || leb_ℤ quota_bytes (pos 0)) invalid
  id ← rand_id env (codes "plan")
  let p : Plan = record {
    id = id;
    name = name;
    quota_bytes = quota_bytes;
    price_cents = price_cents;
    currency = if is_empty currency then codes "EUR" else currency;
    period = if is_empty period then period_monthly else period;
  }
  save_plan env p
  pure p

unfoldable pub create_account : Env → Text → Text → Text → Exec (Account × Text)
create_account env name email plan_id = do
  raise_if (is_empty name) invalid
  plan ← get_plan plan_id
  fresh ← new_token env
  id ← rand_id env (codes "acct")
  let a : Account = record {
    id = id;
    name = name;
    email = email;
    plan_id = plan_id;
    status = AccountStatus.active;
    token_hash = fresh.1;
    created_at = env.now;
    period_start = env.now;
    period_end = advance env.add_month plan.period env.now;
  }
  save_account env a
  pure (a, fresh.0)

unfoldable pub authenticate : Env → Text → Exec Account
authenticate env token =
    if is_empty token then raise not_found else get_account_by_token_hash (hash_token env token)

unfoldable pub set_status : Env → Text → AccountStatus → Exec (Unit {0})
set_status env account_id status = do
  a ← get_account account_id
  save_account env (record a { status = status })

-- The usage that a reservation writes.
unfoldable pub charged_usage : Env → Text → ℤ → Usage → Usage
charged_usage env account_id bytes u = record {
  account_id = account_id;
  bytes_used = add64 u.bytes_used bytes;
  object_count = if ltb_ℤ (pos 0) bytes then add64 u.object_count (pos 1) else u.object_count;
  updated_at = env.now;
}

-- The gate of new data: the account is active and the sum stays within the plan's quota.
unfoldable pub reserve : Env → Text → ℤ → Exec (Unit {0})
reserve env account_id bytes = do
  raise_if (ltb_ℤ bytes (pos 0)) invalid
  a ← get_account account_id
  raise_if (not (is_active a.status)) not_active
  plan ← get_plan a.plan_id
  u ← gets (get_usage account_id)
  raise_if (ltb_ℤ plan.quota_bytes (add64 u.bytes_used bytes)) quota_exceeded
  save_usage env (charged_usage env account_id bytes u)

-- The usage that a release writes: the difference, at least 0.
unfoldable pub released_usage : Env → Text → ℤ → Usage → Usage
released_usage env account_id bytes u = record {
  account_id = account_id;
  bytes_used = if ltb_ℤ (sub64 u.bytes_used bytes) (pos 0) then pos 0 else sub64 u.bytes_used bytes;
  object_count =
      if ltb_ℤ (pos 0) bytes && ltb_ℤ (pos 0) u.object_count
      then sub64 u.object_count (pos 1)
      else u.object_count;
  updated_at = env.now;
}

unfoldable pub release : Env → Text → ℤ → Exec (Unit {0})
release env account_id bytes = do
  raise_if (ltb_ℤ bytes (pos 0)) invalid
  u ← gets (get_usage account_id)
  save_usage env (released_usage env account_id bytes u)
