-- ===== src/Control/Store.antt =====
-- core/control/store.go: the maps, with a snapshot written after every change. A failed write is
-- reported, and the change stays in memory.
use nft_soket.Base.{Option, none, some, List, [], ◌∷◌, ◌||◌, if◌then◌else◌}
use nft_soket.Base.Result.{ok, err, or_fail}
use nft_soket.Base.Int.{pos}
use nft_soket.Base.Text.{Text, text_eq, is_empty}
use nft_soket.Base.Dict.{lookup, insert, values}
use nft_soket.Control.Model.{Plan, Account, Usage, Invoice, Payment, not_found, storage}
use nft_soket.Control.Exec.{Snapshot, Env, Exec}

-- `NewStore("")`.
abbrev pub empty_snapshot : Snapshot
empty_snapshot = record { plans = []; accounts = []; usage = []; invoices = []; payments = [] }

unfoldable pub persist : Env → Exec (Unit {0})
persist env s = (if env.writable s.store then ok tt else err storage, s)

unfoldable pub save_plan : Env → Plan → Exec (Unit {0})
unfolding persist
save_plan env p s =
    persist env (record s { store = record s.store { plans = insert p.id p s.store.plans } })

unfoldable pub get_plan : Text → Exec Plan
get_plan id s = (or_fail (lookup id s.store.plans) not_found, s)

unfoldable pub list_plans : Exec (List Plan)
list_plans s = (ok (values s.store.plans), s)

unfoldable pub save_account : Env → Account → Exec (Unit {0})
unfolding persist
save_account env a s =
    persist env (record s { store = record s.store { accounts = insert a.id a s.store.accounts } })

unfoldable pub get_account : Text → Exec Account
get_account id s = (or_fail (lookup id s.store.accounts) not_found, s)

unfoldable pub find_by_hash : Text → List Account → Option Account
find_by_hash h [] = none
find_by_hash h (a ∷ accounts) = if text_eq a.token_hash h then some a else find_by_hash h accounts

unfoldable pub get_account_by_token_hash : Text → Exec Account
get_account_by_token_hash h s = (or_fail (find_by_hash h (values s.store.accounts)) not_found, s)

unfoldable pub list_accounts : Exec (List Account)
list_accounts s = (ok (values s.store.accounts), s)

unfoldable pub save_usage : Env → Usage → Exec (Unit {0})
unfolding persist
save_usage env u s =
    persist env
      (record s { store = record s.store { usage = insert u.account_id u s.store.usage } })

-- The zero Usage where the account has none; the zero time is the instant 0.
unfoldable pub get_usage : Text → Snapshot → Usage
get_usage id st = elim (lookup id st.usage) [
  | none ↦ record { account_id = id; bytes_used = pos 0; object_count = pos 0; updated_at = pos 0 }
  | some u ↦ u
]

unfoldable pub save_invoice : Env → Invoice → Exec (Unit {0})
unfolding persist
save_invoice env i s =
    persist env (record s { store = record s.store { invoices = insert i.id i s.store.invoices } })

unfoldable pub get_invoice : Text → Exec Invoice
get_invoice id s = (or_fail (lookup id s.store.invoices) not_found, s)

unfoldable pub invoices_of : Text → List Invoice → List Invoice
invoices_of id [] = []
invoices_of id (i ∷ invoices) =
    let rest = invoices_of id invoices in
    if is_empty id || text_eq i.account_id id then i ∷ rest else rest

unfoldable pub list_invoices : Text → Snapshot → List Invoice
list_invoices id st = invoices_of id (values st.invoices)

unfoldable pub save_payment : Env → Payment → Exec (Unit {0})
unfolding persist
save_payment env p s =
    persist env (record s { store = record s.store { payments = insert p.id p s.store.payments } })
