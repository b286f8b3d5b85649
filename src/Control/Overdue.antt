-- ===== src/Control/Overdue.antt =====
-- What `EnforceDelinquency` of core/control/service.go does to the accounts, all of them at once.
use nft_soket.Base.{
  ◌≡◌, refl, sym, ap, ap₂, ◌∙◌, Bool, true, false, ◌||◌, ◌&&◌, List, [], ◌∷◌, ◌++◌, append_assoc,
  if◌then◌else◌, arith, Bool-cases, inl, inr,
}
use nft_soket.Base.Int.{ℤ, ◌-ℤ◌, ltb_ℤ}
use nft_soket.Base.Text.{Text, text_eq, text_eq_refl, text_eq_iff, is_empty}
use nft_soket.Base.Dict.{Dict, insert, values}
use nft_soket.Control.Model.{Account, AccountStatus, Invoice, InvoiceStatus, is_active, is_open}
use nft_soket.Control.Exec.{Env, State}
use nft_soket.Control.Store.{save_account, list_invoices, invoices_of, persist}
use nft_soket.Control.Service.Settlement.{suspend_overdue, has_overdue, enforce_delinquency}
use nft_soket.Control.Keyed.{IsKeyed, IsKeyedBy, Absent}

-- Writing an entry under the key that stands there replaces it in its place.
pub insert-middle :
    {V : Type 0} (k : Text) (v w : V) (done rest : Dict V)
    → Absent k done
    → insert k v (done ++ (k, w) ∷ rest) ≡ done ++ (k, v) ∷ rest
unfolding insert
insert-middle k v w [] rest h = ground (arith, text_eq_refl k)
insert-middle k v w ((j, x) ∷ done) rest h = ground (arith, h.0, insert-middle k v w done rest h.1)

-- No key of the second map stands in the first.
abbrev pub Apart : {V W : Type 0} → Dict V → Dict W → Type 0
Apart done [] = Unit
Apart done ((k, w) ∷ rest) = Absent k done × Apart done rest

Absent-append :
    {V : Type 0} (k j : Text) (v : V) (done : Dict V)
    → Absent k done
    → text_eq j k ≡ false
    → Absent k (done ++ (j, v) ∷ [])
Absent-append k j v [] h e = (e, tt)
Absent-append k j v ((i, x) ∷ done) h e = (h.0, Absent-append k j v done h.1 e)

-- The entry that was handled joins those before it.
pub Apart-next :
    {V W : Type 0} (k : Text) (v : V) (done : Dict V) (rest : Dict W)
    → Apart done rest
    → Absent k rest
    → Apart (done ++ (k, v) ∷ []) rest
Apart-next k v done [] h a = tt
Apart-next k v done ((j, w) ∷ rest) h a = (
  Absent-append j k v done h.0 (ground (arith, a.0, text_eq_iff j k, text_eq_iff k j)),
  Apart-next k v done rest h.1 a.1,
)

pub Apart-nil : (V : Type 0) {W : Type 0} (d : Dict W) → Apart {V = V} [] d
Apart-nil V [] = tt
Apart-nil V ((k, w) ∷ d) = (tt, Apart-nil V d)

-- The entries of a map, changed one by one.
abbrev pub map_values : {V W : Type 0} → (V → W) → Dict V → Dict W
map_values f [] = []
map_values f ((k, v) ∷ d) = (k, f v) ∷ map_values f d

abbrev pub is_live : AccountStatus → Bool
is_live AccountStatus.active = true
is_live AccountStatus.suspended = false
is_live AccountStatus.closed = false
is_live (AccountStatus.other s) = false

abbrev pub is_due : InvoiceStatus → Bool
is_due InvoiceStatus.unpaid = true
is_due InvoiceStatus.paid = false
is_due InvoiceStatus.void = false
is_due (InvoiceStatus.other s) = false

-- An invoice makes its account late that is open and from before the cutoff. All invoices are those of an account
-- without an identifier.
abbrev pub is_late : ℤ → Text → Invoice → Bool
is_late cutoff id i =
    (is_empty id || text_eq i.account_id id) && (is_due i.status && ltb_ℤ i.created_at cutoff)

abbrev pub any_late : ℤ → Text → List Invoice → Bool
any_late cutoff id [] = false
any_late cutoff id (i ∷ invoices) = is_late cutoff id i || any_late cutoff id invoices

is_active-is_live : (x : AccountStatus) → is_active x ≡ is_live x
is_active-is_live AccountStatus.active = refl
is_active-is_live AccountStatus.suspended = refl
is_active-is_live AccountStatus.closed = refl
is_active-is_live (AccountStatus.other s) = refl

is_open-is_due : (x : InvoiceStatus) → is_open x ≡ is_due x
is_open-is_due InvoiceStatus.unpaid = refl
is_open-is_due InvoiceStatus.paid = refl
is_open-is_due InvoiceStatus.void = refl
is_open-is_due (InvoiceStatus.other s) = refl

-- The inner loop over the account's invoices finds a late one.
pub has_overdue-any_late :
    (cutoff : ℤ) (id : Text) (invoices : List Invoice)
    → has_overdue cutoff (invoices_of id invoices) ≡ any_late cutoff id invoices
unfolding has_overdue invoices_of
has_overdue-any_late cutoff id [] = refl
has_overdue-any_late cutoff id (i ∷ invoices) =
    elim (Bool-cases (is_empty id || text_eq i.account_id id)) [
      | inl own ↦
          ground (arith, own, is_open-is_due i.status, has_overdue-any_late cutoff id invoices)
      | inr foreign ↦ ground (arith, foreign, has_overdue-any_late cutoff id invoices)
    ]

module _ (cutoff : ℤ) (invoices : Dict Invoice) where
  -- An active account that an invoice of the map makes late.
  abbrev pub is_overdue : Account → Bool
  is_overdue a = is_live a.status && any_late cutoff a.id (values invoices)

  abbrev pub enforced : Account → Account
  enforced a = if is_overdue a then record a { status = AccountStatus.suspended } else a

  abbrev pub overdue_ids : List Account → List Text
  overdue_ids [] = []
  overdue_ids (a ∷ accounts) =
      let rest = overdue_ids accounts in if is_overdue a then a.id ∷ rest else rest

with_accounts : Dict Account → State → State
with_accounts accounts s = record s { store = record s.store { accounts = accounts } }

suspend_overdue-exact :
    (env : Env) (cutoff : ℤ) (done rest : Dict Account) (s : State)
    → s.store.accounts ≡ done ++ rest
    → Apart done rest
    → IsKeyedBy (λ (a : Account). a.id) rest
    → suspend_overdue env cutoff (values rest) s ≡ (
      overdue_ids cutoff s.store.invoices (values rest),
      with_accounts (done ++ map_values (enforced cutoff s.store.invoices) rest) s,
    )
unfolding suspend_overdue with_accounts list_invoices save_account persist
suspend_overdue-exact env cutoff done [] s e apart keyed = ap (λ d. ([], with_accounts d s)) e
suspend_overdue-exact env cutoff done ((k, a) ∷ rest) s e apart keyed =
    let b = is_overdue cutoff s.store.invoices a in
    let met : (is_active a.status
          && has_overdue cutoff (invoices_of a.id (values s.store.invoices)))
        ≡ b =
      ap₂ ◌&&◌ (is_active-is_live a.status)
        (has_overdue-any_late cutoff a.id (values s.store.invoices)) in
    let a' = enforced cutoff s.store.invoices a in
    let later = map_values (enforced cutoff s.store.invoices) rest in
    let run : (accounts : Dict Account)
        → accounts ≡ done ++ (k, a') ∷ rest
        → suspend_overdue env cutoff (values rest) (with_accounts accounts s) ≡ (
          overdue_ids cutoff s.store.invoices (values rest),
          with_accounts (done ++ (k, a') ∷ later) s,
        ) =
      λ accounts at.
        suspend_overdue-exact env cutoff (done ++ (k, a') ∷ []) rest (with_accounts accounts s)
          (at ∙ sym (append_assoc done ((k, a') ∷ []) rest))
          (Apart-next k a' done rest apart.1 keyed.1) keyed.2
        ∙ ap (λ d. (overdue_ids cutoff s.store.invoices (values rest), with_accounts d s))
            (append_assoc done ((k, a') ∷ []) later) in
    elim (Bool-cases b) [
      | inr fine ↦
          let same : a' ≡ a =
            ap (λ x. if x then record a { status = AccountStatus.suspended } else a) fine in
          ground (
            arith,
            fine,
            met,
            run s.store.accounts (e ∙ ap (λ x. done ++ (k, x) ∷ rest) (sym same)),
          )
      | inl overdue ↦
          let marked : a' ≡ record a { status = AccountStatus.suspended } =
            ap (λ x. if x then record a { status = AccountStatus.suspended } else a) overdue in
          let there : insert a.id (record a { status = AccountStatus.suspended }) s.store.accounts
              ≡ done ++ (k, a') ∷ rest =
            ap (insert a.id (record a { status = AccountStatus.suspended })) e
            ∙ ap
                (λ j.
                  insert j (record a { status = AccountStatus.suspended }) (done ++ (k, a) ∷ rest))
                keyed.0
            ∙ insert-middle k (record a { status = AccountStatus.suspended }) a done rest apart.0
            ∙ ap (λ x. done ++ (k, x) ∷ rest) (sym marked) in
          ground (
            arith,
            overdue,
            met,
            run (insert a.id (record a { status = AccountStatus.suspended }) s.store.accounts)
                there,
          )
    ]

-- `EnforceDelinquency` over a grace period returns the identifiers of the active accounts with an open invoice
-- from before now less the grace period, in the order of the map, and suspends exactly these: it changes no other
-- account and nothing else, where every account stands under its own identifier. For an account without an
-- identifier all invoices count.
pub enforce_delinquency-exact :
    (env : Env) (grace : ℤ) (s : State)
    → IsKeyed s
    → enforce_delinquency env grace s ≡ (
      overdue_ids (env.now -ℤ grace) s.store.invoices (values s.store.accounts),
      record s {
        store = record s.store {
          accounts = map_values (enforced (env.now -ℤ grace) s.store.invoices) s.store.accounts;
        };
      },
    )
unfolding enforce_delinquency with_accounts
enforce_delinquency-exact env grace s keyed =
    suspend_overdue-exact env (env.now -ℤ grace) [] s.store.accounts s refl
      (Apart-nil Account s.store.accounts) keyed.accounts
