-- ===== src/Control/Exec.antt =====
-- Methods of the control plane as actions on its state. A method that fails keeps what it wrote.
pub mod Ends
use nft_soket.Base.{ℕ, Bool, true, false, List}
use nft_soket.Base.Result.{Result, ok, err}
use nft_soket.Base.Int.{ℤ}
use nft_soket.Base.Dict.{Dict}
use nft_soket.Control.Model.{Plan, Account, Usage, Invoice, Payment, Error}

-- `snapshot` of core/control/store.go.
pub record Snapshot : Type 0 where
  pub plans : Dict Plan
  pub accounts : Dict Account
  pub usage : Dict Usage
  pub invoices : Dict Invoice
  pub payments : Dict Payment

-- The stored data, and how many random identifiers were drawn so far.
pub record State : Type 0 where
  pub store : Snapshot
  pub drawn : ℕ

-- What the service takes from outside: whether the state file can be written, the clock, the
-- calendar's next month, and the random bytes of the n-th draw.
pub record Env : Type 0 where
  pub writable : Snapshot → Bool
  pub now : ℤ
  pub add_month : ℤ → ℤ
  pub random : ℕ → List ℕ
  pub sha256 : List ℕ → List ℕ

abbrev pub Exec : Type 0 → Type 0
Exec A = State → Result Error A × State

abbrev pub continue : {A B : Type 0} → Result Error A → (A → Exec B) → Exec B
continue (ok a) f s = f a s
continue (err e) f s = (err e, s)

infixl 5 ◌>>=◌ ◌>>◌
abbrev pub ◌>>=◌ : {A B : Type 0} → Exec A → (A → Exec B) → Exec B
◌>>=◌ m f s = let (r, s') = m s in continue r f s'

abbrev pub ◌>>◌ : {B : Type 0} → Exec (Unit {0}) → Exec B → Exec B
m >> k = m >>= λ _. k

abbrev pub pure : {A : Type 0} → A → Exec A
pure a s = (ok a, s)

abbrev pub raise : {A : Type 0} → Error → Exec A
raise e s = (err e, s)

-- `if test { return err }`
abbrev pub raise_if : Bool → Error → Exec (Unit {0})
raise_if true e s = (err e, s)
raise_if false e s = (ok tt, s)

abbrev pub gets : {A : Type 0} → (Snapshot → A) → Exec A
gets f s = (ok (f s.store), s)

-- `_ = f()`: the error is dropped, what was written stays.
abbrev pub ignore : Exec (Unit {0}) → Exec (Unit {0})
ignore m s = (ok tt, (m s).1)
