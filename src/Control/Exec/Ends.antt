-- ===== src/Control/Exec/Ends.antt =====
-- What holds of the state that an action leaves, whether it returns or fails: one rule for each way to
-- build a method of core/control/service.go.
use nft_soket.Base.{◌≡◌, refl, Bool, true, false, if◌then◌else◌}
use nft_soket.Base.Result.{Result, ok, err}
use nft_soket.Control.Model.{Error}
use nft_soket.Control.Exec.{State, Exec, continue, raise_if}

pub record Ends {A : Type 0} (P : State → Type 0) (out : A × State) : Type 0 where
  pub here : P out.1

module _ {P : State → Type 0} where
  pub Ends-pair : {A : Type 0} (r : A) (s : State) → P s → Ends P (r, s)
  Ends-pair r s h = record { here = h }

  -- The rest of the block may use what was returned.
  pub Ends-continue :
      {A B : Type 0} (r : Result Error A) (f : A → Exec B) (s : State)
      → P s
      → ((a : A) → r ≡ ok a → Ends P (f a s))
      → Ends P (continue r f s)
  Ends-continue (ok a) f s h k = k a refl
  Ends-continue (err e) f s h k = record { here = h }

  -- After another action.
  pub Ends-bind :
      {A B : Type 0} (out : Result Error A × State) (f : A → Exec B)
      → Ends P out
      → ((a : A) (t : State) → P t → Ends P (f a t))
      → Ends P (continue out.0 f out.1)
  Ends-bind (ok a, s) f h k = k a s h.here
  Ends-bind (err e, s) f h k = record { here = h.here }

  pub Ends-raise_if :
      {B : Type 0} (b : Bool) (e : Error) (f : Unit {0} → Exec B) (s : State)
      → P s
      → ((u : Unit {0}) → b ≡ false → Ends P (f u s))
      → Ends P (continue (raise_if b e s).0 f (raise_if b e s).1)
  Ends-raise_if true e f s h k = record { here = h }
  Ends-raise_if false e f s h k = k tt refl

  pub Ends-if :
      {A : Type 0} (b : Bool) (x y : A × State)
      → (b ≡ true → Ends P x)
      → (b ≡ false → Ends P y)
      → Ends P (if b then x else y)
  Ends-if true x y h k = h refl
  Ends-if false x y h k = k refl

  pub Ends-choice :
      {A : Type 0} (b : Bool) (m n : Exec A) (s : State)
      → Ends P (m s)
      → Ends P (n s)
      → Ends P ((if b then m else n) s)
  Ends-choice true m n s h k = h
  Ends-choice false m n s h k = k

pub ruleset ends_rules = (Ends-choice, Ends-pair, Ends-continue, Ends-bind, Ends-raise_if, Ends-if)
