-- ===== src/Cas.antt =====
-- core/cas/cas.go: the content-addressed store over several backends.
-- The hash (BLAKE2b-256) and the backends are parameters: a backend is a state with the methods of
-- the Go interface, each of which returns the new state. The backends of a store are distinct objects,
-- and a successful read returns a slice that is not nil.
pub mod Files
pub mod Integrity
pub mod Replication
pub mod Survival
pub mod Loss
pub mod Healing
use nft_soket.Base.{
  ℕ, zero, suc, ◌+◌, Bool, true, false, Option, none, some, List, [], ◌∷◌, ◌++◌, map, if◌then◌else◌,
  ltb, length,
}
use nft_soket.Base.Result.{Result, ok, err}
use nft_soket.Base.Text.{Text, codes, text_eq}
use nft_soket.Base.Hex.{hex_encode}
use nft_soket.Base.Dict.{Dict, insert}

abbrev pub addr_prefix : Text
addr_prefix = codes "v1:"

pub data BackendError : Type 0 where
  absent failure : BackendError

-- The interface `Backend`.
pub record Backend : Type 1 where
  pub State : Type 0
  pub name : State → Text
  pub put : Text → List ℕ → State → Result BackendError (Unit {0}) × State
  pub get : Text → State → Result BackendError (List ℕ) × State
  pub has : Text → State → Result BackendError Bool × State

pub data Error : Type 0 where
  too_few_backends not_found : Error
  stored_on_few : ℕ → Error

module _ (hash : List ℕ → List ℕ) where
  unfoldable pub address : List ℕ → Text
  address bytes = addr_prefix ++ hex_encode (hash bytes)

  -- `verify`: the address is that of the bytes.
  unfoldable pub verify : Text → List ℕ → Bool
  verify addr bytes = text_eq (address bytes) addr

-- `NewStore`.
unfoldable pub new_store : {S : Type 0} → List S → Result Error (List S)
new_store backends = if ltb (length backends) 2 then err too_few_backends else ok backends

abbrev is_ok : {A : Type 0} → Result BackendError A → Bool
is_ok (ok a) = true
is_ok (err e) = false

-- The Has probe of the healing loop: err == nil && ok.
abbrev pub is_present : Result BackendError Bool → Bool
is_present (ok b) = b
is_present (err e) = false

module _ (B : Backend) (hash : List ℕ → List ℕ) where
  -- The loop of `Put`: every backend is written to, and the successes are counted.
  unfoldable pub put_all : Text → List ℕ → List B.State → ℕ → ℕ × List B.State
  put_all addr bytes [] stored = (stored, [])
  put_all addr bytes (b ∷ backends) stored =
      let (r, b') = B.put addr bytes b in
      let (n, rest) = put_all addr bytes backends (if is_ok r then stored + 1 else stored) in
      (n, b' ∷ rest)

  unfoldable pub put : List ℕ → List B.State → Result Error Text × List B.State
  unfolding put_all
  put bytes backends =
      let addr = address hash bytes in
      let (stored, backends') = put_all addr bytes backends 0 in
      (if ltb stored 2 then err (stored_on_few stored) else ok addr, backends')

  -- What one backend's answer is worth: the bytes, if they verify.
  unfoldable pub accept : Text → Result BackendError (List ℕ) → Option (List ℕ)
  accept addr (err e) = none
  accept addr (ok got) = if verify hash addr got then some got else none

  -- The first loop of `Get` stops at the first copy that verifies.
  unfoldable pub find : Text → List B.State → Option (List ℕ) × List B.State
  unfolding accept
  find addr [] = (none, [])
  find addr (b ∷ backends) =
      let (r, b') = B.get addr b in
      let rest = find addr backends in
      elim (accept addr r) [ some got ↦ (some got, b' ∷ backends) | none ↦ (rest.0, b' ∷ rest.1) ]

  -- The second loop writes to each backend that does not report the block.
  unfoldable pub heal_one : Text → List ℕ → B.State → B.State
  heal_one addr bytes b =
      let (r, b') = B.has addr b in if is_present r then b' else (B.put addr bytes b').1

  unfoldable pub heal : Text → List ℕ → List B.State → List B.State
  unfolding heal_one
  heal addr bytes = map (heal_one addr bytes)

  unfoldable pub get : Text → List B.State → Result Error (List ℕ) × List B.State
  unfolding find heal
  get addr backends =
      let (found, backends') = find addr backends in
      elim found [
        | none ↦ (err not_found, backends')
        | some bytes ↦ (ok bytes, heal addr bytes backends')
      ]

  -- The loop of `Health`: a later backend of the same name replaces the entry.
  unfoldable pub health_from : Text → List B.State → Dict Bool → Dict Bool × List B.State
  health_from addr [] out = (out, [])
  health_from addr (b ∷ backends) out =
      let (r, b') = B.has addr b in
      let (all, rest) = health_from addr backends (insert (B.name b) (is_present r) out) in
      (all, b' ∷ rest)

  unfoldable pub health : Text → List B.State → Dict Bool × List B.State
  unfolding health_from
  health addr backends = health_from addr backends []
