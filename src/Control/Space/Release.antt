-- ===== src/Control/Space/Release.antt =====
-- What `Release` of core/control/service.go guarantees about the used space, alone and after `Reserve`.
use nft_soket.Base.{◌≡◌, sym, ap, ◌∙◌, subst, false, if◌then◌else◌, arith, Bool-cases, inl, inr}
use nft_soket.Base.Result.{ok}
use nft_soket.Base.Int.{
  ℤ, pos, pos_part, neg_part, ◌≤ℤ◌, ltb_ℤ, InInt64, sub64_exact, ltb_ℤ→le, int_laws,
  difference-InInt64, not_negative→ltb, cancel_ℤ, ◌+ℤ◌, ◌-ℤ◌,
}
use nft_soket.Base.Text.{Text, text_eq, text_eq_refl, eq_of_text_eq}
use nft_soket.Base.Dict.{lookup, insert}
use nft_soket.Control.Model.{Usage}
use nft_soket.Control.Exec.{Env, State}
use nft_soket.Control.Store.{get_usage, save_usage}
use nft_soket.Control.Service.{reserve, release, released_usage}
use nft_soket.Control.Space.{used, get_usage-insert, IsWithinQuota, reserve-ok}

-- The state after a release.
release-state :
    (env : Env) (id : Text) (bytes : ℤ) (s : State)
    → ltb_ℤ bytes (pos 0) ≡ false
    → (release env id bytes s).1 ≡ record s {
      store = record s.store {
        usage = insert id (released_usage env id bytes (get_usage id s.store)) s.store.usage;
      };
    }
unfolding release save_usage released_usage
release-state env id bytes s h = rw (h, release)

used-release :
    (env : Env) (id : Text) (bytes : ℤ) (s : State) (j : Text)
    → ltb_ℤ bytes (pos 0) ≡ false
    → used j (release env id bytes s).1 ≡ (
        if text_eq id j
        then (released_usage env id bytes (get_usage id s.store)).bytes_used
        else used j s)
used-release env id bytes s j h =
    ap (used j) (release-state env id bytes s h)
    ∙ ap (λ (u : Usage). u.bytes_used)
        (get_usage-insert j id (released_usage env id bytes (get_usage id s.store)) s.store)
    ∙ ground arith

-- The bytes in use after a release: the difference, or 0 if that is negative.
released-exact :
    (env : Env) (id : Text) (bytes : ℤ) (u : Usage)
    → pos 0 ≤ℤ u.bytes_used
    → pos 0 ≤ℤ bytes
    → InInt64 u.bytes_used
    → InInt64 bytes
    → (released_usage env id bytes u).bytes_used
      ≡ (if ltb_ℤ (u.bytes_used -ℤ bytes) (pos 0) then pos 0 else u.bytes_used -ℤ bytes)
unfolding released_usage
released-exact env id bytes u p q r s =
    rw (sub64_exact u.bytes_used bytes (difference-InInt64 u.bytes_used bytes p q r s))

released_bounds :
    (a b : ℤ)
    → pos 0 ≤ℤ a
    → pos 0 ≤ℤ b
    → (pos 0 ≤ℤ (if ltb_ℤ (a -ℤ b) (pos 0) then pos 0 else a -ℤ b))
      × ((if ltb_ℤ (a -ℤ b) (pos 0) then pos 0 else a -ℤ b) ≤ℤ a)
unfolding ◌-ℤ◌
released_bounds a b p q = ground arith

-- `Release` of int64 bytes, also when it is refused, keeps every account within its quota and no
-- account below zero.
pub release-IsWithinQuota :
    (env : Env) (id : Text) (bytes : ℤ) (s : State)
    → InInt64 (used id s)
    → InInt64 bytes
    → IsWithinQuota s
    → IsWithinQuota (release env id bytes s).1
unfolding release
release-IsWithinQuota env id bytes s ru rb v = elim (Bool-cases (ltb_ℤ bytes (pos 0))) [
  | inl negative ↦ rw (negative, release) v
  | inr h ↦
      keep (release env id bytes s).1 (λ j. used-release env id bytes s j h)
        (release-state env id bytes s h) (bounds h)
]
  where
    new : ℤ
    new = (released_usage env id bytes (get_usage id s.store)).bytes_used

    bounds : ltb_ℤ bytes (pos 0) ≡ false → (pos 0 ≤ℤ new) × (new ≤ℤ used id s)
    bounds h =
        let p : pos 0 ≤ℤ bytes = ltb_ℤ→le bytes (pos 0) h in
        rw (released-exact env id bytes (get_usage id s.store) (v.not_negative id) p ru rb)
          (released_bounds (used id s) bytes (v.not_negative id) p)

    keep :
        (t : State)
        → ((j : Text) → used j t ≡ (if text_eq id j then new else used j s))
        → t ≡ record s {
          store = record s.store {
            usage = insert id (released_usage env id bytes (get_usage id s.store)) s.store.usage;
          };
        }
        → (pos 0 ≤ℤ new) × (new ≤ℤ used id s)
        → IsWithinQuota t
    keep t at e (low, high) = record {
      quota = λ j a plan found on_plan.
          let old : used j s ≤ℤ plan.quota_bytes =
            v.quota j a plan (sym (ap (λ (x : State). lookup j x.store.accounts) e) ∙ found)
              (sym (ap (λ (x : State). lookup a.plan_id x.store.plans) e) ∙ on_plan) in
          elim (Bool-cases (text_eq id j)) [
            | inr h ↦ rw (at j, h) old
            | inl h ↦
                rw (at j, h)
                  (omega (
                    arith,
                    high,
                    old,
                    ap (λ (k : Text). pos_part (used k s)) (eq_of_text_eq id j h),
                    ap (λ (k : Text). neg_part (used k s)) (eq_of_text_eq id j h),
                  ))
          ];
      not_negative = λ j. elim (Bool-cases (text_eq id j)) [
        | inr h ↦ rw (at j, h) (v.not_negative j)
        | inl h ↦ rw (at j, h) low
      ];
    }

-- Releasing what was just reserved gives the account its former use back, where the sum is an int64.
pub release-reserve :
    (env : Env) (id : Text) (bytes : ℤ) (s t : State)
    → InInt64 (used id s +ℤ bytes)
    → InInt64 (used id s)
    → InInt64 bytes
    → pos 0 ≤ℤ used id s
    → reserve env id bytes s ≡ (ok tt, t)
    → used id (release env id bytes t).1 ≡ used id s
release-reserve env id bytes s t range ru rb u e =
    let (a, plan, r) = reserve-ok env id bytes s t range e in
    let h : ltb_ℤ bytes (pos 0) ≡ false = not_negative→ltb bytes r.not_negative in
    used-release env id bytes t id h
    ∙ rw (text_eq_refl id) (
        released-exact env id bytes (get_usage id t.store)
          (subst (λ (z : ℤ). pos 0 ≤ℤ z) (sym r.charged) (omega (int_laws, u, r.not_negative)))
          r.not_negative (subst InInt64 (sym r.charged) range) rb
        ∙ ap (λ (z : ℤ). if ltb_ℤ (z -ℤ bytes) (pos 0) then pos 0 else z -ℤ bytes) r.charged
        ∙ cancel_ℤ (used id s) bytes u)
