-- ===== src/Node/Metered.antt =====
-- A node whose quota is the control server: core/node/server.go over core/control/client.go,
-- core/control/api.go and core/control/service.go.
use nft_soket.Base.{ℕ, ◌≡◌, sym, ◌∙◌, true, false, some, List, length, arith, inl, inr}
use nft_soket.Base.Result.{ok}
use nft_soket.Base.Int.{pos, InInt64, ◌+ℤ◌}
use nft_soket.Base.Text.{Text, codes}
use nft_soket.Http.{Method, bearer}
use nft_soket.Cas.{Backend, is_present}
use nft_soket.Control.Model.{Plan, Account}
use nft_soket.Control.Exec.{Env, Exec, State}
use nft_soket.Control.Service as Methods
use nft_soket.Control.Service.{authenticate}
use nft_soket.Control.Space.{used, reserve-ok, IsReservation}
use nft_soket.Control.Api.Handling.{limited}
use nft_soket.Control.Api.Guards.{authenticate-cases}
use nft_soket.Control.Api.Server.{Api}
use nft_soket.Control.Client.{Link, reserve_path, release_path, Client}
use nft_soket.Control.Client as Calls
use nft_soket.Control.Client.Served.{Codec, link_to, metered, usage_path, sent, client-metered}
use nft_soket.Node.{block, Request, Quota, Server, Store, handle}
use nft_soket.Node.Admission.{handle-IsAdmitted}

-- A control client as the node's QuotaEnforcer.
abbrev pub control_quota : Link → Client → Quota
control_quota L c = record { Ledger = L.World; reserve = Calls.reserve L c }

-- A method that succeeded for a token belongs to an account.
metered-ok :
    (env : Env) (method : Text → Exec (Unit {0})) (token : Text) (s t : State)
    → metered env method token s ≡ (ok tt, t)
    → (acc : Account) × (authenticate env token s ≡ (ok acc, s)) × (method acc.id s ≡ (ok tt, t))
unfolding metered
metered-ok env method token s t e = elim (authenticate-cases env token s) [
  | inr (x, failed) ↦ absurd (ground (arith, failed, e))
  | inl (acc, found) ↦ (acc, found, ground (arith, found, e))
]

-- A block that is new to the node and that it acknowledges with 201 was charged, by its length, to the
-- account of the sender's token: a reservation of the service on an active account, within the quota of
-- its plan. The control server answers, its paths are split at their slashes, it reads the number that
-- the node's client wrote, and the sum of the bytes in use and the block's is an int64.
pub handle-IsReservation :
    (B : Backend) (hash : List ℕ → List ℕ) (codec : Codec) (segments : Text → List Text) (api : Api)
    (c : Client) (s : Server) (r : Request) (addr : Text)
    (t u : Store B (control_quota (link_to codec segments api c.base_url) c) hash) (body : List ℕ)
    → segments reserve_path ≡ usage_path (codes "reserve")
    → segments release_path ≡ usage_path (codes "release")
    → api.json.byte_count (limited (sent (codec.encode_bytes (pos (length r.body.content)))))
      ≡ some (pos (length r.body.content))
    → ((acc : Account) → InInt64 (used acc.id t.1 +ℤ pos (length r.body.content)))
    → s.with_quota ≡ true
    → is_present (B.has addr t.0).0 ≡ false
    → r.method ≡ Method.put
    → r.route ≡ block addr
    → handle B (control_quota (link_to codec segments api c.base_url) c) hash s r t
      ≡ (record { status = 201; body = body }, u)
    → (acc : Account) × (authenticate api.env (bearer r.headers) t.1 ≡ (ok acc, t.1))
      × (a : Account) × (plan : Plan) × IsReservation acc.id
          (pos (length r.body.content))
          t.1
          u.1
          a
          plan
handle-IsReservation B hash codec segments api c s r addr t u body to_reserve to_release decodes
      range quota gone m l h =
    let bytes = pos (length r.body.content) in
    let admitted =
      handle-IsAdmitted B (control_quota (link_to codec segments api c.base_url) c) hash s r addr t
        u body m l h in
    let (acc, known, done) =
      metered-ok api.env (λ id. Methods.reserve api.env id bytes) (bearer r.headers) t.1 u.1
        (sym
            (client-metered codec segments api c (bearer r.headers) bytes t.1 to_reserve to_release
              decodes).0
          ∙ admitted.charged quota gone) in
    let (a, plan, made) = reserve-ok api.env acc.id bytes t.1 u.1 (range acc) done in
    (acc, known, a, plan, made)
