-- ===== src/Node/Admission.antt =====
-- What a node of core/node/server.go lets in.
use nft_soket.Base.{
  ℕ, ◌≤◌, ◌≡◌, ◌⊎◌, ap₂, true, false, ◌||◌, none, List, length, ltb, arith, Bool-cases,
  Option-cases, inl, inr,
}
use nft_soket.Base.Result.{Result, ok, err, Result-cases}
use nft_soket.Base.Int.{pos}
use nft_soket.Base.Text.{Text, text_eq, eq_of_text_eq, text_eq_refl, is_empty}
use nft_soket.Http.{Method, Headers, Body, reply, bearer}
use nft_soket.Cas.{Backend, BackendError, address, is_present}
use nft_soket.Control.Api.{ClientError}
use nft_soket.Node.Statuses.{quota_status-bounds, refusal-bounds}
use nft_soket.Node.{
  block, Request, Quota, Server, Store, authorized, refusal, write_block, charge_block, put_block,
  serve, handle,
}

module _ (B : Backend) (Q : Quota) (hash : List ℕ → List ℕ) where
  -- What the acceptance of a block shows of the request and the quota.
  pub record IsAdmitted (s : Server) (r : Request) (addr : Text) (t u : Store B Q hash)
      : Type 0 where
    pub content : address hash r.body.content ≡ addr
    pub whole : r.body.fails ≡ false
    pub identified :
        ((s.with_quota ≡ true) × (is_empty (bearer r.headers) ≡ false))
        ⊎ ((s.with_quota ≡ false) × (authorized s r.headers ≡ true))
    pub charged :
        s.with_quota ≡ true
        → is_present (B.has addr t.0).0 ≡ false
        → Q.reserve (bearer r.headers) (pos (length r.body.content)) t.1 ≡ (ok tt, u.1)
    pub not_charged : (s.with_quota ≡ false) ⊎ (is_present (B.has addr t.0).0 ≡ true) → u.1 ≡ t.1

  identified_of :
      (s : Server) (r : Request) (addr : Text)
      → r.route ≡ block addr
      → refusal s r ≡ none
      → ((s.with_quota ≡ true) × (is_empty (bearer r.headers) ≡ false))
        ⊎ ((s.with_quota ≡ false) × (authorized s r.headers ≡ true))
  unfolding refusal
  identified_of s r addr l h = elim (Bool-cases s.with_quota) [
    | inl quota ↦ inl (quota, ground (arith, l, h, quota))
    | inr free ↦ inr (free, ground (arith, l, h, free))
  ]

  -- A block that a node acknowledges with 201 arrived whole and has the address that was claimed; the
  -- sender gave the node's token, or in quota mode some token. In quota mode a block that the node did
  -- not report was charged to that token, by its length; otherwise nothing was charged.
  pub handle-IsAdmitted :
      (s : Server) (r : Request) (addr : Text) (t u : Store B Q hash) (body : List ℕ)
      → r.method ≡ Method.put
      → r.route ≡ block addr
      → handle B Q hash s r t ≡ (record { status = 201; body = body }, u)
      → IsAdmitted s r addr t u
  unfolding handle serve put_block charge_block write_block
  handle-IsAdmitted s r addr t u body m l h = elim (Option-cases (refusal s r)) [
    | inr (code, refused) ↦
        absurd ((refusal-bounds s r code refused).1 (ground (arith, refused, h)))
    | inl passed ↦ elim (Bool-cases (r.body.fails || ltb s.max_body (length r.body.content))) [
      | inl unread ↦ absurd (ground (arith, passed, m, l, unread, h))
      | inr was_read ↦ elim (Bool-cases (text_eq (address hash r.body.content) addr)) [
        | inr differs ↦ absurd (ground (arith, passed, m, l, was_read, differs, h))
        | inl same ↦ record {
          content = eq_of_text_eq _ _ same;
          whole = ground (arith, was_read);
          identified = identified_of s r addr l passed;
          charged = λ quota gone.
              elim (Result-cases
                (Q.reserve (bearer r.headers) (pos (length r.body.content)) t.1).0) [
                  | inl (x, done) ↦
                      let left : (Q.reserve (bearer r.headers) (pos (length r.body.content)) t.1).1
                          ≡ u.1 =
                        ground (arith, passed, m, l, was_read, same, quota, gone, done, h) in
                      ap₂ (λ (x : Result ClientError Unit) (q : Q.Ledger). (x, q)) done left
                  | inr (e, failed) ↦ absurd (
                      (quota_status-bounds e).1
                        (ground (arith, passed, m, l, was_read, same, quota, gone, failed, h)))
                ];
          not_charged = λ free. elim free [
            | inl open_node ↦ ground (arith, passed, m, l, was_read, same, open_node, h)
            | inr there ↦ elim (Bool-cases s.with_quota) [
              | inl quota ↦ ground (arith, passed, m, l, was_read, same, quota, there, h)
              | inr open_node ↦ ground (arith, passed, m, l, was_read, same, open_node, h)
            ]
          ];
        }
      ]
    ]
  ]

  -- A new block that was charged and that the backend then refuses stays charged: the node answers
  -- 500, the ledger is the one after the reservation, and no bytes are released.
  pub put_block-charged :
      (s : Server) (headers : Headers) (addr : Text) (body : Body) (t : Store B Q hash)
      (e : BackendError)
      → s.with_quota ≡ true
      → body.fails ≡ false
      → length body.content ≤ s.max_body
      → address hash body.content ≡ addr
      → is_present (B.has addr t.0).0 ≡ false
      → (Q.reserve (bearer headers) (pos (length body.content)) t.1).0 ≡ ok tt
      → (B.put addr body.content (B.has addr t.0).1).0 ≡ err e
      → ((put_block B Q hash s headers addr body t).0 ≡ reply 500)
        × ((put_block B Q hash s headers addr body t).1.1
            ≡ (Q.reserve (bearer headers) (pos (length body.content)) t.1).1)
  unfolding put_block charge_block write_block
  put_block-charged s headers addr body t e quota whole small same gone charged failed =
      let equal : text_eq (address hash body.content) addr ≡ true = rw same (text_eq_refl addr) in
      (
        ground (arith, quota, whole, small, equal, gone, charged, failed),
        ground (arith, quota, whole, small, equal, gone, charged, failed),
      )
