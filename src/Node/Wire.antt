-- ===== src/Node/Wire.antt =====
-- A node of core/node/server.go at the other end of a wire, and how its answer to a write ends.
use nft_soket.Base.{
  ℕ, ◌≡◌, ◌≢◌, ◌⊎◌, refl, false, not, ◌||◌, some, List, length, ltb, arith, Bool-cases,
  Option-cases, inl, inr,
}
use nft_soket.Base.Result.{Result-cases}
use nft_soket.Base.Int.{pos}
use nft_soket.Base.Text.{Text, text_eq}
use nft_soket.Http.{Method, Headers, Body, Response, reply, bearer}
use nft_soket.Cas.{Backend, address, is_present}
use nft_soket.Node.{
  Route, block, Request, Quota, Server, Store, refusal, quota_status, write_block, charge_block,
  put_block, serve, handle,
}
use nft_soket.Node.Statuses.{quota_status-bounds, refusal-bounds}
use nft_soket.Node.Client.{Wire}

module _ (B : Backend) (Q : Quota) (hash : List ℕ → List ℕ) (s : Server) where
  -- The node answers every request; `route` is what the mux makes of a URL.
  abbrev pub wire_to : (Text → Text) → (Text → Route) → Wire
  wire_to escape route = record {
    World = Store B Q hash;
    escape = escape;
    exchange = λ method path headers content t.
        let (resp, t') =
          handle B Q hash s
            (record {
              method = method;
              route = route path;
              headers = headers;
              body = record { content = content; fails = false };
            })
            t in
        (some resp, t');
  }

  -- The backend as it is, or after the probe of the block.
  abbrev pub Probed : Text → B.State → B.State → Type 0
  Probed addr b c = (c ≡ b) ⊎ (c ≡ (B.has addr b).1)

  -- A request ends with a refusal, which writes nothing, or with the write.
  abbrev pub PutEnds : Text → List ℕ → Store B Q hash → Response × Store B Q hash → Type 0
  PutEnds addr bytes t out =
      (b : B.State) × (q : Q.Ledger) × Probed addr t.0 b
      × (((code : ℕ) × (out ≡ (reply code, (b, q))) × (code ≢ 200) × (code ≢ 201))
          ⊎ (out ≡ write_block B Q hash addr bytes (b, q)))

  charge_block-PutEnds :
      (token addr : Text) (bytes : List ℕ) (t : Store B Q hash)
      → PutEnds addr bytes t (charge_block B Q hash token addr bytes t)
  unfolding charge_block
  charge_block-PutEnds token addr bytes (b, q) = elim (Bool-cases (is_present (B.has addr b).0)) [
    | inl there ↦ ((B.has addr b).1, q, inr refl, inr (rw (there, charge_block)))
    | inr gone ↦ elim (Result-cases (Q.reserve token (pos (length bytes)) q).0) [
      | inl (u, charged) ↦ (
        (B.has addr b).1,
        (Q.reserve token (pos (length bytes)) q).1,
        inr refl,
        inr (rw (gone, charged, charge_block)),
      )
      | inr (e, refused) ↦ (
        (B.has addr b).1,
        (Q.reserve token (pos (length bytes)) q).1,
        inr refl,
        inl (
          quota_status e,
          rw (gone, refused, charge_block),
          (quota_status-bounds e).0,
          (quota_status-bounds e).1,
        ),
      )
    ]
  ]

  put_block-PutEnds :
      (headers : Headers) (addr : Text) (body : Body) (t : Store B Q hash)
      → PutEnds addr body.content t (put_block B Q hash s headers addr body t)
  unfolding put_block
  put_block-PutEnds headers addr body (b, q) =
      elim (Bool-cases (body.fails || ltb s.max_body (length body.content))) [
        | inl unread ↦ (
          b,
          q,
          inl refl,
          inl (400, rw (unread, put_block), (λ e. omega (arith, e)), (λ e. omega (arith, e))),
        )
        | inr was_read ↦ elim (Bool-cases (not (text_eq (address hash body.content) addr))) [
          | inl differs ↦ (
            b,
            q,
            inl refl,
            inl (
              400,
              rw (was_read, differs, put_block),
              (λ e. omega (arith, e)),
              (λ e. omega (arith, e)),
            ),
          )
          | inr same ↦ elim (Bool-cases s.with_quota) [
            | inr open_node ↦ (b, q, inl refl, inr (rw (was_read, same, open_node, put_block)))
            | inl quota ↦
                rw (was_read, same, quota, put_block)
                  (charge_block-PutEnds (bearer headers) addr body.content (b, q))
          ]
        ]
      ]

  pub handle-PutEnds :
      (r : Request) (addr : Text) (t : Store B Q hash)
      → r.method ≡ Method.put
      → r.route ≡ block addr
      → PutEnds addr r.body.content t (handle B Q hash s r t)
  unfolding handle serve
  handle-PutEnds r addr (b, q) m l = elim (Option-cases (refusal s r)) [
    | inl admitted ↦ rw (admitted, l, m, handle) (put_block-PutEnds r.headers addr r.body (b, q))
    | inr (code, refused) ↦ (
      b,
      q,
      inl refl,
      inl (
        code,
        rw (refused, handle),
        (refusal-bounds s r code refused).0,
        (refusal-bounds s r code refused).1,
      ),
    )
  ]
