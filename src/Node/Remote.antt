-- ===== src/Node/Remote.antt =====
-- core/node/client.go against core/node/server.go: a remote backend behaves as the node's own backend.
use nft_soket.Base.{
  ℕ, ◌≡◌, ◌⊎◌, refl, ap, ◌∙◌, true, false, Option, none, some, List, [], arith, Option-cases, inl,
  inr,
}
use nft_soket.Base.Result.{ok, err, map_err, Result-cases}
use nft_soket.Base.Text.{Text, text_eq_refl}
use nft_soket.Http.{
  Method, api_version, client_headers, bearer-client_headers, version-client_headers,
}
use nft_soket.Cas.{Backend, BackendError, absent, failure}
use nft_soket.Cas.Replication.{IsLawful}
use nft_soket.Node.{
  Route, block, Request, Quota, Server, Store, authorized, refusal, get_block, head_block,
  write_block, serve, handle,
}
use nft_soket.Node.Client
use nft_soket.Node.Client.{Wire, RemoteBackend, remote, url}
use nft_soket.Node.Wire.{wire_to, Probed, handle-PutEnds}

module _ (B : Backend) (Q : Quota) (hash : List ℕ → List ℕ) (s : Server) (r : RemoteBackend)
    (escape : Text → Text) (route : Text → Route)
    (routed : (addr : Text)
      → route (url (wire_to B Q hash s escape route) r addr) ≡ block addr) where
  abbrev wire : Wire
  wire = wire_to B Q hash s escape route

  -- The states of the remote backend are the node's: its blocks and the ledger.
  abbrev pub point : Backend
  point = remote wire r

  -- A remote write is refused, or it is the backend's write and succeeds where that does.
  abbrev pub PointPut : Text → List ℕ → Store B Q hash → Type 0
  PointPut addr bytes t =
      (b : B.State) × Probed B Q hash s addr t.0 b
      × ((((point.put addr bytes t).0 ≡ err failure) × ((point.put addr bytes t).1.0 ≡ b))
          ⊎ (((B.put addr bytes b).0 ≡ ok tt)
              × ((point.put addr bytes t).0 ≡ ok tt)
              × ((point.put addr bytes t).1.0 ≡ (B.put addr bytes b).1))
          ⊎ ((e : BackendError) × ((B.put addr bytes b).0 ≡ err e)
              × ((point.put addr bytes t).0 ≡ err failure)
              × ((point.put addr bytes t).1.0 ≡ (B.put addr bytes b).1)))

  pub put-PointPut : (addr : Text) (bytes : List ℕ) (t : Store B Q hash) → PointPut addr bytes t
  unfolding Client.put Client.send write_block
  put-PointPut addr bytes t =
      let req : Request = record {
        method = Method.put;
        route = route (url wire r addr);
        headers = client_headers r.token;
        body = record { content = bytes; fails = false };
      } in
      let (b, q, probed, out) = handle-PutEnds B Q hash s req addr t refl (routed addr) in
      elim out [
        | inl (code, refused, x, y) ↦
            (b, probed, inl (ground (arith, refused, x, y), ground (arith, refused)))
        | inr written ↦ elim (Result-cases (B.put addr bytes b).0) [
          | inl (u, done) ↦
              (b, probed, inr (inl (done, ground (arith, written, done), ground (arith, written))))
          | inr (e, failed) ↦ (
            b,
            probed,
            inr (inr (e, failed, ground (arith, written, failed), ground (arith, written))),
          )
        ]
      ]

  module _ (view : Text → B.State → Option (List ℕ)) (law : IsLawful B view) where
    view-Probed :
        (addr : Text) (b c : B.State) → Probed B Q hash s addr b c → view addr c ≡ view addr b
    view-Probed addr b c (inl same) = ap (view addr) same
    view-Probed addr b c (inr probed) = ap (view addr) probed ∙ law.has_keeps addr b

    head-view :
        (addr : Text) (t : Store B Q hash) → view addr (point.has addr t).1.0 ≡ view addr t.0
    unfolding Client.has Client.send handle serve head_block
    head-view addr (b, q) =
        let req : Request = record {
          method = Method.head;
          route = route (url wire r addr);
          headers = client_headers r.token;
          body = record { content = []; fails = false };
        } in
        elim (Option-cases (refusal s req)) [
          | inl admitted ↦ ground (arith, admitted, routed addr, law.has_keeps addr b)
          | inr (code, refused) ↦ ground (arith, refused)
        ]

    -- A remote backend keeps what a store relies on, in the node's blocks, if the node's backend does:
    -- with or without a token or a quota, as long as every request is answered and its URL leads to
    -- the block.
    pub remote-IsLawful : IsLawful point (λ addr t. view addr t.0)
    remote-IsLawful = record {
      put_ok =
          λ addr bytes t done empty. put_ok addr bytes t done empty (put-PointPut addr bytes t);
      put_old =
          λ addr bytes old t there. put_old addr bytes old t there (put-PointPut addr bytes t);
      put_err = λ addr bytes t e failed. put_err addr bytes t e failed (put-PointPut addr bytes t);
      has_keeps = head-view;
    }
      where
        put_ok :
            (addr : Text) (bytes : List ℕ) (t : Store B Q hash)
            → (point.put addr bytes t).0 ≡ ok tt
            → view addr t.0 ≡ none
            → PointPut addr bytes t
            → view addr (point.put addr bytes t).1.0 ≡ some bytes
        put_ok addr bytes t done empty (b, p, inl (failed, left)) = cc (done, failed)
        put_ok addr bytes t done empty (b, p, inr (inl (written, fine, left))) =
            ap (view addr) left ∙ law.put_ok addr bytes b written (view-Probed addr t.0 b p ∙ empty)
        put_ok addr bytes t done empty (b, p, inr (inr (e, x, failed, left))) = cc (done, failed)

        put_old :
            (addr : Text) (bytes old : List ℕ) (t : Store B Q hash)
            → view addr t.0 ≡ some old
            → PointPut addr bytes t
            → view addr (point.put addr bytes t).1.0 ≡ some old
        put_old addr bytes old t there (b, p, inl (failed, left)) =
            ap (view addr) left ∙ view-Probed addr t.0 b p ∙ there
        put_old addr bytes old t there (b, p, inr (inl (written, fine, left))) =
            ap (view addr) left ∙ law.put_old addr bytes old b (view-Probed addr t.0 b p ∙ there)
        put_old addr bytes old t there (b, p, inr (inr (e, x, failed, left))) =
            ap (view addr) left ∙ law.put_old addr bytes old b (view-Probed addr t.0 b p ∙ there)

        put_err :
            (addr : Text) (bytes : List ℕ) (t : Store B Q hash) (e : BackendError)
            → (point.put addr bytes t).0 ≡ err e
            → PointPut addr bytes t
            → view addr (point.put addr bytes t).1.0 ≡ view addr t.0
        put_err addr bytes t e failed (b, p, inl (x, left)) =
            ap (view addr) left ∙ view-Probed addr t.0 b p
        put_err addr bytes t e failed (b, p, inr (inl (written, fine, left))) = cc (failed, fine)
        put_err addr bytes t e failed (b, p, inr (inr (x, refused, y, left))) =
            ap (view addr) left ∙ law.put_err addr bytes b x refused ∙ view-Probed addr t.0 b p

module _ (B : Backend) (Q : Quota) (hash : List ℕ → List ℕ) (s : Server) (r : RemoteBackend)
    (escape : Text → Text) (route : Text → Route) where
  abbrev reader : Backend
  reader = remote (wire_to B Q hash s escape route) r

  -- The request that the client sends.
  abbrev sent : Method → Route → Request
  sent method x = record {
    method = method;
    route = x;
    headers = client_headers r.token;
    body = record { content = []; fails = false };
  }

  same_token : r.token ≡ s.token → authorized s (client_headers r.token) ≡ true
  unfolding authorized
  same_token same = ground (arith, bearer-client_headers r.token, text_eq_refl s.token, same)

  admitted :
      (method : Method) (addr : Text)
      → s.with_quota ≡ false
      → r.token ≡ s.token
      → refusal s (sent method (block addr)) ≡ none
  unfolding refusal
  admitted method addr free same =
      ground
        (arith, version-client_headers r.token, text_eq_refl api_version, same_token same, free)

  -- Where the node answers every request, has no quota and has the client's token, a remote read or probe of an
  -- address whose URL leads to its block gives what the node's backend gives and leaves what that leaves, but that
  -- any failure of a probe is reported as one.
  pub get-remote :
      (addr : Text) (t : Store B Q hash)
      → route (url (wire_to B Q hash s escape route) r addr) ≡ block addr
      → s.with_quota ≡ false
      → r.token ≡ s.token
      → (reader.get addr t ≡ ((B.get addr t.0).0, ((B.get addr t.0).1, t.1)))
        × (reader.has addr t
            ≡ (map_err (λ e. failure) (B.has addr t.0).0, ((B.has addr t.0).1, t.1)))
  unfolding Client.get Client.has Client.send handle serve get_block head_block
  get-remote addr (b, q) leads free same = (
    elim (Result-cases (B.get addr b).0) [
      | inl (bytes, read) ↦ ground (arith, admitted Method.get addr free same, leads, read)
      | inr (absent, failed) ↦ ground (arith, admitted Method.get addr free same, leads, failed)
      | inr (failure, failed) ↦ ground (arith, admitted Method.get addr free same, leads, failed)
    ],
    elim (Result-cases (B.has addr b).0) [
      | inl (true, probed) ↦ ground (arith, admitted Method.head addr free same, leads, probed)
      | inl (false, probed) ↦ ground (arith, admitted Method.head addr free same, leads, probed)
      | inr (e, failed) ↦ ground (arith, admitted Method.head addr free same, leads, failed)
    ],
  )
