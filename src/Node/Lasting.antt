-- ===== src/Node/Lasting.antt =====
-- core/node/client.go against core/node/server.go over time: a node is a storage point as lasting as its backend.
use nft_soket.Base.{◌≡◌, ◌≢◌, ap, ◌∙◌, false, Option, List, ℕ, inl, inr}
use nft_soket.Base.Text.{Text}
use nft_soket.Cas.{Backend}
use nft_soket.Cas.Survival.{IsStable, IsAddress}
use nft_soket.Node.{Route, block, Quota, Server, Store}
use nft_soket.Node.Client.{RemoteBackend, url}
use nft_soket.Node.Wire.{wire_to, Probed}
use nft_soket.Node.Remote.{point, PointPut, put-PointPut, get-remote}

module _ (B : Backend) (Q : Quota) (hash : List ℕ → List ℕ) (s : Server) (r : RemoteBackend)
    (escape : Text → Text) (route : Text → Route)
    (routed : (addr : Text) → route (url (wire_to B Q hash s escape route) r addr) ≡ block addr)
    (view : Text → B.State → Option (List ℕ)) (stable : IsStable B hash view) where
  abbrev here : Backend
  here = point B Q hash s r escape route routed

  view-Probed :
      (addr other : Text) (b c : B.State) → Probed B Q hash s addr b c → view other c ≡ view other b
  view-Probed addr other b c (inl same) = ap (view other) same
  view-Probed addr other b c (inr probed) = ap (view other) probed ∙ stable.has_keeps addr other b

  put_other :
      (addr other : Text) (bytes : List ℕ) (t : Store B Q hash)
      → IsAddress hash addr
      → IsAddress hash other
      → addr ≢ other
      → PointPut B Q hash s r escape route routed addr bytes t
      → view other (here.put addr bytes t).1.0 ≡ view other t.0
  put_other addr other bytes t own yours differ (b, p, inl (failed, left)) =
      ap (view other) left ∙ view-Probed addr other t.0 b p
  put_other addr other bytes t own yours differ (b, p, inr (inl (written, fine, left))) =
      ap (view other) left
      ∙ stable.put_other addr other bytes b own yours differ
      ∙ view-Probed addr other t.0 b p
  put_other addr other bytes t own yours differ (b, p, inr (inr (e, x, failed, left))) =
      ap (view other) left
      ∙ stable.put_other addr other bytes b own yours differ
      ∙ view-Probed addr other t.0 b p

  -- A remote backend keeps what a store relies on over time if the node's backend does, where the node has no
  -- quota, the tokens agree and the URL of a block leads to it.
  pub remote-IsStable :
      s.with_quota ≡ false → r.token ≡ s.token → IsStable here hash (λ addr t. view addr t.0)
  remote-IsStable free same =
      let answer = λ (addr : Text) (t : Store B Q hash).
        get-remote B Q hash s r escape route addr t (routed addr) free same in
      record {
        put_other = λ addr other bytes t own yours differ.
            put_other addr other bytes t own yours differ
              (put-PointPut B Q hash s r escape route routed addr bytes t);
        has_keeps = λ addr other t.
            ap (λ x. view other x.1.0) (answer addr t).1 ∙ stable.has_keeps addr other t.0;
        get_keeps = λ addr other t.
            ap (λ x. view other x.1.0) (answer addr t).0 ∙ stable.get_keeps addr other t.0;
        get_view = λ addr bytes t there.
            ap (λ x. x.0) (answer addr t).0 ∙ stable.get_view addr bytes t.0 there;
      }
