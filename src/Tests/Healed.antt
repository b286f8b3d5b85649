-- ===== src/Tests/Healed.antt =====
-- A run of core/cas/cas.go over nodes of core/node as its backends, one of which lost the block.
use nft_soket.Base.{
  ℕ, ◌≡◌, refl, All, Option, some, List, [], ◌∷◌, Bool-cases, Option-cases, arith, inl, inr,
}
use nft_soket.Base.Result.{ok}
use nft_soket.Base.Text.{Text, text_eq, eq_of_text_eq, after_prefix}
use nft_soket.Base.Hex.{hex_digit, hex_encode}
use nft_soket.Base.Dict.{lookup, insert}
use nft_soket.Http.{bearer, client_headers}
use nft_soket.Cas.{Backend, address, get, find, accept, heal, heal_one, verify}
use nft_soket.Cas.Replication.{IsLawful}
use nft_soket.Cas.Survival.{IsStable}
use nft_soket.Cas.Loss.{IsClean}
use nft_soket.Cas.Healing.{IsUp, get-holds}
use nft_soket.Cas.Integrity.{NoCollision}
use nft_soket.Node.{
  Store, handle, refusal, authorized, serve, put_block, write_block, head_block, get_block,
}
use nft_soket.Node.Client
use nft_soket.Node.Client.{remote, url, send}
use nft_soket.Node.Lasting.{remote-IsStable}
use nft_soket.Node.Remote.{remote-IsLawful}
use nft_soket.Tests.Network.{counter, server, point, escape, route, routed, wire}
use nft_soket.Tests.Storage.{memory, memory-IsLawful, same, same-NoCollision, block, block_addr}
use nft_soket.Tests.Lost.{memory-IsStable}

abbrev node : Backend
node = remote wire point

abbrev view : Text → Store memory counter same → Option (List ℕ)
view addr t = lookup addr t.0

node-IsLawful : IsLawful node view
node-IsLawful =
    remote-IsLawful memory counter same server point escape route routed lookup memory-IsLawful

node-IsStable : IsStable node same view
node-IsStable =
    remote-IsStable memory counter same server point escape route routed lookup memory-IsStable refl
      refl

node-IsUp : IsUp node view block_addr block
unfolding Client.put Client.has send handle refusal authorized serve put_block write_block
    head_block url address hex_encode hex_digit text_eq after_prefix bearer client_headers
node-IsUp = record {
  reports = λ t. elim (Option-cases (lookup block_addr t.0)) [
    | inl gone ↦ ground (arith, gone)
    | inr (bytes, there) ↦ ground (arith, there)
  ];
  accepts = λ t. refl;
}

abbrev damaged : List (Store memory counter same)
damaged = ([], 0) ∷ ((block_addr, block) ∷ [], 0) ∷ []

abbrev healed : List (Store memory counter same)
healed = ((block_addr, block) ∷ [], 0) ∷ ((block_addr, block) ∷ [], 0) ∷ []

damaged-get : get node same block_addr damaged ≡ (ok block, healed)
unfolding get find accept heal heal_one verify Client.put Client.has Client.get send handle refusal
    authorized serve put_block write_block head_block get_block url address hex_encode hex_digit
    text_eq after_prefix bearer client_headers lookup insert
damaged-get = refl

named : address same block ≡ block_addr
unfolding address hex_encode hex_digit
named = refl

damaged-IsClean : All (IsClean node same view node-IsLawful node-IsStable) damaged
unfolding lookup
damaged-IsClean = ((λ addr bytes a h. cc), ((λ addr bytes a h. copy addr bytes h), tt))
  where
    copy :
        (addr : Text) (bytes : List ℕ)
        → lookup addr ((block_addr, block) ∷ []) ≡ some bytes
        → address same bytes ≡ addr
    copy addr bytes h = elim (Bool-cases (text_eq block_addr addr)) [
      | inl e ↦ ground (arith, e, h, named, eq_of_text_eq block_addr addr e)
      | inr e ↦ absurd (ground (arith, e, h))
    ]

node-NoCollision : NoCollision node same block
node-NoCollision = same-NoCollision block

get-holds_example : All (λ t. view block_addr t ≡ some block) healed
get-holds_example =
    get-holds node same view node-IsLawful node-IsStable block_addr block damaged healed node-IsUp
      node-NoCollision damaged-IsClean damaged-get
