-- ===== src/Tests/Lost.antt =====
-- Runs of core/cas/cas.go and core/vault/vault.go on two backends, one of which is lost, and a node as a backend.
use nft_soket.Base.{ℕ, ◌<◌, ◌≡◌, ◌≢◌, refl, ap, some, List, [], ◌∷◌, length, drop, arith}
use nft_soket.Base.Result.{ok}
use nft_soket.Base.Int.{add64, wrap64, ◌+ℤ◌}
use nft_soket.Base.Text.{Text, codes, text_eq, text_eq_iff}
use nft_soket.Base.Hex.{hex_digit, hex_encode}
use nft_soket.Base.Dict.{Dict, lookup, insert, lookup-insert}
use nft_soket.Aead.{aad, big_endian32, seal}
use nft_soket.Cas.{
  address, put, put_all, get, find, accept, heal, heal_one, verify, health, health_from,
}
use nft_soket.Cas.Survival.{IsStable, Call, getting, probing, after_all}
use nft_soket.Cas.Loss.{OneLost, lost, get-put-lost}
use nft_soket.Vault.{Manifest, put_file, get_file, put_chunks, put_block, seal_block, store_block}
use nft_soket.Vault.Survival.{get_file-put_file-lost}
use nft_soket.Node.Client.{remote}
use nft_soket.Node.Lasting.{remote-IsStable}
use nft_soket.Tests.Network.{counter, server, point, escape, route, routed, wire}
use nft_soket.Tests.Storage.{
  memory, same, memory-IsLawful, same-NoCollision, block, block_addr, block-put, config,
  config-IsSound, vault, file, nothing_stored, root, file-put, stored,
}

write_other :
    (addr other : Text) (bytes : List ℕ) (d : Dict (List ℕ))
    → addr ≢ other
    → lookup other (memory.put addr bytes d).1 ≡ lookup other d
write_other addr other bytes d h =
    ground (arith, h, lookup-insert addr other bytes d, text_eq_iff addr other)

read_view :
    (addr : Text) (bytes : List ℕ) (d : Dict (List ℕ))
    → lookup addr d ≡ some bytes
    → (memory.get addr d).0 ≡ ok bytes
read_view addr bytes d h = ground (arith, h)

pub memory-IsStable : IsStable memory same lookup
memory-IsStable = record {
  put_other = λ addr other bytes d own a h. write_other addr other bytes d h;
  has_keeps = λ addr other d. refl;
  get_keeps = λ addr other d. refl;
  get_view = λ addr bytes d h. read_view addr bytes d h;
}

-- The first backend comes back empty.
pub first-OneLost : (bs : List (Dict (List ℕ))) → 0 < length bs → OneLost bs ([] ∷ drop 1 bs)
first-OneLost [] h = absurd (omega arith)
first-OneLost (b ∷ bs) h = lost b [] bs

abbrev calls : List Call
calls = getting block_addr ∷ probing block_addr ∷ []

abbrev block_kept : List (Dict (List ℕ))
block_kept = after_all memory same calls (put memory same block ([] ∷ [] ∷ [])).1

block-kept : 0 < length block_kept
unfolding put put_all address hex_encode hex_digit lookup insert get find accept heal heal_one
    verify health health_from text_eq
block-kept = omega arith

get-put-lost_example : (get memory same block_addr ([] ∷ drop 1 block_kept)).0 ≡ ok block
unfolding lookup
get-put-lost_example =
    get-put-lost memory same lookup memory-IsLawful memory-IsStable block ([] ∷ [] ∷ [])
      ([] ∷ drop 1 block_kept) calls block_addr (same-NoCollision block)
      ((λ addr bytes a h. cc), ((λ addr bytes a h. cc), tt)) (ap (λ x. x.0) block-put)
      (first-OneLost block_kept block-kept)

abbrev file_kept : List (Dict (List ℕ))
file_kept = after_all memory same (getting root ∷ probing root ∷ []) stored.0

file-kept : 0 < length file_kept
unfolding put_file put_chunks put_block seal_block store_block seal put put_all address hex_encode
    hex_digit aad big_endian32 lookup insert text_eq add64 wrap64 ◌+ℤ◌ get find accept heal heal_one
    verify health health_from
file-kept = omega arith

get_file-put_file-lost_example :
    (m : Manifest) × (m.name ≡ codes "a")
    × ((get_file config vault root ([] ∷ drop 1 file_kept, 9)).0 ≡ ok (m, 5 ∷ 6 ∷ []))
unfolding lookup
get_file-put_file-lost_example =
    get_file-put_file-lost config config-IsSound lookup memory-IsLawful memory-IsStable vault
      (codes "a") file nothing_stored root (getting root ∷ probing root ∷ [])
      ([] ∷ drop 1 file_kept) 9 ((λ addr bytes a h. cc), ((λ addr bytes a h. cc), tt)) file-put
      (first-OneLost file_kept file-kept)

remote-IsStable_example : IsStable (remote wire point) same (λ addr t. lookup addr t.0)
remote-IsStable_example =
    remote-IsStable memory counter same server point escape route routed lookup memory-IsStable refl
      refl
