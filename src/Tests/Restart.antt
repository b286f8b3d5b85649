-- ===== src/Tests/Restart.antt =====
-- A run of core/control/store.go: a state file with the usages of two accounts.
use mathlib.Core.Option
use nft_soket.Base.{ℕ, Option, none, some, List, [], ◌∷◌, if◌then◌else◌}
use nft_soket.Base.Int.{ℤ, pos}
use nft_soket.Base.Text.{Text, codes}
use nft_soket.Base.Dict.{Dict}
use nft_soket.Payment.{text_lt}
use nft_soket.Control.Model.{Usage}
use nft_soket.Control.Exec.{Snapshot}
use nft_soket.Control.Store.{empty_snapshot}
use nft_soket.Control.File.{Json}

abbrev usage_of : Text → ℕ → ℕ → ℕ → Usage
usage_of id n m k = record {
  account_id = id;
  bytes_used = pos n;
  object_count = pos m;
  updated_at = pos k;
}

abbrev with_usage : Dict Usage → Snapshot
with_usage usage = record empty_snapshot { usage = usage }

-- The entries sorted by their keys, as encoding/json writes them.
abbrev insert_entry : Text → Usage → Dict Usage → Dict Usage
insert_entry k u [] = (k, u) ∷ []
insert_entry k u ((j, v) ∷ d) =
    let rest = insert_entry k u d in if text_lt k j then (k, u) ∷ (j, v) ∷ d else (j, v) ∷ rest

abbrev sorted : Dict Usage → Dict Usage
sorted [] = []
sorted ((k, u) ∷ d) = insert_entry k u (sorted d)

-- An encoding of the usages of accounts with names of one letter; the other maps are to be empty.
abbrev encode_entry : Text → ℤ → ℤ → ℤ → Option (List ℕ) → Option (List ℕ)
encode_entry (c ∷ []) (pos n) (pos m) (pos k) (some bytes) = some (c ∷ n ∷ m ∷ k ∷ bytes)
encode_entry k x y z rest = none

abbrev encode_usage : Dict Usage → Option (List ℕ)
encode_usage [] = some []
encode_usage ((k, u) ∷ d) = encode_entry k u.bytes_used u.object_count u.updated_at (encode_usage d)

abbrev decode_usage : List ℕ → Option (Dict Usage)
decode_usage [] = some []
decode_usage (c ∷ n ∷ m ∷ k ∷ bytes) =
    Option.map (λ d. (c ∷ [], usage_of (c ∷ []) n m k) ∷ d) (decode_usage bytes)
decode_usage bytes = none

abbrev json : Json
json = record {
  marshal = λ st. encode_usage (sorted st.usage);
  unmarshal = λ st bytes. Option.map (λ d. record st { usage = d }) (decode_usage bytes);
}

-- Two usages, in another order than that of their keys.
abbrev snapshot : Snapshot
snapshot =
    with_usage
      ((codes "b", usage_of (codes "b") 60 2 5) ∷ (codes "a", usage_of (codes "a") 7 1 9) ∷ [])

abbrev loaded : Snapshot
loaded =
    with_usage
      ((codes "a", usage_of (codes "a") 7 1 9) ∷ (codes "b", usage_of (codes "b") 60 2 5) ∷ [])

abbrev state_file : Text
state_file = codes "control.json"

abbrev empty_disk : Dict (List ℕ)
empty_disk = []
