-- ===== src/Tests/Directories.antt =====
-- core/cas/fsbackend.go on files in a map, as a backend of a store whose hash puts two zeros before the bytes.
use nft_soket.Base.{ℕ, List, ◌∷◌}
use nft_soket.Base.Text.{Text}
use nft_soket.Base.Dict.{Dict}

abbrev padded : List ℕ → List ℕ
padded bytes = 0 ∷ 0 ∷ bytes
