-- ===== src/Tests/Disk.antt =====
-- A run of core/cas/fsbackend.go on files in a map, and of the error statuses.
use nft_soket.Base.{ℕ, ◌≡◌, refl, Option, none, some, List, [], ◌∷◌, ◌++◌, arith}
use nft_soket.Base.Result.{Result, ok, err}
use nft_soket.Base.Text.{Text, codes, text_eq, text_eq_refl}
use nft_soket.Base.Dict.{Dict, lookup, insert, lookup-insert}
use nft_soket.Cas.Files
use nft_soket.Cas.Files.{FileSystem, FileError, not_exist, put_at, path, get-put}

abbrev flat : List Text → Text
flat [] = []
flat (part ∷ parts) = codes "/" ++ part ++ flat parts

abbrev pub read : Option (List ℕ) → Result FileError (List ℕ)
read none = err not_exist
read (some bytes) = ok bytes

abbrev pub exists : Option (List ℕ) → Result FileError Unit
exists none = err not_exist
exists (some bytes) = ok tt

abbrev pub move : Option (List ℕ) → Text → Dict (List ℕ) → Result FileError Unit × Dict (List ℕ)
move none q d = (err not_exist, d)
move (some bytes) q d = (ok tt, insert q bytes d)

abbrev pub disk : FileSystem
disk = record {
  Files = Dict (List ℕ);
  join = flat;
  dir = λ p. p;
  mkdir_all = λ p d. (ok tt, d);
  stat = λ p d. exists (lookup p d);
  read_file = λ p d. read (lookup p d);
  write_file = λ p bytes d. (ok tt, insert p bytes d);
  rename = λ p q d. move (lookup p d) q d;
}

read_new :
    (p : Text) (bytes : List ℕ) (d : Dict (List ℕ)) → read (lookup p (insert p bytes d)) ≡ ok bytes
read_new p bytes d = ground (arith, lookup-insert p p bytes d, text_eq_refl p)

read_moved :
    (q : Text) (o : Option (List ℕ)) (d : Dict (List ℕ))
    → (move o q d).0 ≡ ok tt
    → read (lookup q (move o q d).1) ≡ read o
read_moved q none d h = cc
read_moved q (some bytes) d h = read_new q bytes d

pub disk-IsLawful : Files.IsLawful disk
disk-IsLawful = record {
  mkdir_keeps = λ p q d. refl;
  write_reads = λ p bytes d h. read_new p bytes d;
  rename_reads = λ p q d h. read_moved q (lookup p d) d h;
}

abbrev empty_disk : Dict (List ℕ)
empty_disk = []

abbrev written : Dict (List ℕ)
written = (Files.put disk (codes "r") (codes "v1:0709") (7 ∷ []) empty_disk).1

written-put : (Files.put disk (codes "r") (codes "v1:0709") (7 ∷ []) empty_disk).0 ≡ ok tt
unfolding Files.put put_at path lookup insert text_eq
written-put = refl
