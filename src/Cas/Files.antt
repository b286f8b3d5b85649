-- ===== src/Cas/Files.antt =====
-- core/cas/fsbackend.go: blocks as files, in directories named by the first two digits.
-- The file system and path/filepath are parameters; a failed call may still change the files.
pub mod Durable
pub mod Backed
pub mod Written
use nft_soket.Base.{
  ℕ, ◌+◌, ◌≡◌, ◌⊎◌, inl, inr, arith, Option-cases, Bool, true, false, Option, none, some, List, [],
  ◌∷◌, ◌++◌, if◌then◌else◌, ltb, length, take, drop,
}
use nft_soket.Base.Result.{Result, ok, err, Result-cases}
use nft_soket.Base.Text.{Text, codes}
use nft_soket.Cas.{addr_prefix}

-- errors.Is(err, os.ErrNotExist), or another error.
pub data FileError : Type 0 where
  not_exist other : FileError

pub record FileSystem : Type 1 where
  pub Files : Type 0
  pub join : List Text → Text
  pub dir : Text → Text
  pub mkdir_all : Text → Files → Result FileError (Unit {0}) × Files
  pub stat : Text → Files → Result FileError (Unit {0})
  pub read_file : Text → Files → Result FileError (List ℕ)
  pub write_file : Text → List ℕ → Files → Result FileError (Unit {0}) × Files
  pub rename : Text → Text → Files → Result FileError (Unit {0}) × Files

-- `slice_panic` is the panic of `h[:2]` on a shorter address.
pub data Error : Type 0 where
  not_found slice_panic : Error
  files : FileError → Error

module _ (fs : FileSystem) where
  open fs use {Files, join, dir, mkdir_all, stat, read_file, write_file, rename}

  abbrev step :
      Result FileError (Unit {0}) × Files
      → (Files → Result Error (Unit {0}) × Files)
      → Result Error (Unit {0}) × Files
  step (ok u, s) next = next s
  step (err e, s) next = (err (files e), s)

  -- `NewFSBackend`.
  unfoldable pub new_backend : Text → Files → Result Error (Unit {0}) × Files
  new_backend root s = step (mkdir_all root s) (λ t. (ok tt, t))

  -- `path`: the prefix is cut off an address that is long enough.
  unfoldable pub path : Text → Text → Option Text
  path root addr =
      let i = length addr_prefix in
      let h = if ltb (i + 2) (length addr) then drop i addr else addr in
      if ltb (length h) 2 then none else some (join (root ∷ take 2 h ∷ h ∷ []))

  -- The write to a temporary file that is renamed, unless the block is there.
  unfoldable pub put_at : Text → List ℕ → Files → Result Error (Unit {0}) × Files
  put_at p bytes s = step (mkdir_all (dir p) s) (λ t. elim (stat p t) [
    | ok there ↦ (ok tt, t)
    | err absent ↦
        step (write_file (p ++ codes ".tmp") bytes t)
          (λ u. step (rename (p ++ codes ".tmp") p u) (λ v. (ok tt, v)))
  ])

  unfoldable pub put : Text → Text → List ℕ → Files → Result Error (Unit {0}) × Files
  unfolding put_at
  put root addr bytes s = elim (path root addr) [
    | none ↦ (err slice_panic, s)
    | some p ↦ put_at p bytes s
  ]

  abbrev pub read_result : Result FileError (List ℕ) → Result Error (List ℕ)
  read_result (ok bytes) = ok bytes
  read_result (err not_exist) = err not_found
  read_result (err other) = err (files other)

  unfoldable pub get : Text → Text → Files → Result Error (List ℕ)
  get root addr s = elim (path root addr) [
    | none ↦ err slice_panic
    | some p ↦ read_result (read_file p s)
  ]

  abbrev pub stat_result : Result FileError (Unit {0}) → Result Error Bool
  stat_result (ok there) = ok true
  stat_result (err not_exist) = ok false
  stat_result (err other) = err (files other)

  unfoldable pub has : Text → Text → Files → Result Error Bool
  has root addr s = elim (path root addr) [
    | none ↦ err slice_panic
    | some p ↦ stat_result (stat p s)
  ]

-- What the backend relies on: making a directory changes no file, a written file reads as its bytes,
-- and a renamed one as the file that was renamed.
pub record IsLawful (fs : FileSystem) : Type 0 where
  pub mkdir_keeps :
      (p q : Text) (s : fs.Files) → fs.read_file q (fs.mkdir_all p s).1 ≡ fs.read_file q s
  pub write_reads :
      (p : Text) (bytes : List ℕ) (s : fs.Files)
      → (fs.write_file p bytes s).0 ≡ ok tt
      → fs.read_file p (fs.write_file p bytes s).1 ≡ ok bytes
  pub rename_reads :
      (p q : Text) (s : fs.Files)
      → (fs.rename p q s).0 ≡ ok tt
      → fs.read_file q (fs.rename p q s).1 ≡ fs.read_file p s

module _ (fs : FileSystem) (law : IsLawful fs) where
  put_at-read :
      (p : Text) (bytes : List ℕ) (s : fs.Files)
      → (put_at fs p bytes s).0 ≡ ok tt
      → (fs.read_file p (put_at fs p bytes s).1 ≡ ok bytes)
        ⊎ (fs.read_file p (put_at fs p bytes s).1 ≡ fs.read_file p s)
  unfolding put_at
  put_at-read p bytes s h =
      let t = (fs.mkdir_all (fs.dir p) s).1 in
      let tmp = p ++ codes ".tmp" in
      let w = fs.write_file tmp bytes t in
      let r = fs.rename tmp p w.1 in
      elim (Result-cases (fs.mkdir_all (fs.dir p) s).0) [
        | inr (e, failed) ↦ absurd (ground (arith, failed, h))
        | inl (u, made) ↦ elim (Result-cases (fs.stat p t)) [
          | inl (there, found) ↦ inr (ground (arith, made, found, law.mkdir_keeps (fs.dir p) p s))
          | inr (e, absent) ↦ elim (Result-cases w.0) [
            | inr (x, failed) ↦ absurd (ground (arith, made, absent, failed, h))
            | inl (v, written) ↦ elim (Result-cases r.0) [
              | inr (x, failed) ↦ absurd (ground (arith, made, absent, written, failed, h))
              | inl (z, renamed) ↦ inl (
                  ground (
                    arith,
                    made,
                    absent,
                    written,
                    renamed,
                    law.write_reads tmp bytes t written,
                    law.rename_reads tmp p w.1 renamed,
                  ))
            ]
          ]
        ]
      ]

  -- After an accepted write the block reads as the bytes, or as it did before where a file was there.
  -- Making a directory changes no file, and writes and renames succeed as they report.
  pub get-put :
      (root addr : Text) (bytes : List ℕ) (s : fs.Files)
      → (put fs root addr bytes s).0 ≡ ok tt
      → (get fs root addr (put fs root addr bytes s).1 ≡ ok bytes)
        ⊎ (get fs root addr (put fs root addr bytes s).1 ≡ get fs root addr s)
  unfolding put get
  get-put root addr bytes s h = elim (Option-cases (path fs root addr)) [
    | inl short ↦ absurd (ground (arith, short, h))
    | inr (p, at) ↦ elim (put_at-read p bytes s (ground (arith, at, h))) [
      | inl new ↦ inl (ground (arith, at, new))
      | inr old ↦ inr (ground (arith, at, old))
    ]
  ]
