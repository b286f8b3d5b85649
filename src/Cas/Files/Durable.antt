-- ===== src/Cas/Files/Durable.antt =====
-- core/cas/fsbackend.go as a backend of core/cas/cas.go: what a store relies on, kept by files.
use nft_soket.Base.{ℕ, ◌≡◌, ◌≢◌, ◌∙◌, List, ◌++◌, arith, inl, inr}
use nft_soket.Base.Result.{ok, err, Result-cases}
use nft_soket.Base.Text.{Text, codes}
use nft_soket.Cas.Files
use nft_soket.Cas.Files.{FileSystem, FileError, Error, path, put_at, not_found}

-- What the backend relies on over time, besides that writes and renames do as they report: making the directory of
-- a path that filepath.Join made leaves what exists at the path, a file that can be read exists, a call leaves the
-- files alone that its paths are elsewhere from, and a rename that fails leaves its target. A path is elsewhere from
-- another where it names neither the same file nor a directory above it, as a path with `.tmp` behind it.
pub record IsOrderly (fs : FileSystem) (Elsewhere : Text → Text → Type 0) : Type 0 where
  pub lawful : Files.IsLawful fs
  pub mkdir_stat :
      (parts : List Text) (s : fs.Files)
      → fs.stat (fs.join parts) (fs.mkdir_all (fs.dir (fs.join parts)) s).1
        ≡ fs.stat (fs.join parts) s
  pub tmp_elsewhere : (p : Text) → Elsewhere (p ++ codes ".tmp") p
  pub reads_stat :
      (p : Text) (bytes : List ℕ) (s : fs.Files) → fs.read_file p s ≡ ok bytes → fs.stat p s ≡ ok tt
  pub write_keeps :
      (p q : Text) (bytes : List ℕ) (s : fs.Files)
      → Elsewhere p q
      → fs.read_file q (fs.write_file p bytes s).1 ≡ fs.read_file q s
  pub rename_keeps :
      (p q r : Text) (s : fs.Files)
      → Elsewhere p r
      → Elsewhere q r
      → fs.read_file r (fs.rename p q s).1 ≡ fs.read_file r s
  pub rename_fails :
      (p q : Text) (s : fs.Files) (e : FileError)
      → (fs.rename p q s).0 ≡ err e
      → fs.read_file q (fs.rename p q s).1 ≡ fs.read_file q s

module _ (fs : FileSystem) (Elsewhere : Text → Text → Type 0) (law : IsOrderly fs Elsewhere) where
  -- A write leaves what can be read at its path, and stores what it was given where nothing exists.
  pub put_at-path :
      (p : Text) (bytes : List ℕ) (s : fs.Files)
      → ((old : List ℕ)
          → fs.read_file p s ≡ ok old
          → fs.read_file p (put_at fs p bytes s).1 ≡ ok old)
        × ((e : FileError)
            → fs.stat p (fs.mkdir_all (fs.dir p) s).1 ≡ err e
            → (put_at fs p bytes s).0 ≡ ok tt
            → fs.read_file p (put_at fs p bytes s).1 ≡ ok bytes)
        × ((e : Error)
            → (put_at fs p bytes s).0 ≡ err e
            → fs.read_file p (put_at fs p bytes s).1 ≡ fs.read_file p s)
  unfolding put_at
  put_at-path p bytes s =
      let t = (fs.mkdir_all (fs.dir p) s).1 in
      let kept : fs.read_file p t ≡ fs.read_file p s = law.lawful.mkdir_keeps (fs.dir p) p s in
      let tmp = p ++ codes ".tmp" in
      let w = fs.write_file tmp bytes t in
      let r = fs.rename tmp p w.1 in
      let beside : fs.read_file p w.1 ≡ fs.read_file p t =
        law.write_keeps tmp p bytes t (law.tmp_elsewhere p) in
      elim (Result-cases (fs.mkdir_all (fs.dir p) s).0) [
        | inr (e, failed) ↦ ground (arith, failed, kept)
        | inl (u, made) ↦ elim (Result-cases (fs.stat p t)) [
          | inl (there, found) ↦ (
            λ old h. ground (arith, made, found, kept, h),
            (λ e h done. cc (h, found)),
            λ e h. ground (arith, made, found, kept),
          )
          | inr (e, gone) ↦
              let nothing : (old : List ℕ) → fs.read_file p s ≢ ok old =
                λ old h. cc (law.reads_stat p old t (kept ∙ h), gone) in
              elim (Result-cases w.0) [
                | inr (x, failed) ↦ ground (arith, made, gone, failed, beside, kept)
                | inl (v, written) ↦ elim (Result-cases r.0) [
                  | inr (x, failed) ↦ ground (
                    arith,
                    made,
                    gone,
                    written,
                    failed,
                    law.rename_fails tmp p w.1 x failed,
                    beside,
                    kept,
                  )
                  | inl (z, renamed) ↦ (
                    λ old h. absurd (nothing old h),
                    λ y h done. ground (
                      arith,
                      made,
                      gone,
                      written,
                      renamed,
                      law.lawful.write_reads tmp bytes t written,
                      law.lawful.rename_reads tmp p w.1 renamed,
                    ),
                    λ y h. absurd (ground (arith, made, gone, written, renamed, h)),
                  )
                ]
              ]
        ]
      ]

  -- Where something exists, a write only makes the directory.
  pub put_at-present :
      (p : Text) (bytes : List ℕ) (s : fs.Files)
      → fs.stat p (fs.mkdir_all (fs.dir p) s).1 ≡ ok tt
      → fs.read_file p (put_at fs p bytes s).1 ≡ fs.read_file p s
  unfolding put_at
  put_at-present p bytes s found = elim (Result-cases (fs.mkdir_all (fs.dir p) s).0) [
    | inr (e, failed) ↦ ground (arith, failed, law.lawful.mkdir_keeps (fs.dir p) p s)
    | inl (u, made) ↦ ground (arith, made, found, law.lawful.mkdir_keeps (fs.dir p) p s)
  ]

  -- A write leaves the files alone that are not its own.
  pub put_at-other :
      (p q : Text) (bytes : List ℕ) (s : fs.Files)
      → Elsewhere p q
      → Elsewhere (p ++ codes ".tmp") q
      → fs.read_file q (put_at fs p bytes s).1 ≡ fs.read_file q s
  unfolding put_at
  put_at-other p q bytes s h k =
      let t = (fs.mkdir_all (fs.dir p) s).1 in
      let tmp = p ++ codes ".tmp" in
      let w = fs.write_file tmp bytes t in
      let a : fs.read_file q t ≡ fs.read_file q s = law.lawful.mkdir_keeps (fs.dir p) q s in
      let b : fs.read_file q w.1 ≡ fs.read_file q t = law.write_keeps tmp q bytes t k in
      let c : fs.read_file q (fs.rename tmp p w.1).1 ≡ fs.read_file q w.1 =
        law.rename_keeps tmp p q w.1 k h in
      elim (Result-cases (fs.mkdir_all (fs.dir p) s).0) [
        | inr (e, failed) ↦ ground (arith, failed, a)
        | inl (u, made) ↦ elim (Result-cases (fs.stat p t)) [
          | inl (there, found) ↦ ground (arith, made, found, a)
          | inr (e, gone) ↦ elim (Result-cases w.0) [
            | inr (x, failed) ↦ ground (arith, made, gone, failed, a, b)
            | inl (v, written) ↦ elim (Result-cases (fs.rename tmp p w.1).0) [
              | inr (x, failed) ↦ ground (arith, made, gone, written, failed, a, b, c)
              | inl (z, renamed) ↦ ground (arith, made, gone, written, renamed, a, b, c)
            ]
          ]
        ]
      ]
