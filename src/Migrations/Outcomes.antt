-- ===== src/Migrations/Outcomes.antt =====
-- The runner of server/db/migrate.go makes the progress that `Migrates` describes.
use at_app.Base.{
  All, ℕ, Bool, true, false, Option, none, some, List, [], ◌∷◌, ◌++◌, ◌≡◌, refl, ap, arith,
  Bool-cases, Option-cases, inl, inr,
}
use at_app.Store.{Text}
use at_app.Migrations.Files.{FileName, Embedded, MigrationFile}
use at_app.Migrations.Run.{
  Schema, Conn, MigrationError, is_applied, insert_version, migration_tx, apply_file, visit_file,
  run_files, after, not_checked, not_started,
}
use at_app.Migrations.Progress.{Migrates, finished, stopped, skipped, applies, with_version}

module _ {S : Type 0} (exec : Text → S → Option S) (down : ℕ → Bool) where
  module _ (no_start : MigrationError) (name : FileName) (sql : Text)
      (change : List ℕ → Option (List ℕ)) (c : Conn S) where
    -- Neither statement of a failing transaction is done.
    pub migration_tx-err :
        (x : MigrationError)
        → (migration_tx exec down no_start name sql change c).0 ≡ some x
        → (migration_tx exec down no_start name sql change c).1.schema ≡ c.schema
    unfolding migration_tx
    migration_tx-err x h = ground arith

    -- Both statements of one that commits are.
    pub migration_tx-none :
        (migration_tx exec down no_start name sql change c).0 ≡ none
        → (exec sql c.schema.contents
            ≡ some (migration_tx exec down no_start name sql change c).1.schema.contents)
          × (change c.schema.applied
              ≡ some (migration_tx exec down no_start name sql change c).1.schema.applied)
    unfolding migration_tx
    migration_tx-none h = ground arith

  module _ (fs : Embedded) where
    module _ (f : MigrationFile) (c : Conn S) where
      apply_file-err :
          (x : MigrationError)
          → (apply_file exec down fs f c).0 ≡ some x
          → (apply_file exec down fs f c).1.schema ≡ c.schema
      unfolding apply_file
      apply_file-err x h = elim (Option-cases (fs.read f.name)) [
        | inl n ↦ ground (arith, n, h)
        | inr (sql, n) ↦ ground (
          arith,
          n,
          h,
          migration_tx-err (not_started f.version) f.name sql (insert_version f.version) c,
        )
      ]

      committed :
          (sql : Text)
          → fs.read f.name ≡ some sql
          → (apply_file exec down fs f c).0 ≡ none
          → (exec sql c.schema.contents ≡ some (apply_file exec down fs f c).1.schema.contents)
            × (insert_version f.version c.schema.applied
                ≡ some (apply_file exec down fs f c).1.schema.applied)
      unfolding apply_file
      committed sql n h = ground (
        arith,
        n,
        h,
        migration_tx-none (not_started f.version) f.name sql (insert_version f.version) c,
      )

      apply_file-none :
          (apply_file exec down fs f c).0 ≡ none
          → (sql : Text) × (fs.read f.name ≡ some sql)
            × (exec sql c.schema.contents ≡ some (apply_file exec down fs f c).1.schema.contents)
            × (insert_version f.version c.schema.applied
                ≡ some (apply_file exec down fs f c).1.schema.applied)
      unfolding apply_file
      apply_file-none h = elim (Option-cases (fs.read f.name)) [
        | inl n ↦ ground (arith, n, h)
        | inr (sql, n) ↦ let (x, v) = committed sql n h in (sql, n, x, v)
      ]

      visit_file_down :
          down c.calls ≡ true
          → visit_file exec down fs f c ≡ (some (not_checked f.version), after 1 c)
      unfolding visit_file
      visit_file_down d = ground arith

      visit_file_applied :
          down c.calls ≡ false
          → is_applied f.version c.schema.applied ≡ true
          → visit_file exec down fs f c ≡ (none, after 1 c)
      unfolding visit_file
      visit_file_applied d a = ground arith

      visit_file_pending :
          down c.calls ≡ false
          → is_applied f.version c.schema.applied ≡ false
          → visit_file exec down fs f c ≡ apply_file exec down fs f (after 1 c)
      unfolding visit_file
      visit_file_pending d a = ground arith

    -- A round that fails leaves the schema as it was.
    pub visit_file-err :
        (f : MigrationFile) (c : Conn S) (x : MigrationError)
        → (visit_file exec down fs f c).0 ≡ some x
        → (visit_file exec down fs f c).1.schema ≡ c.schema
    visit_file-err f c x h = elim (Bool-cases (down c.calls)) [
      | inl d ↦ rw (visit_file_down f c d) refl
      | inr d ↦ elim (Bool-cases (is_applied f.version c.schema.applied)) [
        | inl a ↦ rw (visit_file_applied f c d a) refl
        | inr a ↦
            let e = visit_file_pending f c d a in rw e (apply_file-err f (after 1 c) x (rw e at h))
      ]
    ]

    -- The schema that a new version is added to.
    insert_version-some :
        (v : ℕ) (s : Schema S) (t : Schema S)
        → insert_version v s.applied ≡ some t.applied
        → is_applied v s.applied ≡ false
        → with_version exec fs s v t.contents ≡ t
    unfolding insert_version
    insert_version-some v s t h a =
        let e : s.applied ++ v ∷ [] ≡ t.applied = ground arith in
        ap (λ vs. record { contents = t.contents; applied = vs }) e

    pub visit_file-Migrates :
        {whole : Bool} (f : MigrationFile) (files : List MigrationFile) (c : Conn S) (t : Schema S)
        → (visit_file exec down fs f c).0 ≡ none
        → Migrates exec fs whole files (visit_file exec down fs f c).1.schema t
        → Migrates exec fs whole (f ∷ files) c.schema t
    visit_file-Migrates f files c t h m = elim (Bool-cases (down c.calls)) [
      | inl d ↦ let k = rw (visit_file_down f c d) at h in cc
      | inr d ↦ elim (Bool-cases (is_applied f.version c.schema.applied)) [
        | inl a ↦ skipped f files c.schema t a (rw (visit_file_applied f c d a) at m)
        | inr a ↦
            let e = visit_file_pending f c d a in
            let (sql, r, x, v) = apply_file-none f (after 1 c) (rw e at h) in
            let s : Schema S = (apply_file exec down fs f (after 1 c)).1.schema in
            applies f files c.schema t sql s.contents a r x
              (rw (insert_version-some f.version c.schema s v a) (rw e at m))
      ]
    ]

    module _ (f : MigrationFile) (rest : List MigrationFile) (c : Conn S) where
      run_files-stops :
          (x : MigrationError)
          → (visit_file exec down fs f c).0 ≡ some x
          → run_files exec down fs (f ∷ rest) c ≡ (some x, (visit_file exec down fs f c).1)
      unfolding run_files
      run_files-stops x h = ground arith

      run_files-goes_on :
          (visit_file exec down fs f c).0 ≡ none
          → run_files exec down fs (f ∷ rest) c
            ≡ run_files exec down fs rest (visit_file exec down fs f c).1
      unfolding run_files
      run_files-goes_on h = ground arith

    -- However the loop ends, it has made some progress, and all of it if there is no error.
    pub run_files-Migrates :
        (whole : Bool) (files : List MigrationFile) (c : Conn S)
        → ((x : MigrationError) → (run_files exec down fs files c).0 ≡ some x → whole ≡ false)
        → Migrates exec fs whole files c.schema (run_files exec down fs files c).1.schema
    run_files-Migrates whole [] c h = unfold run_files in finished c.schema
    run_files-Migrates whole (f ∷ rest) c h = elim (Option-cases (visit_file exec down fs f c).0) [
      | inr (x, v) ↦
          let e = run_files-stops f rest c x v in
          rw e (rw (visit_file-err f c x v) (stopped (f ∷ rest) c.schema (h x (ap (λ y. y.0) e))))
      | inl v ↦
          let e = run_files-goes_on f rest c v in
          rw e (
            visit_file-Migrates f rest c _ v
              (run_files-Migrates whole rest _ (λ x k. h x (rw e k))))
    ]

    -- Files that are all recorded are passed over.
    pub run_files-All :
        (files : List MigrationFile) (c : Conn S)
        → ((n : ℕ) → down n ≡ false)
        → All (λ f. is_applied f.version c.schema.applied ≡ true) files
        → ((run_files exec down fs files c).0 ≡ none)
          × ((run_files exec down fs files c).1.schema ≡ c.schema)
    run_files-All [] c up h = unfold run_files in (refl, refl)
    run_files-All (f ∷ rest) c up h =
        let v = visit_file_applied f c (up c.calls) h.0 in
        rw (run_files-goes_on f rest c (rw v refl)) (rw v (run_files-All rest (after 1 c) up h.1))
