-- ===== src/Guarantees/Migrations.antt =====
-- Whole runs of the migrations at startup: `RunMigrations` (server/db/migrate.go).
use at_app.Base.{
  ℕ, Bool, true, false, Option, none, some, List, ◌≡◌, ◌⊎◌, refl, sym, subst, arith, inl, inr,
  Bool-cases, Option-cases,
}
use at_app.Store.{Text}
use at_app.Migrations.Files.{Embedded, MigrationFile, load_migration_files, up_suffix}
use at_app.Migrations.Run.{Conn, no_table, not_loaded, after, run_files, run_migrations}
use at_app.Migrations.Progress.{Migrates, stopped, Migrates-resumed, Migrates-unique, Migrates-All}
use at_app.Migrations.Sorted.{Loaded, load_migration_files-Loaded}
use at_app.Migrations.Outcomes.{run_files-Migrates, run_files-All}

module _ {S : Type 0} (exec : Text → S → Option S) (fs : Embedded) where
  module _ (down : ℕ → Bool) (c : Conn S) where
    run_down : down c.calls ≡ true → run_migrations exec down fs c ≡ (some no_table, after 1 c)
    unfolding run_migrations
    run_down h = ground arith

    run_unloaded :
        down c.calls ≡ false
        → load_migration_files fs up_suffix ≡ none
        → run_migrations exec down fs c ≡ (some not_loaded, after 1 c)
    unfolding run_migrations
    run_unloaded h n = ground arith

    run_loaded :
        (files : List MigrationFile)
        → down c.calls ≡ false
        → load_migration_files fs up_suffix ≡ some files
        → run_migrations exec down fs c ≡ run_files exec down fs files (after 1 c)
    unfolding run_migrations
    run_loaded files h n = ground arith

    -- A run that ends without an error has loaded the files.
    run-loads :
        (run_migrations exec down fs c).0 ≡ none
        → (files : List MigrationFile) × (load_migration_files fs up_suffix ≡ some files)
    run-loads h = elim (Bool-cases (down c.calls)) [
      | inl d ↦ let k = rw (run_down d) at h in cc
      | inr d ↦ elim (Option-cases (load_migration_files fs up_suffix)) [
        | inl n ↦ let k = rw (run_unloaded d n) at h in cc
        | inr p ↦ p
      ]
    ]

    migrates :
        (whole : Bool) (files : List MigrationFile)
        → load_migration_files fs up_suffix ≡ some files
        → ((run_migrations exec down fs c).0 ≡ none) ⊎ (whole ≡ false)
        → Migrates exec fs whole files c.schema (run_migrations exec down fs c).1.schema
    migrates whole files l h = elim (Bool-cases (down c.calls)) [
      | inl d ↦
          let e = run_down d in
          rw e (stopped files c.schema (elim h [ inl n ↦ (let k = rw e at n in cc) | inr w ↦ w ]))
      | inr d ↦
          let e = run_loaded files d l in
          rw e (
            run_files-Migrates exec down fs whole files (after 1 c)
              (λ x k. elim h [ inl n ↦ (let m = rw e at n in cc) | inr w ↦ w ]))
    ]

    -- Whatever calls fail: the loaded files are the up files of the directory, each once, in the
    -- order of their versions; and a run executes and records, in that order, the files whose
    -- version is not recorded, up to some file, and up to the last one if it returns no error. No
    -- file is executed without being recorded, or recorded without being executed.
    pub run_migrations-Migrates :
        (whole : Bool) (files : List MigrationFile)
        → load_migration_files fs up_suffix ≡ some files
        → ((run_migrations exec down fs c).0 ≡ none) ⊎ (whole ≡ false)
        → Loaded fs up_suffix files
          × Migrates exec fs whole files c.schema (run_migrations exec down fs c).1.schema
    run_migrations-Migrates whole files l h =
        (load_migration_files-Loaded fs up_suffix files l, migrates whole files l h)

  -- A run that fails anywhere, and is run again until it succeeds, leaves the schema that one
  -- successful run would have left.
  pub run_migrations-resumed :
      (down down' down'' : ℕ → Bool) (c d e : Conn S)
      → d.schema ≡ (run_migrations exec down fs c).1.schema
      → (run_migrations exec down' fs d).0 ≡ none
      → e.schema ≡ c.schema
      → (run_migrations exec down'' fs e).0 ≡ none
      → (run_migrations exec down' fs d).1.schema ≡ (run_migrations exec down'' fs e).1.schema
  run_migrations-resumed down down' down'' c d e p h q k =
      let (files, l) = run-loads down' d h in
      let first = migrates down c false files l (inr refl) in
      let second = migrates down' d true files l (inl h) in
      let once = migrates down'' e true files l (inl k) in
      Migrates-unique exec fs
        (Migrates-resumed exec fs first (
          subst (λ s. Migrates exec fs true files s (run_migrations exec down' fs d).1.schema) p
            second))
        (subst (λ s. Migrates exec fs true files s (run_migrations exec down'' fs e).1.schema) q
          once)

  -- After a run that returned no error, a run during which no call fails returns no error either,
  -- and leaves the schema as it is.
  pub run_migrations-again :
      (down down' : ℕ → Bool) (c d : Conn S)
      → (run_migrations exec down fs c).0 ≡ none
      → d.schema ≡ (run_migrations exec down fs c).1.schema
      → ((n : ℕ) → down' n ≡ false)
      → ((run_migrations exec down' fs d).0 ≡ none)
        × ((run_migrations exec down' fs d).1.schema ≡ d.schema)
  run_migrations-again down down' c d h p up =
      let (files, l) = run-loads down c h in
      let all = Migrates-All exec fs (migrates down c true files l (inl h)) in
      rw (run_loaded down' d files (up d.calls) l)
        (run_files-All exec down' fs files (after 1 d) up (rw (sym p) at all))
