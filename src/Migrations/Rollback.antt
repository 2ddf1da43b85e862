-- ===== src/Migrations/Rollback.antt =====
-- `RollbackLastMigration` behind the migration that it reverses (server/db/migrate.go).
use at_app.Base.{
  ℕ, ◌+◌, ◌<◌, Bool, false, not, Option, none, some, List, [], ◌∷◌, ◌++◌, ◌≡◌, refl, arith, All,
  ◌==◌, select, first, ==-refl,
}
use at_app.Store.{Text}
use at_app.Migrations.Files.{Embedded, MigrationFile, load_migration_files, down_suffix}
use at_app.Migrations.Run.{
  Schema, Conn, after, last_applied, delete_version, migration_tx, rollback_file,
  rollback_last_migration,
}
use at_app.Migrations.Progress.{with_version}

-- A version above all others is the last one.
last_applied-newest :
    (v : ℕ) (vs : List ℕ) → All (λ u. u < v) vs → last_applied (vs ++ v ∷ []) ≡ some v
unfolding last_applied
last_applied-newest v [] h = refl
last_applied-newest v (u ∷ us) h = ground (arith, last_applied-newest v us h.1, h.0)

delete_version-newest :
    (v : ℕ) (vs : List ℕ) → All (λ u. u < v) vs → select (λ u. not (u == v)) (vs ++ v ∷ []) ≡ vs
unfolding select
delete_version-newest v [] h = ground (arith, ==-refl v)
delete_version-newest v (u ∷ us) h = ground (arith, delete_version-newest v us h.1, h.0)

module _ {S : Type 0} (exec : Text → S → Option S) (down : ℕ → Bool) (fs : Embedded) where
  rollback_file_up :
      (v : ℕ) (files : List MigrationFile) (f : MigrationFile) (sql : Text) (contents : S)
      (c : Conn S)
      → ((n : ℕ) → down n ≡ false)
      → first (select (λ g. g.version == v) files) ≡ some f
      → fs.read f.name ≡ some sql
      → exec sql c.schema.contents ≡ some contents
      → rollback_file exec down fs v files c ≡ (
        none,
        record {
          schema = record {
            contents = contents;
            applied = select (λ u. not (u == v)) c.schema.applied;
          };
          calls = c.calls + 4;
        },
      )
  unfolding rollback_file migration_tx delete_version
  rollback_file_up v files f sql contents c up p r x =
      ground (arith, p, r, x, up c.calls, up (c.calls + 1), up (c.calls + 2), up (c.calls + 3))

  rollback_last_migration_up :
      (v : ℕ) (files : List MigrationFile) (c : Conn S)
      → ((n : ℕ) → down n ≡ false)
      → last_applied c.schema.applied ≡ some v
      → load_migration_files fs down_suffix ≡ some files
      → rollback_last_migration exec down fs c ≡ rollback_file exec down fs v files (after 2 c)
  unfolding rollback_last_migration
  rollback_last_migration_up v files c up a l = ground (arith, a, l, up c.calls, up (c.calls + 1))

  -- With every call answered, where the last migration of all was version `v` and its down file
  -- undoes what it did to the tables, the rollback returns no error and leaves the schema that was
  -- there before that migration.
  pub rollback_last_migration-undoes :
      (s : Schema S) (v n : ℕ) (contents : S) (files : List MigrationFile) (f : MigrationFile)
      (sql : Text)
      → ((k : ℕ) → down k ≡ false)
      → All (λ u. u < v) s.applied
      → load_migration_files fs down_suffix ≡ some files
      → first (select (λ g. g.version == v) files) ≡ some f
      → fs.read f.name ≡ some sql
      → exec sql contents ≡ some s.contents
      → rollback_last_migration exec down fs
          (record { schema = with_version exec fs s v contents; calls = n })
        ≡ (none, record { schema = s; calls = n + 2 + 4 })
  rollback_last_migration-undoes s v n contents files f sql up newest l p r x =
      let c : Conn S = record { schema = with_version exec fs s v contents; calls = n } in
      let last = last_applied-newest v s.applied newest in
      rw (rollback_last_migration_up v files c up last l) (
        rw (rollback_file_up v files f sql s.contents (after 2 c) up p r x)
          (rw (delete_version-newest v s.applied newest) refl))
