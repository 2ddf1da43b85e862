-- ===== src/Migrations/Run.antt =====
-- `runMigrationsOn` and `RollbackLastMigration` (server/db/migrate.go). `exec` is what Postgres makes
-- of a text of SQL, and `down` says which calls of the connection fail; both are parameters.
use at_app.Base.{
  ℕ, ◌+◌, Bool, not, Option, none, some, List, [], ◌∷◌, ◌++◌, ◌==◌, ltb, if◌then◌else◌,
  exists_where, select, first,
}
use at_app.Store.{Text}
use at_app.Migrations.Files.{
  FileName, Embedded, MigrationFile, load_migration_files, up_suffix, down_suffix,
}

-- What the database holds: the tables that the migrations make, of a type of Postgres's own, and the
-- versions in schema_migrations. A missing schema_migrations is an empty one.
pub record Schema (S : Type 0) : Type 0 where
  pub contents : S
  pub applied : List ℕ

-- A connection, and the number of its next call.
pub record Conn (S : Type 0) : Type 0 where
  pub schema : Schema S
  pub calls : ℕ

pub data MigrationError : Type 0 where
  no_table not_loaded : MigrationError
  not_checked not_started : ℕ → MigrationError
  not_read not_applied not_recorded not_committed : FileName → MigrationError
  none_applied no_last : MigrationError
  no_conn not_locked not_reset : MigrationError
  no_down_file : ℕ → MigrationError

-- `schema_migrations` holds the version.
unfoldable pub is_applied : ℕ → List ℕ → Bool
unfolding exists_where
is_applied version = exists_where (λ v. v == version)

-- ORDER BY version DESC LIMIT 1
unfoldable pub last_applied : List ℕ → Option ℕ
last_applied [] = none
last_applied (v ∷ vs) = elim (last_applied vs) [
  | none ↦ some v
  | some u ↦ some (if ltb u v then v else u)
]

-- Behind `n` more calls.
abbrev pub after : {S : Type 0} → ℕ → Conn S → Conn S
after n c = record c { calls = c.calls + n }

-- INSERT INTO schema_migrations, whose primary key is the version
unfoldable pub insert_version : ℕ → List ℕ → Option (List ℕ)
unfolding is_applied
insert_version version applied =
    if is_applied version applied then none else some (applied ++ version ∷ [])

-- DELETE FROM schema_migrations WHERE version = $1
unfoldable pub delete_version : ℕ → List ℕ → Option (List ℕ)
unfolding select
delete_version version applied = some (select (λ v. not (v == version)) applied)

module _ {S : Type 0} (exec : Text → S → Option S) (down : ℕ → Bool) where
  -- A transaction that executes `sql` and then changes the recorded versions: BeginTx, the two
  -- statements, and Commit. Where one fails the database stays as it was.
  unfoldable pub migration_tx :
      MigrationError
      → FileName
      → Text
      → (List ℕ → Option (List ℕ))
      → Conn S
      → Option MigrationError × Conn S
  migration_tx no_start name sql change c =
      if down c.calls
      then (some no_start, after 1 c)
      else elim (if down (c.calls + 1) then none else exec sql c.schema.contents) [
        | none ↦ (some (not_applied name), after 2 c)
        | some contents ↦ elim (if down (c.calls + 2) then none else change c.schema.applied) [
          | none ↦ (some (not_recorded name), after 3 c)
          | some applied ↦ if down (c.calls + 3) then (some (not_committed name), after 4 c) else (
            none,
            record {
              schema = record { contents = contents; applied = applied };
              calls = c.calls + 4;
            },
          )
        ]
      ]

  module _ (fs : Embedded) where
    unfoldable pub apply_file : MigrationFile → Conn S → Option MigrationError × Conn S
    unfolding migration_tx insert_version
    apply_file f c = elim (fs.read f.name) [
      | none ↦ (some (not_read f.name), c)
      | some sql ↦ migration_tx (not_started f.version) f.name sql (insert_version f.version) c
    ]

    -- One round of the loop.
    unfoldable pub visit_file : MigrationFile → Conn S → Option MigrationError × Conn S
    unfolding is_applied apply_file
    visit_file f c =
        if down c.calls
        then (some (not_checked f.version), after 1 c)
        else if is_applied f.version c.schema.applied
        then (none, after 1 c)
        else apply_file f (after 1 c)

    unfoldable pub run_files : List MigrationFile → Conn S → Option MigrationError × Conn S
    unfolding visit_file
    run_files [] c = (none, c)
    run_files (f ∷ rest) c =
        let (e, c') = visit_file f c in elim e [ some x ↦ (some x, c') | none ↦ run_files rest c' ]

    unfoldable pub run_migrations : Conn S → Option MigrationError × Conn S
    unfolding load_migration_files run_files
    run_migrations c =
        if down c.calls
        then (some no_table, after 1 c)
        else elim (load_migration_files fs up_suffix) [
          | none ↦ (some not_loaded, after 1 c)
          | some files ↦ run_files files (after 1 c)
        ]

    -- On one connection, under an advisory lock; `empty` is a schema without tables.
    unfoldable pub reset_schema_for_tests : S → Conn S → Option MigrationError × Conn S
    unfolding run_migrations
    reset_schema_for_tests empty c =
        if down c.calls
        then (some no_conn, after 1 c)
        else if down (c.calls + 1)
        then (some not_locked, after 2 c)
        else if down (c.calls + 2)
        then (some not_reset, after 3 c)
        else run_migrations
            (record { schema = record { contents = empty; applied = [] }; calls = c.calls + 3 })

    unfoldable pub rollback_file : ℕ → List MigrationFile → Conn S → Option MigrationError × Conn S
    unfolding migration_tx delete_version first select
    rollback_file version files c = elim (first (select (λ f. f.version == version) files)) [
      | none ↦ (some (no_down_file version), c)
      | some f ↦ elim (fs.read f.name) [
        | none ↦ (some (not_read f.name), c)
        | some sql ↦ migration_tx (not_started version) f.name sql (delete_version version) c
      ]
    ]

    unfoldable pub rollback_last_migration : Conn S → Option MigrationError × Conn S
    unfolding last_applied load_migration_files rollback_file
    rollback_last_migration c =
        if down c.calls
        then (some no_table, after 1 c)
        else if down (c.calls + 1)
        then (some no_last, after 2 c)
        else elim (last_applied c.schema.applied) [
          | none ↦ (some none_applied, after 2 c)
          | some version ↦ elim (load_migration_files fs down_suffix) [
            | none ↦ (some not_loaded, after 2 c)
            | some files ↦ rollback_file version files (after 2 c)
          ]
        ]
