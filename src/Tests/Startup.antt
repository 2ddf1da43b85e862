-- ===== src/Tests/Startup.antt =====
-- Runs of the migrations on two files, and the theorems on them.
use at_app.Base.{
  ℕ, Bool, true, false, Option, none, some, List, [], ◌∷◌, ◌++◌, ◌≡◌, refl, inr, ◌==◌,
  if◌then◌else◌, same_bytes, exists_where, select, first,
}
use at_app.Store.{Text}
use at_app.Migrations.Files.{
  FileName, Embedded, up_suffix, down_suffix, span_digits, any_then, tail_matches, submatch,
  digits_value, atoi, insert_file, sort_files, add_file, collect_files, load_migration_files,
}
use at_app.Migrations.Run.{
  Conn, is_applied, last_applied, migration_tx, insert_version, delete_version, apply_file,
  visit_file, run_files, run_migrations, rollback_file, rollback_last_migration, not_applied,
}
use at_app.Migrations.Sorted.{Loaded}
use at_app.Migrations.Progress.{Migrates}
use at_app.Migrations.Rollback.{rollback_last_migration-undoes}
use at_app.Config.Reads.{
  Key, Environment, ◌>>=◌, get_env, given, get_env_secret, get_env_parsed, split_commas, is_space,
  trim_left, trim_onto, trim_right, trim_space, trimmed_entries, some_entries, get_env_list,
}
use at_app.Config.Loads.{
  Config, port_8080, localhost, atapp_user, atapp_db, disable, redis_default, port_587, no_reply,
  load,
}
use at_app.Config.Secured.{Supplied, Listed, load-Supplied}
use at_app.Guarantees.Migrations.{
  run_migrations-Migrates, run_migrations-resumed, run_migrations-again,
}

-- `2_b.up.sql`, `1_a.up.sql`, and `1_a.down.sql`
abbrev second_up : FileName
second_up = 50 ∷ 95 ∷ 98 ∷ up_suffix

abbrev first_up : FileName
first_up = 49 ∷ 95 ∷ 97 ∷ up_suffix

abbrev first_down : FileName
first_down = 49 ∷ 95 ∷ 97 ∷ down_suffix

abbrev embedded : Embedded
embedded = record {
  entries = some (
      record { name = second_up; is_dir = false }
      ∷ record { name = first_up; is_dir = false }
      ∷ record { name = first_down; is_dir = false }
      ∷ []);
  read = λ n.
      if same_bytes n second_up
      then some 22
      else if same_bytes n first_up
      then some 11
      else if same_bytes n first_down
      then some 10
      else none;
}

-- A text of SQL adds its number to the tables; 10 takes 11 away again.
abbrev exec : Text → List ℕ → Option (List ℕ)
exec sql tables =
    some (
      if sql == 10
      then select (λ t. if t == 11 then false else true) tables
      else tables ++ sql ∷ [])

abbrev start : Conn (List ℕ)
start = record { schema = record { contents = []; applied = [] }; calls = 0 }

-- Every call answers, or all but the seventh do.
abbrev up : ℕ → Bool
up n = false

abbrev breaks : ℕ → Bool
breaks n = n == 8

-- Every definition that a run computes with.
unfoldable startup : Unit {0}
unfolding same_bytes exists_where select first span_digits any_then tail_matches submatch
    digits_value atoi insert_file sort_files add_file collect_files load_migration_files is_applied
    last_applied migration_tx insert_version delete_version apply_file visit_file run_files
    run_migrations rollback_file rollback_last_migration
startup = tt

run_migrations-all : run_migrations exec up embedded start ≡ (
  none,
  record { schema = record { contents = 11 ∷ 22 ∷ []; applied = 1 ∷ 2 ∷ [] }; calls = 11 },
)
unfolding startup
run_migrations-all = refl

run_migrations-breaks : run_migrations exec breaks embedded start ≡ (
  some (not_applied second_up),
  record { schema = record { contents = 11 ∷ []; applied = 1 ∷ [] }; calls = 9 },
)
unfolding startup
run_migrations-breaks = refl

run_migrations-Migrates_example :
    Loaded embedded up_suffix
      (record { version = 1; name = first_up } ∷ record { version = 2; name = second_up } ∷ [])
    × Migrates exec embedded false
        (record { version = 1; name = first_up } ∷ record { version = 2; name = second_up } ∷ [])
        start.schema
        (record { contents = 11 ∷ []; applied = 1 ∷ [] })
unfolding startup
run_migrations-Migrates_example =
    run_migrations-Migrates exec embedded breaks start false
      (record { version = 1; name = first_up } ∷ record { version = 2; name = second_up } ∷ []) refl
      (inr refl)

abbrev halfway : Conn (List ℕ)
halfway = record { schema = record { contents = 11 ∷ []; applied = 1 ∷ [] }; calls = 0 }

run_migrations-resumed_example :
    (run_migrations exec up embedded halfway).1.schema
    ≡ (run_migrations exec up embedded start).1.schema
unfolding startup
run_migrations-resumed_example =
    run_migrations-resumed exec embedded breaks up up start halfway start refl refl refl refl

run_migrations-again_example :
    ((run_migrations exec up embedded (run_migrations exec up embedded start).1).0 ≡ none)
    × ((run_migrations exec up embedded (run_migrations exec up embedded start).1).1.schema
        ≡ (run_migrations exec up embedded start).1.schema)
unfolding startup
run_migrations-again_example =
    run_migrations-again exec embedded up up start (run_migrations exec up embedded start).1 refl
      refl (λ n. refl)

rollback_last_migration-undoes_example :
    rollback_last_migration exec up embedded halfway
    ≡ (none, record { schema = record { contents = []; applied = [] }; calls = 6 })
unfolding startup
rollback_last_migration-undoes_example =
    rollback_last_migration-undoes exec up embedded start.schema 1 0 (11 ∷ [])
      (record { version = 1; name = first_down } ∷ []) (record { version = 1; name = first_down })
      10 (λ n. refl) tt refl refl refl refl

-- A production environment with the variables that it must set: one byte each.
abbrev environment : Environment
environment Key.app_env = some (112 ∷ [])
environment Key.db_password = some (1 ∷ [])
environment Key.jwt_secret = some (2 ∷ [])
environment Key.kafka_brokers = some (44 ∷ 32 ∷ 97 ∷ [])
environment Key.allowed_origins = some (98 ∷ [])
environment Key.platform_admin_key = some (3 ∷ [])
environment key = none

abbrev configured : Config
configured = record {
  env = 112 ∷ [];
  server_port = port_8080;
  db_host = localhost;
  db_port = 5433;
  db_user = atapp_user;
  db_password = 1 ∷ [];
  db_name = atapp_db;
  db_sslmode = disable;
  redis_addr = redis_default;
  jwt_secret = 2 ∷ [];
  kafka_brokers = (97 ∷ []) ∷ [];
  allowed_origins = (98 ∷ []) ∷ [];
  platform_admin_key = 3 ∷ [];
  smtp_host = [];
  smtp_port = port_587;
  smtp_username = [];
  smtp_password = [];
  smtp_from = no_reply;
  fcm_project_id = [];
  fcm_service_account_json = [];
  raw_signal_retention = 86400;
  raw_signal_prune_interval = 3600;
}

load-Supplied_example :
    Supplied environment Key.db_password (1 ∷ [])
    × Supplied environment Key.jwt_secret (2 ∷ [])
    × Supplied environment Key.platform_admin_key (3 ∷ [])
    × Listed environment Key.kafka_brokers ((97 ∷ []) ∷ [])
    × Listed environment Key.allowed_origins ((98 ∷ []) ∷ [])
unfolding same_bytes get_env given get_env_secret get_env_parsed split_commas is_space trim_left
    trim_onto trim_right trim_space trimmed_entries some_entries get_env_list ◌>>=◌ load
load-Supplied_example = load-Supplied (λ t. none) (λ t. none) environment configured refl refl
