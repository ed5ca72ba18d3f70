-- ===== src/Database/Migrations/Run.antt =====
-- RunMigrations of internal/database/migrations.go, and InitDB of internal/database/db.go.
use cross_platform_media_sha.Base.{
  ℕ, zero, suc, ◌/◌, Bool, Option, none, some, List, [], ◌∷◌, ◌++◌, ltb, if◌then◌else◌, Eq, ◌==◌,
  ==_iff,
}
use cross_platform_media_sha.Text.{Bytes, Unicode, lit, decimal}
use cross_platform_media_sha.Database.Table.{has}
use cross_platform_media_sha.Database.Store.{ok, err, second}
use cross_platform_media_sha.Database.Migrations.Legacy.{Interruption}
use cross_platform_media_sha.Database.Migrations.Catalog.{
  Catalog, MigrationRow, Outcome, done, refused, if_not_exists, no_such_table, unique_violated,
  present, schema_migrations_table, pairings_table,
}
use cross_platform_media_sha.Database.Migrations.Script.{Script}
use cross_platform_media_sha.Database.Migrations.Session.{
  Exec, Session, pure, ◌>>=◌, ◌>>◌, statement, perform, begin_tx, commit_tx, or_rollback, explained,
  time_now,
}
use cross_platform_media_sha.Database.Migrations.Steps.{
  v1_init, v2_normalize_blocked_words, v3_create_event_history, v4_create_digest_events,
}

pub record Migration : Type 1 where
  pub version : ℕ
  pub name : Bytes
  pub up : Script (Unit {0})

abbrev pub migrations : ⦃u : Unicode⦄ ⦃cut : Interruption⦄ → List Migration
migrations =
    record { version = 1; name = lit "init_baseline"; up = v1_init }
    ∷ record { version = 2; name = lit "normalize_blocked_words"; up = v2_normalize_blocked_words }
    ∷ record { version = 3; name = lit "create_event_history"; up = v3_create_event_history }
    ∷ record { version = 4; name = lit "create_digest_events"; up = v4_create_digest_events }
    ∷ []

instance abbrev pub version_eq : Eq ℕ
version_eq = record { beq = λ a b. a == b; beq_iff = ==_iff }

abbrev pub migration_version : MigrationRow → ℕ
migration_version r = r.version

-- CREATE TABLE IF NOT EXISTS schema_migrations
abbrev pub with_versions : Catalog → Catalog
with_versions c = record c { schema_migrations = if_not_exists [] c.schema_migrations }

abbrev pub create_schema_migrations : Catalog → Outcome (Unit {0})
create_schema_migrations c = done tt (with_versions c)

unfoldable pub create_versions : Exec (Unit {0})
create_versions =
    explained (lit "failed to create schema_migrations: ") (statement create_schema_migrations)

-- MAX(version), which is NULL for an empty table
unfoldable pub max_version : List MigrationRow → ℕ
max_version [] = 0
max_version (r ∷ rs) = let rest = max_version rs in if ltb rest r.version then r.version else rest

-- SELECT MAX(version) FROM schema_migrations. NULL does not fit an int: the scan fails, and the
-- version is 0 then, as after every other error.
abbrev pub select_max_version : Catalog → Outcome ℕ
select_max_version c = elim c.schema_migrations [
  | none ↦ refused (no_such_table schema_migrations_table)
  | some rs ↦ done (max_version rs) c
]

-- `if err != nil { currentVersion = 0 }`
abbrev pub or_zero : Exec ℕ → Exec ℕ
or_zero m s = let (r, s') = m s in elim r [ ok v ↦ (ok v, s') | err e ↦ (ok 0, s') ]

abbrev pub current_version : Exec ℕ
current_version = or_zero (statement select_max_version)

-- tableExists("pairings")
abbrev pub pairings_exist : Exec Bool
pairings_exist = statement λ c. done (present pairings_table c) c

-- the guard for a file without versions: only the error of the query counts
abbrev pub check_unversioned : ℕ → Exec (Unit {0})
check_unversioned zero = pairings_exist >> pure tt
check_unversioned (suc v) = pure tt

-- INSERT INTO schema_migrations (version, applied_at)
abbrev pub insert_version : ℕ → ℕ → Catalog → Outcome (Unit {0})
insert_version v now c = elim c.schema_migrations [
  | none ↦ refused (no_such_table schema_migrations_table)
  | some rs ↦
      if has migration_version v rs
      then refused (unique_violated schema_migrations_table)
      else done tt (record c {
        schema_migrations = some (rs ++ record { version = v; applied_at = now } ∷ []);
      })
]

-- fmt.Errorf with the version of a migration, up to its `%w`
unfoldable pub failure : Bytes → ℕ → Bytes → Bytes
unfolding decimal
failure before v after = before ++ (decimal v ++ after)

-- the end of the loop's body: the version is recorded, and the transaction committed
unfoldable pub record_applied : ℕ → Exec (Unit {0})
record_applied v = do
  now ← time_now
  or_rollback (
      explained (failure (lit "failed to record migration v") v (lit ": "))
        (statement (insert_version v (now / second))))
  explained (failure (lit "failed to commit migration v") v (lit ": ")) commit_tx

-- the body of the loop of RunMigrations
unfoldable pub apply_migration : Migration → Exec (Unit {0})
unfolding perform record_applied
apply_migration m = do
  explained (failure (lit "failed to begin tx for v") m.version (lit ": ")) begin_tx
  or_rollback (explained (failure (lit "migration v") m.version (lit " failed: ")) (perform m.up))
  record_applied m.version

-- the loop over the migrations that are later than the version of the file
unfoldable pub apply_pending : ℕ → List Migration → Exec (Unit {0})
unfolding apply_migration
apply_pending current [] = pure tt
apply_pending current (m ∷ ms) =
    if ltb current m.version
    then apply_migration m >> apply_pending current ms
    else apply_pending current ms

unfoldable pub run_migrations : ⦃u : Unicode⦄ ⦃cut : Interruption⦄ → Exec (Unit {0})
unfolding create_versions apply_pending max_version
run_migrations = do
  create_versions
  current ← current_version
  check_unversioned current
  apply_pending current migrations

-- how InitDB ends: the program runs on, or log.Fatal has ended it
pub data Started : Type 0 where
  running : Session → Started
  fatal : Bytes → Session → Started

-- `open_error` is what sql.Open reports
unfoldable pub init_db : ⦃u : Unicode⦄ ⦃cut : Interruption⦄ → Option Bytes → Session → Started
unfolding run_migrations
init_db (some e) s = fatal e s
init_db none s =
    let (r, s') = run_migrations s in
    elim r [ ok x ↦ running s' | err e ↦ fatal (lit "database migration failed:" ++ e) s' ]
