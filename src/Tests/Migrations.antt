-- ===== src/Tests/Migrations.antt =====
-- Database files of three ages, and RunMigrations on them.
use cross_platform_media_sha.Base.{
  ◌≡◌, refl, true, false, none, some, List, [], ◌∷◌, ◌==◌, arith, if◌then◌else◌,
}
use cross_platform_media_sha.Text.{lit, trim, split, to_lower, same}
use cross_platform_media_sha.Models.{Route, same_route}
use cross_platform_media_sha.Database.Migrations.Steps.{
  v1_init, v2_normalize_blocked_words, copy_rows, v3_create_event_history, v4_create_digest_events,
}
use cross_platform_media_sha.Database.Table.{has}
use cross_platform_media_sha.Database.Migrations.Legacy.{Interruption, split_blocked_words_legacy}
use cross_platform_media_sha.Database.Migrations.Catalog.{Catalog, MigrationRow}
use cross_platform_media_sha.Database.Migrations.Session.{Session, Driver}
use cross_platform_media_sha.Database.Migrations.Run.{max_version, run_migrations, with_versions}
use cross_platform_media_sha.Database.Migrations.Data.{KeepsData, blocks, legacy_blocks}
use cross_platform_media_sha.Database.Migrations.Session.{perform}
use cross_platform_media_sha.Database.Migrations.Words.{pairings_of}
use cross_platform_media_sha.Database.Migrations.Safe.{apart, run_migrations-KeepsData}
use cross_platform_media_sha.Database.Migrations.Holds.{Holds}
use cross_platform_media_sha.Database.Migrations.Current.{run_migrations-current}
use cross_platform_media_sha.Database.Migrations.Shape.{IsAt}
use cross_platform_media_sha.Database.Migrations.Rounds.{Ends}
use cross_platform_media_sha.Database.Migrations.Finish.{run_migrations-IsAt}
use cross_platform_media_sha.Tests.Data.{ascii}

-- the pairings are read to their end
instance abbrev whole : Interruption
whole = record { rows_before_error = none }

-- a file that has nothing yet
abbrev new_file : Catalog
new_file = record {
  schema_migrations = none;
  pairings = none;
  pairings_old = none;
  blocked_words = none;
  pending_events = none;
  processed_events = none;
  dead_letters = none;
  media_dedupe = none;
  audit_log = none;
  event_history = none;
  digest_events = none;
  index_of = λ i. none;
}

abbrev route : Route
route = record {
  source_platform = lit "telegram";
  source_id = lit "1";
  target_platform = lit "discord";
  target_id = lit "2";
}

-- a file from before the versions: the words are a column, and there are no secrets
abbrev old_file : Catalog
old_file = record new_file {
  pairings = some (
      pairings_of true true false (
        record {
          route = route;
          words = some (lit "Spam, ham,,spam");
          rules = some (lit "{}");
          secret = none;
        }
        ∷ []));
}

abbrev versions : List MigrationRow
versions =
    record { version = 1; applied_at = 5 }
    ∷ record { version = 2; applied_at = 5 }
    ∷ record { version = 3; applied_at = 5 }
    ∷ record { version = 4; applied_at = 5 }
    ∷ []

abbrev current_file : Catalog
current_file = record new_file {
  schema_migrations = some versions;
  pairings = some (pairings_of false true true []);
}

abbrev willing : Driver
willing = record { fault = λ n. none; explain = λ p. []; clock = λ n. n }

-- the driver refuses the second statement, the query of the version
abbrev unwilling : Driver
unwilling = record willing { fault = λ n. if n == 1 then some (lit "disk I/O error") else none }

abbrev connection : Driver → Catalog → Session
connection d c = record { catalog = c; saved = none; driver = d; step = 0 }

split_test : split_blocked_words_legacy (lit "Spam, ham,,spam") ≡ lit "spam" ∷ lit "ham" ∷ []
unfolding split_blocked_words_legacy trim split to_lower has same
split_test = refl

run_migrations-KeepsData_example :
    Holds
      (λ c. KeepsData old_file (apart old_file c))
      (run_migrations (connection unwilling old_file))
run_migrations-KeepsData_example = run_migrations-KeepsData (connection unwilling old_file) refl

run_migrations-current_example :
    Holds (λ c. c ≡ current_file) (run_migrations (connection unwilling current_file))
unfolding has
run_migrations-current_example =
    run_migrations-current (connection unwilling current_file) refl refl refl refl refl

-- an old file is at version 0
old_file-IsAt : IsAt 0 (with_versions old_file)
unfolding has max_version
old_file-IsAt = record {
  is_version = record { has_versions = refl; is_max = refl; are_recorded = λ w. ground arith };
  schema = ((refl, (refl, (refl, (refl, refl)))), (refl, tt));
}

run_migrations-IsAt_example : Ends willing (IsAt 4) (run_migrations (connection willing old_file))
run_migrations-IsAt_example =
    run_migrations-IsAt 0 (connection willing old_file) (omega arith) (λ n. refl) refl old_file-IsAt

-- an error before the first of the pairings: RunMigrations reports nothing, and a word is lost
abbrev broken_off : Interruption
broken_off = record { rows_before_error = some 0 }

words_are_lost :
    (blocks old_file route (lit "spam") ≡ true)
    × (blocks
          (run_migrations ⦃cut = broken_off⦄ (connection willing old_file)).1.catalog
          route
          (lit "spam")
        ≡ false)
unfolding run_migrations perform trim split to_lower has same legacy_blocks
    split_blocked_words_legacy same_route v1_init v2_normalize_blocked_words copy_rows
    v3_create_event_history v4_create_digest_events
words_are_lost = (refl, refl)
