-- ===== src/Database/Migrations/Current.antt =====
-- A version that the file records is never recorded again, so a file that is up to date stays as it is.
use mathlib.Core.Path.{subst}
use cross_platform_media_sha.Base.{
  ℕ, ◌≡◌, refl, ap, Bool, true, false, Option, none, some, List, [], inl, inr, Option-cases,
  Bool-cases,
}
use cross_platform_media_sha.Text.{Unicode}
use cross_platform_media_sha.Database.Table.{has}
use cross_platform_media_sha.Database.Migrations.Legacy.{Interruption}
use cross_platform_media_sha.Database.Migrations.Catalog.{
  Catalog, MigrationRow, Outcome, done, refused, if_not_exists,
}
use cross_platform_media_sha.Database.Migrations.Script.{Script, meaning}
use cross_platform_media_sha.Database.Migrations.Session.{Session}
use cross_platform_media_sha.Database.Migrations.Steps.{
  v1_init, v2_normalize_blocked_words, v3_create_event_history, v4_create_digest_events,
}
use cross_platform_media_sha.Database.Migrations.Run.{
  migrations, insert_version, migration_version, version_eq, run_migrations,
}
use cross_platform_media_sha.Database.Migrations.Data.{rows_of}
use cross_platform_media_sha.Database.Migrations.Kept.{v1-IsKept, v3-IsKept, v4-IsKept}
use cross_platform_media_sha.Database.Migrations.Keeping.{KeepsInto, IsKept}
use cross_platform_media_sha.Database.Migrations.Words.{v2-IsKept}
use cross_platform_media_sha.Database.Migrations.Applied.{Recorded}
use cross_platform_media_sha.Database.Migrations.Holds.{
  Holds, apply_pending-Holds, run_migrations-Holds,
}

-- the version is recorded in the file
abbrev pub is_recorded : ℕ → Catalog → Bool
is_recorded v c = has migration_version v (rows_of c.schema_migrations)

-- an insertion of a version that is taken finds it missing
abbrev MissingInto : Bool → Outcome (Unit {0}) → Type 0
MissingInto b (done x d) = b ≡ false
MissingInto b (refused p) = Unit

insert_version-MissingInto :
    (v now : ℕ) (c : Catalog) → MissingInto (is_recorded v c) (insert_version v now c)
insert_version-MissingInto v now c = elim (Option-cases c.schema_migrations) [
  | inl e ↦ rw (e, insert_version) tt
  | inr (rs, e) ↦ elim (Bool-cases (has migration_version v rs)) [
    | inl h ↦ rw (e, insert_version) (rw h tt)
    | inr h ↦ rw (e, insert_version) (rw h refl)
  ]
]

-- a file that records a version has the table of the versions
table_same :
    (v : ℕ) (o : Option (List MigrationRow))
    → has migration_version v (rows_of o) ≡ true
    → if_not_exists [] o ≡ o
unfolding has
table_same v none h = cc
table_same v (some rs) h = refl

module _ ⦃u : Unicode⦄ ⦃cut : Interruption⦄ where
  Recorded-missing :
      (v : ℕ) (c d : Catalog) (o : Outcome (Unit {0}))
      → KeepsInto c o
      → Recorded v o d
      → is_recorded v c ≡ false
  Recorded-missing v c d (done x b) k r =
      rw (← k.same_versions)
        (subst (MissingInto (is_recorded v b)) r.1 (insert_version-MissingInto v r.0 b))
  Recorded-missing v c d (refused p) k r = absurd r

  -- A migration whose script keeps the data is recorded only where its version is missing.
  pub IsKept-missing :
      (v : ℕ) (up : Script (Unit {0})) (c d : Catalog)
      → IsKept up
      → Recorded v (meaning up c) d
      → is_recorded v c ≡ false
  IsKept-missing v up c d k r = Recorded-missing v c d (meaning up c) (k.kept c) r

  stays :
      (a : Catalog) (v : ℕ) (up : Script (Unit {0}))
      → IsKept up
      → is_recorded v a ≡ true
      → (c d : Catalog) → c ≡ a
      → Recorded v (meaning up c) d
      → d ≡ a
  stays a v up k h c d e r = cc (IsKept-missing v up c d k r)

  -- Whatever the driver refuses, RunMigrations leaves a file as it is that records all four versions,
  -- and no transaction is open afterwards. That includes a start at which the version cannot be read,
  -- so that the first migration is run again: it is undone.
  pub run_migrations-current :
      (s : Session)
      → s.saved ≡ none
      → is_recorded 1 s.catalog ≡ true
      → is_recorded 2 s.catalog ≡ true
      → is_recorded 3 s.catalog ≡ true
      → is_recorded 4 s.catalog ≡ true
      → Holds (λ c. c ≡ s.catalog) (run_migrations s)
  run_migrations-current s h r1 r2 r3 r4 =
      let a : Catalog = s.catalog in
      run_migrations-Holds (λ c. c ≡ a) s h refl
        (ap (λ o. record a { schema_migrations = o }) (table_same 1 a.schema_migrations r1))
        λ n s' h' p r.
          apply_pending-Holds (λ c. c ≡ a) n migrations s'
            (
              stays a 1 v1_init v1-IsKept r1,
              (
                stays a 2 v2_normalize_blocked_words v2-IsKept r2,
                (
                  stays a 3 v3_create_event_history v3-IsKept r3,
                  (stays a 4 v4_create_digest_events v4-IsKept r4, tt),
                ),
              ),
            )
            h' p
