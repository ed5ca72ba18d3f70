-- ===== src/Database/Migrations/Safe.antt =====
-- RunMigrations keeps the data.
use cross_platform_media_sha.Base.{ℕ, ◌≡◌, refl, none, inl, inr, Option-cases, Bool-cases, All}
use mathlib.Core.Path.{subst}
use cross_platform_media_sha.Text.{Unicode}
use cross_platform_media_sha.Database.Table.{has}
use cross_platform_media_sha.Database.Migrations.Legacy.{Interruption}
use cross_platform_media_sha.Database.Migrations.Catalog.{Catalog, Outcome, done, refused}
use cross_platform_media_sha.Database.Migrations.Script.{Script, meaning}
use cross_platform_media_sha.Database.Migrations.Steps.{
  v1_init, v2_normalize_blocked_words, v3_create_event_history, v4_create_digest_events,
}
use cross_platform_media_sha.Database.Migrations.Session.{Session}
use cross_platform_media_sha.Database.Migrations.Run.{
  migrations, insert_version, migration_version, version_eq, run_migrations,
}
use cross_platform_media_sha.Database.Migrations.Data.{KeepsData, KeepsData-refl, KeepsData-trans}
use cross_platform_media_sha.Database.Migrations.Kept.{v1-IsKept, v3-IsKept, v4-IsKept}
use cross_platform_media_sha.Database.Migrations.Keeping.{KeepsInto, IsKept}
use cross_platform_media_sha.Database.Migrations.Words.{v2-IsKept}
use cross_platform_media_sha.Database.Migrations.Applied.{Recorded}
use cross_platform_media_sha.Database.Migrations.Holds.{
  Holds, Carries, apply_pending-Holds, run_migrations-Holds,
}

module _ ⦃u : Unicode⦄ ⦃cut : Interruption⦄ where
  -- the file `c` with the versions of another
  abbrev pub apart : Catalog → Catalog → Catalog
  apart a c = record c { schema_migrations = a.schema_migrations }

  apart-KeepsData :
      (a : Catalog) {c d : Catalog} → KeepsData c d → KeepsData (apart a c) (apart a d)
  apart-KeepsData a k = record {
    same_versions = refl;
    same_settings = k.same_settings;
    same_blocks = k.same_blocks;
    same_pending = k.same_pending;
    same_processed = k.same_processed;
    same_letters = k.same_letters;
    same_hashes = k.same_hashes;
    same_audit = k.same_audit;
    same_history = k.same_history;
    same_digests = k.same_digests;
  }

  -- what an outcome changes is the table of the versions at most
  abbrev ApartInto : Catalog → Catalog → Outcome (Unit {0}) → Type 0
  ApartInto a c (done x d) = apart a d ≡ apart a c
  ApartInto a c (refused p) = Unit

  insert_version-ApartInto :
      (a : Catalog) (v now : ℕ) (c : Catalog) → ApartInto a c (insert_version v now c)
  insert_version-ApartInto a v now c = elim (Option-cases c.schema_migrations) [
    | inl e ↦ rw (e, insert_version) tt
    | inr (rs, e) ↦ elim (Bool-cases (has migration_version v rs)) [
      | inl h ↦ rw (e, insert_version) (rw h tt)
      | inr h ↦ rw (e, insert_version) (rw h refl)
    ]
  ]

  Recorded-KeepsData :
      (a : Catalog) (v : ℕ) (c d : Catalog) (o : Outcome (Unit {0}))
      → KeepsData a (apart a c)
      → KeepsInto c o
      → Recorded v o d
      → KeepsData a (apart a d)
  Recorded-KeepsData a v c d (done x b) k l r =
      rw (subst (ApartInto a b) r.1 (insert_version-ApartInto a v r.0 b))
        (KeepsData-trans k (apart-KeepsData a l))
  Recorded-KeepsData a v c d (refused p) k l r = absurd r

  IsKept-Carries :
      (a : Catalog) (v : ℕ) (up : Script (Unit {0}))
      → IsKept up
      → (c d : Catalog) → KeepsData a (apart a c)
      → Recorded v (meaning up c) d
      → KeepsData a (apart a d)
  IsKept-Carries a v up k c d p r = Recorded-KeepsData a v c d (meaning up c) p (k.kept c) r

  migrations_kept : (a : Catalog) → All (Carries (λ c. KeepsData a (apart a c))) migrations
  migrations_kept a = (
    IsKept-Carries a 1 v1_init v1-IsKept,
    (
      IsKept-Carries a 2 v2_normalize_blocked_words v2-IsKept,
      (
        IsKept-Carries a 3 v3_create_event_history v3-IsKept,
        (IsKept-Carries a 4 v4_create_digest_events v4-IsKept, tt),
      ),
    ),
  )

  -- Whatever statement the driver refuses, and whatever schema the file has, RunMigrations leaves no
  -- transaction open, and apart from the table of the versions, the pairings with their rules and
  -- secrets and the rows of the other tables are the ones that were there. So are the blocked words of
  -- each route, where a column `blocked_words` of an old file counts as the words that it lists, unless
  -- an error in the middle of the rows has ended the reading of the pairings in version 2.
  pub run_migrations-KeepsData :
      (s : Session)
      → s.saved ≡ none
      → Holds (λ c. KeepsData s.catalog (apart s.catalog c)) (run_migrations s)
  run_migrations-KeepsData s h =
      let P : Catalog → Type 0 = λ c. KeepsData s.catalog (apart s.catalog c) in
      run_migrations-Holds P s h (KeepsData-refl s.catalog) (KeepsData-refl s.catalog)
        λ n s' h' p r. apply_pending-Holds P n migrations s' (migrations_kept s.catalog) h' p
