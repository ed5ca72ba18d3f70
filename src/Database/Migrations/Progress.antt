-- ===== src/Database/Migrations/Progress.antt =====
-- Where the driver refuses nothing, RunMigrations brings a file of any version to the last one.
use mathlib.Core.Path.{subst}
use cross_platform_media_sha.Base.{
  ℕ, zero, suc, ◌≡◌, refl, sym, ◌∙◌, true, ◌&&◌, Option, some, List, [], ◌∷◌, ◌++◌, ltb, leb, inl,
  inr, arith, Option-cases, Bool-cases, if◌then◌else◌,
}
use cross_platform_media_sha.Text.{Unicode}
use cross_platform_media_sha.Database.Table.{has, has-append}
use cross_platform_media_sha.Database.Migrations.Legacy.{Interruption}
use cross_platform_media_sha.Database.Migrations.Catalog.{
  Catalog, MigrationRow, Outcome, done, refused, schema_migrations_table,
}
use cross_platform_media_sha.Database.Migrations.Run.{
  insert_version, migration_version, version_eq, max_version,
}
use cross_platform_media_sha.Database.Migrations.Data.{rows_of}
use cross_platform_media_sha.Database.Migrations.Keeping.{KeepsInto}
use cross_platform_media_sha.Database.Migrations.Applied.{Recorded, Rejected, IsRefused}
use cross_platform_media_sha.Database.Migrations.Current.{is_recorded}
use cross_platform_media_sha.Database.Migrations.Shape.{Has, Schema, IsVersion, IsAt}
use cross_platform_media_sha.Database.Migrations.InitReached.{Reaches}

-- what an insertion of a version does: it adds a row, or finds one or no table
abbrev Inserted : ℕ → Catalog → Outcome (Unit {0}) → Type 0
Inserted v c (done x d) =
    (rs : List MigrationRow) × ((now : ℕ) × ((c.schema_migrations ≡ some rs)
        × (d ≡ record c {
          schema_migrations = some (rs ++ record { version = v; applied_at = now } ∷ []);
        })))
Inserted v c (refused p) = Has schema_migrations_table c → is_recorded v c ≡ true

insert_version-Inserted : (v now : ℕ) (c : Catalog) → Inserted v c (insert_version v now c)
insert_version-Inserted v now c = elim (Option-cases c.schema_migrations) [
  | inl e ↦ rw (e, insert_version) (λ h. cc h)
  | inr (rs, e) ↦ elim (Bool-cases (has migration_version v rs)) [
    | inl h ↦ rw (e, insert_version) (rw h (λ k. h))
    | inr h ↦ rw (e, insert_version) (rw h (rs, (now, (refl, refl))))
  ]
]

max_version-append :
    (rs : List MigrationRow) (r : MigrationRow)
    → max_version (rs ++ r ∷ [])
      ≡ (if ltb (max_version rs) r.version then r.version else max_version rs)
unfolding max_version
max_version-append [] r = ground arith
max_version-append (q ∷ rs) r = ground (arith, max_version-append rs r)

-- the version table says nothing of the schema
kept-Schema :
    (v : ℕ) (c : Catalog) (o : Option (List MigrationRow))
    → Schema v c
    → Schema v (record c { schema_migrations = o })
kept-Schema zero c o h = h
kept-Schema (suc zero) c o h = h
kept-Schema (suc (suc zero)) c o h = h
kept-Schema (suc (suc (suc zero))) c o h = h
kept-Schema (suc (suc (suc (suc v)))) c o h = h

next-IsVersion :
    (v now : ℕ) (c : Catalog) (rs : List MigrationRow)
    → c.schema_migrations ≡ some rs
    → IsVersion v c
    → IsVersion (suc v) (record c {
      schema_migrations = some (rs ++ record { version = suc v; applied_at = now } ∷ []);
    })
unfolding has
next-IsVersion v now c rs e h =
    let r : MigrationRow = record { version = suc v; applied_at = now } in
    let m : max_version rs ≡ v = subst (λ o. max_version (rows_of o) ≡ v) e h.is_max in
    let k : (w : ℕ) → has migration_version w rs ≡ (ltb 0 w && leb w v) = λ w.
      subst (λ o. has migration_version w (rows_of o) ≡ (ltb 0 w && leb w v)) e
        (h.are_recorded w) in
    record {
      has_versions = refl;
      is_max = ground (arith, max_version-append rs r, m);
      are_recorded = λ w. ground (arith, has-append migration_version w rs r, k w);
    }

moved-IsVersion :
    (v : ℕ) (c b : Catalog)
    → b.schema_migrations ≡ c.schema_migrations
    → IsVersion v c
    → IsVersion v b
moved-IsVersion v c b e h = record {
  has_versions = rw e h.has_versions;
  is_max = rw e h.is_max;
  are_recorded = λ w. rw e (h.are_recorded w);
}

module _ ⦃u : Unicode⦄ ⦃cut : Interruption⦄ where
  -- the version is recorded after its migration
  Inserted-IsAt :
      (v : ℕ) (c b d : Catalog) (o : Outcome (Unit {0}))
      → IsVersion v b
      → Schema (suc v) b
      → Inserted (suc v) b o
      → o ≡ done tt d
      → IsAt (suc v) d
  Inserted-IsAt v c b d (done x a) h k i e =
      let q : a ≡ d = cc in
      subst (IsAt (suc v)) (sym i.1.1.1 ∙ q) (record {
        is_version = next-IsVersion v i.1.0 b i.0 i.1.1.0 h;
        schema = kept-Schema (suc v) b _ k;
      })
  Inserted-IsAt v c b d (refused p) h k i e = cc

  pub advance-IsAt :
      (v : ℕ) (c d : Catalog) (o : Outcome (Unit {0}))
      → IsVersion v c
      → KeepsInto c o
      → Reaches (Schema (suc v)) o
      → Recorded (suc v) o d
      → IsAt (suc v) d
  advance-IsAt v c d (done x b) h k l r =
      Inserted-IsAt v c b d (insert_version (suc v) r.0 b) (moved-IsVersion v c b k.same_versions h)
        l (insert_version-Inserted (suc v) r.0 b) r.1
  advance-IsAt v c d (refused p) h k l r = absurd r

  accepted :
      (v : ℕ) (b : Catalog) (o : Outcome (Unit {0}))
      → IsVersion v b
      → Inserted (suc v) b o
      → IsRefused o
      → ⊥
  accepted v b (done x d) h i r = r
  accepted v b (refused p) h i r =
      let a : is_recorded (suc v) b ≡ true = i h.has_versions in
      let e : is_recorded (suc v) b ≡ (ltb 0 (suc v) && leb (suc v) v) = h.are_recorded (suc v) in
      ground (arith, a, e)

  -- SQLite refuses neither the migration nor its version
  pub taken :
      (v : ℕ) (c : Catalog) (o : Outcome (Unit {0}))
      → IsVersion v c
      → KeepsInto c o
      → Reaches (Schema (suc v)) o
      → Rejected (suc v) o
      → ⊥
  taken v c (done x b) h k l r =
      accepted v b (insert_version (suc v) r.0 b) (moved-IsVersion v c b k.same_versions h)
        (insert_version-Inserted (suc v) r.0 b) r.1
  taken v c (refused p) h k l r = l
