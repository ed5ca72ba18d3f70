-- ===== src/Database/Migrations/Finish.antt =====
-- Where the driver refuses nothing, RunMigrations ends without an error at the last version.
use mathlib.Core.Path.{subst}
use cross_platform_media_sha.Base.{
  ℕ, zero, suc, ◌≤◌, ◌≡◌, refl, sym, ap, ◌∙◌, Option, none, some, List,
}
use cross_platform_media_sha.Text.{Bytes, Unicode, lit}
use cross_platform_media_sha.Database.Store.{Result, ok, err}
use cross_platform_media_sha.Database.Migrations.Legacy.{Interruption}
use cross_platform_media_sha.Database.Migrations.Catalog.{
  Catalog, MigrationRow, no_such_table, schema_migrations_table, done, refused, present,
  pairings_table,
}
use cross_platform_media_sha.Database.Migrations.Session.{
  Exec, Session, Driver, NoFaults, pure, ◌>>=◌, ◌>>◌, statement, explained, Answered,
  statement-Answered,
}
use cross_platform_media_sha.Database.Migrations.Run.{
  migrations, max_version, apply_pending, run_migrations, with_versions, create_versions,
  create_schema_migrations, current_version, check_unversioned, select_max_version, or_zero,
  pairings_exist,
}
use cross_platform_media_sha.Database.Migrations.Shape.{IsAt}
use cross_platform_media_sha.Database.Migrations.Rounds.{
  IsIdle, Ends, bind-Ends, apply_pending-Ends,
}
use cross_platform_media_sha.Database.Migrations.Data.{rows_of}

module _ (d : Driver) (faultless : NoFaults d) where
  -- One statement that SQLite takes.
  taken-Ends :
      {A : Type 0} (P : Catalog → Type 0) (s : Session) (a : A) (c : Catalog)
      (r : Result A × Session)
      → IsIdle d s
      → P c
      → Answered s (done a c) r
      → Ends d P r
  taken-Ends P s a c (ok b, s') i p h =
      let e : c ≡ s'.catalog = cc (h.0) in ((h.1.0 ∙ i.0, h.1.1 ∙ i.1), subst P e p)
  taken-Ends P s a c (err x, s') i p h =
      let k = h.1.1.1 (subst NoFaults (sym i.1) faultless) in cc (k.1)

  explained-Ends :
      {A : Type 0} (P : Catalog → Type 0) (text : Bytes) (r : Result A × Session) (s : Session)
      → Ends d P r
      → Ends d P (explained text (λ _. r) s)
  explained-Ends P text (ok a, s') s h = h
  explained-Ends P text (err e, s') s h = h

  create_versions-Ends :
      (P : Catalog → Type 0) (s : Session)
      → IsIdle d s
      → P (with_versions s.catalog)
      → Ends d P (create_versions s)
  unfolding create_versions
  create_versions-Ends P s i p =
      explained-Ends P (lit "failed to create schema_migrations: ")
        (statement create_schema_migrations s) s
        (taken-Ends P s tt (with_versions s.catalog) (statement create_schema_migrations s) i p
          (statement-Answered create_schema_migrations s))

  -- the version that is read is that of the file
  read-Ends :
      (v : ℕ) (Q : Catalog → Type 0) (s : Session) (r : Result ℕ × Session)
      (g : ℕ → Exec (Unit {0}))
      → IsIdle d s
      → IsAt v s.catalog
      → Answered s (done v s.catalog) r
      → ((s' : Session) → IsIdle d s' → IsAt v s'.catalog → Ends d Q (g v s'))
      → Ends d Q ((or_zero (λ _. r) >>= g) s)
  read-Ends v Q s (ok n, s') g i h a k =
      let e : s.catalog ≡ s'.catalog = cc (a.0) in
      let f : v ≡ n = cc (a.0) in rw (← f) (k s' (a.1.0 ∙ i.0, a.1.1 ∙ i.1) (subst (IsAt v) e h))
  read-Ends v Q s (err x, s') g i h a k =
      let b = a.1.1.1 (subst NoFaults (sym i.1) faultless) in cc (b.1)

  check-Ends :
      (v : ℕ) (P : Catalog → Type 0) (s : Session)
      → IsIdle d s
      → P s.catalog
      → Ends d P (check_unversioned v s)
  check-Ends zero P s i p =
      bind-Ends d P P (pairings_exist s) (λ b. pure tt) s
        (taken-Ends P s (present pairings_table s.catalog) s.catalog (pairings_exist s) i p
          (statement-Answered (λ c. done (present pairings_table c) c) s))
        (λ b s' i' p'. (i', p'))
  check-Ends (suc v) P s i p = (i, p)

  selected : (v : ℕ) (c : Catalog) → IsAt v c → select_max_version c ≡ done v c
  selected v c h = go c.schema_migrations refl
    where
      go :
          (o : Option (List MigrationRow))
          → c.schema_migrations ≡ o
          → select_max_version c ≡ done v c
      go none e = cc (rw e at (h.is_version.has_versions))
      go (some rs) e =
          let m : max_version rs ≡ v =
            subst (λ o. max_version (rows_of o) ≡ v) e h.is_version.is_max in
          ap
            (λ o. elim o [
              | none ↦ refused (no_such_table schema_migrations_table)
              | some rs ↦ done (max_version rs) c
            ])
            e
          ∙ ap (λ n. done n c) m

  run-Ends :
      ⦃u : Unicode⦄ ⦃cut : Interruption⦄ (v : ℕ) (s : Session)
      → v ≤ 4
      → IsIdle d s
      → IsAt v (with_versions s.catalog)
      → Ends d (IsAt 4) (run_migrations s)
  unfolding run_migrations
  run-Ends v s l i h =
      bind-Ends d {B = Unit {0}} (IsAt v) (IsAt 4) (create_versions s)
        (λ _. current_version >>= λ n. check_unversioned n >> apply_pending n migrations) s
        (create_versions-Ends (IsAt v) s i h)
        λ x s1 i1 h1.
          read-Ends v (IsAt 4) s1 (statement select_max_version s1)
            (λ n. check_unversioned n >> apply_pending n migrations) i1 h1
            (subst (λ o. Answered s1 o (statement select_max_version s1)) (selected v s1.catalog h1)
              (statement-Answered select_max_version s1))
            λ s2 i2 h2.
              bind-Ends d {B = Unit {0}} (IsAt v) (IsAt 4) (check_unversioned v s2)
                (λ _. apply_pending v migrations) s2 (check-Ends v (IsAt v) s2 i2 h2)
                (λ y s3 i3 h3. apply_pending-Ends d faultless v s3 l i3 h3)

-- Where the driver refuses nothing and no transaction is open, RunMigrations reports no error on a
-- file of any version, a new one or one from before the versions included, and afterwards the
-- file is at version 4: the four versions are recorded, and the tables and columns that the
-- program reads and writes are there.
pub run_migrations-IsAt :
    ⦃u : Unicode⦄ ⦃cut : Interruption⦄ (v : ℕ) (s : Session)
    → v ≤ 4
    → NoFaults s.driver
    → s.saved ≡ none
    → IsAt v (with_versions s.catalog)
    → Ends s.driver (IsAt 4) (run_migrations s)
run_migrations-IsAt v s l k h a = run-Ends s.driver k v s l (h, refl) a
