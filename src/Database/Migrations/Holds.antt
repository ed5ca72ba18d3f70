-- ===== src/Database/Migrations/Holds.antt =====
-- Properties of the database file that a run of the migrations keeps, whatever the driver refuses: a
-- rule for each step of RunMigrations, and for the whole.
use cross_platform_media_sha.Base.{
  ℕ, zero, suc, ◌≡◌, refl, sym, ap, ◌⊎◌, ◌∙◌, Bool, none, some, List, [], ◌∷◌, ltb, inl, inr,
  Bool-cases, All,
}
use mathlib.Core.Path.{subst}
use cross_platform_media_sha.Text.{Bytes, Unicode, lit}
use cross_platform_media_sha.Database.Store.{Result, ok, err}
use cross_platform_media_sha.Database.Migrations.Legacy.{Interruption}
use cross_platform_media_sha.Database.Migrations.Catalog.{
  Catalog, Outcome, done, refused, no_such_table, schema_migrations_table, present, pairings_table,
}
use cross_platform_media_sha.Database.Migrations.Script.{meaning}
use cross_platform_media_sha.Database.Migrations.Session.{
  Exec, Session, pure, ◌>>=◌, ◌>>◌, statement, explained, Answered, statement-Answered,
}
use cross_platform_media_sha.Database.Migrations.Run.{
  Migration, migrations, version_eq, apply_migration, apply_pending, run_migrations,
  create_schema_migrations, current_version, check_unversioned, select_max_version, pairings_exist,
  create_versions, with_versions, or_zero, max_version,
}
use cross_platform_media_sha.Database.Migrations.Applied.{
  Applied, Recorded, apply_migration-Applied,
}

-- the version that is read: that of the file, or 0 where it cannot be read
abbrev pub IsRead : ℕ → Catalog → Type 0
IsRead n c = (n ≡ 0) ⊎ (select_max_version c ≡ done n c)

-- the file that an outcome leaves
abbrev catalog_in : {A : Type 0} → Catalog → Outcome A → Catalog
catalog_in c (done a d) = d
catalog_in c (refused p) = c

same_file : (c : Catalog) → catalog_in c (select_max_version c) ≡ c
same_file c =
    elim c.schema_migrations
      as (λ o.
        catalog_in c (elim o [
          | none ↦ refused (no_such_table schema_migrations_table)
          | some rs ↦ done (max_version rs) c
        ])
        ≡ c) [ none ↦ refl | some rs ↦ refl ]

-- No transaction is open, and the file has the property.
abbrev pub Holds : {A : Type 0} → (Catalog → Type 0) → Result A × Session → Type 0
Holds P (r, s) = (s.saved ≡ none) × P s.catalog

module _ (P : Catalog → Type 0) where
  pub bind-Holds :
      {A B : Type 0} (r : Result A × Session) (g : A → Exec B) (s : Session)
      → Holds P r
      → ((a : A) (s' : Session) → s'.saved ≡ none → P s'.catalog → Holds P (g a s'))
      → Holds P (((λ _. r) >>= g) s)
  bind-Holds (ok a, s') g s h k = k a s' h.0 h.1
  bind-Holds (err e, s') g s h k = h

  -- the same where the first leaves more than the property
  bind_with-Holds :
      {A B : Type 0} (Q : Catalog → Type 0) (r : Result A × Session) (g : A → Exec B) (s : Session)
      → Holds Q r
      → ((c : Catalog) → Q c → P c)
      → ((a : A) (s' : Session) → s'.saved ≡ none → Q s'.catalog → Holds P (g a s'))
      → Holds P (((λ _. r) >>= g) s)
  bind_with-Holds Q (ok a, s') g s h l k = k a s' h.0 h.1
  bind_with-Holds Q (err e, s') g s h l k = (h.0, l s'.catalog h.1)

  -- a migration after which the property holds where it held before
  abbrev pub Carries : Migration → Type 0
  Carries m = (c d : Catalog) → P c → Recorded m.version (meaning m.up c) d → P d

  Applied-Holds :
      (m : Migration) (s : Session) (r : Result (Unit {0}) × Session)
      → Carries m
      → P s.catalog
      → Applied s.driver s.catalog m.version (meaning m.up s.catalog) r
      → Holds P r
  Applied-Holds m s (ok x, s') k p a = (a.0, k s.catalog s'.catalog p a.1.1)
  Applied-Holds m s (err e, s') k p a = (a.0, rw (a.1.1.0) p)

  pub apply_pending-Holds :
      (v : ℕ) (ms : List Migration) (s : Session)
      → All Carries ms
      → s.saved ≡ none
      → P s.catalog
      → Holds P (apply_pending v ms s)
  unfolding apply_pending
  apply_pending-Holds v [] s k h p = (h, p)
  apply_pending-Holds v (m ∷ ms) s k h p = elim (Bool-cases (ltb v m.version)) [
    | inl e ↦ rw e (
        bind-Holds (apply_migration m s) (λ _. apply_pending v ms) s
          (Applied-Holds m s (apply_migration m s) k.0 p (apply_migration-Applied m s h))
          (λ x s' h' p'. apply_pending-Holds v ms s' k.1 h' p'))
    | inr e ↦ rw e (apply_pending-Holds v ms s k.1 h p)
  ]

  create-Holds :
      (s : Session) (r : Result (Unit {0}) × Session)
      → Answered s (create_schema_migrations s.catalog) r
      → s.saved ≡ none
      → P s.catalog
      → P (with_versions s.catalog)
      → Holds P r
  create-Holds s (ok x, s') a h p k = (a.1.0 ∙ h, subst P (ap (catalog_in s.catalog) a.0) k)
  create-Holds s (err e, s') a h p k = (a.1.0 ∙ h, rw (a.0) p)

  -- the query of the version, which leaves the file as it is and never fails
  read-Holds :
      (s : Session) (r : Result ℕ × Session) (g : ℕ → Exec (Unit {0}))
      → Answered s (select_max_version s.catalog) r
      → s.saved ≡ none
      → P s.catalog
      → ((n : ℕ) (s' : Session)
          → s'.saved ≡ none
          → P s'.catalog
          → IsRead n s'.catalog
          → Holds P (g n s'))
      → Holds P ((or_zero (λ _. r) >>= g) s)
  read-Holds s (ok n, s') g a h p k =
      let e : s.catalog ≡ s'.catalog = sym (same_file s.catalog) ∙ ap (catalog_in s.catalog) a.0 in
      k n s' (a.1.0 ∙ h) (subst P e p) (inr (rw (← e) (a.0 ∙ ap (λ c. done n c) (sym e))))
  read-Holds s (err e, s') g a h p k = k 0 s' (a.1.0 ∙ h) (rw (a.0) p) (inl refl)

  exist-Holds :
      (s : Session) (r : Result Bool × Session)
      → Answered s (done (present pairings_table s.catalog) s.catalog) r
      → s.saved ≡ none
      → P s.catalog
      → Holds P r
  exist-Holds s (ok b, s') a h p = (a.1.0 ∙ h, subst P (ap (catalog_in s.catalog) a.0) p)
  exist-Holds s (err e, s') a h p = (a.1.0 ∙ h, rw (a.0) p)

  check-Holds :
      (n : ℕ) (s : Session) → s.saved ≡ none → P s.catalog → Holds P (check_unversioned n s)
  check-Holds zero s h p =
      bind-Holds (pairings_exist s) (λ b. pure tt) s
        (exist-Holds s (pairings_exist s)
          (statement-Answered (λ c. done (present pairings_table c) c) s) h p)
        (λ b s' h' p'. (h', p'))
  check-Holds (suc n) s h p = (h, p)

  explained-Holds :
      {A : Type 0} (text : Bytes) (r : Result A × Session) (s : Session)
      → Holds P r
      → Holds P (explained text (λ _. r) s)
  explained-Holds text (ok a, s') s h = h
  explained-Holds text (err e, s') s h = h

  create_versions-Holds :
      (s : Session)
      → s.saved ≡ none
      → P s.catalog
      → P (with_versions s.catalog)
      → Holds P (create_versions s)
  unfolding create_versions
  create_versions-Holds s h p k =
      explained-Holds (lit "failed to create schema_migrations: ")
        (statement create_schema_migrations s) s
        (create-Holds s (statement create_schema_migrations s)
          (statement-Answered create_schema_migrations s) h p k)

module _ (P : Catalog → Type 0) where
  -- A run keeps a property that the table of the versions and the loop keep.
  pub run_migrations-Holds :
      ⦃u : Unicode⦄ ⦃cut : Interruption⦄ (s : Session)
      → s.saved ≡ none
      → P s.catalog
      → P (with_versions s.catalog)
      → ((n : ℕ) (s' : Session)
          → s'.saved ≡ none
          → P s'.catalog
          → IsRead n s'.catalog
          → Holds P (apply_pending n migrations s'))
      → Holds P (run_migrations s)
  unfolding run_migrations
  run_migrations-Holds s h p k loop =
      bind-Holds P {B = Unit {0}} (create_versions s)
        (λ _. current_version >>= λ n. check_unversioned n >> apply_pending n migrations) s
        (create_versions-Holds P s h p k)
        λ x s1 h1 p1.
          read-Holds P s1 (statement select_max_version s1)
            (λ n. check_unversioned n >> apply_pending n migrations)
            (statement-Answered select_max_version s1) h1 p1
            λ n s2 h2 p2 r.
              bind_with-Holds P {B = Unit {0}} (λ c. P c × IsRead n c) (check_unversioned n s2)
                (λ _. apply_pending n migrations) s2
                (check-Holds (λ c. P c × IsRead n c) n s2 h2 (p2, r)) (λ c q. q.0)
                (λ y s3 h3 q. loop n s3 h3 q.0 q.1)
