-- ===== src/Database/Migrations/Rounds.antt =====
-- Where the driver refuses nothing, the loop of RunMigrations brings a file of any version to the last
-- one.
use mathlib.Core.Path.{subst}
use cross_platform_media_sha.Base.{
  ℕ, zero, suc, ◌≤◌, ◌≡◌, true, none, List, [], ◌∷◌, ltb, drop, arith,
}
use cross_platform_media_sha.Text.{Bytes, Unicode, lit}
use cross_platform_media_sha.Database.Store.{Result, ok, err}
use cross_platform_media_sha.Database.Migrations.Legacy.{Interruption}
use cross_platform_media_sha.Database.Migrations.Catalog.{Catalog, Outcome}
use cross_platform_media_sha.Database.Migrations.Script.{Script, meaning}
use cross_platform_media_sha.Database.Migrations.Session.{Exec, Session, Driver, NoFaults, ◌>>=◌}
use cross_platform_media_sha.Database.Migrations.Steps.{
  v1_init, v2_normalize_blocked_words, v3_create_event_history, v4_create_digest_events,
}
use cross_platform_media_sha.Database.Migrations.Run.{
  Migration, migrations, apply_migration, apply_pending,
}
use cross_platform_media_sha.Database.Migrations.Kept.{v1-IsKept, v3-IsKept, v4-IsKept}
use cross_platform_media_sha.Database.Migrations.Keeping.{KeepsInto, IsKept}
use cross_platform_media_sha.Database.Migrations.Words.{v2-IsKept}
use cross_platform_media_sha.Database.Migrations.Applied.{Applied, apply_migration-Applied}
use cross_platform_media_sha.Database.Migrations.Shape.{Schema, IsAt}
use cross_platform_media_sha.Database.Migrations.Reached.{v2-Reaches, v3-Reaches, v4-Reaches}
use cross_platform_media_sha.Database.Migrations.InitReached.{Reaches, v1_file-Reaches}
use cross_platform_media_sha.Database.Migrations.Progress.{advance-IsAt, taken}

module _ (d : Driver) where
  -- the connection between two calls: the driver refuses nothing, and no transaction is open
  abbrev pub IsIdle : Session → Type 0
  IsIdle s = (s.saved ≡ none) × (s.driver ≡ d)

  -- The call succeeds, and the file has the property.
  abbrev pub Ends : {A : Type 0} → (Catalog → Type 0) → Result A × Session → Type 0
  Ends P (ok a, s) = IsIdle s × P s.catalog
  Ends P (err e, s) = ⊥

  pub bind-Ends :
      {A B : Type 0} (P Q : Catalog → Type 0) (r : Result A × Session) (g : A → Exec B)
      (s : Session)
      → Ends P r
      → ((a : A) (s' : Session) → IsIdle s' → P s'.catalog → Ends Q (g a s'))
      → Ends Q (((λ _. r) >>= g) s)
  bind-Ends P Q (ok a, s') g s h k = k a s' h.0 h.1
  bind-Ends P Q (err e, s') g s h k = absurd h

  module _ ⦃u : Unicode⦄ ⦃cut : Interruption⦄ (faultless : NoFaults d) where
    Applied-Ends :
        (v : ℕ) (c : Catalog) (o : Outcome (Unit {0})) (r : Result (Unit {0}) × Session)
        → IsAt v c
        → KeepsInto c o
        → Reaches (Schema (suc v)) o
        → Applied d c (suc v) o r
        → Ends (IsAt (suc v)) r
    Applied-Ends v c o (ok x, s) h k l a =
        ((a.0, a.1.0), advance-IsAt v c s.catalog o h.is_version k l a.1.1)
    Applied-Ends v c o (err e, s) h k l a = taken v c o h.is_version k l (a.1.1.1 faultless)

    -- One round of the loop, on a file that is at the version before.
    step-Ends :
        (n v : ℕ) (name : Bytes) (up : Script (Unit {0})) (ms : List Migration) (s : Session)
        → n ≤ v
        → IsKept up
        → ((c : Catalog) → Schema v c → Reaches (Schema (suc v)) (meaning up c))
        → ((s' : Session)
            → IsIdle s'
            → IsAt (suc v) s'.catalog
            → Ends (IsAt 4) (apply_pending n ms s'))
        → IsIdle s
        → IsAt v s.catalog
        → Ends (IsAt 4) (apply_pending n (record { version = suc v; name = name; up = up } ∷ ms) s)
    unfolding apply_pending
    step-Ends n v name up ms s l k r rest i h =
        let m : Migration = record { version = suc v; name = name; up = up } in
        let e : ltb n (suc v) ≡ true = ground arith in
        rw e (
          bind-Ends (IsAt (suc v)) (IsAt 4) (apply_migration m s) (λ _. apply_pending n ms) s
            (Applied-Ends v s.catalog (meaning up s.catalog) (apply_migration m s) h
              (k.kept s.catalog) (r s.catalog h.schema)
              (subst (λ x. Applied x s.catalog (suc v) (meaning up s.catalog) (apply_migration m s))
                i.1 (apply_migration-Applied m s i.0)))
            (λ x s' i' h'. rest s' i' h'))

    -- the rest of the loop, from each version
    from_three :
        (n : ℕ) (s : Session)
        → n ≤ 3
        → IsIdle s
        → IsAt 3 s.catalog
        → Ends (IsAt 4) (apply_pending n (drop 3 migrations) s)
    unfolding apply_pending
    from_three n s l i h =
        step-Ends n 3 (lit "create_digest_events") v4_create_digest_events [] s l v4-IsKept
          v4-Reaches (λ s' i' h'. (i', h')) i h

    from_two :
        (n : ℕ) (s : Session)
        → n ≤ 2
        → IsIdle s
        → IsAt 2 s.catalog
        → Ends (IsAt 4) (apply_pending n (drop 2 migrations) s)
    from_two n s l i h =
        step-Ends n 2 (lit "create_event_history") v3_create_event_history (drop 3 migrations) s l
          v3-IsKept v3-Reaches (λ s' i' h'. from_three n s' (omega arith) i' h') i h

    from_one :
        (n : ℕ) (s : Session)
        → n ≤ 1
        → IsIdle s
        → IsAt 1 s.catalog
        → Ends (IsAt 4) (apply_pending n (drop 1 migrations) s)
    from_one n s l i h =
        step-Ends n 1 (lit "normalize_blocked_words") v2_normalize_blocked_words (drop 2 migrations)
          s l v2-IsKept v2-Reaches (λ s' i' h'. from_two n s' (omega arith) i' h') i h

    -- The loop skips what the file has.
    pub apply_pending-Ends :
        (v : ℕ) (s : Session)
        → v ≤ 4
        → IsIdle s
        → IsAt v s.catalog
        → Ends (IsAt 4) (apply_pending v migrations s)
    unfolding apply_pending
    apply_pending-Ends zero s l i h =
        step-Ends 0 0 (lit "init_baseline") v1_init (drop 1 migrations) s (omega arith) v1-IsKept
          v1_file-Reaches (λ s' i' h'. from_one 0 s' (omega arith) i' h') i h
    apply_pending-Ends (suc zero) s l i h = from_one 1 s (omega arith) i h
    apply_pending-Ends (suc (suc zero)) s l i h = from_two 2 s (omega arith) i h
    apply_pending-Ends (suc (suc (suc zero))) s l i h = from_three 3 s (omega arith) i h
    apply_pending-Ends (suc (suc (suc (suc zero)))) s l i h = (i, h)
    apply_pending-Ends (suc (suc (suc (suc (suc v))))) s l i h = absurd (omega (arith, l))
