-- ===== src/Database/Migrations/Applied.antt =====
-- One migration on a connection that may refuse any statement: it is applied and recorded as a whole,
-- or the file is as it was.
use cross_platform_media_sha.Base.{
  ℕ, suc, ◌/◌, ◌≡◌, refl, sym, ap, ◌∙◌, none, some, inl, inr, Option-cases,
}
use cross_platform_media_sha.Text.{Bytes}
use cross_platform_media_sha.Database.Store.{Result, ok, err, second}
use cross_platform_media_sha.Database.Migrations.Catalog.{Catalog, Outcome, done, refused}
use cross_platform_media_sha.Database.Migrations.Script.{meaning}
use cross_platform_media_sha.Database.Migrations.Session.{
  Session, Driver, NoFaults, perform, Agrees, perform-Agrees, or_rollback, explained, ◌>>◌,
  commit_tx, begin_tx, statement, answer, Agrees-fault,
}
use cross_platform_media_sha.Database.Migrations.Run.{
  Migration, insert_version, record_applied, apply_migration,
}

-- the outcome of the migration, and what the file is after the version has been recorded
abbrev pub Recorded : ℕ → Outcome (Unit {0}) → Catalog → Type 0
Recorded v (done x c) d = (now : ℕ) × (insert_version v now c ≡ done tt d)
Recorded v (refused p) d = ⊥

abbrev pub IsRefused : Outcome (Unit {0}) → Type 0
IsRefused (done x c) = ⊥
IsRefused (refused p) = Unit

-- SQLite itself refuses the migration or its version
abbrev pub Rejected : ℕ → Outcome (Unit {0}) → Type 0
Rejected v (done x c) = (now : ℕ) × IsRefused (insert_version v now c)
Rejected v (refused p) = Unit

-- how a migration with this outcome may end that began on the file `c`
abbrev pub Applied :
    Driver → Catalog → ℕ → Outcome (Unit {0}) → Result (Unit {0}) × Session → Type 0
Applied d c v o (ok x, s) = (s.saved ≡ none) × ((s.driver ≡ d) × Recorded v o s.catalog)
Applied d c v o (err e, s) =
    (s.saved ≡ none) × ((s.driver ≡ d) × ((s.catalog ≡ c) × (NoFaults d → Rejected v o)))

-- a refusal contradicts a driver that refuses nothing
faultless : {P : Type 0} (d : Driver) (n : ℕ) {e : Bytes} → d.fault n ≡ some e → NoFaults d → P
faultless d n h k = cc (k n)

-- how a COMMIT may end, where the transaction began on the file `c`
abbrev Committed : Session → Catalog → Result (Unit {0}) × Session → Type 0
Committed s c (ok x, s') = (s'.saved ≡ none) × ((s'.driver ≡ s.driver) × (s'.catalog ≡ s.catalog))
Committed s c (err e, s') =
    (s'.saved ≡ none) × ((s'.driver ≡ s.driver) × ((s'.catalog ≡ c) × (NoFaults s.driver → ⊥)))

commit_tx-Committed : (s : Session) (c : Catalog) → s.saved ≡ some c → Committed s c (commit_tx s)
commit_tx-Committed s c h = elim (Option-cases (s.driver.fault s.step)) [
  | inl e ↦ rw (e, commit_tx) (refl, (refl, refl))
  | inr (x, e) ↦
      rw (e, commit_tx)
        (
          refl,
          (
            refl,
            (ap (λ o. elim o [ none ↦ s.catalog | some b ↦ b ]) h, faultless s.driver s.step e),
          ),
        )
]

answer-Agrees : {A : Type 0} (s : Session) (o : Outcome A) → Agrees s.saved s.driver o (answer s o)
answer-Agrees s (done a c) = (refl, (refl, (refl, refl)))
answer-Agrees s (refused p) = (refl, refl)

statement-Agrees :
    {A : Type 0} (f : Catalog → Outcome A) (s : Session)
    → Agrees s.saved s.driver (f s.catalog) (statement f s)
statement-Agrees f s = elim (Option-cases (s.driver.fault s.step)) [
  | inl e ↦ rw (e, statement) (answer-Agrees s (f s.catalog))
  | inr (x, e) ↦ rw (e, statement) (Agrees-fault s (f s.catalog) e)
]

-- The end of a migration that was taken: COMMIT.
commit-Applied :
    (d : Driver) (v : ℕ) (c b : Catalog) (s : Session) (text : Bytes)
    (r : Result (Unit {0}) × Session)
    → s.driver ≡ d
    → Recorded v (done tt b) s.catalog
    → Committed s c r
    → Applied d c v (done tt b) (explained text (λ s. r) s)
commit-Applied d v c b s text (ok x, s') h k l = (l.0, (l.1.0 ∙ h, rw (l.1.1) k))
commit-Applied d v c b s text (err e, s') h k l =
    (l.0, (l.1.0 ∙ h, (l.1.1.0, λ n. absurd (l.1.1.1 (rw h n)))))

-- The insertion of the version, and what follows it.
insert-Applied :
    (v now : ℕ) (c b : Catalog) (s : Session) (text text' : Bytes) (o : Outcome (Unit {0}))
    (r : Result (Unit {0}) × Session)
    → s.saved ≡ some c
    → insert_version v now b ≡ o
    → Agrees s.saved s.driver o r
    → Applied s.driver c v
        (done tt b)
        ((or_rollback (explained text (λ _. r)) >> explained text' commit_tx) s)
insert-Applied v now c b s text text' (done a x) (ok y, s') h e k =
    commit-Applied s.driver v c b s' text' (commit_tx s') k.1.1.1
      (now, e ∙ ap (λ z. done tt z) (sym k.1.0)) (commit_tx-Committed s' c (k.1.1.0 ∙ h))
insert-Applied v now c b s text text' (done a x) (err y, s') h e k = (
  refl,
  (k.1.0, (ap (λ o. elim o [ none ↦ s'.catalog | some b ↦ b ]) (k.0 ∙ h), λ n. absurd (k.1.1 n))),
)
insert-Applied v now c b s text text' (refused p) (ok y, s') h e k = absurd k
insert-Applied v now c b s text text' (refused p) (err y, s') h e k = (
  refl,
  (k.1, (ap (λ o. elim o [ none ↦ s'.catalog | some b ↦ b ]) (k.0 ∙ h), λ n. (now, rw e tt))),
)

record_applied-Applied :
    (v : ℕ) (c : Catalog) (s : Session)
    → s.saved ≡ some c
    → Applied s.driver c v (done tt s.catalog) (record_applied v s)
unfolding record_applied
record_applied-Applied v c s h =
    let t : Session = record s { step = suc s.step } in
    let now : ℕ = s.driver.clock s.step / second in
    insert-Applied v now c s.catalog t _ _ (insert_version v now s.catalog)
      (statement (insert_version v now) t) h refl (statement-Agrees (insert_version v now) t)

-- The script of the migration, and what follows it.
script-Applied :
    (v : ℕ) (d : Driver) (c : Catalog) (s : Session) (text : Bytes) (o : Outcome (Unit {0}))
    (r : Result (Unit {0}) × Session)
    → Agrees (some c) d o r
    → Applied d c v o ((or_rollback (explained text (λ _. r)) >> record_applied v) s)
script-Applied v d c s text (done a x) (ok y, s') k =
    rw (← k.1.0, ← k.1.1.1) (record_applied-Applied v c s' k.1.1.0)
script-Applied v d c s text (done a x) (err y, s') k = (
  refl,
  (k.1.0, (ap (λ o. elim o [ none ↦ s'.catalog | some b ↦ b ]) k.0, λ n. absurd (k.1.1 n))),
)
script-Applied v d c s text (refused p) (ok y, s') k = absurd k
script-Applied v d c s text (refused p) (err y, s') k =
    (refl, (k.1, (ap (λ o. elim o [ none ↦ s'.catalog | some b ↦ b ]) k.0, λ n. tt)))

-- how a BEGIN may end
abbrev Begun : Session → Result (Unit {0}) × Session → Type 0
Begun s (ok x, s') =
    (s'.saved ≡ some s.catalog) × ((s'.driver ≡ s.driver) × (s'.catalog ≡ s.catalog))
Begun s (err e, s') =
    (s'.saved ≡ s.saved)
    × ((s'.driver ≡ s.driver) × ((s'.catalog ≡ s.catalog) × (NoFaults s.driver → ⊥)))

begin_tx-Begun : (s : Session) → Begun s (begin_tx s)
begin_tx-Begun s = elim (Option-cases (s.driver.fault s.step)) [
  | inl e ↦ rw (e, begin_tx) (refl, (refl, refl))
  | inr (x, e) ↦ rw (e, begin_tx) (refl, (refl, (refl, faultless s.driver s.step e)))
]

begin-Applied :
    (m : Migration) (s : Session) (text text' : Bytes) (r : Result (Unit {0}) × Session)
    → s.saved ≡ none
    → Begun s r
    → Applied s.driver s.catalog m.version (meaning m.up s.catalog) (
        (explained text (λ _. r)
            >> (or_rollback (explained text' (perform m.up)) >> record_applied m.version))
          s)
begin-Applied m s text text' (ok x, s') h k =
    script-Applied m.version s.driver s.catalog s' text' (meaning m.up s.catalog) (perform m.up s')
      (rw (← k.0, ← k.1.0, ← k.1.1) (perform-Agrees m.up s'))
begin-Applied m s text text' (err e, s') h k =
    (k.0 ∙ h, (k.1.0, (k.1.1.0, λ n. absurd (k.1.1.1 n))))

-- A migration is applied and recorded as a whole, or the file is as it was; no transaction stays
-- open. Where the driver refuses nothing, it fails only where SQLite refuses it.
pub apply_migration-Applied :
    (m : Migration) (s : Session)
    → s.saved ≡ none
    → Applied s.driver s.catalog m.version (meaning m.up s.catalog) (apply_migration m s)
unfolding apply_migration
apply_migration-Applied m s h = begin-Applied m s _ _ (begin_tx s) h (begin_tx-Begun s)
