-- ===== src/Database/Migrations/Session.antt =====
-- The connection on which the migrations run: a driver that may refuse any statement, transactions,
-- and the clock. `perform` sends the statements of a script one by one.
use cross_platform_media_sha.Base.{
  ℕ, suc, ◌≡◌, refl, Option, none, some, inl, inr, Option-cases, ◌++◌,
}
use cross_platform_media_sha.Text.{Bytes}
use cross_platform_media_sha.Database.Store.{Result, ok, err}
use cross_platform_media_sha.Database.Migrations.Catalog.{Catalog, Problem, Outcome, done, refused}
use cross_platform_media_sha.Database.Migrations.Script.{Script, finish, send, meaning}

-- the driver and the clock: what it refuses at a step, how SQLite words a problem, and the time in
-- nanoseconds since 1970
pub record Driver : Type 0 where
  pub fault : ℕ → Option Bytes
  pub explain : Problem → Bytes
  pub clock : ℕ → ℕ

-- `saved` is the database at BEGIN, while a transaction is open
pub record Session : Type 0 where
  pub catalog : Catalog
  pub saved : Option Catalog
  pub driver : Driver
  pub step : ℕ

abbrev pub Exec : Type 0 → Type 0
Exec A = Session → Result A × Session

abbrev pub pure : {A : Type 0} → A → Exec A
pure a s = (ok a, s)

infixl 5 ◌>>=◌ ◌>>◌
abbrev pub ◌>>=◌ : {A B : Type 0} → Exec A → (A → Exec B) → Exec B
◌>>=◌ m f s = let (r, s') = m s in elim r [ ok a ↦ f a s' | err e ↦ (err e, s') ]

abbrev pub ◌>>◌ : {A B : Type 0} → Exec A → Exec B → Exec B
m >> k = m >>= λ _. k

abbrev tick : Session → Session
tick s = record s { step = suc s.step }

-- the answer of SQLite to a statement that the driver takes
abbrev pub answer : {A : Type 0} → Session → Outcome A → Result A × Session
answer s (done a c) = (ok a, record s { catalog = c; step = suc s.step })
answer s (refused p) = (err (s.driver.explain p), tick s)

-- DB.Exec, tx.Exec, or a query with its rows
abbrev pub statement : {A : Type 0} → (Catalog → Outcome A) → Exec A
statement f s = elim (s.driver.fault s.step) [
  | none ↦ answer s (f s.catalog)
  | some e ↦ (err e, tick s)
]

unfoldable pub perform : {A : Type 0} → Script A → Exec A
perform (finish a) s = (ok a, s)
perform (send f k) s = elim (s.driver.fault s.step) [
  | none ↦ elim (f s.catalog) [
    | done b c ↦ perform (k b) (record s { catalog = c; step = suc s.step })
    | refused p ↦ (err (s.driver.explain p), tick s)
  ]
  | some e ↦ (err e, tick s)
]

-- DB.Begin
abbrev pub begin_tx : Exec (Unit {0})
begin_tx s = elim (s.driver.fault s.step) [
  | none ↦ (ok tt, record s { saved = some s.catalog; step = suc s.step })
  | some e ↦ (err e, tick s)
]

-- tx.Rollback
abbrev pub rollback : Session → Session
rollback s = record s { catalog = elim s.saved [ none ↦ s.catalog | some c ↦ c ]; saved = none }

-- tx.Commit; one that fails leaves nothing of the transaction
abbrev pub commit_tx : Exec (Unit {0})
commit_tx s = elim (s.driver.fault s.step) [
  | none ↦ (ok tt, record s { saved = none; step = suc s.step })
  | some e ↦ (err e, rollback (tick s))
]

-- `if err != nil { tx.Rollback(); return … }`
abbrev pub or_rollback : {A : Type 0} → Exec A → Exec A
or_rollback m s = let (r, s') = m s in elim r [ ok a ↦ (ok a, s') | err e ↦ (err e, rollback s') ]

-- fmt.Errorf("…: %w", err)
abbrev pub explained : {A : Type 0} → Bytes → Exec A → Exec A
explained prefix m s =
    let (r, s') = m s in elim r [ ok a ↦ (ok a, s') | err e ↦ (err (prefix ++ e), s') ]

-- time.Now()
abbrev pub time_now : Exec ℕ
time_now s = (ok (s.driver.clock s.step), tick s)

-- A driver that refuses nothing.
abbrev pub NoFaults : Driver → Type 0
NoFaults d = (n : ℕ) → d.fault n ≡ none

-- How one statement may end that SQLite answers by `o`: with that answer, or with the file as it was;
-- where the driver refuses nothing, SQLite has refused it then.
abbrev pub Answered : {A : Type 0} → Session → Outcome A → Result A × Session → Type 0
Answered s o (ok a, s') = (o ≡ done a s'.catalog) × ((s'.saved ≡ s.saved) × (s'.driver ≡ s.driver))
Answered s o (err e, s') =
    (s'.catalog ≡ s.catalog)
    × ((s'.saved ≡ s.saved)
        × ((s'.driver ≡ s.driver) × (NoFaults s.driver → (p : Problem) × (o ≡ refused p))))

answer-Answered : {A : Type 0} (s : Session) (o : Outcome A) → Answered s o (answer s o)
answer-Answered s (done a c) = (refl, (refl, refl))
answer-Answered s (refused p) = (refl, (refl, (refl, λ k. (p, refl))))

pub statement-Answered :
    {A : Type 0} (f : Catalog → Outcome A) (s : Session) → Answered s (f s.catalog) (statement f s)
statement-Answered f s = elim (Option-cases (s.driver.fault s.step)) [
  | inl e ↦ rw (e, statement) (answer-Answered s (f s.catalog))
  | inr (x, e) ↦ rw (e, statement) (refl, (refl, (refl, λ k. cc (k s.step))))
]

-- What a script's run has to do with its meaning: where it succeeds, it has done what the script
-- means; where it fails, the driver has refused a statement or the script is refused. A transaction
-- that is open stays open.
abbrev pub Agrees : {A : Type 0} → Option Catalog → Driver → Outcome A → Result A × Session → Type 0
Agrees o d (done a c) (ok b, s) = (b ≡ a) × ((s.catalog ≡ c) × ((s.saved ≡ o) × (s.driver ≡ d)))
Agrees o d (done a c) (err e, s) = (s.saved ≡ o) × ((s.driver ≡ d) × (NoFaults d → ⊥))
Agrees o d (refused p) (ok b, s) = ⊥
Agrees o d (refused p) (err e, s) = (s.saved ≡ o) × (s.driver ≡ d)

pub Agrees-fault :
    {A : Type 0} (s : Session) (m : Outcome A) {e : Bytes}
    → s.driver.fault s.step ≡ some e
    → Agrees s.saved s.driver m (err e, tick s)
Agrees-fault s (done a c) h = (refl, (refl, λ k. cc (k s.step)))
Agrees-fault s (refused p) h = (refl, refl)

pub perform-Agrees :
    {A : Type 0} (p : Script A) (s : Session)
    → Agrees s.saved s.driver (meaning p s.catalog) (perform p s)
unfolding perform meaning
perform-Agrees (finish a) s = (refl, (refl, (refl, refl)))
perform-Agrees (send f k) s = elim (Option-cases (s.driver.fault s.step)) [
  | inl e ↦
      rw (e, perform)
        (elim (f s.catalog)
          as (λ o.
            Agrees s.saved s.driver (elim o [ done b c ↦ meaning (k b) c | refused p ↦ refused p ])
              (elim o [
                | done b c ↦ perform (k b) (record s { catalog = c; step = suc s.step })
                | refused p ↦ (err (s.driver.explain p), tick s)
              ])) [
                | done b c ↦ perform-Agrees (k b) (record s { catalog = c; step = suc s.step })
                | refused p ↦ (refl, refl)
              ])
  | inr (x, e) ↦ rw (e, perform) (Agrees-fault s (meaning (send f k) s.catalog) e)
]
