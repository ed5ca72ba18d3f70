-- ===== src/Database/Store.antt =====
-- The connection to the database: statements, transactions, the driver's errors and the clock.
-- A statement may be refused by the driver at any step; `Env` says which ones are, and what the
-- clock shows.
use cross_platform_media_sha.Base.{ℕ, ℤ, suc, ◌/◌, ◌≡◌, Option, none, some}
use cross_platform_media_sha.Text.{Bytes}
use cross_platform_media_sha.Database.Rows.{Db}

-- (value, error) of a Go function
pub data Result {ℓ} (A : Type ℓ) : Type ℓ where
  ok : A → Result A
  err : Bytes → Result A

pub record Env : Type 0 where
  -- the driver's error for the statement of a step, if it refuses it
  pub fault : ℕ → Option Bytes
  -- the clock, in nanoseconds since 1970
  pub clock : ℕ → ℕ
  -- duplicateMediaWindow, in seconds
  pub duplicate_media_window : ℤ

pub record Store : Type 0 where
  pub db : Db
  -- the contents at BEGIN, while a transaction is open
  pub tx : Option Db
  pub env : Env
  pub step : ℕ

abbrev pub Exec {ℓ} : Type ℓ → Type ℓ
Exec A = Store → Result A × Store

abbrev pub pure : {A : Type 0} → A → Exec A
pure a s = (ok a, s)

abbrev pub fail : {A : Type 0} → Bytes → Exec A
fail e s = (err e, s)

abbrev pub lift : {A : Type 0} → Result A → Exec A
lift r s = (r, s)

infixl 5 ◌>>=◌ ◌>>◌
abbrev pub ◌>>=◌ : {A B : Type 0} → Exec A → (A → Exec B) → Exec B
◌>>=◌ m f s = let (r, s') = m s in elim r [ ok a ↦ f a s' | err e ↦ (err e, s') ]

abbrev pub ◌>>◌ : {A B : Type 0} → Exec A → Exec B → Exec B
m >> k = m >>= λ _. k

abbrev pub tick : Store → Store
tick s = record s { step = suc s.step }

-- one statement: refused, or run on the database
abbrev pub statement : {A : Type 0} → (Db → A) → (Db → Db) → Exec A
statement f g s = elim (s.env.fault s.step) [
  | none ↦ (ok (f s.db), record s { db = g s.db; step = suc s.step })
  | some e ↦ (err e, tick s)
]

-- DB.Query and Scan
abbrev pub query : {A : Type 0} → (Db → A) → Exec A
query f = statement f (λ d. d)

-- DB.Exec
abbrev pub exec : (Db → Db) → Exec (Unit {0})
exec = statement (λ _. tt)

-- DB.Begin
abbrev pub begin_tx : Exec (Unit {0})
begin_tx s = elim (s.env.fault s.step) [
  | none ↦ (ok tt, record s { tx = some s.db; step = suc s.step })
  | some e ↦ (err e, tick s)
]

-- tx.Rollback
abbrev pub rollback : Store → Store
rollback s = record s { db = elim s.tx [ none ↦ s.db | some d ↦ d ]; tx = none }

-- tx.Commit; one that fails leaves nothing of the transaction
abbrev pub commit_tx : Exec (Unit {0})
commit_tx s = elim (s.env.fault s.step) [
  | none ↦ (ok tt, record s { tx = none; step = suc s.step })
  | some e ↦ (err e, rollback (tick s))
]

-- `if err != nil { rollback(); return …, err }`
abbrev pub or_rollback : {A : Type 0} → Exec A → Exec A
or_rollback m s = let (r, s') = m s in elim r [ ok a ↦ (ok a, s') | err e ↦ (err e, rollback s') ]

-- `rollback(); return a, nil`
abbrev pub rollback_with : {A : Type 0} → A → Exec A
rollback_with a s = (ok a, rollback s)

abbrev pub second : ℕ
second = 1_000_000_000

-- t.Unix()
abbrev pub unix : ℕ → ℕ
unix t = t / second

-- time.Now()
abbrev pub time_now : Exec ℕ
time_now s = (ok (s.env.clock s.step), tick s)

-- A driver that refuses nothing.
abbrev pub NoFaults : Store → Type 0
NoFaults s = (n : ℕ) → s.env.fault n ≡ none
