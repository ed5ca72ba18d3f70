-- ===== src/Database/Queue/Claim.antt =====
-- Which event a claim hands out, and that its lease keeps others from it.
use cross_platform_media_sha.Base.{
  ℕ, ◌≡◌, ◌⊎◌, ◌≤◌, ◌<◌, inl, inr, refl, none, some, false, ◌&&◌, arith, List, [], ◌∷◌, All, leb,
  not, Bool-cases, Option, if◌then◌else◌,
}
use mathlib.Core.Path.{subst}
use cross_platform_media_sha.Text.{Bytes, same}
use cross_platform_media_sha.Models.{bytes_eq}
use cross_platform_media_sha.Database.Table.{select, update, at}
use cross_platform_media_sha.Database.Rows.{PendingRow}
use cross_platform_media_sha.Database.Pending.{pending_id}
use cross_platform_media_sha.Database.Delivery.{before, next_due}

-- no row that is due comes before `r`
abbrev IsUnbeaten : ℕ → PendingRow → List PendingRow → Type 0
IsUnbeaten now r = All (λ q. (now < q.available_at) ⊎ (before q r ≡ false))

found-IsUnbeaten :
    (now : ℕ) (r q : PendingRow) (rs : List PendingRow)
    → before q r ≡ false
    → IsUnbeaten now q rs
    → IsUnbeaten now r rs
found-IsUnbeaten now r q [] h f = tt
found-IsUnbeaten now r q (p ∷ rs) h f = (ground (arith, f.0), found-IsUnbeaten now r q rs h f.1)

none-due :
    (now : ℕ) (rs : List PendingRow) → next_due now rs ≡ none → All (λ q. now < q.available_at) rs
unfolding next_due
none-due now [] h = tt
none-due now (q ∷ rs) h = (ground arith, none-due now rs (ground arith))

missed-IsUnbeaten :
    (now : ℕ) (r : PendingRow) (rs : List PendingRow) → next_due now rs ≡ none → IsUnbeaten now r rs
unfolding next_due
missed-IsUnbeaten now r [] h = tt
missed-IsUnbeaten now r (q ∷ rs) h = (inl (ground arith), missed-IsUnbeaten now r rs (ground arith))

-- one more row in front of those of which `rest` is the first
step-IsUnbeaten :
    (now : ℕ) (q r : PendingRow) (rs : List PendingRow)
    → (rest : Option PendingRow) → next_due now rs ≡ rest
    → ((p : PendingRow) → rest ≡ some p → (p.available_at ≤ now) × IsUnbeaten now p rs)
    → next_due now (q ∷ rs) ≡ some r
    → (r.available_at ≤ now) × IsUnbeaten now r (q ∷ rs)
unfolding next_due
step-IsUnbeaten now q r rs none e ih h =
    let i = missed-IsUnbeaten now r rs e in (ground arith, (ground arith, i))
step-IsUnbeaten now q r rs (some p) e ih h =
    elim (Bool-cases (leb q.available_at now && not (before p q))) [
      | inl c ↦
          let same_row : q ≡ r = ground arith in
          (ground arith, (ground arith, found-IsUnbeaten now r p rs (ground arith) (ih p refl).1))
      | inr c ↦
          let same_row : p ≡ r = ground arith in
          (
            ground (arith, ih p refl),
            (ground (arith, ih p refl), found-IsUnbeaten now r p rs (ground arith) (ih p refl).1),
          )
    ]

next_due-IsUnbeaten :
    (now : ℕ) (rs : List PendingRow) (r : PendingRow)
    → next_due now rs ≡ some r
    → (r.available_at ≤ now) × IsUnbeaten now r rs
next_due-IsUnbeaten now [] r h = unfold next_due in cc
next_due-IsUnbeaten now (q ∷ rs) r h =
    step-IsUnbeaten now q r rs (next_due now rs) refl (λ p. next_due-IsUnbeaten now rs p) h

-- A row that is due at no later time than another, and if at the same time, was queued no later.
abbrev pub IsNotAfter : PendingRow → PendingRow → Type 0
IsNotAfter r q =
    (r.available_at < q.available_at)
    ⊎ ((r.available_at ≡ q.available_at) × (r.created_at ≤ q.created_at))

-- no row that is due comes before `r`
abbrev pub IsFirst : ℕ → PendingRow → List PendingRow → Type 0
IsFirst now r = All (λ q. (now < q.available_at) ⊎ IsNotAfter r q)

unbeaten-IsFirst :
    (now : ℕ) (r : PendingRow) (rs : List PendingRow) → IsUnbeaten now r rs → IsFirst now r rs
unbeaten-IsFirst now r [] h = tt
unbeaten-IsFirst now r (q ∷ rs) h = (ground (arith, h.0), unbeaten-IsFirst now r rs h.1)

-- What is claimed is due, and nothing that is due comes before it.
pub next_due-IsFirst :
    (now : ℕ) (rs : List PendingRow) (r : PendingRow)
    → next_due now rs ≡ some r
    → (r.available_at ≤ now) × IsFirst now r rs
next_due-IsFirst now rs r h =
    let (due, first) = next_due-IsUnbeaten now rs r h in (due, unbeaten-IsFirst now r rs first)

-- the rows of an event, each of them due no earlier than `until`
abbrev pub AreLeased : ℕ → List PendingRow → Type 0
AreLeased until = All (λ q. until ≤ q.available_at)

-- A lease moves the time of every row of the event.
pub leased-AreLeased :
    (id : Bytes) (until : ℕ) (rs : List PendingRow)
    → AreLeased until (
        select
          (at pending_id id)
          (update (at pending_id id) (λ q. record q { available_at = until }) rs))
unfolding select update
leased-AreLeased id until [] = tt
leased-AreLeased id until (q ∷ rs) = elim (Bool-cases (same q.event_id id)) [
  | inl e ↦ rw (e, e) (omega arith, leased-AreLeased id until rs)
  | inr e ↦ rw (e, e) (leased-AreLeased id until rs)
]

-- No row that is due is one of an event whose rows are leased.
pub next_due-AreLeased :
    (now : ℕ) (id : Bytes) (until : ℕ) (rs : List PendingRow) (r : PendingRow)
    → now < until
    → AreLeased until (select (at pending_id id) rs)
    → next_due now rs ≡ some r
    → same r.event_id id ≡ false
unfolding next_due select
next_due-AreLeased now id until [] r l h k = cc
next_due-AreLeased now id until (q ∷ rs) r l h k = elim (Bool-cases (same q.event_id id)) [
  | inl e ↦
      let p =
        subst
          (λ b.
            AreLeased until
              (if b then q ∷ select (at pending_id id) rs else select (at pending_id id) rs))
          e h in
      ground (
        arith,
        p.0,
        next_due-AreLeased now id until rs r l p.1,
        next_due-AreLeased now id until rs q l p.1,
      )
  | inr e ↦
      let p =
        subst
          (λ b.
            AreLeased until
              (if b then q ∷ select (at pending_id id) rs else select (at pending_id id) rs))
          e h in
      ground
        (arith, next_due-AreLeased now id until rs r l p, next_due-AreLeased now id until rs q l p)
]
