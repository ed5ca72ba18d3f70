-- ===== src/Database/Queue/Run.antt =====
-- The operations of the queue in any order, under any faults of the driver.
use cross_platform_media_sha.Base.{
  ℕ, ◌≡◌, ◌⊎◌, inl, inr, refl, none, some, arith, Option, Option-cases, List, [], ◌∷◌, ◌==◌, ◌*◌,
  if◌then◌else◌,
}
use cross_platform_media_sha.Text.{Bytes, trim}
use cross_platform_media_sha.Models.{MediaEvent, bytes_eq}
use cross_platform_media_sha.Database.Table.{first, at}
use cross_platform_media_sha.Database.Store.{Result, ok, err, Store, unix, second}
use cross_platform_media_sha.Database.Pending.{
  Json, enqueue_pending_event, pending_id, letter_id, trim_event,
}
use cross_platform_media_sha.Database.Delivery.{
  claim_tx, ack_pending_event, reschedule_pending_event, claim_next_pending_event,
  move_pending_event_to_dead_letter, replay_dead_letter, next_due, nat_key, letter_of,
}
use cross_platform_media_sha.Database.Queue.Outcomes.{
  ack_outcome, claim_outcome, claim_outcome_none, reschedule_outcome, replay_outcome,
  replay_outcome_none, bury_outcome, bury_outcome_none, bury_outcome_undecoded, enqueue_outcome,
  enqueue_outcome_unencoded,
}
use cross_platform_media_sha.Database.Queue.Invariant.{
  IsSound, insert-IsSound, dedupe-IsSound, update-IsSound, delete-IsSound, acked-IsSound,
  upsert_pending-IsSound, forget_letter-IsSound, add_letter-IsSound,
}
use cross_platform_media_sha.Database.Queue.Atomic.{
  enqueue_closes, enqueue_error, replay_closes, replay_error,
}

-- A call of one of the queue's functions.
pub data Call : Type 0 where
  enqueue : MediaEvent → Call
  claim : ℕ → ℕ → Call
  ack : Bytes → Call
  reschedule : Bytes → ℕ → ℕ → Bytes → Call
  bury : Bytes → Bytes → Call
  replay : ℕ → Bytes → Bytes → Call

-- the error that a call reports
abbrev pub error_of {ℓ} : {A : Type ℓ} → Result A × Store → Option Bytes × Store
error_of (ok a, s) = (none, s)
error_of (err e, s) = (some e, s)

module _ {ℓ} {A : Type ℓ} where
  pub state-error_of : (p : Result A × Store) → (error_of p).1 ≡ p.1
  state-error_of (ok a, s) = refl
  state-error_of (err e, s) = refl

  error-error_of : (p : Result A × Store) {e : Bytes} → (error_of p).0 ≡ some e → p.0 ≡ err e
  error-error_of (ok a, s) h = cc
  error-error_of (err m, s) h = cc

  pub Result-cases : (r : Result A) → ((a : A) × (r ≡ ok a)) ⊎ ((e : Bytes) × (r ≡ err e))
  Result-cases (ok a) = inl (a, refl)
  Result-cases (err e) = inr (e, refl)

module _ ⦃j : Json⦄ where
  unfoldable pub perform : Call → Store → Option Bytes × Store
  perform (enqueue e) s = error_of (enqueue_pending_event e s)
  perform (claim now lease) s = error_of (claim_next_pending_event now lease s)
  perform (ack id) s = error_of (ack_pending_event id s)
  perform (reschedule id n at reason) s = error_of (reschedule_pending_event id n at reason s)
  perform (bury id reason) s = error_of (move_pending_event_to_dead_letter id reason s)
  perform (replay id platform target) s = error_of (replay_dead_letter id platform target s)

  -- the store after a sequence of calls, whether they fail or not
  unfoldable pub run : List Call → Store → Store
  run [] s = s
  run (c ∷ cs) s = run cs (perform c s).1

  -- Whatever the driver refuses, a call ends with no transaction left open.
  pub perform_closes : (c : Call) (s : Store) → s.tx ≡ none → (perform c s).1.tx ≡ none
  unfolding perform claim_next_pending_event ack_pending_event reschedule_pending_event
      move_pending_event_to_dead_letter
  perform_closes (enqueue e) s h =
      rw (state-error_of (enqueue_pending_event e s)) (enqueue_closes e s h)
  perform_closes (replay id platform target) s h =
      rw (state-error_of (replay_dead_letter id platform target s))
        (replay_closes id platform target s h)
  perform_closes _ s h = ground arith

  -- A call that reports an error has changed nothing. The exception is a claim, which has
  -- committed its lease when it decodes the payload.
  pub perform_error :
      (c : Call) (s : Store) {e : Bytes}
      → s.tx ≡ none
      → (perform c s).0 ≡ some e
      → ((perform c s).1.db ≡ s.db) ⊎ ((now : ℕ) × (lease : ℕ) × (c ≡ claim now lease))
  unfolding perform ack_pending_event reschedule_pending_event move_pending_event_to_dead_letter
  perform_error (claim now lease) s h p = inr (now, lease, refl)
  perform_error (enqueue e) s h p = inl (
      rw (state-error_of (enqueue_pending_event e s))
        (enqueue_error e s h (error-error_of (enqueue_pending_event e s) p)))
  perform_error (replay id platform target) s h p =
      let r = replay_dead_letter id platform target s in
      inl (rw (state-error_of r) (replay_error id platform target s h (error-error_of r p)))
  perform_error _ s h p = inl (ground arith)

  enqueue_keeps :
      (e : MediaEvent) (s : Store)
      → s.tx ≡ none
      → IsSound s.db
      → IsSound (enqueue_pending_event e s).1.db
  enqueue_keeps e s h v = elim (Result-cases (j.encode_event (trim_event e))) [
    | inr (m, p) ↦ rw (enqueue_outcome_unencoded s h e p) v
    | inl (payload, p) ↦ elim (enqueue_outcome s h e payload p) [
      | inl q ↦ rw q v
      | inr (inl q) ↦ rw q.1 (insert-IsSound _ s.db v q.0)
      | inr (inr q) ↦ rw q.1 (dedupe-IsSound _ _ _ (insert-IsSound _ s.db v q.0))
    ]
  ]

  claim_tx_keeps :
      (now lease : ℕ) (s : Store) → s.tx ≡ none → IsSound s.db → IsSound (claim_tx now lease s).1.db
  claim_tx_keeps now lease s h v = elim (Option-cases (next_due (unix now) s.db.pending_events)) [
    | inl p ↦ rw (claim_outcome_none s h now lease p) v
    | inr (r, p) ↦ elim (claim_outcome s h now lease r p) [
      | inl q ↦ rw q v
      | inr q ↦ rw q (update-IsSound r.event_id _ s.db (λ _. refl) v)
    ]
  ]

  -- decoding the payload changes nothing
  pub db-claim :
      (now lease : ℕ) (s : Store)
      → (claim_next_pending_event now lease s).1
        ≡ (claim_tx now (if lease == 0 then 30 * second else lease) s).1
  unfolding claim_next_pending_event
  db-claim now lease s = ground arith

  bury_keeps :
      (id reason : Bytes) (s : Store)
      → s.tx ≡ none
      → IsSound s.db
      → IsSound (move_pending_event_to_dead_letter id reason s).1.db
  bury_keeps id reason s h v =
      elim (Option-cases (first (at pending_id (trim id)) s.db.pending_events)) [
        | inl p ↦ rw (bury_outcome_none s h id reason p) v
        | inr (r, p) ↦ elim (Result-cases (j.decode_event r.payload)) [
          | inr (m, q) ↦ rw (bury_outcome_undecoded s h id reason r p q) v
          | inl (e, q) ↦ elim (bury_outcome s h id reason r e p q) [
            | inl u ↦ rw u v
            | inr u ↦ rw u (
                delete-IsSound (trim id) _
                  (add_letter-IsSound (letter_of (trim id) r e reason _) s.db refl v))
          ]
        ]
      ]

  replay_keeps :
      (id : ℕ) (platform target : Bytes) (s : Store)
      → s.tx ≡ none
      → IsSound s.db
      → IsSound (replay_dead_letter id platform target s).1.db
  replay_keeps id platform target s h v =
      elim (Option-cases (first (at letter_id id) s.db.dead_letters)) [
        | inl p ↦ rw (replay_outcome_none s h id platform target p) v
        | inr (l, p) ↦ elim (replay_outcome s h id platform target l p) [
          | inl q ↦ rw q v
          | inr (inl q) ↦ rw q.1 (forget_letter-IsSound l.dead_letter_id s.db v)
          | inr (inr q) ↦
              rw q.1
                (forget_letter-IsSound l.dead_letter_id _ (upsert_pending-IsSound l _ s.db v q.0))
        ]
      ]

  -- Every call keeps the database sound, whether it fails or not.
  pub perform-IsSound :
      (c : Call) (s : Store) → s.tx ≡ none → IsSound s.db → IsSound (perform c s).1.db
  unfolding perform
  perform-IsSound (enqueue e) s h v =
      rw (state-error_of (enqueue_pending_event e s)) (enqueue_keeps e s h v)
  perform-IsSound (claim now lease) s h v =
      rw (state-error_of (claim_next_pending_event now lease s))
        (rw (db-claim now lease s) (claim_tx_keeps now _ s h v))
  perform-IsSound (ack id) s h v =
      rw (state-error_of (ack_pending_event id s))
        (elim (ack_outcome s h id) [ inl q ↦ rw q v | inr q ↦ rw q (acked-IsSound _ _ s.db v) ])
  perform-IsSound (reschedule id n t reason) s h v =
      rw (state-error_of (reschedule_pending_event id n t reason s))
        (elim (reschedule_outcome s h id n t reason) [
          | inl q ↦ rw q v
          | inr q ↦ rw q (update-IsSound (trim id) _ s.db (λ _. refl) v)
        ])
  perform-IsSound (bury id reason) s h v =
      rw (state-error_of (move_pending_event_to_dead_letter id reason s))
        (bury_keeps id reason s h v)
  perform-IsSound (replay id platform target) s h v =
      rw (state-error_of (replay_dead_letter id platform target s))
        (replay_keeps id platform target s h v)

  -- Whatever sequence of calls is made, and whatever the driver refuses, a sound database with no
  -- open transaction stays sound: its keys are unique, and no event is both processed and queued.
  pub run-IsSound :
      (cs : List Call) (s : Store) → s.tx ≡ none → IsSound s.db → IsSound (run cs s).db
  unfolding run
  run-IsSound [] s h v = v
  run-IsSound (c ∷ cs) s h v =
      run-IsSound cs (perform c s).1 (perform_closes c s h) (perform-IsSound c s h v)
