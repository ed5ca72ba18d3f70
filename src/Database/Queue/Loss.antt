-- ===== src/Database/Queue/Loss.antt =====
-- No sequence of the queue's calls loses an event.
use cross_platform_media_sha.Base.{
  ℕ, ◌≡◌, ap, inl, inr, refl, none, some, true, arith, Option, Option-cases, List, [], ◌∷◌,
  Bool-cases, ◌||◌, ◌==◌, ==_iff,
}
use cross_platform_media_sha.Text.{Bytes, lit, trim, same, same_iff}
use cross_platform_media_sha.Models.{MediaEvent, bytes_eq}
use cross_platform_media_sha.Database.Table.{
  delete, first, has, at, Unique, has-update, has-append, key-first,
}
use cross_platform_media_sha.Database.Rows.{Db, DeadLetterRow}
use cross_platform_media_sha.Database.Store.{Store, unix}
use cross_platform_media_sha.Database.Pending.{
  Json, enqueue_pending_event, is_processed, pending_id, letter_id, trim_event,
}
use cross_platform_media_sha.Database.Delivery.{
  upsert_pending, replayed_row, delete_letter, replay_dead_letter, claim_next_pending_event,
  next_due, nat_key, claim_tx, ack_pending_event, reschedule_pending_event,
  move_pending_event_to_dead_letter,
}
use cross_platform_media_sha.Database.Queue.Outcomes.{
  enqueue_outcome, enqueue_outcome_unencoded, replay_outcome, replay_outcome_none, claim_outcome,
  claim_outcome_none, ack_outcome, reschedule_outcome,
}
use cross_platform_media_sha.Database.Queue.Invariant.{IsSound}
use cross_platform_media_sha.Database.Queue.Letters.{delete-of_has}
use cross_platform_media_sha.Database.Queue.Kept.{
  is_kept, letter_event, kept-insert, kept-update, kept-acked, kept-bury,
}
use cross_platform_media_sha.Database.Queue.Run.{
  Call, enqueue, claim, ack, reschedule, bury, replay, perform, run, perform_closes,
  perform-IsSound, Result-cases, state-error_of, db-claim,
}

-- the letter of a number is the only one of its number, so taking it away takes no other event
delete-letter_event :
    (k : Bytes) (n : ℕ) (ls : List DeadLetterRow) (l : DeadLetterRow)
    → Unique letter_id ls
    → first (at letter_id n) ls ≡ some l
    → has letter_event k ls ≡ true
    → (same l.event_id k || has letter_event k (delete (at letter_id n) ls)) ≡ true
unfolding has delete first
delete-letter_event k n [] l u f h = cc
delete-letter_event k n (q ∷ ls) l u f h = elim (Bool-cases (q.dead_letter_id == n)) [
  | inl e ↦
      let number : q.dead_letter_id ≡ n = (==_iff q.dead_letter_id n).0 e in
      let rest = delete-of_has n ls (rw number at u.0) in
      let it : some q ≡ some l = rw e at f in
      let event : q.event_id ≡ l.event_id = ap (λ o. event_of q o) it in
      ground (arith, e, rest, h, event)
  | inr e ↦ ground (arith, e, delete-letter_event k n ls l u.1, f, h)
]
  where
    event_of : DeadLetterRow → Option DeadLetterRow → Bytes
    event_of q none = q.event_id
    event_of q (some r) = r.event_id

module _ (k : Bytes) (l : DeadLetterRow) (n : ℕ) (d : Db) (v : IsSound d)
    (found : first (at letter_id n) d.dead_letters ≡ some l) (kept : is_kept k d ≡ true) where
  kept-forget_letter : is_processed l.event_id d ≡ true → is_kept k (delete_letter n d) ≡ true
  kept-forget_letter p = ground (
    arith,
    delete-letter_event k n d.dead_letters l v.letters_unique found,
    same_iff l.event_id k,
    p,
  )

  kept-replayed : (now : ℕ) → is_kept k (delete_letter n (upsert_pending l now d)) ≡ true
  kept-replayed now = ground (
    arith,
    delete-letter_event k n d.dead_letters l v.letters_unique found,
    same_iff l.event_id k,
    has-update pending_id (at pending_id l.event_id)
        (λ r. record r {
          available_at = now;
          retry_count = 0;
          last_error = lit "replayed from dead letter";
        })
        (λ r. refl) k d.pending_events,
    has-append pending_id k d.pending_events (replayed_row l now),
  )

module _ ⦃j : Json⦄ (k : Bytes) (s : Store) (closed : s.tx ≡ none) (v : IsSound s.db)
    (kept : is_kept k s.db ≡ true) where
  enqueue_kept : (e : MediaEvent) → is_kept k (enqueue_pending_event e s).1.db ≡ true
  enqueue_kept e = elim (Result-cases (j.encode_event (trim_event e))) [
    | inr (m, p) ↦ rw (enqueue_outcome_unencoded s closed e p) kept
    | inl (payload, p) ↦ elim (enqueue_outcome s closed e payload p) [
      | inl q ↦ rw q kept
      | inr (inl q) ↦ rw q.1 (kept-insert k _ s.db kept)
      | inr (inr q) ↦ rw q.1 (kept-insert k _ s.db kept)
    ]
  ]

  replay_kept :
      (n : ℕ) (platform target : Bytes)
      → is_kept k (replay_dead_letter n platform target s).1.db ≡ true
  replay_kept n platform target = elim (Option-cases (first (at letter_id n) s.db.dead_letters)) [
    | inl p ↦ rw (replay_outcome_none s closed n platform target p) kept
    | inr (l, p) ↦
        let number : l.dead_letter_id ≡ n = key-first letter_id n s.db.dead_letters p in
        elim (replay_outcome s closed n platform target l p) [
          | inl q ↦ rw q kept
          | inr (inl q) ↦ rw q.1 (rw number (kept-forget_letter k l n s.db v p kept q.0))
          | inr (inr q) ↦ rw q.1 (rw number (kept-replayed k l n s.db v p kept _))
        ]
  ]

  claim_kept : (now lease : ℕ) → is_kept k (claim_tx now lease s).1.db ≡ true
  claim_kept now lease = elim (Option-cases (next_due (unix now) s.db.pending_events)) [
    | inl p ↦ rw (claim_outcome_none s closed now lease p) kept
    | inr (r, p) ↦ elim (claim_outcome s closed now lease r p) [
      | inl q ↦ rw q kept
      | inr q ↦ rw q (kept-update k r.event_id _ s.db (λ _. refl) kept)
    ]
  ]

  perform_kept : (c : Call) → is_kept k (perform c s).1.db ≡ true
  unfolding perform
  perform_kept (enqueue e) = rw (state-error_of (enqueue_pending_event e s)) (enqueue_kept e)
  perform_kept (claim now lease) =
      rw (state-error_of (claim_next_pending_event now lease s))
        (rw (db-claim now lease s) (claim_kept now _))
  perform_kept (ack id) =
      rw (state-error_of (ack_pending_event id s)) (elim (ack_outcome s closed id) [
        | inl q ↦ rw q kept
        | inr q ↦ rw q (kept-acked k (trim id) _ s.db kept)
      ])
  perform_kept (reschedule id n t reason) =
      rw (state-error_of (reschedule_pending_event id n t reason s))
        (elim (reschedule_outcome s closed id n t reason) [
          | inl q ↦ rw q kept
          | inr q ↦ rw q (kept-update k (trim id) _ s.db (λ _. refl) kept)
        ])
  perform_kept (bury id reason) =
      rw (state-error_of (move_pending_event_to_dead_letter id reason s))
        (kept-bury k s closed kept id reason)
  perform_kept (replay n platform target) =
      rw (state-error_of (replay_dead_letter n platform target s)) (replay_kept n platform target)

-- Whatever is called, in whatever order, and whatever the driver refuses: an event that is queued,
-- processed or a dead letter of a sound database is so afterwards.
pub run_keeps :
    ⦃j : Json⦄ (k : Bytes) (cs : List Call) (s : Store)
    → s.tx ≡ none
    → IsSound s.db
    → is_kept k s.db ≡ true
    → is_kept k (run cs s).db ≡ true
unfolding run
run_keeps k [] s h v kept = kept
run_keeps k (c ∷ cs) s h v kept =
    run_keeps k cs (perform c s).1 (perform_closes c s h) (perform-IsSound c s h v)
      (perform_kept k s h v kept c)
