-- ===== src/Tests/Database.antt =====
-- The queue and the retention of internal/database at work.
use cross_platform_media_sha.Base.{pos}
use cross_platform_media_sha.Base.{
  ℕ, ◌*◌, ◌≡◌, ◌≢◌, ◌⊎◌, ◌≤◌, refl, Bool, true, none, some, List, [], ◌∷◌, ◌++◌, arith, ltb, ◌==◌,
}
use cross_platform_media_sha.Text.{lit, trim, same}
use cross_platform_media_sha.Models.{MediaEvent, bytes_eq}
use cross_platform_media_sha.Database.Table.{select, delete, update, first, has, insert_new, at}
use cross_platform_media_sha.Database.Store.{Store, ok, unix, second}
use cross_platform_media_sha.Database.Pending.{
  enqueue_pending_event, pending_id, pending_row, trim_event,
}
use cross_platform_media_sha.Database.Delivery.{
  claim_tx, claim_next_pending_event, next_due, ack_pending_event,
  move_pending_event_to_dead_letter, replay_dead_letter, replay_found, replay_letter,
}
use cross_platform_media_sha.Database.Retention.{cleanup_table, cleanup_table_ends}
use cross_platform_media_sha.Database.Queue.Invariant.{IsSound, empty_db-IsSound}
use cross_platform_media_sha.Database.Queue.Run.{
  Call, enqueue, claim, ack, perform, run, perform_closes, perform_error, run-IsSound,
}
use cross_platform_media_sha.Database.Queue.Kept.{is_kept}
use cross_platform_media_sha.Database.Queue.Loss.{run_keeps}
use cross_platform_media_sha.Database.Queue.Claim.{IsFirst}
use cross_platform_media_sha.Database.Queue.Laws.{
  claim-IsFirst, claim_exclusive, enqueue-ack, enqueue_once,
}
use cross_platform_media_sha.Database.Queue.Duplicates.{enqueue_duplicate}
use cross_platform_media_sha.Database.Queue.Letters.{replay-bury, requeued}
use cross_platform_media_sha.Models.{route_of}
use cross_platform_media_sha.Database.Cleanup.{Sweep, run_retention_cleanup}
use cross_platform_media_sha.Database.Sweeps.{IsSweep, run_retention_cleanup-IsSweep}
use cross_platform_media_sha.Database.Blocklist.Calls.{
  WordCall, add, view, perform_word, IsSpecified,
}
use cross_platform_media_sha.Database.Blocklist.{perform_word-refines}
use cross_platform_media_sha.Tests.Data.{
  ascii, photo, id_json, start, busy, waiting, pair, second_row, hashed_photo,
}

abbrev calls : List Call
calls = enqueue photo ∷ claim (1000 * second) (30 * second) ∷ ack (lit "e1") ∷ enqueue photo ∷ []

-- the event is queued, claimed, delivered, and not queued again
whole_life : (run calls start).db.pending_events ≡ []
unfolding run perform enqueue_pending_event ack_pending_event claim_next_pending_event trim has
    next_due insert_new same delete update
whole_life = refl

run-IsSound_example : IsSound (run calls start).db
run-IsSound_example = run-IsSound calls start refl empty_db-IsSound

perform_closes_example : (perform (enqueue photo) start).1.tx ≡ none
perform_closes_example = perform_closes (enqueue photo) start refl

perform_error_example :
    ((perform (ack (lit " ")) start).1.db ≡ start.db)
    ⊎ ((now : ℕ) × (lease : ℕ) × (ack (lit " ") ≡ claim now lease))
unfolding perform ack_pending_event trim
perform_error_example =
    perform_error (ack (lit " ")) start {e = lit "event id is required"} refl refl

pub busy-IsSound : (n : ℕ) → IsSound (busy n).db
unfolding has
busy-IsSound n = record {
  pending_unique = (refl, tt);
  processed_unique = tt;
  dedupe_unique = tt;
  letters_unique = tt;
  letters_fresh = tt;
  disjoint = λ id p. cc p;
}

run_keeps_example : is_kept (lit "e1") (run calls (busy 2)).db ≡ true
unfolding has same
run_keeps_example = run_keeps (lit "e1") calls (busy 2) refl (busy-IsSound 2) refl

claim-IsFirst_example :
    ((waiting 0).available_at ≤ unix (2000 * second))
    × IsFirst (unix (2000 * second)) (waiting 0) pair.db.pending_events
unfolding claim_tx next_due update same
claim-IsFirst_example = claim-IsFirst pair (2000 * second) (30 * second) (waiting 0) refl

-- two events are waiting; the second claim hands out the second
claim_exclusive_example : second_row.event_id ≢ (waiting 0).event_id
unfolding claim_tx next_due update same select
claim_exclusive_example =
    claim_exclusive pair (2000 * second) (30 * second) (waiting 0)
      (claim_tx (2000 * second) (30 * second) pair).1 (2010 * second) (30 * second) second_row refl
      refl refl (omega arith)

abbrev acked_busy : Store
acked_busy = (ack_pending_event (lit "e1") (busy 0)).1

enqueue-ack_example :
    ((enqueue_pending_event photo acked_busy).0 ≢ ok true)
    × ((enqueue_pending_event photo acked_busy).1.db ≡ acked_busy.db)
unfolding ack_pending_event trim has same delete update
enqueue-ack_example =
    enqueue-ack (busy 0) photo (lit "e1") refl (lit "e1") acked_busy refl refl refl

enqueue_once_example :
    ((enqueue_pending_event photo (enqueue_pending_event photo start).1).0 ≢ ok true)
    × ((enqueue_pending_event photo (enqueue_pending_event photo start).1).1.db.pending_events
        ≡ start.db.pending_events
          ++ pending_row (trim_event photo) (lit "e1") (unix (start.env.clock start.step)) ∷ [])
unfolding enqueue_pending_event trim has same insert_new
enqueue_once_example = enqueue_once start photo (lit "e1") refl photo (lit "e1") refl refl refl

abbrev old : ℕ → Bool
old n = ltb n 10

cleanup_table_ends_example :
    (rest : List ℕ) × (cleanup_table (λ n. n == 1) 5 0 old 2 (3 ∷ 20 ∷ 4 ∷ 5 ∷ []) ≡ some rest)
    × (delete old rest ≡ delete old (3 ∷ 20 ∷ 4 ∷ 5 ∷ []))
cleanup_table_ends_example =
    cleanup_table_ends (λ n. n == 1) 5 0 old 1 (3 ∷ 20 ∷ 4 ∷ 5 ∷ []) (omega arith)

replay-bury_example :
    ((replay_dead_letter 1 [] []
        (move_pending_event_to_dead_letter (lit "e1") (lit "gone") (busy 3)).1).1.db.dead_letters
      ≡ [])
    × ((replay_dead_letter 1 [] []
          (move_pending_event_to_dead_letter
            (lit "e1")
            (lit "gone")
            (busy 3)).1).1.db.processed_events
        ≡ [])
    × ((replay_dead_letter 1 [] []
          (move_pending_event_to_dead_letter
            (lit "e1")
            (lit "gone")
            (busy 3)).1).1.db.pending_events
        ≡ delete (at pending_id (lit "e1")) (busy 3).db.pending_events
          ++ requeued (waiting 3) 1009 ∷ [])
unfolding move_pending_event_to_dead_letter replay_dead_letter replay_found replay_letter trim has
    same first insert_new delete
replay-bury_example =
    replay-bury (busy 3) (lit "e1") (lit "gone") (waiting 3) (record photo { event_id = lit "e1" })
      refl refl 1 (busy-IsSound 3) refl [] [] refl

abbrev again : MediaEvent
again = record hashed_photo { event_id = lit "e2" }

enqueue_duplicate_example :
    ((enqueue_pending_event again (enqueue_pending_event hashed_photo start).1).0 ≢ ok true)
    × ((enqueue_pending_event again (enqueue_pending_event hashed_photo start).1).1.db
        ≡ (enqueue_pending_event hashed_photo start).1.db)
unfolding enqueue_pending_event trim has same insert_new delete
enqueue_duplicate_example =
    enqueue_duplicate start hashed_photo (lit "e1") refl refl again (lit "e2") refl refl refl refl
      (omega arith)

-- a word is added as it is typed
abbrev hello : WordCall
hello = add (route_of photo) (lit " Hello ")

perform_word-refines_example :
    IsSpecified hello
      (perform_word hello start).0
      (view start.db)
      (view (perform_word hello start).1.db)
perform_word-refines_example = perform_word-refines hello start

-- everything is old, and the driver refuses to touch the dead letters
abbrev pub late : Sweep
late = record {
  refused = λ t n. same t (lit "dead_letters");
  clock = λ t. 9_000_000 * second;
  duplicate_media_window = pos 86_400;
}

run_retention_cleanup-IsSweep_example :
    IsSweep late (busy 3).db (run_retention_cleanup late (busy 3).db)
run_retention_cleanup-IsSweep_example = run_retention_cleanup-IsSweep late (busy 3).db
