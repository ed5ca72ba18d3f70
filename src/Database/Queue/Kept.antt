-- ===== src/Database/Queue/Kept.antt =====
-- No event gets lost: it is queued, processed, or among the dead letters.
use cross_platform_media_sha.Base.{ℕ, ◌≡◌, inl, inr, none, true, arith, Option-cases, Bool, ◌||◌}
use cross_platform_media_sha.Text.{Bytes, trim}
use cross_platform_media_sha.Models.{MediaEvent, bytes_eq}
use cross_platform_media_sha.Database.Table.{
  first, has, at, has-update, has-delete, has-append, has-insert_new,
}
use cross_platform_media_sha.Database.Rows.{Db, DeadLetterRow, PendingRow}
use cross_platform_media_sha.Database.Pending.{
  is_pending, is_processed, pending_id, insert_pending, update_pending, Json,
}
use cross_platform_media_sha.Database.Delivery.{
  letter_of, nat_key, move_pending_event_to_dead_letter,
}
use cross_platform_media_sha.Database.Queue.Outcomes.{
  acked, buried, bury_outcome, bury_outcome_none, bury_outcome_undecoded,
}
use cross_platform_media_sha.Database.Queue.Run.{Result-cases}
use cross_platform_media_sha.Database.Store.{Store}
use cross_platform_media_sha.Database.Queue.Invariant.{has-upsert_processed}

abbrev pub letter_event : DeadLetterRow → Bytes
letter_event l = l.event_id

-- the event is queued, processed, or a dead letter
abbrev pub is_kept : Bytes → Db → Bool
is_kept k d = is_pending k d || is_processed k d || has letter_event k d.dead_letters

pub kept-acked :
    (k id : Bytes) (now : ℕ) (d : Db) → is_kept k d ≡ true → is_kept k (acked id now d) ≡ true
kept-acked k id now d h =
    ground (arith, has-upsert_processed id now d k, has-delete pending_id id k d.pending_events)

pub kept-update :
    (k id : Bytes) (f : PendingRow → PendingRow) (d : Db)
    → ((r : PendingRow) → pending_id (f r) ≡ pending_id r)
    → is_kept k d ≡ true
    → is_kept k (update_pending id f d) ≡ true
kept-update k id f d same_id h =
    ground (arith, has-update pending_id (at pending_id id) f same_id k d.pending_events)

pub kept-buried :
    (k id : Bytes) (r : PendingRow) (e : MediaEvent) (reason : Bytes) (now : ℕ) (d : Db)
    → is_kept k d ≡ true
    → is_kept k (buried id r e reason now d) ≡ true
kept-buried k id r e reason now d h = ground (
  arith,
  has-delete pending_id id k d.pending_events,
  has-append letter_event k d.dead_letters (letter_of id r e reason now d),
)

pub kept-insert :
    (k : Bytes) (r : PendingRow) (d : Db)
    → is_kept k d ≡ true
    → is_kept k (insert_pending r d) ≡ true
kept-insert k r d h = ground (arith, has-insert_new pending_id k r d.pending_events)

pub kept-bury :
    ⦃j : Json⦄ (k : Bytes) (s : Store)
    → s.tx ≡ none
    → is_kept k s.db ≡ true
    → (id reason : Bytes) → is_kept k (move_pending_event_to_dead_letter id reason s).1.db ≡ true
kept-bury ⦃j⦄ k s closed kept id reason =
    elim (Option-cases (first (at pending_id (trim id)) s.db.pending_events)) [
      | inl p ↦ rw (bury_outcome_none s closed id reason p) kept
      | inr (r, p) ↦ elim (Result-cases (j.decode_event r.payload)) [
        | inr (m, q) ↦ rw (bury_outcome_undecoded s closed id reason r p q) kept
        | inl (e, q) ↦ elim (bury_outcome s closed id reason r e p q) [
          | inl u ↦ rw u kept
          | inr u ↦ rw u (kept-buried k (trim id) r e reason _ s.db kept)
        ]
      ]
    ]
