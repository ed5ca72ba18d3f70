-- ===== src/Database/Queue/Letters.antt =====
-- The way of an event to the dead letters and back.
use cross_platform_media_sha.Base.{
  ℕ, suc, ◌≡◌, refl, ap, ◌∙◌, some, true, false, arith, List, [], ◌∷◌, ◌++◌,
}
use cross_platform_media_sha.Text.{Bytes, lit, trim, same_refl}
use cross_platform_media_sha.Models.{MediaEvent, bytes_eq}
use cross_platform_media_sha.Database.Table.{
  delete, first, has, at, first-append, has-delete, has-first, key-first,
}
use cross_platform_media_sha.Database.Rows.{Db, PendingRow, DeadLetterRow}
use cross_platform_media_sha.Database.Store.{Store, ok, unix}
use cross_platform_media_sha.Database.Pending.{Json, pending_id, letter_id, is_processed}
use cross_platform_media_sha.Database.Delivery.{
  move_pending_event_to_dead_letter, replay_dead_letter, replay_found, replay_letter, letter_of,
  nat_key,
}
use cross_platform_media_sha.Database.Queue.Outcomes.{buried, replayed}
use cross_platform_media_sha.Database.Queue.Invariant.{IsSound, has-fresh}

pub delete-of_has :
    (n : ℕ) (ls : List DeadLetterRow) → has letter_id n ls ≡ false → delete (at letter_id n) ls ≡ ls
unfolding has delete
delete-of_has n [] h = refl
delete-of_has n (l ∷ ls) h = ground (arith, delete-of_has n ls)

-- taking away the letter that was added last
delete-append :
    (n : ℕ) (ls : List DeadLetterRow) (l : DeadLetterRow)
    → has letter_id n ls ≡ false
    → l.dead_letter_id ≡ n
    → delete (at letter_id n) (ls ++ l ∷ []) ≡ ls
unfolding has delete
delete-append n [] l h e = ground arith
delete-append n (q ∷ ls) l h e = ground (arith, delete-append n ls l)

module _ ⦃j : Json⦄ (s : Store) (id reason : Bytes) (r : PendingRow) (e : MediaEvent)
    (found : first (at pending_id (trim id)) s.db.pending_events ≡ some r)
    (decoded : j.decode_event r.payload ≡ ok e) where
  -- What a move to the dead letters does when it returns a letter's number.
  pub bury_lem :
      (n : ℕ)
      → (move_pending_event_to_dead_letter id reason s).0 ≡ ok n
      → (n ≡ s.db.next_id)
        × ((move_pending_event_to_dead_letter id reason s).1.db
            ≡ buried (trim id) r e reason (unix (s.env.clock (suc (suc s.step)))) s.db)
  unfolding move_pending_event_to_dead_letter
  bury_lem n h = ground arith

replay_lem :
    (s : Store) (n : ℕ) (platform target : Bytes) (l : DeadLetterRow)
    → first (at letter_id n) s.db.dead_letters ≡ some l
    → is_processed l.event_id s.db ≡ false
    → (replay_dead_letter n platform target s).0 ≡ ok true
    → (replay_dead_letter n platform target s).1.db
      ≡ replayed l (unix (s.env.clock (suc (suc (suc s.step))))) s.db
unfolding replay_dead_letter replay_found replay_letter
replay_lem s n platform target l found fresh h = ground arith

-- the letter that was added last is found by its number
first-letter :
    (n : ℕ) (ls : List DeadLetterRow) (l : DeadLetterRow)
    → has letter_id n ls ≡ false
    → l.dead_letter_id ≡ n
    → first (at letter_id n) (ls ++ l ∷ []) ≡ some l
first-letter n ls l h e = rw (first-append letter_id n ls l) (ground (arith, h))

-- the row that a replay of a buried event queues
abbrev pub requeued : PendingRow → ℕ → PendingRow
requeued r now = record r {
  available_at = now;
  retry_count = 0;
  last_error = lit "replayed from dead letter";
  created_at = now;
}

replayed-buried :
    (d : Db) (id : Bytes) (r : PendingRow) (e : MediaEvent) (reason : Bytes) (t now : ℕ)
    → IsSound d
    → r.event_id ≡ id
    → replayed (letter_of id r e reason t d) now (buried id r e reason t d) ≡ record d {
      pending_events = delete (at pending_id id) d.pending_events ++ requeued r now ∷ [];
      next_id = suc d.next_id;
    }
replayed-buried d id r e reason t now v p = ground (
  arith,
  has-delete pending_id id id d.pending_events,
  same_refl id,
  delete-append d.next_id d.dead_letters (letter_of id r e reason t d)
      (has-fresh d.next_id d.dead_letters v.letters_fresh) refl,
)

module _ ⦃j : Json⦄ (s : Store) (id reason : Bytes) (r : PendingRow) (e : MediaEvent)
    (found : first (at pending_id (trim id)) s.db.pending_events ≡ some r)
    (decoded : j.decode_event r.payload ≡ ok e) where
  abbrev burial : ℕ
  burial = unix (s.env.clock (suc (suc s.step)))

  abbrev letter : DeadLetterRow
  letter = letter_of (trim id) r e reason burial s.db

  -- the store after the move
  abbrev after : Store
  after = (move_pending_event_to_dead_letter id reason s).1

  -- a queued event has not been processed
  buried-fresh : IsSound s.db → is_processed (trim id) s.db ≡ false
  buried-fresh v =
      ground (arith, v.disjoint (trim id), has-first pending_id (trim id) s.db.pending_events found)

  module _ (n : ℕ) (v : IsSound s.db)
      (moved : (move_pending_event_to_dead_letter id reason s).0 ≡ ok n) where
    buried_db : after.db ≡ buried (trim id) r e reason burial s.db
    buried_db = (bury_lem s id reason r e found decoded n moved).1

    buried_letter : first (at letter_id n) after.db.dead_letters ≡ some letter
    buried_letter =
        rw (buried_db, (bury_lem s id reason r e found decoded n moved).0)
          (first-letter s.db.next_id s.db.dead_letters letter
            (has-fresh s.db.next_id s.db.dead_letters v.letters_fresh) refl)

    -- A queued event that is moved to the dead letters and replayed is queued again with its payload
    -- and its route, due at once and with no retries, and the dead letters are as they were.
    pub replay-bury :
        (platform target : Bytes)
        → (replay_dead_letter n platform target after).0 ≡ ok true
        → ((replay_dead_letter n platform target after).1.db.dead_letters ≡ s.db.dead_letters)
          × ((replay_dead_letter n platform target after).1.db.processed_events
              ≡ s.db.processed_events)
          × ((replay_dead_letter n platform target after).1.db.pending_events
              ≡ delete (at pending_id (trim id)) s.db.pending_events
                ++ requeued r (unix (after.env.clock (suc (suc (suc after.step))))) ∷ [])
    replay-bury platform target k =
        let fresh : is_processed (trim id) after.db ≡ false = rw buried_db (buried-fresh v) in
        let now = unix (after.env.clock (suc (suc (suc after.step)))) in
        let same_id = key-first pending_id (trim id) s.db.pending_events found in
        let final =
          replay_lem after n platform target letter buried_letter fresh k
          ∙ ap (replayed letter now) buried_db
          ∙ replayed-buried s.db (trim id) r e reason burial now v same_id in
        (
          ap (λ (d : Db). d.dead_letters) final,
          ap (λ (d : Db). d.processed_events) final,
          ap (λ (d : Db). d.pending_events) final,
        )
