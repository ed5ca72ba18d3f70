-- ===== src/Database/Queue/Invariant.antt =====
-- What holds of the database between two operations of the queue.
use cross_platform_media_sha.Base.{
  ℕ, suc, ◌≡◌, ◌<◌, inl, inr, refl, true, false, arith, List, [], ◌∷◌, ◌++◌, All, Bool, Bool-cases,
  if◌then◌else◌,
}
use cross_platform_media_sha.Text.{Bytes, same, same_iff}
use cross_platform_media_sha.Models.{bytes_eq}
use cross_platform_media_sha.Database.Table.{
  delete, has, at, insert_new, Unique, delete-Unique, insert_new-Unique, update-Unique, has-update,
  has-delete, has-insert_new, append-Unique, has-append,
}
use cross_platform_media_sha.Database.Rows.{
  Db, empty_db, DeadLetterRow, PendingRow, DedupeRow, dedupe_key, dedupe_eq,
}
use cross_platform_media_sha.Database.Pending.{
  is_pending, pending_id, processed_id, insert_pending, delete_pending, update_pending, letter_id,
}
use cross_platform_media_sha.Database.Delivery.{
  upsert_processed, upsert_pending, replayed_row, delete_letter, insert_letter, nat_key,
}
use cross_platform_media_sha.Database.Queue.Outcomes.{acked, remember, forget_old}

pub record IsSound (d : Db) : Type 0 where
  -- the primary keys
  pub pending_unique : Unique pending_id d.pending_events
  pub processed_unique : Unique processed_id d.processed_events
  pub dedupe_unique : Unique dedupe_key d.media_dedupe
  pub letters_unique : Unique letter_id d.dead_letters
  -- no dead letter has the next number of the sequence
  pub letters_fresh : All (λ l. l.dead_letter_id < d.next_id) d.dead_letters
  -- an event that has been processed is not queued
  pub disjoint :
      (id : Bytes)
      → has processed_id id d.processed_events ≡ true
      → has pending_id id d.pending_events ≡ false

-- The empty database is sound.
pub empty_db-IsSound : IsSound empty_db
unfolding has
empty_db-IsSound = record {
  pending_unique = tt;
  processed_unique = tt;
  dedupe_unique = tt;
  letters_unique = tt;
  letters_fresh = tt;
  disjoint = λ id p. refl;
}

abbrev IsFresh : ℕ → List DeadLetterRow → Type 0
IsFresh n = All (λ l. l.dead_letter_id < n)

-- the next number of the sequence is no letter's
pub has-fresh : (n : ℕ) (ls : List DeadLetterRow) → IsFresh n ls → has letter_id n ls ≡ false
unfolding has
has-fresh n [] h = refl
has-fresh n (l ∷ ls) h = ground (arith, has-fresh n ls h.1, h.0)

delete-IsFresh :
    (p : DeadLetterRow → Bool) (n : ℕ) (ls : List DeadLetterRow)
    → IsFresh n ls
    → IsFresh n (delete p ls)
unfolding delete
delete-IsFresh p n [] h = tt
delete-IsFresh p n (l ∷ ls) h = ground (arith, delete-IsFresh p n ls h.1)

append-IsFresh :
    (l : DeadLetterRow) (n : ℕ) (ls : List DeadLetterRow)
    → IsFresh n ls
    → l.dead_letter_id ≡ n
    → IsFresh (suc n) (ls ++ l ∷ [])
append-IsFresh l n [] h e = (omega arith, tt)
append-IsFresh l n (q ∷ ls) h e = (omega (arith, h.0), append-IsFresh l n ls h.1 e)

pub insert-IsSound :
    (r : PendingRow) (d : Db)
    → IsSound d
    → has processed_id r.event_id d.processed_events ≡ false
    → IsSound (insert_pending r d)
insert-IsSound r d h n = record {
  pending_unique = insert_new-Unique pending_id r d.pending_events h.pending_unique;
  processed_unique = h.processed_unique;
  dedupe_unique = h.dedupe_unique;
  letters_unique = h.letters_unique;
  letters_fresh = h.letters_fresh;
  disjoint = λ id p. ground (
    arith,
    has-insert_new pending_id id r d.pending_events,
    h.disjoint id p,
    same_iff r.event_id id,
  );
}

pub dedupe-IsSound :
    (row : DedupeRow) (cutoff : ℕ) (d : Db)
    → IsSound d
    → IsSound (remember row (forget_old cutoff d))
dedupe-IsSound row cutoff d h = record {
  pending_unique = h.pending_unique;
  processed_unique = h.processed_unique;
  dedupe_unique =
      insert_new-Unique dedupe_key row _
        (delete-Unique dedupe_key _ d.media_dedupe h.dedupe_unique);
  letters_unique = h.letters_unique;
  letters_fresh = h.letters_fresh;
  disjoint = h.disjoint;
}

pub update-IsSound :
    (id : Bytes) (f : PendingRow → PendingRow) (d : Db)
    → ((r : PendingRow) → pending_id (f r) ≡ pending_id r)
    → IsSound d
    → IsSound (update_pending id f d)
update-IsSound id f d same_id h = record {
  pending_unique =
      update-Unique pending_id (at pending_id id) f same_id d.pending_events h.pending_unique;
  processed_unique = h.processed_unique;
  dedupe_unique = h.dedupe_unique;
  letters_unique = h.letters_unique;
  letters_fresh = h.letters_fresh;
  disjoint = λ k p. ground (
    arith,
    has-update pending_id (at pending_id id) f same_id k d.pending_events,
    h.disjoint k p,
  );
}

pub delete-IsSound : (id : Bytes) (d : Db) → IsSound d → IsSound (delete_pending id d)
delete-IsSound id d h = record {
  pending_unique = delete-Unique pending_id _ d.pending_events h.pending_unique;
  processed_unique = h.processed_unique;
  dedupe_unique = h.dedupe_unique;
  letters_unique = h.letters_unique;
  letters_fresh = h.letters_fresh;
  disjoint = λ k p. ground (arith, has-delete pending_id id k d.pending_events, h.disjoint k p);
}

upsert_processed-Unique :
    (id : Bytes) (now : ℕ) (d : Db)
    → Unique processed_id d.processed_events
    → Unique processed_id (upsert_processed id now d).processed_events
upsert_processed-Unique id now d h = ground (
  arith,
  update-Unique processed_id (at processed_id id) (λ r. record r { processed_at = now }) (λ r. refl)
      d.processed_events h,
  append-Unique processed_id (record { event_id = id; processed_at = now }) d.processed_events h,
)

pub has-upsert_processed :
    (id : Bytes) (now : ℕ) (d : Db) (k : Bytes)
    → has processed_id k (upsert_processed id now d).processed_events
      ≡ (if same id k then true else has processed_id k d.processed_events)
has-upsert_processed id now d k = ground (
  arith,
  has-update processed_id (at processed_id id) (λ r. record r { processed_at = now }) (λ r. refl) k
      d.processed_events,
  has-append processed_id k d.processed_events (record { event_id = id; processed_at = now }),
  same_iff id k,
)

pub acked-IsSound : (id : Bytes) (now : ℕ) (d : Db) → IsSound d → IsSound (acked id now d)
acked-IsSound id now d h = record {
  pending_unique = delete-Unique pending_id _ d.pending_events h.pending_unique;
  processed_unique = upsert_processed-Unique id now d h.processed_unique;
  dedupe_unique = h.dedupe_unique;
  letters_unique = h.letters_unique;
  letters_fresh = h.letters_fresh;
  disjoint = λ k p. ground (
    arith,
    has-delete pending_id id k d.pending_events,
    has-upsert_processed id now d k,
    h.disjoint k,
  );
}

pub upsert_pending-IsSound :
    (l : DeadLetterRow) (now : ℕ) (d : Db)
    → IsSound d
    → has processed_id l.event_id d.processed_events ≡ false
    → IsSound (upsert_pending l now d)
unfolding insert_new
upsert_pending-IsSound l now d h n = elim (Bool-cases (is_pending l.event_id d)) [
  | inl e ↦ rw e (update-IsSound l.event_id _ d (λ r. refl) h)
  | inr e ↦ rw e (rw e at (insert-IsSound (replayed_row l now) d h n))
]

pub forget_letter-IsSound : (id : ℕ) (d : Db) → IsSound d → IsSound (delete_letter id d)
forget_letter-IsSound id d h = record {
  pending_unique = h.pending_unique;
  processed_unique = h.processed_unique;
  dedupe_unique = h.dedupe_unique;
  letters_unique = delete-Unique letter_id _ d.dead_letters h.letters_unique;
  letters_fresh = delete-IsFresh _ d.next_id d.dead_letters h.letters_fresh;
  disjoint = h.disjoint;
}

pub add_letter-IsSound :
    (letter : Db → DeadLetterRow) (d : Db)
    → (letter d).dead_letter_id ≡ d.next_id
    → IsSound d
    → IsSound (insert_letter letter d)
add_letter-IsSound letter d new h = record {
  pending_unique = h.pending_unique;
  processed_unique = h.processed_unique;
  dedupe_unique = h.dedupe_unique;
  letters_unique =
      append-Unique letter_id (letter d) d.dead_letters h.letters_unique
        (rw new (has-fresh d.next_id d.dead_letters h.letters_fresh));
  letters_fresh = append-IsFresh (letter d) d.next_id d.dead_letters h.letters_fresh new;
  disjoint = h.disjoint;
}
