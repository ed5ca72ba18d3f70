-- ===== src/Database/Queue/Atomic.antt =====
-- The transactions of an enqueue and of a replay: every path out of it commits or rolls back.
use cross_platform_media_sha.Base.{ℕ, suc, ◌≡◌, refl, Option, none, some, arith}
use cross_platform_media_sha.Text.{Bytes}
use cross_platform_media_sha.Models.{MediaEvent}
use cross_platform_media_sha.Database.Table.{first, at}
use cross_platform_media_sha.Database.Rows.{Db, DeadLetterRow}
use cross_platform_media_sha.Database.Store.{Store, err}
use cross_platform_media_sha.Database.Delivery.{
  replay_letter, replay_found, replay_dead_letter, nat_key,
}
use cross_platform_media_sha.Database.Pending.{Json, letter_id, enqueue_pending_event}

found_closes :
    (l : Option DeadLetterRow) (platform target : Bytes) (s : Store)
    → (replay_found l platform target s).1.tx ≡ none
unfolding replay_found replay_letter
found_closes none platform target s = refl
found_closes (some l) platform target s = ground arith

found_error :
    (l : Option DeadLetterRow) (platform target : Bytes) (s : Store) (d : Db) {m : Bytes}
    → s.tx ≡ some d
    → (replay_found l platform target s).0 ≡ err m
    → (replay_found l platform target s).1.db ≡ d
unfolding replay_found replay_letter
found_error none platform target s d h p = cc
found_error (some l) platform target s d h p = ground arith

module _ (id : ℕ) (platform target : Bytes) (s : Store) where
  -- the store from which the letter that was read is replayed
  abbrev reading : Store
  reading = record s { tx = some s.db; step = suc (suc s.step) }

  abbrev letter : Option DeadLetterRow
  letter = first (at letter_id id) s.db.dead_letters

  pub replay_closes : s.tx ≡ none → (replay_dead_letter id platform target s).1.tx ≡ none
  unfolding replay_dead_letter
  replay_closes h = ground (arith, found_closes letter platform target reading)

  pub replay_error :
      {m : Bytes}
      → s.tx ≡ none
      → (replay_dead_letter id platform target s).0 ≡ err m
      → (replay_dead_letter id platform target s).1.db ≡ s.db
  unfolding replay_dead_letter
  replay_error {m} h p =
      ground (arith, found_error letter platform target reading s.db {m = m} refl)

module _ ⦃j : Json⦄ (e : MediaEvent) (s : Store) where
  pub enqueue_closes : s.tx ≡ none → (enqueue_pending_event e s).1.tx ≡ none
  unfolding enqueue_pending_event
  enqueue_closes h = ground arith

  pub enqueue_error :
      {m : Bytes}
      → s.tx ≡ none
      → (enqueue_pending_event e s).0 ≡ err m
      → (enqueue_pending_event e s).1.db ≡ s.db
  unfolding enqueue_pending_event
  enqueue_error h p = ground arith
