-- ===== src/Queue/Steps.antt =====
-- The calls of the database that the processor makes, seen from the events that the database keeps.
use cross_platform_media_sha.Base.{ℕ, ◌≡◌, inl, inr, refl, none, true, arith, List, [], ◌∷◌}
use cross_platform_media_sha.Text.{Bytes, trim}
use cross_platform_media_sha.Models.{MediaEvent, Route, bytes_eq, route_eq}
use cross_platform_media_sha.Database.Table.{at, select}
use cross_platform_media_sha.Database.Rows.{Db, PairingRow}
use cross_platform_media_sha.Database.Store.{
  Store, Result, ok, err, Exec, time_now, ◌>>=◌, query, pure,
}
use cross_platform_media_sha.Database.Pending.{Json}
use cross_platform_media_sha.Database.Pairings.{
  Pairing, scanned, first_pairing, pairing_route, get_pairing, scan_pairings, get_blocked_words,
  insert_event_history,
}
use cross_platform_media_sha.Database.Digests.{add_digest_event}
use cross_platform_media_sha.Database.Delivery.{
  ack_pending_event, reschedule_pending_event, move_pending_event_to_dead_letter,
}
use cross_platform_media_sha.Database.Queue.Kept.{is_kept, kept-acked, kept-update, kept-bury}
use cross_platform_media_sha.Database.Queue.Outcomes.{ack_outcome, reschedule_outcome}

-- Between two calls no transaction is open, and the event is queued, processed or a dead letter.
pub record Keeps (k : Bytes) (s : Store) : Type 0 where
  pub closed : s.tx ≡ none
  pub kept : is_kept k s.db ≡ true

module _ (k : Bytes) (s : Store) (h : Keeps k s) where
  pub history-Keeps :
      (id status details : Bytes) → Keeps k (insert_event_history id status details s).1
  unfolding insert_event_history
  history-Keeps id status details = record {
    closed = ground (arith, h.closed);
    kept = ground (arith, h.kept);
  }

  pub time_now-Keeps : Keeps k (time_now s).1
  time_now-Keeps = record { closed = h.closed; kept = h.kept }

  pub get_blocked_words-Keeps : (r : Route) → Keeps k (get_blocked_words r s).1
  unfolding get_blocked_words
  get_blocked_words-Keeps r = record {
    closed = ground (arith, h.closed);
    kept = ground (arith, h.kept);
  }

  pub add_digest_event-Keeps : (e : MediaEvent) (t : ℕ) → Keeps k (add_digest_event e t s).1
  unfolding add_digest_event
  add_digest_event-Keeps e t = record {
    closed = ground (arith, h.closed);
    kept = ground (arith, h.kept);
  }

  ack_closes : (id : Bytes) → (ack_pending_event id s).1.tx ≡ none
  unfolding ack_pending_event
  ack_closes id = ground (arith, h.closed)

  reschedule_closes :
      (id : Bytes) (n t : ℕ) (reason : Bytes)
      → (reschedule_pending_event id n t reason s).1.tx ≡ none
  unfolding reschedule_pending_event
  reschedule_closes id n t reason = ground (arith, h.closed)

  pub ack-Keeps : (id : Bytes) → Keeps k (ack_pending_event id s).1
  ack-Keeps id = record {
    closed = ack_closes id;
    kept = elim (ack_outcome s h.closed id) [
      | inl q ↦ rw q h.kept
      | inr q ↦ rw q (kept-acked k (trim id) _ s.db h.kept)
    ];
  }

  pub reschedule-Keeps :
      (id : Bytes) (n t : ℕ) (reason : Bytes) → Keeps k (reschedule_pending_event id n t reason s).1
  reschedule-Keeps id n t reason = record {
    closed = reschedule_closes id n t reason;
    kept = elim (reschedule_outcome s h.closed id n t reason) [
      | inl q ↦ rw q h.kept
      | inr q ↦ rw q (kept-update k (trim id) _ s.db (λ _. refl) h.kept)
    ];
  }

  module _ ⦃j : Json⦄ where
    bury_closes : (id reason : Bytes) → (move_pending_event_to_dead_letter id reason s).1.tx ≡ none
    unfolding move_pending_event_to_dead_letter
    bury_closes id reason = ground (arith, h.closed)

    pub bury-Keeps : (id reason : Bytes) → Keeps k (move_pending_event_to_dead_letter id reason s).1
    bury-Keeps id reason = record {
      closed = bury_closes id reason;
      kept = kept-bury k s h.closed h.kept id reason;
    }

after_bind :
    {A B : Type 0} (k : Bytes) (f : A → Exec B) (p : Result A × Store)
    → Keeps k p.1
    → ((a : A) (s : Store) → Keeps k s → Keeps k (f a s).1)
    → Keeps k (((λ _. p) >>= f) p.1).1
after_bind k f (ok a, s) h g = g a s h
after_bind k f (err e, s) h g = h

bind-Keeps :
    {A B : Type 0} (k : Bytes) (m : Exec A) (f : A → Exec B) (s : Store)
    → Keeps k (m s).1
    → ((a : A) (s' : Store) → Keeps k s' → Keeps k (f a s').1)
    → Keeps k ((m >>= f) s).1
bind-Keeps k m f s h g = after_bind k f (m s) h g

module _ ⦃j : Json⦄ where
  scan-Keeps :
      (k : Bytes) (rows : List PairingRow) (s : Store)
      → Keeps k s
      → Keeps k (scan_pairings rows s).1
  unfolding scan_pairings
  scan-Keeps k [] s h = h
  scan-Keeps k (r ∷ rs) s h =
      bind-Keeps k (get_blocked_words r.route)
        (λ words. scan_pairings rs >>= λ rest. pure (scanned r words ∷ rest)) s
        (get_blocked_words-Keeps k s h r.route)
        λ words t ht.
          bind-Keeps k (scan_pairings rs) (λ rest. pure (scanned r words ∷ rest)) t
            (scan-Keeps k rs t ht) λ rest t' ht'. ht'

  first-Keeps :
      (k : Bytes) (ps : List Pairing) (s : Store) → Keeps k s → Keeps k (first_pairing ps s).1
  first-Keeps k [] s h = h
  first-Keeps k (p ∷ ps) s h = h

  query-Keeps :
      {A : Type 0} (k : Bytes) (f : Db → A) (s : Store) → Keeps k s → Keeps k (query f s).1
  query-Keeps k f s h = record { closed = ground (arith, h.closed); kept = ground (arith, h.kept) }

  pub get_pairing-Keeps :
      (k : Bytes) (s : Store) → Keeps k s → (r : Route) → Keeps k (get_pairing r s).1
  unfolding get_pairing
  get_pairing-Keeps k s h r =
      bind-Keeps k (query λ d. select (at pairing_route r) d.pairings)
        (λ rows. scan_pairings rows >>= first_pairing) s
        (query-Keeps k (λ d. select (at pairing_route r) d.pairings) s h)
        λ rows t ht.
          bind-Keeps k (scan_pairings rows) first_pairing t (scan-Keeps k rows t ht)
            λ found t' ht'. first-Keeps k found t' ht'
