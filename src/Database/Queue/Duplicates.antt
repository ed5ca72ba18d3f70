-- ===== src/Database/Queue/Duplicates.antt =====
-- Files that were seen on a route within the window are not queued again.
use cross_platform_media_sha.Base.{
  ℕ, ◌≡◌, ◌≢◌, ◌≤◌, refl, ap, ◌∙◌, true, false, Bool, arith, List, [], ◌∷◌, ◌++◌, ltb,
}
use cross_platform_media_sha.Text.{Bytes, trim, is_empty}
use cross_platform_media_sha.Models.{MediaEvent, Route, route_of, bytes_eq}
use cross_platform_media_sha.Database.Table.{delete, has, insert_new}
use cross_platform_media_sha.Database.Rows.{DedupeRow, DedupeKey, dedupe_key, dedupe_eq}
use cross_platform_media_sha.Database.Store.{Store, ok, unix}
use cross_platform_media_sha.Database.Pending.{
  Json, trim_event, enqueue_pending_event, dedupe_cutoff,
}
use cross_platform_media_sha.Database.Queue.Outcomes.{fingerprint}

abbrev key_of : Route → Bytes → DedupeKey
key_of r h = record { route = r; file_hash = h }

-- a fingerprint that is not older than the cutoff stays
fingerprint_stays :
    (c : ℕ) (rows : List DedupeRow) (row : DedupeRow)
    → c ≤ row.created_at
    → has dedupe_key (dedupe_key row) (delete (λ r. ltb r.created_at c) (rows ++ row ∷ [])) ≡ true
unfolding has delete
fingerprint_stays c [] row h =
    ground (arith, h, dedupe_eq.beq_iff (dedupe_key row) (dedupe_key row))
fingerprint_stays c (r ∷ rows) row h = ground (arith, fingerprint_stays c rows row h)

present : (h : Bytes) → is_empty (trim h) ≡ false → is_empty h ≡ false
unfolding trim
present [] p = cc p
present (c ∷ h) p = refl

module _ ⦃j : Json⦄ (s : Store) (e : MediaEvent) (payload : Bytes)
    (encoded : j.encode_event (trim_event e) ≡ ok payload)
    (hashed : is_empty (trim e.file_hash) ≡ false) where
  -- an enqueue that says true has added the event's fingerprint behind the others
  enqueue_remembers :
      (enqueue_pending_event e s).0 ≡ ok true
      → (enqueue_pending_event e s).1.db.media_dedupe
        ≡ delete
            (λ r. ltb r.created_at (dedupe_cutoff s (unix (s.env.clock s.step))))
            s.db.media_dedupe
          ++ fingerprint (trim_event e) (unix (s.env.clock s.step)) ∷ []
  unfolding enqueue_pending_event insert_new
  enqueue_remembers h = ground (arith, encoded, hashed, present e.file_hash hashed)

  enqueue_known :
      has dedupe_key (dedupe_key (fingerprint (trim_event e) 0)) (
          delete
            (λ r. ltb r.created_at (dedupe_cutoff s (unix (s.env.clock s.step))))
            s.db.media_dedupe)
        ≡ true
      → ((enqueue_pending_event e s).0 ≢ ok true) × ((enqueue_pending_event e s).1.db ≡ s.db)
  unfolding enqueue_pending_event insert_new
  enqueue_known known = (
    ground (arith, encoded, hashed, present e.file_hash hashed, known),
    ground (arith, encoded, hashed, present e.file_hash hashed, known),
  )

module _ ⦃j : Json⦄ (s : Store) (e : MediaEvent) (payload : Bytes)
    (encoded : j.encode_event (trim_event e) ≡ ok payload)
    (hashed : is_empty (trim e.file_hash) ≡ false) where
  -- An enqueue right after one that queued a file with the same hash on the same route, and within the
  -- window, changes nothing in the database and does not say that the event was queued, under
  -- whatever event id it comes. Both events can be encoded.
  pub enqueue_duplicate :
      (e' : MediaEvent) (payload' : Bytes)
      → j.encode_event (trim_event e') ≡ ok payload'
      → route_of (trim_event e') ≡ route_of (trim_event e)
      → e'.file_hash ≡ e.file_hash
      → (enqueue_pending_event e s).0 ≡ ok true
      → (let s' = (enqueue_pending_event e s).1 in
          dedupe_cutoff s' (unix (s'.env.clock s'.step)) ≤ unix (s.env.clock s.step))
      → ((enqueue_pending_event e' (enqueue_pending_event e s).1).0 ≢ ok true)
        × ((enqueue_pending_event e' (enqueue_pending_event e s).1).1.db
            ≡ (enqueue_pending_event e s).1.db)
  enqueue_duplicate e' payload' encoded' same_route same_hash first recent =
      let s' = (enqueue_pending_event e s).1 in
      let now = unix (s.env.clock s.step) in
      let c = dedupe_cutoff s' (unix (s'.env.clock s'.step)) in
      let rows =
        delete (λ (r : DedupeRow). ltb r.created_at (dedupe_cutoff s now)) s.db.media_dedupe in
      let stays = fingerprint_stays c rows (fingerprint (trim_event e) now) recent in
      let key : dedupe_key (fingerprint (trim_event e') 0)
          ≡ dedupe_key (fingerprint (trim_event e) now) =
        ap (λ r. key_of r e'.file_hash) same_route
        ∙ ap (key_of (route_of (trim_event e))) same_hash in
      let old : DedupeRow → Bool = λ r. ltb r.created_at c in
      let known =
        ap (λ m. has dedupe_key (dedupe_key (fingerprint (trim_event e') 0)) (delete old m))
          (enqueue_remembers s e payload encoded hashed first)
        ∙ ap (λ k. has dedupe_key k (delete old (rows ++ fingerprint (trim_event e) now ∷ []))) key
        ∙ stays in
      let hashed' : is_empty (trim e'.file_hash) ≡ false =
        ap (λ h. is_empty (trim h)) same_hash ∙ hashed in
      enqueue_known s' e' payload' encoded' hashed' known
