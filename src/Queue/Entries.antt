-- ===== src/Queue/Entries.antt =====
-- What becomes of the entries that wait for a summary.
use cross_platform_media_sha.Base.{◌≤◌, ◌-◌, length, take, length-take, length-append}
use cross_platform_media_sha.Text.{trim}
use cross_platform_media_sha.Queue.Digest.{truncate_digest_line}
use cross_platform_media_sha.Base.{
  ℕ, ◌&&◌, leb, Option-cases, ◌≡◌, ap, ◌∙◌, ◌⊎◌, ◌==◌, inl, inr, refl, Bool-cases, Option, none,
  some, List, [], ◌∷◌, ◌++◌, arith,
}
use cross_platform_media_sha.Text.{Bytes, lit}
use cross_platform_media_sha.Models.{MediaEvent, Route, route_of, same_route}
use cross_platform_media_sha.Database.Table.{delete}
use cross_platform_media_sha.Database.Rows.{DigestRow}
use cross_platform_media_sha.Database.Store.{Result, ok, err, Store, time_now, unix}
use cross_platform_media_sha.Database.Pending.{Json}
use cross_platform_media_sha.Database.Pairings.{
  Pairing, get_pairing, insert_event_history, first_pairing,
}
use cross_platform_media_sha.Database.Digests.{
  list_digest_events_for_group, delete_digest_events_for_group,
}
use cross_platform_media_sha.Database.Frame.{
  Changes, Changes-bind, Changes-pure, Changes-fail, Changes-query, Changes-scan, Unchanged,
  Unchanged-frame,
}
use cross_platform_media_sha.Security.RateLimit.{check_rate_limit}
use cross_platform_media_sha.Transport.{Consumer, Consumers, get_consumer}
use cross_platform_media_sha.Queue.World.{World, Config, ignore, history}
use cross_platform_media_sha.Queue.Digest.{
  digest_event, build_digest_event_id, build_digest_message, max_items, now_of, settle_digest,
  send_digest, summarize, with_entries, with_pairing, process_group,
}

-- An event for the route has been accepted by its consumer.
abbrev IsSummed : Route → World → World → Type 0
IsSummed r w w' = (e : MediaEvent) × ((w'.sent ≡ e ∷ w.sent) × (route_of e ≡ r))

-- the entries without those of a route that are due
abbrev without_due : Route → ℕ → List DigestRow → List DigestRow
without_due r now = delete (λ d. same_route d.route r && leb d.deliver_after (unix now))

-- The entries are as they were, or an event for the route has been accepted by its consumer and
-- exactly the entries of the route that are due are gone.
abbrev IsAccounted : Route → ℕ → World → World → Type 0
IsAccounted r now w w' =
    (w'.store.db.digest_events ≡ w.store.db.digest_events)
    ⊎ (IsSummed r w w' × (w'.store.db.digest_events ≡ without_due r now w.store.db.digest_events))

history-entries :
    (id status details : Bytes) (w : World)
    → (history id status details w).store.db.digest_events ≡ w.store.db.digest_events
unfolding insert_event_history
history-entries id status details w = ground arith

first_pairing-Unchanged : ⦃j : Json⦄ (ps : List Pairing) → Changes Unchanged (first_pairing ps)
first_pairing-Unchanged [] = Changes-fail Unchanged-frame _
first_pairing-Unchanged (p ∷ ps) = Changes-pure Unchanged-frame p

pub get_pairing-Unchanged : ⦃j : Json⦄ (r : Route) → Changes Unchanged (get_pairing r)
unfolding get_pairing
get_pairing-Unchanged r = Changes-bind Unchanged-frame _ _ (Changes-query Unchanged-frame _) λ rows.
    Changes-bind Unchanged-frame _ _ (Changes-scan Unchanged-frame rows)
      λ ps. first_pairing-Unchanged ps

pub list_entries-Unchanged :
    (r : Route) (cutoff limit : ℕ) → Changes Unchanged (list_digest_events_for_group r cutoff limit)
unfolding list_digest_events_for_group
list_entries-Unchanged r cutoff limit = record {
  within = λ s. ground arith;
  same_tx = λ s. ground arith;
}

module _ (cfg : Config) (consumers : Consumers) (now : ℕ) (r : Route) where
  -- the deletion is refused, or takes the entries of the route that are due
  deleted_group :
      (w : World)
      → let w' = ignore (delete_digest_events_for_group r now) w in
        (w'.store.db.digest_events ≡ w.store.db.digest_events)
        ⊎ (w'.store.db.digest_events ≡ without_due r now w.store.db.digest_events)
  unfolding delete_digest_events_for_group
  deleted_group w = elim (Option-cases (w.store.env.fault w.store.step)) [
    | inl e ↦ inr (ground (arith, e))
    | inr (m, e) ↦ inl (ground (arith, e))
  ]

  settle-IsAccounted :
      (e : MediaEvent) (total : ℕ) (answer : Option Bytes) (w : World)
      → route_of e ≡ r
      → IsAccounted r now w (settle_digest cfg consumers now r e total answer w)
  unfolding settle_digest
  settle-IsAccounted e total (some m) w h =
      inl (history-entries e.event_id (lit "digest_failed") m w)
  settle-IsAccounted e total none w h =
      let sent : World = record w { sent = e ∷ w.sent } in
      let same_entries =
        history-entries e.event_id (lit "digest_sent") _
          (ignore (delete_digest_events_for_group r now) sent) in
      elim (deleted_group sent) [
        | inl p ↦ inl (same_entries ∙ p)
        | inr p ↦ inr ((e, (refl, h)), same_entries ∙ p)
      ]

  send-IsAccounted :
      (e : MediaEvent) (total : ℕ) (c : Result Consumer) (w : World)
      → route_of e ≡ r
      → IsAccounted r now w (send_digest cfg consumers now r e total c w)
  unfolding send_digest
  send-IsAccounted e total (err m) w h = inl refl
  send-IsAccounted e total (ok c) w h = settle-IsAccounted e total (c.send e w.store.step) w h

  summarize-IsAccounted :
      (events : List DigestRow) (total : ℕ) (w : World)
      → IsAccounted r now w (summarize cfg consumers now r events total w)
  unfolding summarize digest_event
  summarize-IsAccounted events total w =
      let e =
        digest_event r (build_digest_event_id r (now_of w)) (build_digest_message r events total) in
      let named = ignore time_now w in
      let key = r.target_platform ++ lit ":" ++ r.target_id in
      let checked =
        check_rate_limit cfg.dest_rate_limit_max cfg.dest_rate_limit_window named.dest_buckets key
          (now_of named) in
      let counted : World = ignore time_now (record named { dest_buckets = checked.1 }) in
      elim (Bool-cases (total == 0)) [
        | inl z ↦ rw z (inl refl)
        | inr z ↦ rw z (elim (Bool-cases checked.0) [
          | inr q ↦ rw q (inl refl)
          | inl q ↦
              rw q
                (send-IsAccounted e total (get_consumer consumers r.target_platform) counted refl)
        ])
      ]

  with_entries-IsAccounted :
      (w : World) (p : Result (List DigestRow × ℕ) × Store)
      → p.1.db ≡ w.store.db
      → IsAccounted r now w (with_entries cfg consumers now r w p)
  unfolding with_entries
  with_entries-IsAccounted w (err m, s) h = inl (rw h refl)
  with_entries-IsAccounted w (ok (events, total), s) h =
      elim (summarize-IsAccounted events total (record w { store = s })) [
        | inl e ↦ inl (e ∙ ap (λ d. d.digest_events) h)
        | inr (e, p) ↦ inr (e, p ∙ ap (λ d. without_due r now d.digest_events) h)
      ]

  with_pairing-IsAccounted :
      (w : World) (p : Result Pairing × Store)
      → p.1.db ≡ w.store.db
      → let w' = with_pairing cfg consumers now r w p in
        (w'.store.db.digest_events ≡ w.store.db.digest_events)
        ⊎ ((((m : Bytes) × (p.0 ≡ err m)) ⊎ IsSummed r w w')
            × (w'.store.db.digest_events ≡ without_due r now w.store.db.digest_events))
  unfolding with_pairing
  with_pairing-IsAccounted w (err m, s) h = elim (deleted_group (record w { store = s })) [
    | inl e ↦ inl (e ∙ ap (λ d. d.digest_events) h)
    | inr e ↦ inr (inl (m, refl), e ∙ ap (λ d. without_due r now d.digest_events) h)
  ]
  with_pairing-IsAccounted w (ok p, s) h =
      let limit = max_items p.rule_config.digest_max_items in
      let read = list_digest_events_for_group r now limit s in
      elim (with_entries-IsAccounted w read ((list_entries-Unchanged r now limit).within s ∙ h)) [
        | inl e ↦ inl e
        | inr (e, k) ↦ inr (inr e, k)
      ]

-- A group's entries are not lost: after the scheduler has dealt with the group of a route, the
-- entries are as they were, or exactly the entries of that route that were due at the tick are gone,
-- and then an event for the route has been accepted by its consumer, or the route's pairing could
-- not be read.
pub process_group_entries :
    ⦃j : Json⦄ (cfg : Config) (consumers : Consumers) (now : ℕ) (r : Route) (w : World)
    → ((process_group cfg consumers now r w).store.db.digest_events ≡ w.store.db.digest_events)
      ⊎ ((((m : Bytes) × ((get_pairing r w.store).0 ≡ err m))
            ⊎ ((e : MediaEvent) × (((process_group cfg consumers now r w).sent ≡ e ∷ w.sent)
                  × (route_of e ≡ r))))
          × ((process_group cfg consumers now r w).store.db.digest_events
              ≡ delete
                  (λ d. same_route d.route r && leb d.deliver_after (unix now))
                  w.store.db.digest_events))
unfolding process_group
process_group_entries cfg consumers now r w =
    with_pairing-IsAccounted cfg consumers now r w (get_pairing r w.store)
      ((get_pairing-Unchanged r).within w.store)

-- A line of a summary is never longer than the largest length that is asked for, also where that is
-- too short for the dots.
pub length-truncate_digest_line :
    (value : Bytes) (max : ℕ) → length (truncate_digest_line value max) ≤ max
unfolding truncate_digest_line
length-truncate_digest_line value max = ground (
  arith,
  length-take max (trim value),
  length-take (max - 3) (trim value),
  length-append (take (max - 3) (trim value)) (lit "..."),
)
