-- ===== src/Database/Digests.antt =====
-- internal/database/digest.go: events that wait for a summary.
use cross_platform_media_sha.Base.{
  ℕ, suc, Bool, ◌&&◌, ◌||◌, List, [], ◌∷◌, leb, ltb, take, if◌then◌else◌,
}
use cross_platform_media_sha.Text.{Bytes, lit, trim, is_empty}
use cross_platform_media_sha.Models.{MediaEvent, Route, same_route, bytes_eq}
use cross_platform_media_sha.Database.Table.{select, delete, insert_new, count}
use cross_platform_media_sha.Database.Rows.{Db, DigestRow}
use cross_platform_media_sha.Database.Store.{Exec, fail, pure, ◌>>=◌, query, exec, time_now, unix}

abbrev pub digest_id : DigestRow → Bytes
digest_id r = r.event_id

abbrev pub digest_row : MediaEvent → ℕ → ℕ → ℕ → DigestRow
digest_row e now deliver_after id = record {
  id = id;
  route = record {
    source_platform = trim e.source_platform;
    source_id = trim e.source_id;
    target_platform = trim e.target_platform;
    target_id = trim e.target_id;
  };
  event_id = trim e.event_id;
  caption = trim e.caption;
  file_name = trim e.file_name;
  media_type = trim e.media_type;
  created_at = now;
  deliver_after = deliver_after;
}

-- INSERT INTO digest_events … ON CONFLICT(event_id) DO NOTHING
abbrev pub insert_digest : MediaEvent → ℕ → ℕ → Db → Db
insert_digest e now deliver_after d = record d {
  digest_events = insert_new digest_id (digest_row e now deliver_after d.next_id) d.digest_events;
  next_id = suc d.next_id;
}

unfoldable pub add_digest_event : MediaEvent → ℕ → Exec (Unit {0})
add_digest_event e deliver_after =
    if is_empty (trim e.event_id)
    then fail (lit "event id is required")
    else if is_empty (trim e.source_platform) || is_empty (trim e.source_id)
    then fail (lit "source platform/id is required")
    else if is_empty (trim e.target_platform) || is_empty (trim e.target_id)
    then fail (lit "target platform/id is required")
    else do now ← time_now; exec (insert_digest e (unix now) (unix deliver_after))

-- the entries of a route that are due at the cutoff
abbrev pub due_on : Route → ℕ → DigestRow → Bool
due_on r cutoff d = same_route d.route r && leb d.deliver_after cutoff

-- ORDER BY created_at ASC; ties stay in the order of insertion
abbrev pub place_digest : DigestRow → List DigestRow → List DigestRow
place_digest r [] = r ∷ []
place_digest r (q ∷ qs) =
    let rest = place_digest r qs in if ltb q.created_at r.created_at then q ∷ rest else r ∷ q ∷ qs

unfoldable pub by_creation : List DigestRow → List DigestRow
by_creation [] = []
by_creation (r ∷ rs) = place_digest r (by_creation rs)

-- the limit that is applied: 20 if none is set, 200 at most
abbrev pub digest_limit : ℕ → ℕ
digest_limit limit = if leb limit 0 then 20 else if ltb 200 limit then 200 else limit

unfoldable pub list_digest_events_for_group : Route → ℕ → ℕ → Exec (List DigestRow × ℕ)
unfolding by_creation
list_digest_events_for_group r cutoff limit = do
  total ← query (λ d. count (due_on r (unix cutoff)) d.digest_events)
  rows ← query (λ d.
      take (digest_limit limit) (by_creation (select (due_on r (unix cutoff)) d.digest_events)))
  pure (rows, total)

unfoldable pub delete_digest_events_for_group : Route → ℕ → Exec (Unit {0})
delete_digest_events_for_group r cutoff =
    exec λ d. record d { digest_events = delete (due_on r (unix cutoff)) d.digest_events }
