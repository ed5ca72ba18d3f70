-- ===== src/Queue/Digest.antt =====
-- internal/queue/digest.go: the summaries of what waits for a target.
use cross_platform_media_sha.Base.{
  ℕ, ℤ, pos, negsuc, zero, suc, ◌-◌, not, Option, none, some, List, [], ◌∷◌, ◌++◌, length, take,
  leb, ltb, ◌==◌, if◌then◌else◌,
}
use cross_platform_media_sha.Text.{Bytes, lit, trim, is_empty, join, decimal}
use cross_platform_media_sha.Models.{MediaEvent, Route, media_type_document}
use cross_platform_media_sha.Database.Rows.{DigestRow}
use cross_platform_media_sha.Database.Store.{Result, ok, err, Store, unix, time_now}
use cross_platform_media_sha.Database.Pending.{Json}
use cross_platform_media_sha.Database.Pairings.{Pairing, get_pairing}
use cross_platform_media_sha.Database.Listings.{DigestGroup, list_digest_groups_due}
use cross_platform_media_sha.Database.Digests.{
  list_digest_events_for_group, delete_digest_events_for_group,
}
use cross_platform_media_sha.Security.RateLimit.{check_rate_limit}
use cross_platform_media_sha.Transport.{Consumer, Consumers, get_consumer}
use cross_platform_media_sha.Queue.World.{World, Config, ignore, history}

abbrev pub digest_batch_limit : ℕ
digest_batch_limit = 25

unfoldable pub truncate_digest_line : Bytes → ℕ → Bytes
truncate_digest_line value max =
    let trimmed = trim value in
    if leb (length trimmed) max
    then trimmed
    else if leb max 3
    then take max trimmed
    else take (max - 3) trimmed ++ lit "..."

abbrev label_of : DigestRow → Bytes
label_of r =
    if not (is_empty (trim r.file_name))
    then trim r.file_name
    else if not (is_empty (trim r.media_type))
    then trim r.media_type
    else lit "item"

abbrev item_line : ℕ → DigestRow → Bytes
item_line number r =
    if is_empty (trim r.caption)
    then decimal number ++ lit ") " ++ label_of r
    else decimal number
      ++ lit ") "
      ++ label_of r
      ++ lit " - "
      ++ truncate_digest_line (trim r.caption) 100

-- the entries, numbered from `number`
unfoldable pub item_lines : ℕ → List DigestRow → List Bytes
unfolding truncate_digest_line decimal
item_lines number [] = []
item_lines number (r ∷ rs) = item_line number r ∷ item_lines (suc number) rs

abbrev more_line : ℕ → ℕ → List Bytes
more_line total shown =
    if ltb shown total
    then (lit "...and " ++ decimal (total - shown) ++ lit " more items") ∷ []
    else []

unfoldable pub build_digest_message : Route → List DigestRow → ℕ → Bytes
unfolding item_lines join decimal
build_digest_message r events total =
    join
      ((lit "Digest summary for "
          ++ r.source_platform
          ++ lit ":"
          ++ r.source_id
          ++ lit " -> "
          ++ r.target_platform
          ++ lit ":"
          ++ r.target_id)
        ∷ (lit "Items due: "
            ++ decimal total
            ++ lit " (showing "
            ++ decimal (length events)
            ++ lit ")")
        ∷ (item_lines 1 events ++ more_line total (length events)))
      (lit "\n")

unfoldable pub build_digest_event_id : Route → ℕ → Bytes
unfolding decimal
build_digest_event_id r now =
    lit "digest:"
    ++ r.source_platform
    ++ lit ":"
    ++ r.source_id
    ++ lit ":"
    ++ r.target_platform
    ++ lit ":"
    ++ r.target_id
    ++ lit ":"
    ++ decimal (unix now)

unfoldable pub digest_event : Route → Bytes → Bytes → MediaEvent
digest_event r id message = record {
  event_id = id;
  file_name = [];
  file_hash = [];
  caption = message;
  source_platform = r.source_platform;
  source_id = r.source_id;
  target_platform = r.target_platform;
  target_id = r.target_id;
  media_group_id = [];
  media_type = media_type_document;
  content_type = [];
  available_at = 0;
  sender_name = [];
  reply_to_sender = [];
  reply_to_caption = [];
  file_url = [];
}

-- how many entries a digest shows; 20 where the pairing sets no positive number
abbrev pub max_items : ℤ → ℕ
max_items (pos zero) = 20
max_items (pos (suc n)) = suc n
max_items (negsuc n) = 20

abbrev pub now_of : World → ℕ
now_of w = w.store.env.clock w.store.step

module _ (cfg : Config) (consumers : Consumers) (now : ℕ) where
  -- what Send has returned
  unfoldable pub settle_digest : Route → MediaEvent → ℕ → Option Bytes → World → World
  unfolding delete_digest_events_for_group decimal
  settle_digest r e total (some m) w = history e.event_id (lit "digest_failed") m w
  settle_digest r e total none w =
      history e.event_id (lit "digest_sent")
        (lit "digest sent with " ++ decimal total ++ lit " items")
        (ignore (delete_digest_events_for_group r now) (record w { sent = e ∷ w.sent }))

  unfoldable pub send_digest : Route → MediaEvent → ℕ → Result Consumer → World → World
  unfolding settle_digest
  send_digest r e total (err m) w = w
  send_digest r e total (ok c) w = settle_digest r e total (c.send e w.store.step) w

  -- with the entries and their number; the clock is read for the number and for the rate limit
  unfoldable pub summarize : Route → List DigestRow → ℕ → World → World
  unfolding send_digest get_consumer check_rate_limit build_digest_message build_digest_event_id
      digest_event
  summarize r events total w =
      let e =
        digest_event r (build_digest_event_id r (now_of w)) (build_digest_message r events total) in
      let named = ignore time_now w in
      let key = r.target_platform ++ lit ":" ++ r.target_id in
      let checked =
        check_rate_limit cfg.dest_rate_limit_max cfg.dest_rate_limit_window named.dest_buckets key
          (now_of named) in
      let counted : World = ignore time_now (record named { dest_buckets = checked.1 }) in
      if total == 0
      then w
      else if not checked.0
      then counted
      else send_digest r e total (get_consumer consumers r.target_platform) counted

  unfoldable pub with_entries : Route → World → Result (List DigestRow × ℕ) × Store → World
  unfolding summarize
  with_entries r w (err m, s) = record w { store = s }
  with_entries r w (ok (events, total), s) = summarize r events total (record w { store = s })

  -- the entries of a pairing that is gone are dropped
  unfoldable pub with_pairing : Route → World → Result Pairing × Store → World
  unfolding with_entries list_digest_events_for_group delete_digest_events_for_group
  with_pairing r w (err m, s) =
      ignore (delete_digest_events_for_group r now) (record w { store = s })
  with_pairing r w (ok p, s) =
      with_entries r w
        (list_digest_events_for_group r now (max_items p.rule_config.digest_max_items) s)

  module _ ⦃j : Json⦄ where
    unfoldable pub process_group : Route → World → World
    unfolding with_pairing get_pairing
    process_group r w = with_pairing r w (get_pairing r w.store)

    unfoldable pub process_groups : List DigestGroup → World → World
    unfolding process_group
    process_groups [] w = w
    process_groups (g ∷ gs) w = process_groups gs (process_group g.route w)

module _ ⦃j : Json⦄ (cfg : Config) (consumers : Consumers) where
  abbrev pub with_groups : ℕ → World → Result (List DigestGroup) × Store → World
  with_groups now w (err m, s) = record w { store = s }
  with_groups now w (ok gs, s) = process_groups cfg consumers now gs (record w { store = s })

  -- one tick of the scheduler
  unfoldable pub process_digests : World → World
  unfolding process_groups list_digest_groups_due
  process_digests w =
      with_groups (now_of w) w
        (list_digest_groups_due (now_of w) digest_batch_limit (ignore time_now w).store)
