-- ===== src/Telegram/Keeps.antt =====
-- What the loop body of the Telegram producer keeps, along all its returns.
use cross_platform_media_sha.Base.{Bool-cases, inl, inr, Option, List, [], ◌∷◌, ◌++◌}
use cross_platform_media_sha.Text.{Bytes, Unicode, is_empty, lit}
use cross_platform_media_sha.Database.Store.{Result, ok, err, Store, time_now}
use cross_platform_media_sha.Database.Pending.{Json}
use cross_platform_media_sha.Database.Pairings.{Pairing}
use cross_platform_media_sha.Database.Listings.{get_pairings_by_source}
use cross_platform_media_sha.Database.Frame.{SparesQueue-frame, Changes-by_source}
use cross_platform_media_sha.Security.RateLimit.{check_rate_limit}
use cross_platform_media_sha.Rules.Filter.{Regex}
use cross_platform_media_sha.Producer.{
  Intake, Remote, valid_pairings, compute_remote_file_hash, hash_or_none, now_of,
}
use cross_platform_media_sha.Producer.Sound.{
  IsReady, Changes-IsReady, time_now-IsReady, valid_pairings-IsReady, enqueue_all-IsReady,
}
use cross_platform_media_sha.Telegram.Message.{Message, Metadata, chat_string, build_event_id}
use cross_platform_media_sha.Telegram.Media.{
  SourceLimit, Bot, telegram_notes, telegram_event, subject, forward_file, forward_valid,
  forward_pairings, handle_media,
}

module _ {watched : Option Bytes} ⦃j : Json⦄ (bot : Bot) (http : Remote) (m : Message)
    (x : Metadata) where
  forward_file-IsReady :
      (valid : List Pairing) (url : Result Bytes) (w : Intake)
      → IsReady watched w.store
      → IsReady watched (forward_file bot http m x valid url w).store
  unfolding forward_file
  forward_file-IsReady valid (err e) w h = h
  forward_file-IsReady valid (ok url) w h =
      let hash = hash_or_none (compute_remote_file_hash http url) in
      enqueue_all-IsReady telegram_notes (telegram_event m x url hash) valid w h

  forward_valid-IsReady :
      (p : List Pairing × Intake)
      → IsReady watched p.1.store
      → IsReady watched (forward_valid bot http m x p).store
  unfolding forward_valid
  forward_valid-IsReady ([], w) h = h
  forward_valid-IsReady (p ∷ ps, w) h =
      forward_file-IsReady (p ∷ ps) (bot.get_file_direct_url x.file_id) w h

  module _ ⦃u : Unicode⦄ ⦃r : Regex⦄ where
    forward_pairings-IsReady :
        (w : Intake) (p : Result (List Pairing) × Store)
        → IsReady watched p.1
        → IsReady watched (forward_pairings bot http m x w p).store
    unfolding forward_pairings
    forward_pairings-IsReady w (err e, s) h = h
    forward_pairings-IsReady w (ok ps, s) h =
        forward_valid-IsReady
          (valid_pairings (build_event_id m x.file_id) ps (subject m x) (record w { store = s }))
          (valid_pairings-IsReady (build_event_id m x.file_id) ps (subject m x)
            (record w { store = s }) h)

    -- The Telegram producer leaves the store ready: whatever the message, the answers of the Telegram
    -- server and the refusals of the database, it opens no transaction that it leaves open, and the
    -- queue's invariant holds after it where it held before.
    pub handle_media-IsReady :
        (limit : SourceLimit) (w : Intake)
        → IsReady watched w.store
        → IsReady watched (handle_media bot http m x limit w).store
    unfolding handle_media
    handle_media-IsReady limit w h =
        let key = lit "telegram:" ++ chat_string m in
        let checked = check_rate_limit limit.max limit.window w.source_buckets key (now_of w) in
        let counted : Intake = record w {
          source_buckets = checked.1;
          store = (time_now w.store).1;
        } in
        let load = get_pairings_by_source (lit "telegram") (chat_string m) in
        let h' : IsReady watched counted.store = time_now-IsReady w.store h in
        elim (Bool-cases (is_empty x.file_id)) [
          | inl e ↦ rw e h
          | inr e ↦ rw e (elim (Bool-cases checked.0) [
            | inr q ↦ rw q h'
            | inl q ↦ rw q (
                forward_pairings-IsReady counted (load counted.store)
                  (Changes-IsReady load (Changes-by_source SparesQueue-frame _ _) counted.store h'))
          ])
        ]
