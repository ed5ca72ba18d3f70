-- ===== src/Telegram/Media.antt =====
-- The loop body of the Telegram producer for a message with a file.
use cross_platform_media_sha.Base.{ℕ, false, not, List, [], ◌∷◌, ◌++◌, if◌then◌else◌}
use cross_platform_media_sha.Text.{Bytes, Unicode, lit, is_empty}
use cross_platform_media_sha.Models.{MediaEvent}
use cross_platform_media_sha.Database.Store.{Result, ok, err, Store, time_now}
use cross_platform_media_sha.Database.Pending.{Json}
use cross_platform_media_sha.Database.Pairings.{Pairing}
use cross_platform_media_sha.Database.Listings.{get_pairings_by_source}
use cross_platform_media_sha.Security.RateLimit.{check_rate_limit}
use cross_platform_media_sha.Rules.Filter.{Regex}
use cross_platform_media_sha.Producer.{
  Intake, Remote, Subject, Notes, now_of, compute_remote_file_hash, hash_or_none, valid_pairings,
  enqueue_all,
}
use cross_platform_media_sha.Telegram.Message.{
  Message, Metadata, chat_string, build_event_id, user_id, name_of, reply_sender, reply_caption,
}

-- RATE_LIMIT_SOURCE_MAX and RATE_LIMIT_SOURCE_WINDOW_SECONDS, the latter in nanoseconds
pub record SourceLimit : Type 0 where
  pub max : ℕ
  pub window : ℕ

-- the Telegram server: GetFileDirectURL
pub record Bot : Type 0 where
  pub get_file_direct_url : Bytes → Result Bytes

abbrev pub telegram_notes : Notes
telegram_notes = record {
  accepted = lit "event added to processing queue";
  duplicate = lit "duplicate event detected";
  notes_errors = false;
}

unfoldable pub telegram_event : Message → Metadata → Bytes → Bytes → Pairing → ℕ → MediaEvent
unfolding build_event_id chat_string
telegram_event m x url hash p available_at = record {
  event_id = build_event_id m x.file_id p.route.target_id;
  file_name = x.file_name;
  file_hash = hash;
  caption = m.caption;
  source_platform = lit "telegram";
  source_id = chat_string m;
  target_platform = p.route.target_platform;
  target_id = p.route.target_id;
  media_group_id = m.media_group_id;
  media_type = x.media_type;
  content_type = x.content_type;
  available_at = available_at;
  sender_name = name_of m.from;
  reply_to_sender = reply_sender m.reply_to_message;
  reply_to_caption = reply_caption m.reply_to_message;
  file_url = url;
}

abbrev pub subject : Message → Metadata → Subject
subject m x = record {
  caption = m.caption;
  sender_id = user_id m.from;
  source_id = chat_string m;
  file_size = x.file_size;
  content_type = x.content_type;
}

module _ ⦃j : Json⦄ (bot : Bot) (http : Remote) (m : Message) (x : Metadata) where
  -- with the URL of the file
  unfoldable pub forward_file : List Pairing → Result Bytes → Intake → Intake
  unfolding enqueue_all telegram_event compute_remote_file_hash
  forward_file valid (err e) w = w
  forward_file valid (ok url) w =
      let hash = hash_or_none (compute_remote_file_hash http url) in
      enqueue_all telegram_notes (telegram_event m x url hash) valid w

  -- with the pairings that the rules have left
  unfoldable pub forward_valid : List Pairing × Intake → Intake
  unfolding forward_file
  forward_valid ([], w) = w
  forward_valid (p ∷ ps, w) = forward_file (p ∷ ps) (bot.get_file_direct_url x.file_id) w

  module _ ⦃u : Unicode⦄ ⦃r : Regex⦄ where
    -- with the pairings of the chat
    unfoldable pub forward_pairings : Intake → Result (List Pairing) × Store → Intake
    unfolding forward_valid valid_pairings
    forward_pairings w (err e, s) = record w { store = s }
    forward_pairings w (ok pairings, s) = forward_valid (
        valid_pairings (build_event_id m x.file_id) pairings (subject m x) (record w { store = s }))

    -- a message that is no command
    unfoldable pub handle_media : SourceLimit → Intake → Intake
    unfolding forward_pairings check_rate_limit
    handle_media limit w =
        let checked =
          check_rate_limit limit.max limit.window w.source_buckets
            (lit "telegram:" ++ chat_string m) (now_of w) in
        let counted : Intake = record w {
          source_buckets = checked.1;
          store = (time_now w.store).1;
        } in
        if is_empty x.file_id
        then w
        else if not checked.0
        then counted
        else forward_pairings counted
            (get_pairings_by_source (lit "telegram") (chat_string m) counted.store)
