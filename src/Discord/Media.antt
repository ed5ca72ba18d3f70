-- ===== src/Discord/Media.antt =====
-- The Discord producer: a message in a channel that is a source.
use cross_platform_media_sha.Base.{
  ℕ, Bool, true, false, not, ◌||◌, Option, none, some, List, [], ◌∷◌, ◌++◌, if◌then◌else◌,
}
use cross_platform_media_sha.Text.{Bytes, Unicode, lit, same, trim, has_prefix, is_empty}
use cross_platform_media_sha.Models.{MediaEvent, RuleConfig, media_type_document}
use cross_platform_media_sha.Database.Store.{Result, ok, err, Store, time_now}
use cross_platform_media_sha.Database.Pending.{Json}
use cross_platform_media_sha.Database.Pairings.{Pairing}
use cross_platform_media_sha.Database.Listings.{get_pairings_by_source}
use cross_platform_media_sha.Security.RateLimit.{check_rate_limit}
use cross_platform_media_sha.Rules.Filter.{Regex, evaluate_filter_rule}
use cross_platform_media_sha.Rules.Tags.{evaluate_tag_rule}
use cross_platform_media_sha.Producer.{
  Intake, Remote, Subject, Notes, ignore, now_of, blocked, due_time, compute_remote_file_hash,
  hash_or_none, valid_pairings, enqueue_event, enqueue_all,
}
use cross_platform_media_sha.Telegram.Media.{SourceLimit}
use cross_platform_media_sha.Discord.Message.{
  Author, Attachment, MessageCreate, get_media_type, sender_name, discord_event_id,
}

abbrev pub media_notes : Notes
media_notes = record {
  accepted = lit "event added to processing queue";
  duplicate = lit "duplicate event detected";
  notes_errors = true;
}

abbrev pub text_notes : Notes
text_notes = record {
  accepted = lit "text event added to processing queue";
  duplicate = lit "duplicate text event detected";
  notes_errors = true;
}

module _ (http : Remote) (m : MessageCreate) (a : Author) where
  unfoldable pub attachment_event : Attachment → Pairing → ℕ → MediaEvent
  unfolding get_media_type compute_remote_file_hash
  attachment_event x p available_at = record {
    event_id = discord_event_id m x.id p.route.target_id;
    file_name = x.file_name;
    file_hash = hash_or_none (compute_remote_file_hash http x.url);
    caption = m.content;
    source_platform = lit "discord";
    source_id = m.channel_id;
    target_platform = p.route.target_platform;
    target_id = p.route.target_id;
    media_group_id = [];
    media_type = get_media_type x.content_type;
    content_type = x.content_type;
    available_at = available_at;
    sender_name = sender_name a m.member;
    reply_to_sender = [];
    reply_to_caption = [];
    file_url = x.url;
  }

  unfoldable pub text_event : Pairing → ℕ → MediaEvent
  text_event p available_at = record {
    event_id = discord_event_id m (lit "text") p.route.target_id;
    file_name = [];
    file_hash = [];
    caption = m.content;
    source_platform = lit "discord";
    source_id = m.channel_id;
    target_platform = p.route.target_platform;
    target_id = p.route.target_id;
    media_group_id = [];
    media_type = media_type_document;
    content_type = [];
    available_at = available_at;
    sender_name = sender_name a m.member;
    reply_to_sender = [];
    reply_to_caption = [];
    file_url = [];
  }

  abbrev pub attachment_subject : Attachment → Subject
  attachment_subject x = record {
    caption = m.content;
    sender_id = a.id;
    source_id = m.channel_id;
    file_size = x.size;
    content_type = x.content_type;
  }

  module _ ⦃u : Unicode⦄ ⦃r : Regex⦄ where
    unfoldable pub check_text_tags : RuleConfig → Bytes → Bool × Intake → Bool × Intake
    unfolding evaluate_tag_rule
    check_text_tags rules event_id (false, w) = (false, w)
    check_text_tags rules event_id (true, w) =
        if not (evaluate_tag_rule rules m.content)
        then blocked event_id (lit "required tags missing") rules.simulation_mode w
        else (true, w)

    -- the rules for a text: the filter, then the tags, also where the filter was simulated
    unfoldable pub evaluate_text : RuleConfig → Bytes → Intake → Bool × Intake
    unfolding evaluate_filter_rule check_text_tags
    evaluate_text rules event_id w = check_text_tags rules event_id (
        if not (evaluate_filter_rule rules m.content a.id)
        then blocked event_id (lit "filter rule blocked") rules.simulation_mode w
        else (true, w))

    module _ ⦃j : Json⦄ where
      unfoldable pub forward_attachments : List Attachment → List Pairing → Intake → Intake
      unfolding valid_pairings enqueue_all attachment_event
      forward_attachments [] ps w = w
      forward_attachments (x ∷ xs) ps w =
          let (valid, w') = valid_pairings (discord_event_id m x.id) ps (attachment_subject x) w in
          forward_attachments xs ps (enqueue_all media_notes (attachment_event x) valid w')

      abbrev pub enqueue_text : Pairing → Bool × Intake → Intake
      enqueue_text p (false, w) = w
      enqueue_text p (true, w) =
          enqueue_event text_notes (text_event p (due_time p.rule_config w)) (ignore time_now w)

      unfoldable pub forward_text : List Pairing → Intake → Intake
      unfolding evaluate_text enqueue_event text_event due_time
      forward_text [] w = w
      forward_text (p ∷ ps) w =
          let event_id = discord_event_id m (lit "text") p.route.target_id in
          forward_text ps (enqueue_text p (evaluate_text p.rule_config event_id w))

      -- the text is forwarded where there is no attachment
      abbrev pub forward_text_only : List Attachment → List Pairing → Intake → Intake
      forward_text_only (x ∷ xs) ps w = w
      forward_text_only [] ps w = if is_empty (trim m.content) then w else forward_text ps w

      abbrev pub forward_loaded : Intake → Result (List Pairing) × Store → Intake
      forward_loaded w (err e, s) = record w { store = s }
      forward_loaded w (ok ps, s) =
          forward_text_only m.attachments ps
            (forward_attachments m.attachments ps (record w { store = s }))

      unfoldable pub handle_message_of : Bytes → SourceLimit → Intake → Intake
      unfolding forward_attachments forward_text check_rate_limit get_pairings_by_source has_prefix
      handle_message_of bot_id limit w =
          let key = lit "discord:" ++ m.channel_id in
          let checked = check_rate_limit limit.max limit.window w.source_buckets key (now_of w) in
          let counted : Intake = record w {
            source_buckets = checked.1;
            store = (time_now w.store).1;
          } in
          if same a.id bot_id || has_prefix m.content (lit "!")
          then w
          else if not checked.0
          then counted
          else forward_loaded counted
              (get_pairings_by_source (lit "discord") m.channel_id counted.store)

module _ ⦃u : Unicode⦄ ⦃r : Regex⦄ ⦃j : Json⦄ (http : Remote) (m : MessageCreate) where
  abbrev pub handle_authored : Option Author → Bytes → SourceLimit → Intake → Intake
  handle_authored none bot_id limit w = w
  handle_authored (some a) bot_id limit w = handle_message_of http m a bot_id limit w

  unfoldable pub handle_message_create : Bytes → SourceLimit → Intake → Intake
  unfolding handle_message_of
  handle_message_create bot_id limit w = handle_authored m.author bot_id limit w
