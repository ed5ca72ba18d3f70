-- ===== src/Discord/Keeps.antt =====
-- What the Discord producer keeps, along all its returns.
use cross_platform_media_sha.Base.{
  Bool-cases, inl, inr, List, [], ◌∷◌, Bool, true, false, ◌++◌, ◌||◌, Option, none, some,
}
use cross_platform_media_sha.Text.{Bytes, Unicode, is_empty, lit, same, trim, has_prefix}
use cross_platform_media_sha.Models.{RuleConfig}
use cross_platform_media_sha.Database.Store.{Result, ok, err, Store, time_now}
use cross_platform_media_sha.Database.Pending.{Json}
use cross_platform_media_sha.Database.Pairings.{Pairing}
use cross_platform_media_sha.Database.Listings.{get_pairings_by_source}
use cross_platform_media_sha.Database.Frame.{SparesQueue-frame, Changes-by_source}
use cross_platform_media_sha.Security.RateLimit.{check_rate_limit}
use cross_platform_media_sha.Rules.Filter.{Regex, evaluate_filter_rule}
use cross_platform_media_sha.Rules.Tags.{evaluate_tag_rule}
use cross_platform_media_sha.Producer.{
  Intake, Remote, valid_pairings, due_time, ignore, now_of, blocked,
}
use cross_platform_media_sha.Producer.Sound.{
  IsReady, Changes-IsReady, time_now-IsReady, blocked-IsReady, valid_pairings-IsReady,
  enqueue_event-IsReady, enqueue_all-IsReady,
}
use cross_platform_media_sha.Telegram.Media.{SourceLimit}
use cross_platform_media_sha.Discord.Message.{Author, Attachment, MessageCreate, discord_event_id}
use cross_platform_media_sha.Discord.Media.{
  media_notes, text_notes, attachment_event, text_event, attachment_subject, check_text_tags,
  evaluate_text, forward_attachments, enqueue_text, forward_text, forward_text_only, forward_loaded,
  handle_message_of, handle_message_create, handle_authored,
}

module _ {watched : Option Bytes} ⦃u : Unicode⦄ ⦃r : Regex⦄ (http : Remote) (m : MessageCreate)
    (a : Author) where
  check_text_tags-IsReady :
      (c : RuleConfig) (id : Bytes) (p : Bool × Intake)
      → IsReady watched p.1.store
      → IsReady watched (check_text_tags http m a c id p).1.store
  unfolding check_text_tags
  check_text_tags-IsReady c id (false, w) h = h
  check_text_tags-IsReady c id (true, w) h = elim (Bool-cases (evaluate_tag_rule c m.content)) [
    | inl e ↦ rw e h
    | inr e ↦ rw e (blocked-IsReady id (lit "required tags missing") c.simulation_mode w h)
  ]

  evaluate_text-IsReady :
      (c : RuleConfig) (id : Bytes) (w : Intake)
      → IsReady watched w.store
      → IsReady watched (evaluate_text http m a c id w).1.store
  unfolding evaluate_text
  evaluate_text-IsReady c id w h = elim (Bool-cases (evaluate_filter_rule c m.content a.id)) [
    | inl e ↦ rw e (check_text_tags-IsReady c id (true, w) h)
    | inr e ↦ rw e (
        check_text_tags-IsReady c id (blocked id (lit "filter rule blocked") c.simulation_mode w)
          (blocked-IsReady id (lit "filter rule blocked") c.simulation_mode w h))
  ]

  module _ ⦃j : Json⦄ where
    forward_attachments-IsReady :
        (xs : List Attachment) (ps : List Pairing) (w : Intake)
        → IsReady watched w.store
        → IsReady watched (forward_attachments http m a xs ps w).store
    unfolding forward_attachments
    forward_attachments-IsReady [] ps w h = h
    forward_attachments-IsReady (x ∷ xs) ps w h =
        let p = valid_pairings (discord_event_id m x.id) ps (attachment_subject http m a x) w in
        forward_attachments-IsReady xs ps _ (
          enqueue_all-IsReady media_notes (attachment_event http m a x) p.0 p.1 (
            valid_pairings-IsReady (discord_event_id m x.id) ps (attachment_subject http m a x) w
              h))

    enqueue_text-IsReady :
        (p : Pairing) (v : Bool × Intake)
        → IsReady watched v.1.store
        → IsReady watched (enqueue_text http m a p v).store
    enqueue_text-IsReady p (false, w) h = h
    enqueue_text-IsReady p (true, w) h =
        enqueue_event-IsReady text_notes (text_event http m a p (due_time p.rule_config w))
          (ignore time_now w) (time_now-IsReady w.store h)

    forward_text-IsReady :
        (ps : List Pairing) (w : Intake)
        → IsReady watched w.store
        → IsReady watched (forward_text http m a ps w).store
    unfolding forward_text
    forward_text-IsReady [] w h = h
    forward_text-IsReady (p ∷ ps) w h =
        let id = discord_event_id m (lit "text") p.route.target_id in
        let v = evaluate_text http m a p.rule_config id w in
        forward_text-IsReady ps (enqueue_text http m a p v)
          (enqueue_text-IsReady p v (evaluate_text-IsReady p.rule_config id w h))

    forward_text_only-IsReady :
        (xs : List Attachment) (ps : List Pairing) (w : Intake)
        → IsReady watched w.store
        → IsReady watched (forward_text_only http m a xs ps w).store
    forward_text_only-IsReady (x ∷ xs) ps w h = h
    forward_text_only-IsReady [] ps w h = elim (Bool-cases (is_empty (trim m.content))) [
      | inl e ↦ rw e h
      | inr e ↦ rw e (forward_text-IsReady ps w h)
    ]

    forward_loaded-IsReady :
        (w : Intake) (p : Result (List Pairing) × Store)
        → IsReady watched p.1
        → IsReady watched (forward_loaded http m a w p).store
    forward_loaded-IsReady w (err e, s) h = h
    forward_loaded-IsReady w (ok ps, s) h =
        forward_text_only-IsReady m.attachments ps
          (forward_attachments http m a m.attachments ps (record w { store = s }))
          (forward_attachments-IsReady m.attachments ps (record w { store = s }) h)

    handle_message_of-IsReady :
        (bot_id : Bytes) (limit : SourceLimit) (w : Intake)
        → IsReady watched w.store
        → IsReady watched (handle_message_of http m a bot_id limit w).store
    unfolding handle_message_of
    handle_message_of-IsReady bot_id limit w h =
        let key = lit "discord:" ++ m.channel_id in
        let checked = check_rate_limit limit.max limit.window w.source_buckets key (now_of w) in
        let counted : Intake = record w {
          source_buckets = checked.1;
          store = (time_now w.store).1;
        } in
        let load = get_pairings_by_source (lit "discord") m.channel_id in
        let h' : IsReady watched counted.store = time_now-IsReady w.store h in
        elim (Bool-cases (same a.id bot_id || has_prefix m.content (lit "!"))) [
          | inl e ↦ rw e h
          | inr e ↦ rw e (elim (Bool-cases checked.0) [
            | inr q ↦ rw q h'
            | inl q ↦ rw q (
                forward_loaded-IsReady counted (load counted.store)
                  (Changes-IsReady load (Changes-by_source SparesQueue-frame _ _) counted.store h'))
          ])
        ]

module _ {watched : Option Bytes} ⦃u : Unicode⦄ ⦃r : Regex⦄ ⦃j : Json⦄ (http : Remote)
    (m : MessageCreate) where
  handle_authored-IsReady :
      (a : Option Author) (bot_id : Bytes) (limit : SourceLimit) (w : Intake)
      → IsReady watched w.store
      → IsReady watched (handle_authored http m a bot_id limit w).store
  handle_authored-IsReady none bot_id limit w h = h
  handle_authored-IsReady (some a) bot_id limit w h =
      handle_message_of-IsReady http m a bot_id limit w h

  -- The Discord producer leaves the store ready: whatever the message, its author and attachments,
  -- the answers of the HTTP server and the refusals of the database, it opens no transaction that it
  -- leaves open, and the queue's invariant holds after it where it held before.
  pub handle_message_create-IsReady :
      (bot_id : Bytes) (limit : SourceLimit) (w : Intake)
      → IsReady watched w.store
      → IsReady watched (handle_message_create http m bot_id limit w).store
  unfolding handle_message_create
  handle_message_create-IsReady bot_id limit w h = handle_authored-IsReady m.author bot_id limit w h
