-- ===== src/Database/Frames.antt =====
-- The calls of internal/database that spare the tables of the queue.
use cross_platform_media_sha.Base.{ℕ, suc, List, [], ◌∷◌, arith}
use cross_platform_media_sha.Text.{Bytes, Unicode}
use cross_platform_media_sha.Models.{MediaEvent, RuleConfig, Route, route_eq}
use cross_platform_media_sha.Database.Pending.{Json}
use cross_platform_media_sha.Database.Pairings.{
  Pairing, link_channel, unlink_channel, update_rule_config, add_blocked_word, remove_blocked_word,
  clear_blocked_words, insert_event_history,
}
use cross_platform_media_sha.Database.Listings.{insert_audit_log}
use cross_platform_media_sha.Database.Targets.{
  add_to_linked, add_to_all, add_blocked_word_for_all_targets, remove_blocked_word_from_all_targets,
  clear_blocked_words_for_all_targets,
}
use cross_platform_media_sha.Database.Delivery.{no_rows}
use cross_platform_media_sha.Database.Digests.{add_digest_event, delete_digest_events_for_group}
use cross_platform_media_sha.Database.Frame.{
  Changes, SparesQueue, SparesQueue-frame, Changes-bind, Changes-pure, Changes-fail,
  Changes-by_source,
}

pub Spares-insert_event_history :
    (id status details : Bytes) → Changes SparesQueue (insert_event_history id status details)
unfolding insert_event_history
Spares-insert_event_history id status details = record {
  within = λ s. ground arith;
  same_tx = λ s. ground arith;
}

pub Spares-insert_audit_log :
    (action platform id details : Bytes)
    → Changes SparesQueue (insert_audit_log action platform id details)
unfolding insert_audit_log
Spares-insert_audit_log action platform id details = record {
  within = λ s. ground arith;
  same_tx = λ s. ground arith;
}

pub Spares-link_channel : (r : Route) (secret : Bytes) → Changes SparesQueue (link_channel r secret)
unfolding link_channel
Spares-link_channel r secret = record { within = λ s. ground arith; same_tx = λ s. ground arith }

pub Spares-unlink_channel : (r : Route) → Changes SparesQueue (unlink_channel r)
unfolding unlink_channel
Spares-unlink_channel r = record { within = λ s. ground arith; same_tx = λ s. ground arith }

pub Spares-update_rule_config :
    ⦃j : Json⦄ (r : Route) (c : RuleConfig) → Changes SparesQueue (update_rule_config r c)
unfolding update_rule_config
Spares-update_rule_config r c = record { within = λ s. ground arith; same_tx = λ s. ground arith }

pub Spares-add_blocked_word :
    ⦃u : Unicode⦄ (r : Route) (w : Bytes) → Changes SparesQueue (add_blocked_word r w)
unfolding add_blocked_word
Spares-add_blocked_word r w = record { within = λ s. ground arith; same_tx = λ s. ground arith }

pub Spares-remove_blocked_word :
    ⦃u : Unicode⦄ (r : Route) (w : Bytes) → Changes SparesQueue (remove_blocked_word r w)
unfolding remove_blocked_word
Spares-remove_blocked_word r w = record { within = λ s. ground arith; same_tx = λ s. ground arith }

pub Spares-clear_blocked_words : (r : Route) → Changes SparesQueue (clear_blocked_words r)
unfolding clear_blocked_words
Spares-clear_blocked_words r = record { within = λ s. ground arith; same_tx = λ s. ground arith }

pub Spares-remove_blocked_word_from_all_targets :
    ⦃u : Unicode⦄ (platform id w : Bytes)
    → Changes SparesQueue (remove_blocked_word_from_all_targets platform id w)
unfolding remove_blocked_word_from_all_targets
Spares-remove_blocked_word_from_all_targets platform id w = record {
  within = λ s. ground arith;
  same_tx = λ s. ground arith;
}

pub Spares-clear_blocked_words_for_all_targets :
    (platform id : Bytes) → Changes SparesQueue (clear_blocked_words_for_all_targets platform id)
unfolding clear_blocked_words_for_all_targets
Spares-clear_blocked_words_for_all_targets platform id = record {
  within = λ s. ground arith;
  same_tx = λ s. ground arith;
}

pub Spares-add_digest_event : (e : MediaEvent) (t : ℕ) → Changes SparesQueue (add_digest_event e t)
unfolding add_digest_event
Spares-add_digest_event e t = record { within = λ s. ground arith; same_tx = λ s. ground arith }

pub Spares-delete_digest_events_for_group :
    (r : Route) (cutoff : ℕ) → Changes SparesQueue (delete_digest_events_for_group r cutoff)
unfolding delete_digest_events_for_group
Spares-delete_digest_events_for_group r cutoff = record {
  within = λ s. ground arith;
  same_tx = λ s. ground arith;
}

module _ ⦃j : Json⦄ ⦃u : Unicode⦄ where
  Spares-add_to_all :
      (platform id : Bytes) (ps : List Pairing) (w : Bytes) (n : ℕ)
      → Changes SparesQueue (add_to_all platform id ps w n)
  unfolding add_to_all
  Spares-add_to_all platform id [] w n = Changes-pure SparesQueue-frame n
  Spares-add_to_all platform id (p ∷ ps) w n =
      Changes-bind SparesQueue-frame _ _
        (Spares-add_blocked_word (record p.route { source_platform = platform; source_id = id }) w)
        λ _. Spares-add_to_all platform id ps w (suc n)

  Spares-add_to_linked :
      (platform id : Bytes) (ps : List Pairing) (w : Bytes)
      → Changes SparesQueue (add_to_linked platform id ps w)
  Spares-add_to_linked platform id [] w = Changes-fail SparesQueue-frame no_rows
  Spares-add_to_linked platform id (p ∷ ps) w = Spares-add_to_all platform id (p ∷ ps) w 0

  pub Spares-add_blocked_word_for_all_targets :
      (platform id w : Bytes) → Changes SparesQueue (add_blocked_word_for_all_targets platform id w)
  unfolding add_blocked_word_for_all_targets
  Spares-add_blocked_word_for_all_targets platform id w =
      Changes-bind SparesQueue-frame _ _ (Changes-by_source SparesQueue-frame platform id)
        λ ps. Spares-add_to_linked platform id ps w
