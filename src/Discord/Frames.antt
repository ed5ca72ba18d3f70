-- ===== src/Discord/Frames.antt =====
-- The frames of the commands of the Discord bot: they read, or they spare the queue, or they replay a
-- dead letter.
use cross_platform_media_sha.Base.{ℕ, Bool, true, false, Option, none, some, List, [], ◌∷◌}
use cross_platform_media_sha.Text.{Bytes, Unicode, lit, trim, is_empty, split_n}
use cross_platform_media_sha.Models.{Route}
use cross_platform_media_sha.Database.Rows.{Db}
use cross_platform_media_sha.Database.Store.{Result, ok, err, ◌>>◌}
use cross_platform_media_sha.Database.Pending.{Json}
use cross_platform_media_sha.Database.Pairings.{Pairing}
use cross_platform_media_sha.Database.Listings.{list_dead_letters_by_target, list_audit_logs}
use cross_platform_media_sha.Database.Frame.{
  IsFrame, Changes, Changes-pure, Changes-ask, Changes-then, Changes-if, Changes-query,
  Changes-by_target, SparesQueue, SparesQueue-frame,
}
use cross_platform_media_sha.Database.Frames.{
  Spares-insert_audit_log, Spares-link_channel, Spares-unlink_channel, Spares-remove_blocked_word,
  Spares-clear_blocked_words,
}
use cross_platform_media_sha.Discord.Replies.{
  say, argument, has_more, limit_of, resolve_pairing_for_channel, status_text, blocklist_text,
  dead_letters_text, audit_text, language_of, help_text, handle_status_command,
  handle_blocklist_command, handle_dead_letters_command, handle_audit_log_command,
  handle_help_command,
}
use cross_platform_media_sha.Discord.Commands.{
  audit, to_channel, only_argument, join_answer, join_source, handle_join_command, unlink_answer,
  unlink_source, handle_unlink_command, unblock_answer, unblock_word, unblock_linked,
  unblock_arguments, handle_unblock_command, parse_unblock_command, source_platform_of, arguments,
  clear_answer, clear_resolved, clear_linked, handle_clear_blocks_command, set_rule_parts,
  handle_set_rule_command,
}

-- reading commands, in any frame
module _ {R : Db → Db → Type 0} (o : IsFrame R) where
  pub Changes-dead_letters :
      (channel : Bytes) (parts : List Bytes) → Changes R (handle_dead_letters_command channel parts)
  unfolding handle_dead_letters_command list_dead_letters_by_target
  Changes-dead_letters channel parts = Changes-if (has_more parts) _ _ (Changes-pure o _) (
      Changes-ask o (list_dead_letters_by_target (lit "discord") channel (limit_of 5 parts)) _
        (Changes-query o _) λ r. Changes-pure o (some (dead_letters_text r)))

  pub Changes-audit_log :
      (format : ℕ → Bytes) (parts : List Bytes) → Changes R (handle_audit_log_command format parts)
  unfolding handle_audit_log_command list_audit_logs
  Changes-audit_log format parts = Changes-if (has_more parts) _ _ (Changes-pure o _) (
      Changes-ask o (list_audit_logs (limit_of 10 parts)) _ (Changes-query o _)
        λ r. Changes-pure o (some (audit_text format r)))

  module _ ⦃j : Json⦄ where
    pub Changes-status :
        (channel : Bytes) (parts : List Bytes) → Changes R (handle_status_command channel parts)
    unfolding handle_status_command
    Changes-status channel parts = Changes-if (has_more parts) _ _ (Changes-pure o _) (
        Changes-ask o _ _ (Changes-by_target o (lit "discord") channel)
          λ r. Changes-pure o (some (status_text parts r)))

    pub Changes-blocklist :
        (channel : Bytes) (parts : List Bytes) → Changes R (handle_blocklist_command channel parts)
    unfolding handle_blocklist_command
    Changes-blocklist channel parts = Changes-if (has_more parts) _ _ (Changes-pure o _) (
        Changes-ask o _ _ (Changes-by_target o (lit "discord") channel)
          λ r. Changes-pure o (some (blocklist_text parts r)))

    pub Changes-help : ⦃u : Unicode⦄ (channel : Bytes) → Changes R (handle_help_command channel)
    unfolding handle_help_command
    Changes-help channel =
        Changes-ask o _ _ (Changes-by_target o (lit "discord") channel)
          λ r. Changes-pure o (some (help_text (language_of r)))

abbrev frame : IsFrame SparesQueue
frame = SparesQueue-frame

-- an entry of the audit log, then a reply
Spares-audited :
    (action actor details text : Bytes)
    → Changes SparesQueue (audit action actor details >> say text)
Spares-audited action actor details text =
    Changes-then frame _ _ (Spares-insert_audit_log action (lit "discord") actor details)
      (Changes-pure frame _)

Spares-join_answer :
    (channel actor id : Bytes) (r : Result (Unit {0}))
    → Changes SparesQueue (join_answer channel actor id r)
Spares-join_answer channel actor id (err e) = Changes-pure frame _
Spares-join_answer channel actor id (ok tt) = Spares-audited _ _ _ _

Spares-join_source :
    (channel actor : Bytes) (id : Option Bytes) → Changes SparesQueue (join_source channel actor id)
Spares-join_source channel actor none = Changes-pure frame _
Spares-join_source channel actor (some id) =
    Changes-ask frame _ (join_answer channel actor id)
      (Spares-link_channel (to_channel (lit "telegram") id channel) [])
      λ r. Spares-join_answer channel actor id r

pub Spares-join :
    (channel actor : Bytes) (parts : List Bytes)
    → Changes SparesQueue (handle_join_command channel actor parts)
unfolding handle_join_command
Spares-join channel actor parts = Spares-join_source channel actor (only_argument parts)

Spares-unlink_answer :
    (channel actor id : Bytes) (r : Result Bool)
    → Changes SparesQueue (unlink_answer channel actor id r)
Spares-unlink_answer channel actor id (err e) = Changes-pure frame _
Spares-unlink_answer channel actor id (ok false) = Changes-pure frame _
Spares-unlink_answer channel actor id (ok true) = Spares-audited _ _ _ _

Spares-unlink_source :
    (channel actor : Bytes) (id : Option Bytes)
    → Changes SparesQueue (unlink_source channel actor id)
Spares-unlink_source channel actor none = Changes-pure frame _
Spares-unlink_source channel actor (some id) =
    Changes-ask frame _ (unlink_answer channel actor id)
      (Spares-unlink_channel (to_channel (lit "telegram") id channel))
      λ r. Spares-unlink_answer channel actor id r

pub Spares-unlink :
    (channel actor : Bytes) (parts : List Bytes)
    → Changes SparesQueue (handle_unlink_command channel actor parts)
unfolding handle_unlink_command
Spares-unlink channel actor parts = Spares-unlink_source channel actor (only_argument parts)

Spares-unblock_answer :
    (route : Route) (actor word : Bytes) (r : Result Bool)
    → Changes SparesQueue (unblock_answer route actor word r)
Spares-unblock_answer route actor word (err e) = Changes-pure frame _
Spares-unblock_answer route actor word (ok false) = Changes-pure frame _
Spares-unblock_answer route actor word (ok true) = Spares-audited _ _ _ _

module _ ⦃j : Json⦄ ⦃u : Unicode⦄ where
  Spares-unblock_word :
      (channel actor : Bytes) (ps : List Pairing) (id word : Bytes)
      → Changes SparesQueue (unblock_word channel actor ps (id, word))
  Spares-unblock_word channel actor ps id word =
      let route = to_channel (source_platform_of id ps) id channel in
      Changes-if (is_empty id) _ _ (Changes-pure frame _) (
        Changes-ask frame _ (unblock_answer route actor word)
          (Spares-remove_blocked_word route word) λ r. Spares-unblock_answer route actor word r)

  Spares-unblock_linked :
      (channel actor : Bytes) (parts : List Bytes) (r : Result (List Pairing))
      → Changes SparesQueue (unblock_linked channel actor parts r)
  Spares-unblock_linked channel actor parts (err e) = Changes-pure frame _
  Spares-unblock_linked channel actor parts (ok []) = Changes-pure frame _
  Spares-unblock_linked channel actor parts (ok (p ∷ ps)) =
      let parsed = parse_unblock_command (p ∷ ps) (arguments parts) in
      Spares-unblock_word channel actor (p ∷ ps) parsed.0 parsed.1

  Spares-unblock_arguments :
      (channel actor : Bytes) (parts args : List Bytes)
      → Changes SparesQueue (unblock_arguments channel actor parts args)
  Spares-unblock_arguments channel actor parts [] = Changes-pure frame _
  Spares-unblock_arguments channel actor parts (a ∷ args) =
      Changes-ask frame _ (unblock_linked channel actor parts)
        (Changes-by_target frame (lit "discord") channel)
        λ r. Spares-unblock_linked channel actor parts r

  pub Spares-unblock :
      (channel actor : Bytes) (parts : List Bytes)
      → Changes SparesQueue (handle_unblock_command channel actor parts)
  unfolding handle_unblock_command
  Spares-unblock channel actor parts =
      Spares-unblock_arguments channel actor parts (arguments parts)

Spares-clear_answer :
    (route : Route) (actor : Bytes) (r : Result (Unit {0}))
    → Changes SparesQueue (clear_answer route actor r)
Spares-clear_answer route actor (err e) = Changes-pure frame _
Spares-clear_answer route actor (ok tt) = Spares-audited _ _ _ _

Spares-clear_resolved :
    (channel actor : Bytes) (p : Result Pairing)
    → Changes SparesQueue (clear_resolved channel actor p)
Spares-clear_resolved channel actor (err m) = Changes-pure frame _
Spares-clear_resolved channel actor (ok p) =
    let route = to_channel p.route.source_platform p.route.source_id channel in
    Changes-ask frame _ (clear_answer route actor) (Spares-clear_blocked_words route)
      λ r. Spares-clear_answer route actor r

Spares-clear_linked :
    (channel actor : Bytes) (parts : List Bytes) (r : Result (List Pairing))
    → Changes SparesQueue (clear_linked channel actor parts r)
Spares-clear_linked channel actor parts (err e) = Changes-pure frame _
Spares-clear_linked channel actor parts (ok []) = Changes-pure frame _
Spares-clear_linked channel actor parts (ok (p ∷ ps)) =
    Spares-clear_resolved channel actor (resolve_pairing_for_channel (p ∷ ps) (argument parts))

pub Spares-clear :
    ⦃j : Json⦄ (channel actor : Bytes) (parts : List Bytes)
    → Changes SparesQueue (handle_clear_blocks_command channel actor parts)
unfolding handle_clear_blocks_command
Spares-clear channel actor parts = Changes-if (has_more parts) _ _ (Changes-pure frame _) (
    Changes-ask frame _ (clear_linked channel actor parts)
      (Changes-by_target frame (lit "discord") channel)
      λ r. Spares-clear_linked channel actor parts r)

Spares-set_rule_parts :
    (channel actor : Bytes) (parts : List Bytes)
    → Changes SparesQueue (set_rule_parts channel actor parts)
Spares-set_rule_parts channel actor [] = Changes-pure frame _
Spares-set_rule_parts channel actor (a ∷ []) = Changes-pure frame _
Spares-set_rule_parts channel actor (a ∷ b ∷ []) = Changes-pure frame _
Spares-set_rule_parts channel actor (a ∷ b ∷ c ∷ rest) = Spares-audited _ _ _ _

pub Spares-set_rule :
    (channel actor content : Bytes)
    → Changes SparesQueue (handle_set_rule_command channel actor content)
unfolding handle_set_rule_command
Spares-set_rule channel actor content =
    Spares-set_rule_parts channel actor (split_n 2 (trim content) b' ' [])
