-- ===== src/Telegram/Dispatch.antt =====
-- The commands of the Telegram bot that change blocked words and rules, and the choice of a command.
use cross_platform_media_sha.Base.{ℕ, Bool, not, ◌||◌, List, [], ◌∷◌, ◌++◌, if◌then◌else◌}
use cross_platform_media_sha.Text.{
  Bytes, Unicode, lit, trim, same, is_empty, to_lower, split_n, decimal, replace_all, trim_prefix,
  trim_suffix,
}
use cross_platform_media_sha.Models.{RuleConfig}
use cross_platform_media_sha.Database.Store.{Result, ok, err, Exec, pure, ◌>>=◌, ◌>>◌}
use cross_platform_media_sha.Database.Pending.{Json}
use cross_platform_media_sha.Database.Pairings.{
  Pairing, add_blocked_word, remove_blocked_word, update_rule_config,
}
use cross_platform_media_sha.Database.Listings.{get_pairings_by_source, insert_audit_log}
use cross_platform_media_sha.Database.Targets.{
  add_blocked_word_for_all_targets, remove_blocked_word_from_all_targets,
}
use cross_platform_media_sha.Database.Export.{attempt}
use cross_platform_media_sha.I18n.{get}
use cross_platform_media_sha.Telegram.Message.{Message, chat_string, user_id}
use cross_platform_media_sha.Telegram.Commands.{
  Reply, say, info, markdown, or_none, count_or_zero, audit, route_to, link_text, platform_of,
  resolve_optional_target_arg, is_authorized_telegram_user, handle_status_command,
  handle_blocklist_command, handle_clear_blocks_command,
}

-- json.Unmarshal into a RuleConfig
pub record RulesParser : Type 0 where
  pub unmarshal_rules : Bytes → Result RuleConfig

module _ ⦃j : Json⦄ ⦃u : Unicode⦄ where
  -- what follows the statement that adds a word to one target
  abbrev pub block_target_answer :
      Bytes → Bytes → Bytes → List Pairing → Bytes → Result (Unit {0}) → Exec Reply
  block_target_answer chat actor target ps word (err e) = say (lit "❌ Failed to update block list.")
  block_target_answer chat actor target ps word (ok tt) =
      audit (lit "block") actor
        (lit "added '" ++ word ++ lit "' to " ++ link_text (route_to chat target ps))
      >> say (lit "✅ Added to block list for `" ++ target ++ lit "`: `" ++ word ++ lit "`")

  abbrev pub block_all_answer : Bytes → Bytes → Bytes → Result ℕ → Exec Reply
  block_all_answer chat actor word (err e) = say (lit "❌ Failed to update block list.")
  block_all_answer chat actor word (ok n) =
      audit (lit "block") actor (
        lit "added '"
        ++ word
        ++ lit "' to all targets of telegram:"
        ++ chat
        ++ lit " ("
        ++ decimal n
        ++ lit " targets)")
      >> say (
          lit "✅ Added to block list for "
          ++ decimal n
          ++ lit " linked target(s): `"
          ++ word
          ++ lit "`")

  abbrev pub block_word : Bytes → Bytes → List Pairing → Bytes × Bytes → Exec Reply
  block_word chat actor ps (target, word) =
      if is_empty (trim word)
      then say (lit "Usage: /block <word> or /block <target_id> <word>")
      else if not (is_empty target)
      then attempt (add_blocked_word (route_to chat target ps) word)
        >>= block_target_answer chat actor target ps word
      else attempt (add_blocked_word_for_all_targets (lit "telegram") chat word)
        >>= block_all_answer chat actor word

  abbrev pub block_loaded : Bytes → Bytes → Bytes → Result (List Pairing) → Exec Reply
  block_loaded chat args actor (err e) = say (lit "❌ Failed to load links for /block.")
  block_loaded chat args actor (ok []) = say (lit "❌ This chat is not linked yet.")
  block_loaded chat args actor (ok (p ∷ ps)) =
      block_word chat actor (p ∷ ps) (resolve_optional_target_arg args (p ∷ ps))

  unfoldable pub handle_block_command : Bytes → Bytes → Bytes → Exec Reply
  unfolding get_pairings_by_source add_blocked_word add_blocked_word_for_all_targets platform_of
      resolve_optional_target_arg insert_audit_log
  handle_block_command chat args actor =
      attempt (get_pairings_by_source (lit "telegram") chat) >>= block_loaded chat args actor

  abbrev pub unblock_all_answer : Bytes → Bytes → Bytes → Result ℕ → Exec Reply
  unblock_all_answer chat actor word removed =
      let n = decimal (count_or_zero removed) in
      audit (lit "unblock") actor (
        lit "removed '"
        ++ word
        ++ lit "' from all targets of telegram:"
        ++ chat
        ++ lit " ("
        ++ n
        ++ lit " targets)")
      >> say (lit "✅ Removed `" ++ word ++ lit "` from " ++ n ++ lit " linked target(s).")

  abbrev pub unblock_word : Bytes → Bytes → List Pairing → Bytes × Bytes → Exec Reply
  unblock_word chat actor ps (target, word) =
      if is_empty (trim word)
      then say (lit "Usage: /unblock <word> or /unblock <target_id> <word>")
      else if not (is_empty target)
      then attempt (remove_blocked_word (route_to chat target ps) word)
        >> (audit (lit "unblock") actor
              (lit "removed '" ++ word ++ lit "' from " ++ link_text (route_to chat target ps))
            >> say (lit "✅ Removed `" ++ word ++ lit "` from `" ++ target ++ lit "`."))
      else attempt (remove_blocked_word_from_all_targets (lit "telegram") chat word)
        >>= unblock_all_answer chat actor word

  abbrev pub unblock_loaded : Bytes → Bytes → Bytes → List Pairing → Exec Reply
  unblock_loaded chat args actor [] = say (info ++ lit " No linked targets found.")
  unblock_loaded chat args actor (p ∷ ps) =
      unblock_word chat actor (p ∷ ps) (resolve_optional_target_arg args (p ∷ ps))

  unfoldable pub handle_unblock_command : Bytes → Bytes → Bytes → Exec Reply
  unfolding get_pairings_by_source remove_blocked_word remove_blocked_word_from_all_targets
      platform_of resolve_optional_target_arg insert_audit_log
  handle_unblock_command chat args actor =
      attempt (get_pairings_by_source (lit "telegram") chat) >>= λ loaded.
      unblock_loaded chat args actor (or_none loaded)

module _ ⦃j : Json⦄ where
  abbrev pub set_rule_answer : Bytes → Bytes → Bytes → List Pairing → Result (Unit {0}) → Exec Reply
  set_rule_answer chat actor target ps (err e) = say (lit "❌ Failed to update rules.")
  set_rule_answer chat actor target ps (ok tt) =
      audit (lit "setrule") actor (lit "updated rules for " ++ link_text (route_to chat target ps))
      >> say (lit "✅ Successfully updated rules for `" ++ target ++ lit "`.")

  abbrev pub set_rule : Bytes → Bytes → Bytes → RuleConfig → List Pairing → Exec Reply
  set_rule chat actor target config ps =
      if is_empty (platform_of target ps)
      then say (lit "❌ Target not linked.")
      else attempt (update_rule_config (route_to chat target ps) config)
        >>= set_rule_answer chat actor target ps

  abbrev pub set_parsed : Bytes → Bytes → Bytes → Result RuleConfig → Exec Reply
  set_parsed chat actor target (err e) = say (lit "❌ Invalid JSON format: " ++ e)
  set_parsed chat actor target (ok config) =
      attempt (get_pairings_by_source (lit "telegram") chat) >>= λ loaded.
      set_rule chat actor target config (or_none loaded)

  -- the text without the marks of a code block
  abbrev pub bare_json : Bytes → Bytes
  bare_json s =
      trim (trim_suffix (trim_prefix (trim_prefix s (lit "```json")) (lit "```")) (lit "```"))

  abbrev pub set_parts : RulesParser → Bytes → Bytes → List Bytes → Exec Reply
  set_parts parser chat actor [] = say (lit "Usage: /setrule <target_id> <json_string>")
  set_parts parser chat actor (a ∷ []) = say (lit "Usage: /setrule <target_id> <json_string>")
  set_parts parser chat actor (a ∷ b ∷ rest) =
      set_parsed chat actor a (parser.unmarshal_rules (bare_json b))

  unfoldable pub handle_set_rule_command : RulesParser → Bytes → Bytes → Bytes → Exec Reply
  unfolding split_n get_pairings_by_source update_rule_config platform_of insert_audit_log
  handle_set_rule_command parser chat args actor =
      set_parts parser chat actor (split_n 1 (trim args) b' ' [])

unfoldable pub help_text : ⦃u : Unicode⦄ → Bytes
unfolding get
help_text =
    get (lit "en") (lit "help_title")
    ++ lit "\n"
    ++ lit "/id - "
    ++ get (lit "en") (lit "help_id")
    ++ lit "\n"
    ++ lit "/status - "
    ++ get (lit "en") (lit "help_status")
    ++ lit "\n"
    ++ lit "/block <word> - "
    ++ get (lit "en") (lit "help_block")
    ++ lit "\n"
    ++ lit "/blocklist - "
    ++ get (lit "en") (lit "help_blocklist")
    ++ lit "\n"
    ++ lit "/unblock <word> - "
    ++ get (lit "en") (lit "help_unblock")
    ++ lit "\n"
    ++ lit "/clearblocks - "
    ++ get (lit "en") (lit "help_clearblocks")
    ++ lit "\n"
    ++ lit "/setrule <json> - "
    ++ get (lit "en") (lit "help_setrule")

abbrev id_text : Bytes → Bytes
id_text chat =
    lit "This chat ID is: `" ++ chat ++ lit "`\n\nIn Discord, run:\n`!join " ++ chat ++ lit "`"

abbrev start_text : ⦃u : Unicode⦄ → Bytes → Bytes
start_text chat =
    get (lit "en") (lit "welcome_step1")
    ++ lit "\n\n"
    ++ replace_all (get (lit "en") (lit "welcome_step2")) (lit "%s") chat

-- a command for trusted users only
abbrev pub guarded : Bool → Exec Reply → Exec Reply
guarded authorized m =
    if authorized then m else say (lit "❌ You do not have permission to use this command.")

module _ ⦃j : Json⦄ ⦃u : Unicode⦄ (parser : RulesParser) where
  -- `command` is in lower case, and `args` is trimmed
  unfoldable pub dispatch : Bool → Bytes → Bytes → Bytes → Bytes → Exec Reply
  unfolding handle_status_command handle_block_command handle_blocklist_command
      handle_unblock_command handle_clear_blocks_command handle_set_rule_command help_text
      replace_all
  dispatch authorized chat actor command args =
      if same command (lit "id") || same command (lit "chatid")
      then pure (markdown (id_text chat))
      else if same command (lit "status")
      then handle_status_command chat
      else if same command (lit "block")
      then guarded authorized (handle_block_command chat args actor)
      else if same command (lit "blocklist")
      then handle_blocklist_command chat args
      else if same command (lit "unblock")
      then guarded authorized (handle_unblock_command chat args actor)
      else if same command (lit "clearblocks")
      then guarded authorized (handle_clear_blocks_command chat args actor)
      else if same command (lit "setrule")
      then guarded authorized (handle_set_rule_command parser chat args actor)
      else if same command (lit "start")
      then pure (markdown (start_text chat))
      else if same command (lit "help")
      then say help_text
      else say (get (lit "en") (lit "help_unknown"))

  -- a message whose command is `name` with the arguments `args`
  unfoldable pub handle_command : List Bytes → Message → Bytes → Bytes → Exec Reply
  unfolding dispatch to_lower trim user_id chat_string is_authorized_telegram_user
  handle_command trusted m name args =
      let sender = user_id m.from in
      dispatch (is_authorized_telegram_user trusted sender) (chat_string m) sender (to_lower name)
        (trim args)
