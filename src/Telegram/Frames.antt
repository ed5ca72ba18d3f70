-- ===== src/Telegram/Frames.antt =====
-- The frames of the commands of the Telegram bot: they read, or they spare the queue.
use cross_platform_media_sha.Base.{ℕ, not, List, [], ◌∷◌}
use cross_platform_media_sha.Text.{Bytes, Unicode, lit, trim, is_empty, split_n}
use cross_platform_media_sha.Models.{RuleConfig}
use cross_platform_media_sha.Database.Rows.{Db}
use cross_platform_media_sha.Database.Store.{Result, ok, err, ◌>>◌}
use cross_platform_media_sha.Database.Pending.{Json}
use cross_platform_media_sha.Database.Pairings.{Pairing, get_blocked_words}
use cross_platform_media_sha.Database.Frame.{
  IsFrame, Changes, Changes-pure, Changes-if, Changes-ask, Changes-then, Changes-query,
  Changes-by_source, SparesQueue, SparesQueue-frame,
}
use cross_platform_media_sha.Database.Frames.{
  Spares-insert_audit_log, Spares-add_blocked_word, Spares-remove_blocked_word,
  Spares-clear_blocked_words, Spares-update_rule_config, Spares-add_blocked_word_for_all_targets,
  Spares-remove_blocked_word_from_all_targets, Spares-clear_blocked_words_for_all_targets,
}
use cross_platform_media_sha.Telegram.Commands.{
  say, plain, status_text, blocklist_text, or_none, audit, route_to, platform_of,
  resolve_optional_target_arg, handle_status_command, list_words, list_loaded,
  handle_blocklist_command, clear_words, clear_loaded, clear_all_answer,
  handle_clear_blocks_command,
}
use cross_platform_media_sha.Telegram.Dispatch.{
  RulesParser, block_target_answer, block_all_answer, block_word, block_loaded,
  handle_block_command, unblock_word, unblock_all_answer, unblock_loaded, handle_unblock_command,
  set_rule_answer, set_rule, set_parsed, set_parts, bare_json, handle_set_rule_command,
}

-- reading commands, in any frame
module _ ⦃j : Json⦄ {R : Db → Db → Type 0} (o : IsFrame R) where
  pub Changes-status : (chat : Bytes) → Changes R (handle_status_command chat)
  unfolding handle_status_command
  Changes-status chat =
      Changes-ask o _ _ (Changes-by_source o (lit "telegram") chat)
        λ l. Changes-pure o (plain (status_text l))

  Changes-list_words :
      (chat target : Bytes) (ps : List Pairing) → Changes R (list_words chat target ps)
  unfolding get_blocked_words
  Changes-list_words chat target ps = Changes-if (is_empty target) _ _ (Changes-pure o _) (
      Changes-if (is_empty (platform_of target ps)) _ _ (Changes-pure o _) (
        Changes-ask o (get_blocked_words (route_to chat target ps)) _ (Changes-query o _)
          λ w. Changes-pure o (plain (blocklist_text target w))))

  Changes-list_loaded :
      (chat target : Bytes) (ps : List Pairing) → Changes R (list_loaded chat target ps)
  Changes-list_loaded chat target [] = Changes-pure o _
  Changes-list_loaded chat target (p ∷ ps) = Changes-list_words chat target (p ∷ ps)

  pub Changes-blocklist : (chat args : Bytes) → Changes R (handle_blocklist_command chat args)
  unfolding handle_blocklist_command
  Changes-blocklist chat args =
      Changes-ask o _ _ (Changes-by_source o (lit "telegram") chat)
        λ l. Changes-list_loaded chat (trim args) (or_none l)

-- the calls of the other commands
abbrev pub frame : IsFrame SparesQueue
frame = SparesQueue-frame

-- an entry of the audit log, then a reply
Spares-audited :
    (action actor details text : Bytes)
    → Changes SparesQueue (audit action actor details >> say text)
Spares-audited action actor details text =
    Changes-then frame _ _ (Spares-insert_audit_log action (lit "telegram") actor details)
      (Changes-pure frame _)

module _ ⦃j : Json⦄ where
  Spares-clear_words :
      (chat actor target : Bytes) (ps : List Pairing)
      → Changes SparesQueue (clear_words chat actor target ps)
  Spares-clear_words chat actor target ps =
      Changes-if (is_empty target) _ _
        (Changes-ask frame _ (clear_all_answer chat actor)
          (Spares-clear_blocked_words_for_all_targets (lit "telegram") chat)
          λ r. Spares-audited _ _ _ _)
        (Changes-then frame _ _ (Spares-clear_blocked_words (route_to chat target ps))
          (Spares-audited _ _ _ _))

  Spares-clear_loaded :
      (chat actor target : Bytes) (ps : List Pairing)
      → Changes SparesQueue (clear_loaded chat actor target ps)
  Spares-clear_loaded chat actor target [] = Changes-pure frame _
  Spares-clear_loaded chat actor target (p ∷ ps) = Spares-clear_words chat actor target (p ∷ ps)

  pub Spares-clear :
      (chat args actor : Bytes) → Changes SparesQueue (handle_clear_blocks_command chat args actor)
  unfolding handle_clear_blocks_command
  Spares-clear chat args actor =
      Changes-ask frame _ _ (Changes-by_source frame (lit "telegram") chat)
        λ l. Spares-clear_loaded chat actor (trim args) (or_none l)

  Spares-set_rule_answer :
      (chat actor target : Bytes) (ps : List Pairing) (r : Result (Unit {0}))
      → Changes SparesQueue (set_rule_answer chat actor target ps r)
  Spares-set_rule_answer chat actor target ps (err e) = Changes-pure frame _
  Spares-set_rule_answer chat actor target ps (ok tt) = Spares-audited _ _ _ _

  Spares-set_rule :
      (chat actor target : Bytes) (c : RuleConfig) (ps : List Pairing)
      → Changes SparesQueue (set_rule chat actor target c ps)
  Spares-set_rule chat actor target c ps =
      Changes-if (is_empty (platform_of target ps)) _ _ (Changes-pure frame _) (
        Changes-ask frame _ (set_rule_answer chat actor target ps)
          (Spares-update_rule_config (route_to chat target ps) c)
          λ r. Spares-set_rule_answer chat actor target ps r)

  Spares-set_parsed :
      (chat actor target : Bytes) (c : Result RuleConfig)
      → Changes SparesQueue (set_parsed chat actor target c)
  Spares-set_parsed chat actor target (err e) = Changes-pure frame _
  Spares-set_parsed chat actor target (ok c) =
      Changes-ask frame _ _ (Changes-by_source frame (lit "telegram") chat)
        λ l. Spares-set_rule chat actor target c (or_none l)

  Spares-set_parts :
      (parser : RulesParser) (chat actor : Bytes) (parts : List Bytes)
      → Changes SparesQueue (set_parts parser chat actor parts)
  Spares-set_parts parser chat actor [] = Changes-pure frame _
  Spares-set_parts parser chat actor (a ∷ []) = Changes-pure frame _
  Spares-set_parts parser chat actor (a ∷ b ∷ rest) =
      Spares-set_parsed chat actor a (parser.unmarshal_rules (bare_json b))

module _ ⦃j : Json⦄ ⦃u : Unicode⦄ where
  Spares-block_target_answer :
      (chat actor target : Bytes) (ps : List Pairing) (word : Bytes) (r : Result (Unit {0}))
      → Changes SparesQueue (block_target_answer chat actor target ps word r)
  Spares-block_target_answer chat actor target ps word (err e) = Changes-pure frame _
  Spares-block_target_answer chat actor target ps word (ok tt) = Spares-audited _ _ _ _

  Spares-block_all_answer :
      (chat actor word : Bytes) (r : Result ℕ)
      → Changes SparesQueue (block_all_answer chat actor word r)
  Spares-block_all_answer chat actor word (err e) = Changes-pure frame _
  Spares-block_all_answer chat actor word (ok n) = Spares-audited _ _ _ _

  Spares-block_word :
      (chat actor : Bytes) (ps : List Pairing) (target word : Bytes)
      → Changes SparesQueue (block_word chat actor ps (target, word))
  Spares-block_word chat actor ps target word =
      Changes-if (is_empty (trim word)) _ _ (Changes-pure frame _) (
        Changes-if (not (is_empty target)) _ _
          (Changes-ask frame _ (block_target_answer chat actor target ps word)
            (Spares-add_blocked_word (route_to chat target ps) word)
            λ r. Spares-block_target_answer chat actor target ps word r)
          (Changes-ask frame _ (block_all_answer chat actor word)
            (Spares-add_blocked_word_for_all_targets (lit "telegram") chat word)
            λ r. Spares-block_all_answer chat actor word r))

  Spares-block_loaded :
      (chat args actor : Bytes) (loaded : Result (List Pairing))
      → Changes SparesQueue (block_loaded chat args actor loaded)
  Spares-block_loaded chat args actor (err e) = Changes-pure frame _
  Spares-block_loaded chat args actor (ok []) = Changes-pure frame _
  Spares-block_loaded chat args actor (ok (p ∷ ps)) =
      let parsed = resolve_optional_target_arg args (p ∷ ps) in
      Spares-block_word chat actor (p ∷ ps) parsed.0 parsed.1

  Spares-unblock_word :
      (chat actor : Bytes) (ps : List Pairing) (target word : Bytes)
      → Changes SparesQueue (unblock_word chat actor ps (target, word))
  Spares-unblock_word chat actor ps target word =
      Changes-if (is_empty (trim word)) _ _ (Changes-pure frame _) (
        Changes-if (not (is_empty target)) _ _
          (Changes-then frame _ _ (Spares-remove_blocked_word (route_to chat target ps) word)
            (Spares-audited _ _ _ _))
          (Changes-ask frame _ (unblock_all_answer chat actor word)
            (Spares-remove_blocked_word_from_all_targets (lit "telegram") chat word)
            λ r. Spares-audited _ _ _ _))

  Spares-unblock_loaded :
      (chat args actor : Bytes) (ps : List Pairing)
      → Changes SparesQueue (unblock_loaded chat args actor ps)
  Spares-unblock_loaded chat args actor [] = Changes-pure frame _
  Spares-unblock_loaded chat args actor (p ∷ ps) =
      let parsed = resolve_optional_target_arg args (p ∷ ps) in
      Spares-unblock_word chat actor (p ∷ ps) parsed.0 parsed.1

  pub Spares-block :
      (chat args actor : Bytes) → Changes SparesQueue (handle_block_command chat args actor)
  unfolding handle_block_command
  Spares-block chat args actor =
      Changes-ask frame _ (block_loaded chat args actor)
        (Changes-by_source frame (lit "telegram") chat) λ l. Spares-block_loaded chat args actor l

  pub Spares-unblock :
      (chat args actor : Bytes) → Changes SparesQueue (handle_unblock_command chat args actor)
  unfolding handle_unblock_command
  Spares-unblock chat args actor =
      Changes-ask frame _ _ (Changes-by_source frame (lit "telegram") chat)
        λ l. Spares-unblock_loaded chat args actor (or_none l)

  pub Spares-set_rule_command :
      (parser : RulesParser) (chat args actor : Bytes)
      → Changes SparesQueue (handle_set_rule_command parser chat args actor)
  unfolding handle_set_rule_command
  Spares-set_rule_command parser chat args actor =
      Spares-set_parts parser chat actor (split_n 1 (trim args) b' ' [])
