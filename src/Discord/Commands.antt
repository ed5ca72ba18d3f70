-- ===== src/Discord/Commands.antt =====
-- The commands of the Discord bot that write.
use cross_platform_media_sha.Base.{
  ℕ, Bool, true, false, Option, none, some, List, [], ◌∷◌, ◌++◌, any, if◌then◌else◌,
}
use cross_platform_media_sha.Text.{
  Bytes, Unicode, lit, trim, same, is_empty, join, split_n, decimal, parse_int, positive,
}
use cross_platform_media_sha.Models.{Route}
use cross_platform_media_sha.Database.Store.{Result, ok, err, Exec, ◌>>=◌, ◌>>◌}
use cross_platform_media_sha.Database.Pending.{Json}
use cross_platform_media_sha.Database.Pairings.{
  Pairing, link_channel, unlink_channel, remove_blocked_word, clear_blocked_words,
}
use cross_platform_media_sha.Database.Listings.{get_pairings_by_target, insert_audit_log}
use cross_platform_media_sha.Database.Delivery.{replay_dead_letter}
use cross_platform_media_sha.Database.Export.{attempt}
use cross_platform_media_sha.Telegram.Commands.{info}
use cross_platform_media_sha.Discord.Replies.{
  say, silent, linked, argument, has_more, resolve_pairing_for_channel,
}

abbrev pub audit : Bytes → Bytes → Bytes → Exec (Result (Unit {0}))
audit action actor details = attempt (insert_audit_log action (lit "discord") actor details)

-- from a source to a channel
abbrev pub to_channel : Bytes → Bytes → Bytes → Route
to_channel platform source channel = record {
  source_platform = platform;
  source_id = source;
  target_platform = lit "discord";
  target_id = channel;
}

-- the second word, where there are two
abbrev pub only_argument : List Bytes → Option Bytes
only_argument [] = none
only_argument (c ∷ []) = none
only_argument (c ∷ a ∷ []) = some (trim a)
only_argument (c ∷ a ∷ b ∷ rest) = none

abbrev pub join_answer : Bytes → Bytes → Bytes → Result (Unit {0}) → Exec (Option Bytes)
join_answer channel actor id (err e) = say (lit "❌ Database error while linking this channel.")
join_answer channel actor id (ok tt) =
    audit (lit "link") actor (lit "linked telegram:" ++ id ++ lit " to discord:" ++ channel)
    >> say (lit "✅ Linked Telegram chat `" ++ id ++ lit "` to this Discord channel.")

abbrev pub join_source : Bytes → Bytes → Option Bytes → Exec (Option Bytes)
join_source channel actor none = say (lit "Usage: `!join <telegram_chat_id>`")
join_source channel actor (some id) =
    attempt (link_channel (to_channel (lit "telegram") id channel) [])
    >>= join_answer channel actor id

unfoldable pub handle_join_command : Bytes → Bytes → List Bytes → Exec (Option Bytes)
unfolding link_channel insert_audit_log
handle_join_command channel actor parts = join_source channel actor (only_argument parts)

abbrev pub unlink_answer : Bytes → Bytes → Bytes → Result Bool → Exec (Option Bytes)
unlink_answer channel actor id (err e) = say (lit "❌ Database error while unlinking this channel.")
unlink_answer channel actor id (ok false) =
    say (info ++ lit " No link found for Telegram chat `" ++ id ++ lit "` in this channel.")
unlink_answer channel actor id (ok true) =
    audit (lit "unlink") actor (lit "unlinked telegram:" ++ id ++ lit " from discord:" ++ channel)
    >> say (lit "✅ Unlinked Telegram chat `" ++ id ++ lit "` from this Discord channel.")

abbrev pub unlink_source : Bytes → Bytes → Option Bytes → Exec (Option Bytes)
unlink_source channel actor none = say (lit "Usage: `!unlink <telegram_chat_id>`")
unlink_source channel actor (some id) =
    attempt (unlink_channel (to_channel (lit "telegram") id channel))
    >>= unlink_answer channel actor id

unfoldable pub handle_unlink_command : Bytes → Bytes → List Bytes → Exec (Option Bytes)
unfolding unlink_channel insert_audit_log
handle_unlink_command channel actor parts = unlink_source channel actor (only_argument parts)

-- (source, word) for the only pairing
abbrev unblock_only : List Pairing → List Bytes → Bytes × Bytes
unblock_only [] args = ([], [])
unblock_only (p ∷ []) args = (p.route.source_id, trim (join args (lit " ")))
unblock_only (p ∷ q ∷ ps) args = ([], [])

unfoldable pub parse_unblock_command : List Pairing → List Bytes → Bytes × Bytes
unfolding join
parse_unblock_command ps [] = ([], [])
parse_unblock_command ps (a ∷ []) = unblock_only ps (a ∷ [])
parse_unblock_command ps (a ∷ b ∷ rest) =
    if any (λ p. same p.route.source_id a) ps
    then (a, trim (join (b ∷ rest) (lit " ")))
    else unblock_only ps (a ∷ b ∷ rest)

-- the platform of the first pairing with the source
unfoldable pub source_platform_of : Bytes → List Pairing → Bytes
source_platform_of id [] = []
source_platform_of id (p ∷ ps) =
    let rest = source_platform_of id ps in
    if same p.route.source_id id then p.route.source_platform else rest

abbrev pub unblock_answer : Route → Bytes → Bytes → Result Bool → Exec (Option Bytes)
unblock_answer r actor word (err e) = say (lit "❌ Failed to update block list.")
unblock_answer r actor word (ok false) =
    say (
      info ++ lit " `" ++ word ++ lit "` is not in the block list for `" ++ r.source_id ++ lit "`.")
unblock_answer r actor word (ok true) =
    audit (lit "unblock") actor (
      lit "removed '"
      ++ word
      ++ lit "' from "
      ++ r.source_platform
      ++ lit ":"
      ++ r.source_id
      ++ lit "->discord:"
      ++ r.target_id)
    >> say (lit "✅ Removed `" ++ word ++ lit "` from block list for `" ++ r.source_id ++ lit "`.")

-- the arguments of a command
abbrev pub arguments : List Bytes → List Bytes
arguments [] = []
arguments (c ∷ args) = args

module _ ⦃u : Unicode⦄ where
  abbrev pub unblock_word : Bytes → Bytes → List Pairing → Bytes × Bytes → Exec (Option Bytes)
  unblock_word channel actor ps (id, word) =
      if is_empty id
      then say (lit "❌ Multiple sources are linked. Use `!unblock <source_id> <word>`.")
      else attempt (remove_blocked_word (to_channel (source_platform_of id ps) id channel) word)
        >>= unblock_answer (to_channel (source_platform_of id ps) id channel) actor word

  abbrev pub unblock_linked :
      Bytes → Bytes → List Bytes → Result (List Pairing) → Exec (Option Bytes)
  unblock_linked channel actor parts (err e) = say (info ++ lit " This channel is not linked.")
  unblock_linked channel actor parts (ok []) = say (info ++ lit " This channel is not linked.")
  unblock_linked channel actor parts (ok (p ∷ ps)) =
      unblock_word channel actor (p ∷ ps) (parse_unblock_command (p ∷ ps) (arguments parts))

  abbrev pub unblock_arguments :
      ⦃j : Json⦄ → Bytes → Bytes → List Bytes → List Bytes → Exec (Option Bytes)
  unblock_arguments channel actor parts [] =
      say
        (lit "Usage: `!unblock <word_or_phrase>` or `!unblock <telegram_chat_id> <word_or_phrase>`")
  unblock_arguments channel actor parts (a ∷ args) =
      linked channel >>= unblock_linked channel actor parts

  unfoldable pub handle_unblock_command :
      ⦃j : Json⦄ → Bytes → Bytes → List Bytes → Exec (Option Bytes)
  unfolding get_pairings_by_target parse_unblock_command source_platform_of remove_blocked_word
      insert_audit_log
  handle_unblock_command channel actor parts =
      unblock_arguments channel actor parts (arguments parts)

abbrev pub clear_answer : Route → Bytes → Result (Unit {0}) → Exec (Option Bytes)
clear_answer r actor (err e) = say (lit "❌ Failed to clear block list.")
clear_answer r actor (ok tt) =
    audit (lit "clearblocks") actor (
      lit "cleared blocks for "
      ++ r.source_platform
      ++ lit ":"
      ++ r.source_id
      ++ lit "->discord:"
      ++ r.target_id)
    >> say (lit "✅ Cleared block list for `" ++ r.source_id ++ lit "`.")

abbrev pub clear_resolved : Bytes → Bytes → Result Pairing → Exec (Option Bytes)
clear_resolved channel actor (err message) = say message
clear_resolved channel actor (ok p) =
    attempt (clear_blocked_words (to_channel p.route.source_platform p.route.source_id channel))
    >>= clear_answer (to_channel p.route.source_platform p.route.source_id channel) actor

abbrev pub clear_linked : Bytes → Bytes → List Bytes → Result (List Pairing) → Exec (Option Bytes)
clear_linked channel actor parts (err e) = say (lit "❌ Failed to load links.")
clear_linked channel actor parts (ok []) = say (lit "❌ Failed to load links.")
clear_linked channel actor parts (ok (p ∷ ps)) =
    clear_resolved channel actor (resolve_pairing_for_channel (p ∷ ps) (argument parts))

unfoldable pub handle_clear_blocks_command :
    ⦃j : Json⦄ → Bytes → Bytes → List Bytes → Exec (Option Bytes)
unfolding get_pairings_by_target resolve_pairing_for_channel clear_blocked_words insert_audit_log
handle_clear_blocks_command channel actor parts =
    if has_more parts
    then say (lit "Usage: `!clearblocks [telegram_chat_id]`")
    else linked channel >>= clear_linked channel actor parts

abbrev pub replay_answer : ℕ → Result Bool → Exec (Option Bytes)
replay_answer id (err e) = say (lit "❌ Failed to replay dead-letter item.")
replay_answer id (ok false) = say (lit "❌ Failed to replay dead-letter item.")
replay_answer id (ok true) = say (lit "✅ Requeued dead-letter item `" ++ decimal id ++ lit "`.")

module _ ⦃j : Json⦄ where
  abbrev pub replay_numbered : Bytes → Option ℕ → Exec (Option Bytes)
  replay_numbered channel none = silent
  replay_numbered channel (some id) =
      attempt (replay_dead_letter id (lit "discord") channel) >>= replay_answer id

  abbrev pub replay_argument : Bytes → Option Bytes → Exec (Option Bytes)
  replay_argument channel none = say (lit "Usage: `!replaydead <dead_letter_id>`")
  replay_argument channel (some text) = replay_numbered channel (positive (parse_int text))

  unfoldable pub handle_replay_dead_command : Bytes → List Bytes → Exec (Option Bytes)
  unfolding replay_dead_letter parse_int
  handle_replay_dead_command channel parts = replay_argument channel (only_argument parts)

-- the text that the code cuts out of the message is not used
abbrev pub set_rule_parts : Bytes → Bytes → List Bytes → Exec (Option Bytes)
set_rule_parts channel actor (a ∷ b ∷ c ∷ rest) =
    audit (lit "setrule") actor (lit "set rule for " ++ b ++ lit " in discord:" ++ channel)
    >> say (lit "✅ To set rule, please use CLI command for now, or ensure schema is respected.")
set_rule_parts channel actor rest = say (lit "Usage: `!setrule <telegram_chat_id> <json_string>`")

unfoldable pub handle_set_rule_command : Bytes → Bytes → Bytes → Exec (Option Bytes)
unfolding split_n insert_audit_log
handle_set_rule_command channel actor content =
    set_rule_parts channel actor (split_n 2 (trim content) b' ' [])
