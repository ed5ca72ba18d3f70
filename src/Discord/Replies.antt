-- ===== src/Discord/Replies.antt =====
-- The commands of the Discord bot that read. A command sends one message to the channel, or none;
-- that message is the result.
use cross_platform_media_sha.Base.{
  ℕ, Bool, true, false, Option, none, some, List, [], ◌∷◌, ◌++◌, map, length, if◌then◌else◌,
}
use cross_platform_media_sha.Text.{
  Bytes, Unicode, lit, trim, same, is_empty, join, decimal, parse_int, positive,
}
use cross_platform_media_sha.Database.Rows.{DeadLetterRow, AuditRow}
use cross_platform_media_sha.Database.Store.{Result, ok, err, Exec, pure, ◌>>=◌}
use cross_platform_media_sha.Database.Pending.{Json}
use cross_platform_media_sha.Database.Pairings.{Pairing, sort_words}
use cross_platform_media_sha.Database.Listings.{
  get_pairings_by_target, list_dead_letters_by_target, list_audit_logs,
}
use cross_platform_media_sha.Database.Export.{attempt}
use cross_platform_media_sha.I18n.{get}
use cross_platform_media_sha.Telegram.Commands.{info}

abbrev pub say : Bytes → Exec (Option Bytes)
say text = pure (some text)

abbrev pub silent : Exec (Option Bytes)
silent = pure none

-- the pairings of a channel, or the error
abbrev pub linked : ⦃j : Json⦄ → Bytes → Exec (Result (List Pairing))
linked channel = attempt (get_pairings_by_target (lit "discord") channel)

-- the argument of a command that has one at most
abbrev pub argument : List Bytes → Bytes
argument [] = []
argument (c ∷ []) = []
argument (c ∷ a ∷ rest) = trim a

abbrev pub has_more : List Bytes → Bool
has_more [] = false
has_more (c ∷ []) = false
has_more (c ∷ a ∷ []) = false
has_more (c ∷ a ∷ b ∷ rest) = true

-- (pairing, user message): the first pairing with the source, or the message
unfoldable pub find_source : Bytes → List Pairing → Result Pairing
find_source id [] = err (info ++ lit " This channel is not linked to source `" ++ id ++ lit "`.")
find_source id (p ∷ ps) =
    let rest = find_source id ps in if same p.route.source_id id then ok p else rest

abbrev pub resolve_linked : List Pairing → Bytes → Result Pairing
resolve_linked [] id = err (info ++ lit " This Discord channel is not linked to any source.")
resolve_linked (p ∷ []) id = if is_empty id then ok p else find_source id (p ∷ [])
resolve_linked (p ∷ q ∷ ps) id =
    if is_empty id
    then err (
        info
        ++ lit " Multiple sources are linked here. Specify one: `"
        ++ join (sort_words (map (λ r. r.route.source_id) (p ∷ q ∷ ps))) (lit "`, `")
        ++ lit "`")
    else find_source id (p ∷ q ∷ ps)

unfoldable pub resolve_pairing_for_channel : List Pairing → Bytes → Result Pairing
unfolding find_source sort_words join
resolve_pairing_for_channel ps id = resolve_linked ps id

abbrev status_line : Pairing → Bytes
status_line p =
    lit "- ["
    ++ p.route.source_platform
    ++ lit "] `"
    ++ p.route.source_id
    ++ lit "` (blocked words: "
    ++ decimal (length p.blocked_words)
    ++ lit ")"

abbrev words_line : List Bytes → Bytes
words_line [] = []
words_line (w ∷ ws) = lit "\nList: " ++ join (w ∷ ws) (lit ", ")

abbrev status_of : Result Pairing → Bytes
status_of (err message) = message
status_of (ok p) =
    lit "Status for Source `"
    ++ p.route.source_id
    ++ lit "` in this channel:\nBlocked words: "
    ++ decimal (length p.blocked_words)
    ++ words_line p.blocked_words

-- `some id` where a source is named
abbrev status_among : List Pairing → List Bytes → Bytes
status_among ps (c ∷ a ∷ rest) = status_of (resolve_pairing_for_channel ps (trim a))
status_among ps rest =
    lit "Linked sources for this channel:\n" ++ join (sort_words (map status_line ps)) (lit "\n")

abbrev pub status_text : List Bytes → Result (List Pairing) → Bytes
status_text parts (err e) = lit "❌ Failed to load status from database."
status_text parts (ok []) = info ++ lit " This Discord channel is not linked to any source."
status_text parts (ok (p ∷ ps)) = status_among (p ∷ ps) parts

abbrev blocklist_of : Result Pairing → Bytes
blocklist_of (err message) = message
blocklist_of (ok p) = elim p.blocked_words [
  | [] ↦ info ++ lit " Block list is empty for Source `" ++ p.route.source_id ++ lit "`."
  | w ∷ ws ↦ lit "Blocked words for `" ++ p.route.source_id ++ lit "`: " ++ join (w ∷ ws) (lit ", ")
]

abbrev pub blocklist_text : List Bytes → Result (List Pairing) → Bytes
blocklist_text parts (err e) = lit "❌ Failed to load block list from database."
blocklist_text parts (ok ps) = blocklist_of (resolve_pairing_for_channel ps (argument parts))

-- the limit of a listing, where the argument is a positive number
abbrev or_default : ℕ → Option ℕ → ℕ
or_default n none = n
or_default n (some k) = k

abbrev pub limit_of : ℕ → List Bytes → ℕ
limit_of default parts = or_default default (positive (parse_int (argument parts)))

abbrev dead_letter_line : DeadLetterRow → Bytes
dead_letter_line r =
    lit "- id `"
    ++ decimal r.dead_letter_id
    ++ lit "` | file `"
    ++ r.file_name
    ++ lit "` | retries `"
    ++ decimal r.retry_count
    ++ lit "`"

abbrev pub dead_letters_text : Result (List DeadLetterRow) → Bytes
dead_letters_text (err e) = info ++ lit " No dead-letter items for this channel."
dead_letters_text (ok []) = info ++ lit " No dead-letter items for this channel."
dead_letters_text (ok (r ∷ rs)) =
    lit "Dead-letter items:\n" ++ join (map dead_letter_line (r ∷ rs)) (lit "\n")

-- `format` is time.Time.Format("2006-01-02 15:04") of a time in UTC
abbrev audit_line : (ℕ → Bytes) → AuditRow → Bytes
audit_line format r =
    lit "- `"
    ++ r.action
    ++ lit "` by "
    ++ r.actor_platform
    ++ lit ":"
    ++ r.actor_id
    ++ lit " — "
    ++ r.details
    ++ lit " ("
    ++ format r.created_at
    ++ lit ")"

abbrev pub audit_text : (ℕ → Bytes) → Result (List AuditRow) → Bytes
audit_text format (err e) = info ++ lit " No audit log entries found."
audit_text format (ok []) = info ++ lit " No audit log entries found."
audit_text format (ok (r ∷ rs)) =
    lit "Audit log:\n" ++ join (map (audit_line format) (r ∷ rs)) (lit "\n")

unfoldable pub handle_dead_letters_command : Bytes → List Bytes → Exec (Option Bytes)
unfolding list_dead_letters_by_target join decimal parse_int
handle_dead_letters_command channel parts =
    if has_more parts
    then say (lit "Usage: `!deadletters [limit]`")
    else attempt (list_dead_letters_by_target (lit "discord") channel (limit_of 5 parts))
      >>= λ items. say (dead_letters_text items)

unfoldable pub handle_audit_log_command : (ℕ → Bytes) → List Bytes → Exec (Option Bytes)
unfolding list_audit_logs join parse_int
handle_audit_log_command format parts =
    if has_more parts
    then say (lit "Usage: `!auditlog [limit]`")
    else attempt (list_audit_logs (limit_of 10 parts)) >>= λ entries.
        say (audit_text format entries)

module _ ⦃j : Json⦄ where
  unfoldable pub handle_status_command : Bytes → List Bytes → Exec (Option Bytes)
  unfolding get_pairings_by_target resolve_pairing_for_channel join decimal sort_words
  handle_status_command channel parts =
      if has_more parts
      then say (lit "Usage: `!status [telegram_chat_id]`")
      else linked channel >>= λ loaded. say (status_text parts loaded)

  unfoldable pub handle_blocklist_command : Bytes → List Bytes → Exec (Option Bytes)
  unfolding get_pairings_by_target resolve_pairing_for_channel join
  handle_blocklist_command channel parts =
      if has_more parts
      then say (lit "Usage: `!blocklist [telegram_chat_id]`")
      else linked channel >>= λ loaded. say (blocklist_text parts loaded)

abbrev pub language_of : Result (List Pairing) → Bytes
language_of (err e) = lit "en"
language_of (ok []) = lit "en"
language_of (ok (p ∷ ps)) =
    if is_empty p.rule_config.language then lit "en" else p.rule_config.language

unfoldable pub help_text : ⦃u : Unicode⦄ → Bytes → Bytes
unfolding get
help_text lang =
    get lang (lit "help_title")
    ++ lit "\n"
    ++ lit "`!join <telegram_chat_id>` - link this Discord channel to a Telegram chat\n"
    ++ lit "`!unlink <telegram_chat_id>` - remove one Telegram link from this channel\n"
    ++ lit "`!status [telegram_chat_id]` - "
    ++ get lang (lit "help_status")
    ++ lit "\n"
    ++ lit "`!blocklist [telegram_chat_id]` - "
    ++ get lang (lit "help_blocklist")
    ++ lit "\n"
    ++ lit "`!unblock <word_or_phrase>` - "
    ++ get lang (lit "help_unblock")
    ++ lit "\n"
    ++ lit "`!unblock <telegram_chat_id> <word_or_phrase>` - remove from a specific link\n"
    ++ lit "`!clearblocks [telegram_chat_id]` - "
    ++ get lang (lit "help_clearblocks")
    ++ lit "\n"
    ++ lit "`!deadletters [limit]` - show failed deliveries for this channel\n"
    ++ lit "`!replaydead <dead_letter_id>` - replay one dead-letter item\n"
    ++ lit "`!setrule <telegram_chat_id> <json>` - "
    ++ get lang (lit "help_setrule")
    ++ lit "\n"
    ++ lit "`!auditlog [limit]` - show recent admin action history\n"
    ++ lit "`!help` - show this help"

unfoldable pub handle_help_command : ⦃j : Json⦄ → ⦃u : Unicode⦄ → Bytes → Exec (Option Bytes)
unfolding get_pairings_by_target help_text
handle_help_command channel = linked channel >>= λ loaded. say (help_text (language_of loaded))
