-- ===== src/Telegram/Commands.antt =====
-- The commands of the Telegram bot. A command sends one reply, whatever the database answers; the
-- reply is the result.
use cross_platform_media_sha.Base.{
  ℕ, Bool, true, List, [], ◌∷◌, ◌++◌, map, any, length, if◌then◌else◌,
}
use cross_platform_media_sha.Text.{
  Bytes, lit, trim, same, is_empty, join, fields, split, decimal, trim_prefix,
}
use cross_platform_media_sha.Models.{Route}
use cross_platform_media_sha.Database.Store.{Result, ok, err, Exec, pure, ◌>>=◌, ◌>>◌}
use cross_platform_media_sha.Database.Pending.{Json}
use cross_platform_media_sha.Database.Pairings.{Pairing, clear_blocked_words, get_blocked_words}
use cross_platform_media_sha.Database.Listings.{get_pairings_by_source, insert_audit_log}
use cross_platform_media_sha.Database.Targets.{clear_blocked_words_for_all_targets}
use cross_platform_media_sha.Database.Export.{attempt}

-- tgbotapi.MessageConfig
pub record Reply : Type 0 where
  pub text : Bytes
  pub parse_mode : Bytes

abbrev pub plain : Bytes → Reply
plain text = record { text = text; parse_mode = [] }

-- "ℹ" and the variation selector U+FE0F
abbrev pub info : Bytes
info = lit "ℹ" ++ 239 ∷ 184 ∷ 143 ∷ []

abbrev pub markdown : Bytes → Reply
markdown text = record { text = text; parse_mode = lit "Markdown" }

abbrev pub say : Bytes → Exec Reply
say text = pure (plain text)

-- an error of the listing, dropped
abbrev pub or_none : Result (List Pairing) → List Pairing
or_none (ok ps) = ps
or_none (err e) = []

abbrev pub count_or_zero : Result ℕ → ℕ
count_or_zero (ok n) = n
count_or_zero (err e) = 0

-- TELEGRAM_TRUSTED_USER_IDS
unfoldable pub trusted_ids : List Bytes → List Bytes
trusted_ids [] = []
trusted_ids (id ∷ ids) =
    let rest = trusted_ids ids in if is_empty (trim id) then rest else trim id ∷ rest

unfoldable pub trusted_telegram_user_ids : Bytes → List Bytes
unfolding trusted_ids split
trusted_telegram_user_ids value = trusted_ids (split value b',')

unfoldable pub is_authorized_telegram_user : List Bytes → Bytes → Bool
is_authorized_telegram_user [] user_id = true
is_authorized_telegram_user (t ∷ ts) user_id = any (same user_id) (t ∷ ts)

-- the platform of the first pairing that leads to the target
unfoldable pub platform_of : Bytes → List Pairing → Bytes
platform_of target [] = []
platform_of target (p ∷ ps) =
    let rest = platform_of target ps in
    if same p.route.target_id target then p.route.target_platform else rest

abbrev pub route_to : Bytes → Bytes → List Pairing → Route
route_to chat target ps = record {
  source_platform = lit "telegram";
  source_id = chat;
  target_platform = platform_of target ps;
  target_id = target;
}

abbrev pub link_text : Route → Bytes
link_text r =
    lit "telegram:" ++ r.source_id ++ lit "->" ++ r.target_platform ++ lit ":" ++ r.target_id

abbrev argument_of : Bytes → List Pairing → List Bytes → Bytes × Bytes
argument_of trimmed ps [] = ([], trimmed)
argument_of trimmed ps (a ∷ []) = ([], trimmed)
argument_of trimmed ps (a ∷ b ∷ rest) =
    if any (λ p. same p.route.target_id a) ps
    then (a, trim (trim_prefix trimmed a))
    else ([], trimmed)

-- (target, word)
unfoldable pub resolve_optional_target_arg : Bytes → List Pairing → Bytes × Bytes
unfolding fields
resolve_optional_target_arg args ps =
    let trimmed = trim args in
    if is_empty trimmed then ([], []) else argument_of trimmed ps (fields trimmed)

abbrev status_line : Pairing → Bytes
status_line p =
    lit "- ["
    ++ p.route.target_platform
    ++ lit "] `"
    ++ p.route.target_id
    ++ lit "` (blocked words: "
    ++ decimal (length p.blocked_words)
    ++ lit ")"

abbrev pub status_text : Result (List Pairing) → Bytes
status_text (err e) = lit "❌ Failed to load link status."
status_text (ok []) = info ++ lit " This Telegram chat is not linked to any target yet."
status_text (ok (p ∷ ps)) = lit "Linked targets:\n" ++ join (map status_line (p ∷ ps)) (lit "\n")

abbrev words_text : List Bytes → Bytes
words_text [] = lit "(empty)"
words_text (w ∷ ws) = join (w ∷ ws) (lit ", ")

abbrev blocklist_line : Pairing → Bytes
blocklist_line p =
    lit "- ["
    ++ p.route.target_platform
    ++ lit "] `"
    ++ p.route.target_id
    ++ lit "`: "
    ++ words_text p.blocked_words

-- the words of one target; an error of the query reads as none
abbrev pub blocklist_text : Bytes → Result (List Bytes) → Bytes
blocklist_text target (err e) = info ++ lit " Block list is empty for `" ++ target ++ lit "`."
blocklist_text target (ok []) = info ++ lit " Block list is empty for `" ++ target ++ lit "`."
blocklist_text target (ok (w ∷ ws)) =
    lit "Block list for `" ++ target ++ lit "`: " ++ join (w ∷ ws) (lit ", ")

abbrev pub audit : Bytes → Bytes → Bytes → Exec (Result (Unit {0}))
audit action actor details = attempt (insert_audit_log action (lit "telegram") actor details)

module _ ⦃j : Json⦄ where
  unfoldable pub handle_status_command : Bytes → Exec Reply
  unfolding get_pairings_by_source
  handle_status_command chat =
      attempt (get_pairings_by_source (lit "telegram") chat) >>= λ loaded. say (status_text loaded)

  abbrev pub list_words : Bytes → Bytes → List Pairing → Exec Reply
  list_words chat target ps =
      if is_empty target
      then say (lit "Block list by target:\n" ++ join (map blocklist_line ps) (lit "\n"))
      else if is_empty (platform_of target ps)
      then say (info ++ lit " `" ++ target ++ lit "` is not linked.")
      else attempt (get_blocked_words (route_to chat target ps)) >>= λ words.
          say (blocklist_text target words)

  abbrev pub list_loaded : Bytes → Bytes → List Pairing → Exec Reply
  list_loaded chat target [] = say (info ++ lit " No linked targets found.")
  list_loaded chat target (p ∷ ps) = list_words chat target (p ∷ ps)

  unfoldable pub handle_blocklist_command : Bytes → Bytes → Exec Reply
  unfolding get_pairings_by_source get_blocked_words platform_of
  handle_blocklist_command chat args =
      attempt (get_pairings_by_source (lit "telegram") chat) >>= λ loaded.
      list_loaded chat (trim args) (or_none loaded)

  abbrev pub clear_all_answer : Bytes → Bytes → Result ℕ → Exec Reply
  clear_all_answer chat actor cleared =
      let n = decimal (count_or_zero cleared) in
      audit (lit "clearblocks") actor (
        lit "cleared blocks for all targets of telegram:"
        ++ chat
        ++ lit " ("
        ++ n
        ++ lit " targets)")
      >> say (lit "✅ Cleared block list for " ++ n ++ lit " linked target(s).")

  abbrev pub clear_words : Bytes → Bytes → Bytes → List Pairing → Exec Reply
  clear_words chat actor target ps =
      if is_empty target
      then attempt (clear_blocked_words_for_all_targets (lit "telegram") chat)
        >>= clear_all_answer chat actor
      else attempt (clear_blocked_words (route_to chat target ps))
        >> (audit (lit "clearblocks") actor
              (lit "cleared blocks for " ++ link_text (route_to chat target ps))
            >> say (lit "✅ Cleared block list for `" ++ target ++ lit "`."))

  abbrev pub clear_loaded : Bytes → Bytes → Bytes → List Pairing → Exec Reply
  clear_loaded chat actor target [] = say (info ++ lit " No linked targets found.")
  clear_loaded chat actor target (p ∷ ps) = clear_words chat actor target (p ∷ ps)

  unfoldable pub handle_clear_blocks_command : Bytes → Bytes → Bytes → Exec Reply
  unfolding get_pairings_by_source clear_blocked_words_for_all_targets clear_blocked_words
      platform_of insert_audit_log
  handle_clear_blocks_command chat args actor =
      attempt (get_pairings_by_source (lit "telegram") chat) >>= λ loaded.
      clear_loaded chat actor (trim args) (or_none loaded)
