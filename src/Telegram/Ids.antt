-- ===== src/Telegram/Ids.antt =====
-- The numbers of Telegram's events, as internal/database/stats.go reads them.
use mathlib.Core.List.{append_assoc}
use cross_platform_media_sha.Base.{◌≡◌, refl, ◌∙◌, ap, some, ◌++◌, ◌∷◌}
use cross_platform_media_sha.Text.{
  Bytes, lit, split, split-first, decimal_int, decimal_int-Lacks, same,
}
use cross_platform_media_sha.Database.Stats.{parse_source_from_event_id, source_of_parts}
use cross_platform_media_sha.Telegram.Message.{Message, chat_string, build_event_id}

-- The statistics find the chat of every Telegram event: from the number that the producer builds of
-- a message, a file and a target, whatever bytes the latter two have, the platform and the chat's
-- number are read back.
pub parse_source_from_event_id-build_event_id :
    (m : Message) (file target : Bytes)
    → parse_source_from_event_id (build_event_id m file target)
      ≡ some (lit "telegram", chat_string m)
unfolding parse_source_from_event_id build_event_id chat_string same
parse_source_from_event_id-build_event_id m file target =
    let chat = decimal_int m.chat_id in
    let rest = decimal_int m.message_id ++ lit ":" ++ file ++ lit ":" ++ target in
    let flat : build_event_id m file target ≡ lit "tg" ++ b':' ∷ (chat ++ b':' ∷ rest) =
      simp append_assoc in
    let outer : split (lit "tg" ++ b':' ∷ (chat ++ b':' ∷ rest)) b':'
        ≡ lit "tg" ∷ split (chat ++ b':' ∷ rest) b':' =
      split-first b':' (lit "tg") (chat ++ b':' ∷ rest) (refl, (refl, tt)) in
    let inner : split (chat ++ b':' ∷ rest) b':' ≡ chat ∷ split rest b':' =
      split-first b':' chat rest (decimal_int-Lacks m.chat_id) in
    ap parse_source_from_event_id flat ∙ ap source_of_parts (outer ∙ ap (λ l. lit "tg" ∷ l) inner)
