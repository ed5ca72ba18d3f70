-- ===== src/Telegram/Updates.antt =====
-- One update of the Telegram bot, and the loop over them.
use cross_platform_media_sha.Base.{Option, none, some, List, [], ◌∷◌, ◌++◌}
use cross_platform_media_sha.Text.{Bytes, Unicode}
use cross_platform_media_sha.Database.Store.{Store, Result, ok, err}
use cross_platform_media_sha.Database.Pending.{Json}
use cross_platform_media_sha.Rules.Filter.{Regex}
use cross_platform_media_sha.Producer.{Intake, Remote}
use cross_platform_media_sha.Telegram.Message.{Message, extract_media_metadata}
use cross_platform_media_sha.Telegram.Media.{SourceLimit, Bot, handle_media}
use cross_platform_media_sha.Telegram.Commands.{Reply}
use cross_platform_media_sha.Telegram.Dispatch.{RulesParser, handle_command}

-- the reply that was sent, and what is left
abbrev pub replied : Intake → Result Reply × Store → List Reply × Intake
replied w (ok r, s) = (r ∷ [], record w { store = s })
replied w (err e, s) = ([], record w { store = s })

module _ ⦃j : Json⦄ ⦃u : Unicode⦄ ⦃r : Regex⦄ (parser : RulesParser) (bot : Bot) (http : Remote)
    (trusted : List Bytes) (limit : SourceLimit) where
  abbrev pub handle_message : Message → Option (Bytes × Bytes) → Intake → List Reply × Intake
  handle_message m none w = ([], handle_media bot http m (extract_media_metadata m) limit w)
  handle_message m (some (name, args)) w =
      replied w (handle_command parser trusted m name args w.store)

  -- an update without a message is passed over
  unfoldable pub handle_update : Option Message → Intake → List Reply × Intake
  unfolding handle_command handle_media extract_media_metadata
  handle_update none w = ([], w)
  handle_update (some m) w = handle_message m m.command w

  unfoldable pub handle_updates : List (Option Message) → Intake → List Reply × Intake
  unfolding handle_update
  handle_updates [] w = ([], w)
  handle_updates (x ∷ xs) w =
      let (replies, w') = handle_update x w in
      let (rest, w'') = handle_updates xs w' in (replies ++ rest, w'')
