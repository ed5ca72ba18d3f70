-- ===== src/Discord/Dispatch.antt =====
-- The choice of a command of the Discord bot, and who may run it.
use cross_platform_media_sha.Base.{ℕ, Bool, not, Option, none, some, List, [], ◌∷◌, if◌then◌else◌}
use cross_platform_media_sha.Text.{Bytes, Unicode, lit, trim, same, to_lower, fields}
use cross_platform_media_sha.Database.Store.{Exec}
use cross_platform_media_sha.Database.Pending.{Json}
use cross_platform_media_sha.Discord.Message.{Author, MessageCreate}
use cross_platform_media_sha.Discord.Access.{
  Session, Admins, is_authorized_admin_command, is_managed_command,
}
use cross_platform_media_sha.Discord.Replies.{
  say, silent, handle_status_command, handle_blocklist_command, handle_dead_letters_command,
  handle_audit_log_command, handle_help_command,
}
use cross_platform_media_sha.Discord.Commands.{
  handle_join_command, handle_unlink_command, handle_unblock_command, handle_clear_blocks_command,
  handle_replay_dead_command, handle_set_rule_command,
}

module _ ⦃j : Json⦄ ⦃u : Unicode⦄ (format : ℕ → Bytes) (m : MessageCreate) (actor : Bytes) where
  -- `parts` are the words of the message
  unfoldable pub dispatch : Bytes → List Bytes → Exec (Option Bytes)
  unfolding handle_join_command handle_unlink_command handle_status_command handle_blocklist_command
      handle_unblock_command handle_clear_blocks_command handle_dead_letters_command
      handle_replay_dead_command handle_set_rule_command handle_audit_log_command
      handle_help_command
  dispatch command parts =
      if same command (lit "!join")
      then handle_join_command m.channel_id actor parts
      else if same command (lit "!unlink")
      then handle_unlink_command m.channel_id actor parts
      else if same command (lit "!status")
      then handle_status_command m.channel_id parts
      else if same command (lit "!blocklist")
      then handle_blocklist_command m.channel_id parts
      else if same command (lit "!unblock")
      then handle_unblock_command m.channel_id actor parts
      else if same command (lit "!clearblocks")
      then handle_clear_blocks_command m.channel_id actor parts
      else if same command (lit "!deadletters")
      then handle_dead_letters_command m.channel_id parts
      else if same command (lit "!replaydead")
      then handle_replay_dead_command m.channel_id parts
      else if same command (lit "!setrule")
      then handle_set_rule_command m.channel_id actor m.content
      else if same command (lit "!auditlog")
      then handle_audit_log_command format parts
      else if same command (lit "!help")
      then handle_help_command m.channel_id
      else silent

-- a command for administrators only
abbrev pub guarded : Bool → Exec (Option Bytes) → Exec (Option Bytes)
guarded authorized k =
    if authorized
    then k
    else say (lit "❌ You do not have permission to use bridge admin commands in this channel.")

module _ ⦃j : Json⦄ ⦃u : Unicode⦄ (format : ℕ → Bytes) (s : Session) (c : Admins)
    (m : MessageCreate) where
  abbrev pub run_command : Author → List Bytes → Exec (Option Bytes)
  run_command a [] = silent
  run_command a (p ∷ ps) =
      if not (is_managed_command (to_lower p))
      then silent
      else guarded (is_authorized_admin_command s c m a)
          (dispatch format m a.id (to_lower p) (p ∷ ps))

  abbrev pub command_of : Option Author → Exec (Option Bytes)
  command_of none = silent
  command_of (some a) =
      if same a.id s.user_id then silent else run_command a (fields (trim m.content))

  unfoldable pub handle_command : Exec (Option Bytes)
  unfolding dispatch is_authorized_admin_command is_managed_command fields to_lower
  handle_command = command_of m.author
