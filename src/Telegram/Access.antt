-- ===== src/Telegram/Access.antt =====
-- What the updates of the Telegram bot may change, and for whom.
use cross_platform_media_sha.Base.{
  ◌≡◌, none, some, Option, Bool, true, false, ◌||◌, ◌&&◌, List, [], ◌∷◌, arith,
}
use cross_platform_media_sha.Text.{Bytes, Unicode, lit, same, trim, to_lower}
use cross_platform_media_sha.Database.Rows.{Db}
use cross_platform_media_sha.Database.Store.{Store, Result, ok, err}
use cross_platform_media_sha.Database.Pending.{Json}
use cross_platform_media_sha.Database.Frame.{
  IsFrame, Changes, Changes-pure, Changes-if, Changes-when, SparesQueue, Unchanged, Unchanged-frame,
}
use cross_platform_media_sha.Rules.Filter.{Regex}
use cross_platform_media_sha.Producer.{Intake, Remote}
use cross_platform_media_sha.Producer.Sound.{IsReady, Changes-IsReady}
use cross_platform_media_sha.Telegram.Message.{
  Message, user_id, chat_string, extract_media_metadata,
}
use cross_platform_media_sha.Telegram.Media.{SourceLimit, Bot}
use cross_platform_media_sha.Telegram.Keeps.{handle_media-IsReady}
use cross_platform_media_sha.Telegram.Commands.{
  Reply, is_authorized_telegram_user, handle_clear_blocks_command,
}
use cross_platform_media_sha.Telegram.Dispatch.{
  RulesParser, handle_block_command, handle_unblock_command, handle_set_rule_command, dispatch,
  handle_command,
}
use cross_platform_media_sha.Telegram.Updates.{
  replied, handle_message, handle_update, handle_updates,
}
use cross_platform_media_sha.Telegram.Frames.{
  frame, Changes-status, Changes-blocklist, Spares-clear, Spares-block, Spares-unblock,
  Spares-set_rule_command,
}

-- the commands that change blocked words or rules
unfoldable pub is_admin_command : Bytes → Bool
is_admin_command c =
    same c (lit "block")
    || (same c (lit "unblock") || (same c (lit "clearblocks") || same c (lit "setrule")))

module _ ⦃j : Json⦄ ⦃u : Unicode⦄ {R : Db → Db → Type 0} (o : IsFrame R) (parser : RulesParser)
    (chat actor args : Bytes) where
  Changes-dispatch :
      (authorized : Bool) (c : Bytes)
      → (same c (lit "block") ≡ true
          → authorized ≡ true
          → Changes R (handle_block_command chat args actor))
      → (same c (lit "unblock") ≡ true
          → authorized ≡ true
          → Changes R (handle_unblock_command chat args actor))
      → (same c (lit "clearblocks") ≡ true
          → authorized ≡ true
          → Changes R (handle_clear_blocks_command chat args actor))
      → (same c (lit "setrule") ≡ true
          → authorized ≡ true
          → Changes R (handle_set_rule_command parser chat args actor))
      → Changes R (dispatch parser authorized chat actor c args)
  unfolding dispatch
  Changes-dispatch a c block unblock clear set =
      Changes-if (same c (lit "id") || same c (lit "chatid")) _ _ (Changes-pure o _) (
        Changes-if (same c (lit "status")) _ _ (Changes-status o chat) (
          Changes-when (same c (lit "block")) _ _
            (λ e. Changes-when a _ _ (block e) (Changes-pure o _))
            (Changes-if (same c (lit "blocklist")) _ _ (Changes-blocklist o chat args) (
              Changes-when (same c (lit "unblock")) _ _
                (λ e. Changes-when a _ _ (unblock e) (Changes-pure o _))
                (Changes-when (same c (lit "clearblocks")) _ _
                  (λ e. Changes-when a _ _ (clear e) (Changes-pure o _))
                  (Changes-when (same c (lit "setrule")) _ _
                    (λ e. Changes-when a _ _ (set e) (Changes-pure o _))
                    (Changes-if (same c (lit "start")) _ _ (Changes-pure o _) (
                      Changes-if (same c (lit "help")) _ _ (Changes-pure o _)
                        (Changes-pure o _)))))))))

module _ ⦃j : Json⦄ ⦃u : Unicode⦄ (parser : RulesParser) (trusted : List Bytes) (m : Message) where
  -- A command leaves the database as it is unless it is one that changes blocked words or rules and
  -- its sender is authorized: for every other command, and for every other sender, whatever the
  -- arguments and the answers of the database, no row is added, changed or removed.
  pub handle_command_unchanged :
      (name args : Bytes) (s : Store)
      → (is_admin_command (to_lower name) && is_authorized_telegram_user trusted (user_id m.from))
        ≡ false
      → (handle_command parser trusted m name args s).1.db ≡ s.db
  unfolding handle_command is_admin_command
  handle_command_unchanged name args s h =
      let c = to_lower name in
      let a = is_authorized_telegram_user trusted (user_id m.from) in
      let frame : Changes Unchanged
          (dispatch parser a (chat_string m) (user_id m.from) c (trim args)) =
        Changes-dispatch Unchanged-frame parser (chat_string m) (user_id m.from) (trim args) a c
          (λ e f. ground arith) (λ e f. ground arith) (λ e f. ground arith) (λ e f. ground arith) in
      frame.within s

  Spares-command :
      (name args : Bytes) → Changes SparesQueue (handle_command parser trusted m name args)
  unfolding handle_command
  Spares-command name args =
      let chat = chat_string m in
      let actor = user_id m.from in
      Changes-dispatch frame parser chat actor (trim args)
        (is_authorized_telegram_user trusted actor) (to_lower name)
        (λ e f. Spares-block chat (trim args) actor) (λ e f. Spares-unblock chat (trim args) actor)
        (λ e f. Spares-clear chat (trim args) actor)
        λ e f. Spares-set_rule_command parser chat (trim args) actor

replied-IsReady :
    {watched : Option Bytes} (w : Intake) (p : Result Reply × Store)
    → IsReady watched p.1
    → IsReady watched (replied w p).1.store
replied-IsReady w (ok r, s) h = h
replied-IsReady w (err e, s) h = h

module _ {watched : Option Bytes} ⦃j : Json⦄ ⦃u : Unicode⦄ ⦃r : Regex⦄ (parser : RulesParser)
    (bot : Bot) (http : Remote) (trusted : List Bytes) (limit : SourceLimit) where
  handle_message-IsReady :
      (m : Message) (c : Option (Bytes × Bytes)) (w : Intake)
      → IsReady watched w.store
      → IsReady watched (handle_message parser bot http trusted limit m c w).1.store
  handle_message-IsReady m none w h =
      handle_media-IsReady bot http m (extract_media_metadata m) limit w h
  handle_message-IsReady m (some (name, args)) w h =
      let command = handle_command parser trusted m name args in
      replied-IsReady w (command w.store)
        (Changes-IsReady command (Spares-command parser trusted m name args) w.store h)

  pub handle_update-IsReady :
      (x : Option Message) (w : Intake)
      → IsReady watched w.store
      → IsReady watched (handle_update parser bot http trusted limit x w).1.store
  unfolding handle_update
  handle_update-IsReady none w h = h
  handle_update-IsReady (some m) w h = handle_message-IsReady m m.command w h

  -- The Telegram bot leaves the store ready after any sequence of updates, messages with files and
  -- commands alike, whatever the Telegram server answers and the database refuses: where no
  -- transaction was open and the queue's invariant held before, both hold after.
  pub handle_updates-IsReady :
      (xs : List (Option Message)) (w : Intake)
      → IsReady watched w.store
      → IsReady watched (handle_updates parser bot http trusted limit xs w).1.store
  unfolding handle_updates
  handle_updates-IsReady [] w h = h
  handle_updates-IsReady (x ∷ xs) w h =
      handle_updates-IsReady xs (handle_update parser bot http trusted limit x w).1
        (handle_update-IsReady x w h)
