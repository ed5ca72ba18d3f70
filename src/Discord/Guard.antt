-- ===== src/Discord/Guard.antt =====
-- What the commands of the Discord bot may change, and for whom.
use cross_platform_media_sha.Base.{
  ℕ, ◌≡◌, refl, Bool, true, false, Option, none, some, List, [], ◌∷◌, if◌then◌else◌, Bool-cases,
  inl, inr,
}
use cross_platform_media_sha.Text.{
  Bytes, Unicode, lit, same, trim, to_lower, fields, positive, parse_int,
}
use cross_platform_media_sha.Database.Store.{Store, Result, ok, err, Exec}
use cross_platform_media_sha.Database.Pending.{Json}
use cross_platform_media_sha.Database.Delivery.{replay_dead_letter}
use cross_platform_media_sha.Database.Frame.{Changes, SparesQueue, SparesQueue-frame}
use cross_platform_media_sha.Database.Queue.Run.{perform, replay, state-error_of}
use cross_platform_media_sha.Producer.Sound.{IsReady, perform-IsReady, Changes-IsReady}
use cross_platform_media_sha.Discord.Message.{Author, MessageCreate}
use cross_platform_media_sha.Discord.Access.{
  Session, Admins, is_authorized_admin_command, is_managed_command,
}
use cross_platform_media_sha.Discord.Commands.{
  only_argument, replay_answer, replay_numbered, replay_argument, handle_replay_dead_command,
}
use cross_platform_media_sha.Discord.Dispatch.{
  dispatch, guarded, run_command, command_of, handle_command,
}
use cross_platform_media_sha.Discord.Frames.{
  Changes-dead_letters, Changes-audit_log, Changes-status, Changes-blocklist, Changes-help,
  Spares-join, Spares-unlink, Spares-unblock, Spares-clear, Spares-set_rule,
}

-- an action that leaves a ready store ready
abbrev Keeps : Option Bytes → Exec (Option Bytes) → Type 0
Keeps watched m = (s : Store) → IsReady watched s → IsReady watched (m s).1

module _ (P : Exec (Option Bytes) → Type 0) where
  choice : (b : Bool) (m n : Exec (Option Bytes)) → (b ≡ true → P m) → P n → P (if b then m else n)
  choice true m n h k = h refl
  choice false m n h k = k

module _ {watched : Option Bytes} ⦃j : Json⦄ where
  replay-IsReady :
      (id : ℕ) (platform target : Bytes) (s : Store)
      → IsReady watched s
      → IsReady watched (replay_dead_letter id platform target s).1
  unfolding perform
  replay-IsReady id platform target s h =
      let call = replay id platform target in
      let e : (perform call s).1 ≡ (replay_dead_letter id platform target s).1 =
        state-error_of (replay_dead_letter id platform target s) in
      rw e at (perform-IsReady watched call s h)

  replay_answer-IsReady : (id : ℕ) (r : Result Bool) → Keeps watched (replay_answer id r)
  replay_answer-IsReady id (err e) s h = h
  replay_answer-IsReady id (ok true) s h = h
  replay_answer-IsReady id (ok false) s h = h

  replay_numbered-IsReady :
      (channel : Bytes) (id : Option ℕ) → Keeps watched (replay_numbered channel id)
  replay_numbered-IsReady channel none s h = h
  replay_numbered-IsReady channel (some id) s h =
      let p = replay_dead_letter id (lit "discord") channel s in
      replay_answer-IsReady id p.0 p.1 (replay-IsReady id (lit "discord") channel s h)

  replay_argument-IsReady :
      (channel : Bytes) (id : Option Bytes) → Keeps watched (replay_argument channel id)
  replay_argument-IsReady channel none s h = h
  replay_argument-IsReady channel (some text) s h =
      replay_numbered-IsReady channel (positive (parse_int text)) s h

  handle_replay_dead_command-IsReady :
      (channel : Bytes) (parts : List Bytes)
      → Keeps watched (handle_replay_dead_command channel parts)
  unfolding handle_replay_dead_command
  handle_replay_dead_command-IsReady channel parts s h =
      replay_argument-IsReady channel (only_argument parts) s h

module _ {watched : Option Bytes} ⦃j : Json⦄ ⦃u : Unicode⦄ (format : ℕ → Bytes) (m : MessageCreate)
    (actor : Bytes) where
  -- every branch of the choice of a command leaves the store ready
  dispatch-IsReady :
      (c : Bytes) (parts : List Bytes) → Keeps watched (dispatch format m actor c parts)
  unfolding dispatch
  dispatch-IsReady c parts =
      let channel = m.channel_id in
      let spared : (k : Exec (Option Bytes)) → Changes SparesQueue k → Keeps watched k =
        Changes-IsReady in
      choice (Keeps watched) (same c (lit "!join")) _ _
        (λ e. spared _ (Spares-join channel actor parts))
        (choice (Keeps watched) (same c (lit "!unlink")) _ _
          (λ e. spared _ (Spares-unlink channel actor parts))
          (choice (Keeps watched) (same c (lit "!status")) _ _
            (λ e. spared _ (Changes-status SparesQueue-frame channel parts))
            (choice (Keeps watched) (same c (lit "!blocklist")) _ _
              (λ e. spared _ (Changes-blocklist SparesQueue-frame channel parts))
              (choice (Keeps watched) (same c (lit "!unblock")) _ _
                (λ e. spared _ (Spares-unblock channel actor parts))
                (choice (Keeps watched) (same c (lit "!clearblocks")) _ _
                  (λ e. spared _ (Spares-clear channel actor parts))
                  (choice (Keeps watched) (same c (lit "!deadletters")) _ _
                    (λ e. spared _ (Changes-dead_letters SparesQueue-frame channel parts))
                    (choice (Keeps watched) (same c (lit "!replaydead")) _ _
                      (λ e. handle_replay_dead_command-IsReady channel parts)
                      (choice (Keeps watched) (same c (lit "!setrule")) _ _
                        (λ e. spared _ (Spares-set_rule channel actor m.content))
                        (choice (Keeps watched) (same c (lit "!auditlog")) _ _
                          (λ e. spared _ (Changes-audit_log SparesQueue-frame format parts))
                          (choice (Keeps watched) (same c (lit "!help")) _ _
                            (λ e. spared _ (Changes-help SparesQueue-frame channel))
                            (λ s h. h)))))))))))

module _ {watched : Option Bytes} ⦃j : Json⦄ ⦃u : Unicode⦄ (format : ℕ → Bytes) (s : Session)
    (c : Admins) (m : MessageCreate) where
  guarded-IsReady :
      (b : Bool) (k : Exec (Option Bytes)) → Keeps watched k → Keeps watched (guarded b k)
  guarded-IsReady true k h t r = h t r
  guarded-IsReady false k h t r = r

  run_command-IsReady :
      (a : Author) (ws : List Bytes) → Keeps watched (run_command format s c m a ws)
  run_command-IsReady a [] t h = h
  run_command-IsReady a (w ∷ ws) t h = elim (Bool-cases (is_managed_command (to_lower w))) [
    | inr e ↦ rw e h
    | inl e ↦ rw e (
        guarded-IsReady (is_authorized_admin_command s c m a)
          (dispatch format m a.id (to_lower w) (w ∷ ws))
          (dispatch-IsReady format m a.id (to_lower w) (w ∷ ws)) t h)
  ]

  command_of-IsReady : (a : Option Author) → Keeps watched (command_of format s c m a)
  command_of-IsReady none t h = h
  command_of-IsReady (some a) t h = elim (Bool-cases (same a.id s.user_id)) [
    | inl e ↦ rw e h
    | inr e ↦ rw e (run_command-IsReady a (fields (trim m.content)) t h)
  ]

  -- Every message that the command handler of the Discord bot gets leaves the store ready: whatever
  -- the command, its arguments, the sender's rights and the refusals of the database, `!replaydead`
  -- included, no transaction stays open and the queue's invariant holds after it where it held before.
  pub handle_command-IsReady :
      (t : Store) → IsReady watched t → IsReady watched (handle_command format s c m t).1
  unfolding handle_command
  handle_command-IsReady t h = command_of-IsReady m.author t h

module _ ⦃j : Json⦄ ⦃u : Unicode⦄ (format : ℕ → Bytes) (s : Session) (c : Admins)
    (m : MessageCreate) where
  run_command_unchanged :
      (a : Author) (ws : List Bytes) (t : Store)
      → is_authorized_admin_command s c m a ≡ false
      → (run_command format s c m a ws t).1.db ≡ t.db
  run_command_unchanged a [] t h = refl
  run_command_unchanged a (w ∷ ws) t h = elim (Bool-cases (is_managed_command (to_lower w))) [
    | inl e ↦ rw (e, h) refl
    | inr e ↦ rw e refl
  ]

  command_of_unchanged :
      (a : Option Author) (t : Store)
      → ((b : Author) → a ≡ some b → is_authorized_admin_command s c m b ≡ false)
      → (command_of format s c m a t).1.db ≡ t.db
  command_of_unchanged none t h = refl
  command_of_unchanged (some a) t h = elim (Bool-cases (same a.id s.user_id)) [
    | inl e ↦ rw e refl
    | inr e ↦ rw e (run_command_unchanged a (fields (trim m.content)) t (h a refl))
  ]

  -- A message whose author is not authorized, or that has none, changes nothing of the database,
  -- whatever command it holds.
  pub handle_discord_command_unchanged :
      (t : Store)
      → ((a : Author) → m.author ≡ some a → is_authorized_admin_command s c m a ≡ false)
      → (handle_command format s c m t).1.db ≡ t.db
  unfolding handle_command
  handle_discord_command_unchanged t h = command_of_unchanged m.author t h
