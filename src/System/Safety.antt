-- ===== src/System/Safety.antt =====
-- What holds of the bridge however its parts take turns.
use cross_platform_media_sha.Base.{◌≡◌, Option, none, some, true}
use cross_platform_media_sha.Text.{Bytes, Unicode}
use cross_platform_media_sha.Database.Pending.{Json}
use cross_platform_media_sha.Database.Cleanup.{run_retention_cleanup-IsSound}
use cross_platform_media_sha.Database.Queue.Invariant.{IsSound}
use cross_platform_media_sha.Database.Queue.Kept.{is_kept}
use cross_platform_media_sha.Rules.Filter.{Regex}
use cross_platform_media_sha.Producer.Sound.{IsReady}
use cross_platform_media_sha.Telegram.Access.{handle_update-IsReady}
use cross_platform_media_sha.Discord.Keeps.{handle_message_create-IsReady}
use cross_platform_media_sha.Discord.Guard.{handle_command-IsReady}
use cross_platform_media_sha.Queue.Ready.{round-IsReady, process_digests-IsReady, Unchanged-IsReady}
use cross_platform_media_sha.Database.Frame.{Unchanged-frame}
use cross_platform_media_sha.AdminPanel.{serve}
use cross_platform_media_sha.AdminPanel.Reads.{Changes-serve}
use cross_platform_media_sha.System.{
  Bridge, Step, telegram_update, discord_message, discord_command, processor_round, digest_tick,
  admin_request, StepOrCleanup, step, cleanup, Reach, here, next, intake_of, world_of,
}

module _ ⦃j : Json⦄ ⦃u : Unicode⦄ ⦃r : Regex⦄ where
  -- each handler leaves the store ready
  Step-IsReady :
      {watched : Option Bytes} {b c : Bridge}
      → Step b c
      → IsReady watched b.store
      → IsReady watched c.store
  Step-IsReady (telegram_update b parser bot http trusted limit m) h =
      handle_update-IsReady parser bot http trusted limit m (intake_of b) h
  Step-IsReady (discord_message b http m bot_id limit) h =
      handle_message_create-IsReady http m bot_id limit (intake_of b) h
  Step-IsReady (discord_command b format s admins m) h =
      handle_command-IsReady format s admins m b.store h
  Step-IsReady (processor_round b cfg v consumers) h = round-IsReady cfg v consumers (world_of b) h
  Step-IsReady (digest_tick b cfg consumers) h =
      process_digests-IsReady cfg consumers (world_of b) h
  Step-IsReady (admin_request b cfg q) h =
      Unchanged-IsReady (serve cfg q) (Changes-serve Unchanged-frame cfg q) b.store h

  StepOrCleanup-IsReady :
      {b c : Bridge} → StepOrCleanup b c → IsReady none b.store → IsReady none c.store
  StepOrCleanup-IsReady (step s) h = Step-IsReady s h
  StepOrCleanup-IsReady (cleanup b w) h = record {
    closed = h.closed;
    sound = run_retention_cleanup-IsSound w b.store.db h.sound;
    held = tt;
  }

  -- However the handlers of the bots, the rounds of the processor, the ticks of the scheduler, the
  -- requests to the panel and the runs of the cleanup follow each other, whatever the services answer
  -- and the driver refuses: from a store with no open transaction and a sound queue they reach only
  -- such stores.
  pub Reach-IsReady :
      {a b : Bridge} → IsReady none a.store → Reach StepOrCleanup a b → IsReady none b.store
  Reach-IsReady h here = h
  Reach-IsReady h (next p s) = StepOrCleanup-IsReady s (Reach-IsReady h p)

  watched-IsReady :
      {watched : Option Bytes} {a b : Bridge}
      → IsReady watched a.store
      → Reach Step a b
      → IsReady watched b.store
  watched-IsReady h here = h
  watched-IsReady h (next p s) = Step-IsReady s (watched-IsReady h p)

  -- No event is lost between two runs of the cleanup: one that is queued, processed or a dead letter
  -- is so after any sequence of messages and commands of the bots, rounds of the processor, ticks of the
  -- scheduler and requests to the panel, whatever the services answer and the driver refuses.
  pub Reach-keeps :
      (k : Bytes) {a b : Bridge}
      → a.store.tx ≡ none
      → IsSound a.store.db
      → is_kept k a.store.db ≡ true
      → Reach Step a b
      → is_kept k b.store.db ≡ true
  Reach-keeps k h v e p =
      IsReady.held
        (watched-IsReady {watched = some k} (record { closed = h; sound = v; held = e }) p)
