-- ===== src/Tests/System.antt =====
-- The parts of the bridge taking turns.
use cross_platform_media_sha.Base.{◌≡◌, refl, none, some, true, []}
use cross_platform_media_sha.Text.{lit, same}
use cross_platform_media_sha.Database.Table.{has}
use cross_platform_media_sha.Database.Store.{Store}
use cross_platform_media_sha.Database.Queue.Kept.{is_kept}
use cross_platform_media_sha.Producer.Sound.{IsReady}
use cross_platform_media_sha.Queue.World.{default_config}
use cross_platform_media_sha.AdminPanel.{PanelConfig, Request, serve}
use cross_platform_media_sha.AdminPanel.Reads.{serve-reads}
use cross_platform_media_sha.System.{
  Bridge, telegram_update, processor_round, digest_tick, step, cleanup, here, next, with_store,
  with_world, with_intake, intake_of, world_of,
}
use cross_platform_media_sha.System.Safety.{Reach-IsReady, Reach-keeps}
use cross_platform_media_sha.Queue.Process.{round}
use cross_platform_media_sha.Queue.Digest.{process_digests}
use cross_platform_media_sha.Telegram.Updates.{handle_update}
use cross_platform_media_sha.Database.Cleanup.{run_retention_cleanup}
use cross_platform_media_sha.Tests.Data.{ascii, id_json, busy}
use cross_platform_media_sha.Tests.Database.{busy-IsSound, late}
use cross_platform_media_sha.Tests.Queue.{services, registry, broken}
use cross_platform_media_sha.Tests.Bots.{
  no_pattern, posted, linked_store, linked-IsReady, parser, bot, http, limit,
}

abbrev bridge : Store → Bridge
bridge s = record {
  store = s;
  source_buckets = [];
  bursts = record { burst_counts = []; burst_last = [] };
  received_events_total = 0;
  dest_buckets = [];
  metrics = record {
    forwarded_events_total = 0;
    failed_events_total = 0;
    filtered_events_total = 0;
    reconnect_streak = 0;
  };
  sent = [];
}

-- a picture comes in, and is delivered
abbrev taken_in : Bridge
taken_in =
    let b = bridge linked_store in
    with_intake b (handle_update parser bot http [] limit (some posted) (intake_of b)).1

abbrev swept : Bridge
swept =
    with_store taken_in
      (record taken_in.store { db = run_retention_cleanup late taken_in.store.db })

Reach-IsReady_example : IsReady none swept.store
Reach-IsReady_example = Reach-IsReady linked-IsReady (
    next
      (next here
        (step (telegram_update (bridge linked_store) parser bot http [] limit (some posted))))
      (cleanup taken_in late))

-- a delivery that fails, and a tick of the scheduler
abbrev failed : Bridge
failed =
    let b = bridge (busy 0) in
    with_world b (round default_config services (registry broken) (world_of b))

abbrev ticked : Bridge
ticked = with_world failed (process_digests default_config (registry broken) (world_of failed))

Reach-keeps_example : is_kept (lit "e1") ticked.store.db ≡ true
unfolding has same
Reach-keeps_example = Reach-keeps (lit "e1") refl (busy-IsSound 0) refl (
    next (next here (processor_round (bridge (busy 0)) default_config services (registry broken)))
      (digest_tick failed default_config (registry broken)))

abbrev panel : PanelConfig
panel = record { enabled = true; addr = lit "127.0.0.1:9091"; token = lit "t"; default_limit = 100 }

abbrev asked : Request
asked = record {
  path = lit "/admin/api/pairings";
  x_admin_token = lit "t";
  authorization = [];
  query = λ name. [];
}

serve-reads_example : (serve panel asked linked_store).1.db ≡ linked_store.db
serve-reads_example = serve-reads panel asked linked_store
