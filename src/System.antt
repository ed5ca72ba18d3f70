-- ===== src/System.antt =====
-- The parts of the bridge on one store: what cmd/main.go starts, as steps that follow each other in
-- any order. A step is one call of a handler, which nothing interrupts: a message or a command of a
-- bot, a round of the processor, a tick of the digest scheduler, a request to the administration
-- panel. The answers of the services are part of each step, and so are free to change.
use cross_platform_media_sha.Base.{ℕ, Option, List}
use cross_platform_media_sha.Text.{Bytes, Unicode}
use cross_platform_media_sha.Models.{MediaEvent}
use cross_platform_media_sha.Database.Store.{Store}
use cross_platform_media_sha.Database.Pending.{Json}
use cross_platform_media_sha.Database.Cleanup.{Sweep, run_retention_cleanup}
use cross_platform_media_sha.Security.RateLimit.{Buckets}
use cross_platform_media_sha.Rules.Filter.{Regex}
use cross_platform_media_sha.Rules.Spam.{Bursts}
use cross_platform_media_sha.Observability.{Metrics}
use cross_platform_media_sha.Transport.{Consumers}
use cross_platform_media_sha.Producer.{Intake, Remote}
use cross_platform_media_sha.Telegram.Message.{Message}
use cross_platform_media_sha.Telegram.Media.{SourceLimit, Bot}
use cross_platform_media_sha.Telegram.Dispatch.{RulesParser}
use cross_platform_media_sha.Telegram.Updates.{handle_update}
use cross_platform_media_sha.Discord.Message.{MessageCreate}
use cross_platform_media_sha.Discord.Media.{handle_message_create}
use cross_platform_media_sha.Discord.Access.{Session, Admins}
use cross_platform_media_sha.Discord.Dispatch.{handle_command}
use cross_platform_media_sha.Queue.World.{World, Config, Services}
use cross_platform_media_sha.Queue.Process.{round}
use cross_platform_media_sha.Queue.Digest.{process_digests}
use cross_platform_media_sha.AdminPanel.{PanelConfig, Request, serve}
pub mod Safety

-- what the parts share, and what each keeps
pub record Bridge : Type 0 where
  pub store : Store
  pub source_buckets : Buckets
  pub bursts : Bursts
  pub received_events_total : ℕ
  pub dest_buckets : Buckets
  pub metrics : Metrics
  pub sent : List MediaEvent

-- what the producers see, and what is left of it
abbrev pub intake_of : Bridge → Intake
intake_of b = record {
  store = b.store;
  source_buckets = b.source_buckets;
  bursts = b.bursts;
  received_events_total = b.received_events_total;
}

abbrev pub with_intake : Bridge → Intake → Bridge
with_intake b w = record b {
  store = w.store;
  source_buckets = w.source_buckets;
  bursts = w.bursts;
  received_events_total = w.received_events_total;
}

-- what the processor and the scheduler see, and what is left of it
abbrev pub world_of : Bridge → World
world_of b = record {
  store = b.store;
  dest_buckets = b.dest_buckets;
  metrics = b.metrics;
  sent = b.sent;
}

abbrev pub with_world : Bridge → World → Bridge
with_world b w = record b {
  store = w.store;
  dest_buckets = w.dest_buckets;
  metrics = w.metrics;
  sent = w.sent;
}

abbrev pub with_store : Bridge → Store → Bridge
with_store b s = record b { store = s }

module _ ⦃j : Json⦄ ⦃u : Unicode⦄ ⦃r : Regex⦄ where
  -- one call of a handler
  pub data Step : Bridge → Bridge → Type 0 where
    telegram_update :
        (b : Bridge) (parser : RulesParser) (bot : Bot) (http : Remote) (trusted : List Bytes)
        (limit : SourceLimit) (m : Option Message)
        → Step b (with_intake b (handle_update parser bot http trusted limit m (intake_of b)).1)
    discord_message :
        (b : Bridge) (http : Remote) (m : MessageCreate) (bot_id : Bytes) (limit : SourceLimit)
        → Step b (with_intake b (handle_message_create http m bot_id limit (intake_of b)))
    discord_command :
        (b : Bridge) (format : ℕ → Bytes) (s : Session) (admins : Admins) (m : MessageCreate)
        → Step b (with_store b (handle_command format s admins m b.store).1)
    processor_round :
        (b : Bridge) (cfg : Config) (v : Services) (consumers : Consumers)
        → Step b (with_world b (round cfg v consumers (world_of b)))
    digest_tick :
        (b : Bridge) (cfg : Config) (consumers : Consumers)
        → Step b (with_world b (process_digests cfg consumers (world_of b)))
    admin_request :
        (b : Bridge) (cfg : PanelConfig) (q : Request)
        → Step b (with_store b (serve cfg q b.store).1)

  -- the same, or a run of the retention cleanup
  pub data StepOrCleanup : Bridge → Bridge → Type 0 where
    step : {b c : Bridge} → Step b c → StepOrCleanup b c
    cleanup :
        (b : Bridge) (w : Sweep)
        → StepOrCleanup b
            (with_store b (record b.store { db = run_retention_cleanup w b.store.db }))

-- what any number of steps leads to
pub data Reach (R : Bridge → Bridge → Type 0) (a : Bridge) : Bridge → Type 0 where
  here : Reach R a a
  next : {b c : Bridge} → Reach R a b → R b c → Reach R a c
