-- ===== src/Lib.antt =====
-- Verification library of the media bridge (a Go program that carries media between Telegram,
-- Discord and web hooks).
--
-- The program's parts: producers turn messages into events (internal/models), rules decide whether
-- an event is taken (internal/rules, internal/security), the event is put into a queue in SQLite
-- (internal/database), and a processor (internal/queue) claims the events one by one, applies the
-- rules of the pairing, and hands them to the consumer of the platform (internal/transport, which
-- internal/telegram, internal/discord and internal/webhook serve). Pairings with digests are summed up
-- by a scheduler. The commands of the two bots change the pairings, their rules and their blocked
-- words, and the administration panel reads them.
--
-- What models what:
--   Base                 the tests, lists and 64-bit integers that the modules share
--   Text                 strings as byte lists, and the functions of Go's `strings`
--   Models               internal/models: MediaEvent and RuleConfig
--   Database.Table, Rows the tables of internal/database/migrations.go as lists of rows, and the
--                        statements on them
--   Database.Store       the connection: statements, transactions, the errors of the driver, the clock
--   Database.Pending     internal/database/db.go: EnqueuePendingEvent, recordMediaDedupe
--   Database.Delivery    internal/database/db.go: ClaimNextPendingEvent, AckPendingEvent,
--                        ReschedulePendingEvent, MovePendingEventToDeadLetter, ReplayDeadLetter,
--                        GetQueueStats
--   Database.Pairings    internal/database/db.go: LinkChannel, UnlinkChannel, GetPairing,
--                        UpdateRuleConfig, the blocked words, InsertEventHistory
--   Database.Listings    internal/database/db.go and admin.go: the queries that list rows, the audit
--                        log, the groups of digests that are due
--   Database.Targets     internal/database/db.go: blocked words for all targets of a source
--   Database.Blocklist   the blocked words as a set for each route: the calls (Calls), and the one that
--                        sends several statements (Added)
--   Database.Stats       internal/database/stats.go
--   Database.Export      internal/database/export.go
--   Database.Digests     internal/database/digest.go
--   Database.Frame       what an action may change: a rule for each way to build one
--   Database.Frames      the calls that spare the tables of the queue
--   Database.Retention   internal/database/retention.go: cleanupTable
--   Database.Cleanup     internal/database/retention.go: RunRetentionCleanup; Sweeps says what it
--                        deletes
--   Database.Queue       the properties of the queue: what each call leaves behind (Outcomes), the
--                        invariant (Invariant), sequences of calls (Run, Loss), the contract (Laws,
--                        Duplicates, Letters)
--   Database.Migrations  internal/database/migrations.go: the words of an old column (Legacy), the file
--                        with its tables and indexes (Catalog), statements that do not branch on the
--                        driver (Script), the connection (Session), the migrations (Columns, Steps),
--                        RunMigrations and InitDB (Run); what they keep (Data, Words, Keeping, Kept,
--                        Applied, Holds, Safe, Current) and what they reach (Shape, InitReached,
--                        Reached, Progress, Rounds, Finish)
--   Security             internal/security: checkLimit, ApplyFileRuleDefaults, the settings
--                        and secrets from the environment
--   Rules                internal/rules/engine.go: the five rules; Hashtags says what the
--                        expression for hashtags finds
--   Observability        internal/observability: the counters; the readiness, the metrics page
--                        and the alerts (Endpoints)
--   I18n                 internal/i18n/i18n.go
--   Producer             what the producers of internal/telegram and internal/discord do alike: the
--                        chain of rules, the hash of a file, the way into the queue; Sound says what
--                        it keeps
--   Telegram             internal/telegram/producer.go: the messages (Message), the loop body for a
--                        file (Media), the commands (Commands, Dispatch), the loop (Updates); their
--                        properties (Keeps, Frames, Access, Ids); consumer.go (Consumer)
--   Discord              internal/discord: producer.go (Message, Media), the commands of consumer.go
--                        (Access, Replies, Commands, Dispatch), Send (Consumer); their properties
--                        (Keeps, Frames, Guard)
--   Webhook              internal/webhook/consumer.go
--   Moderation           internal/moderation
--   AdminPanel           internal/adminpanel/server.go; what a request may change (Reads)
--   Transport            internal/transport/transport.go: the registry of the consumers
--   Queue                internal/queue/processor.go: containsBlockedWord (Words), applyFormatting
--                        (World), handleDeliveryFailure (Failure), processQueuedEvent and a round of
--                        StartProcessor (Process); their properties (Steps, Carried, Keeps,
--                        Ready, Retries); internal/queue/digest.go (Digest, Entries)
--   System               cmd/main.go: the handlers of all parts on one store, one after the other in
--                        any order; Safety says what every such sequence keeps
--   Cli                  cmd/cli/main.go: the package `flag` (Flags), the commands (Commands), what they
--                        may change (Safety), the spelling of flags (Spelled), and what the
--                        flags of add-webhook lead to (Linked)
--   Tests                concrete runs
--
-- A function of the database is a function from a store to a result and a store. `Env` says for
-- each step whether the driver refuses the statement, and what the clock shows; a transaction keeps
-- the contents at its BEGIN, and a rollback brings them back. Times are nanoseconds since 1970, the
-- columns seconds. JSON, regular expressions, the Unicode case table, the float64 operations
-- and the formatting of times are records that the definitions take, as are the Telegram and Discord
-- libraries, HTTP and SHA-256. A command of a bot is an action whose result is the reply. The
-- processor is a function on a `World`: the store, the buckets of the destinations, the counters, and
-- the list of events that a consumer has accepted.
--
-- Bounds and fuel: the loop of cleanupTable runs on fuel, and one more than the number of rows is
-- enough, which is proved; the printing of a number has fuel for twenty digits, more than an int64
-- has. Durations wrap like an int64 where the source multiplies or shifts them. The quiet
-- hours are in UTC, so a day has 24 hours.
--
-- Not modelled: the log and the HTTP server of internal/observability, the page of the administration,
-- the connections to the services, the start in cmd/main.go, and the texts of cmd/cli that list the
-- flags and the commands. In System a handler runs to its end before the next one starts:
-- interleavings of single statements of two handlers are not modelled. The migrations take what
-- SQLite says of a refused statement as a parameter, and the row at which an error ends the reading
-- of the pairings in version 2 as another (`Interruption`). The commands of cmd/cli start with an
-- open database: the call of InitDB before them is in Database.Migrations only.
pub mod Base
pub mod Text
pub mod Models
pub mod Database
pub mod Security
pub mod Rules
pub mod Observability
pub mod Transport
pub mod Queue
pub mod I18n
pub mod Producer
pub mod Telegram
pub mod Moderation
pub mod Webhook
pub mod AdminPanel
pub mod Cli
pub mod Discord
pub mod System
pub mod Tests
