-- ===== src/Transport.antt =====
-- internal/transport/transport.go: the registry of the consumers, one for each platform.
use cross_platform_media_sha.Base.{ℕ, ◌≡◌, Option, none, some, List, ◌++◌, if◌then◌else◌, arith}
use cross_platform_media_sha.Text.{Bytes, lit, same}
use cross_platform_media_sha.Models.{MediaEvent}
use cross_platform_media_sha.Security.RateLimit.{lookup, insert, lookup-insert}
use cross_platform_media_sha.Database.Store.{Result, ok, err}

-- transport.Consumer; `send` is given the number of the attempt, and returns its error
pub record Consumer : Type 0 where
  pub platform_id : Bytes
  pub send : MediaEvent → ℕ → Option Bytes

abbrev pub Consumers : Type 0
Consumers = List (Bytes × Consumer)

unfoldable pub register_consumer : Consumer → Consumers → Consumers
register_consumer c consumers = insert c.platform_id c consumers

abbrev resolved : Option Consumer → Bytes → Result Consumer
resolved (some c) platform_id = ok c
resolved none platform_id = err (lit "consumer not found for platform: " ++ platform_id)

unfoldable pub get_consumer : Consumers → Bytes → Result Consumer
get_consumer consumers platform_id = resolved (lookup platform_id consumers) platform_id

-- A platform resolves to the consumer that was registered last under its name.
pub get-register_consumer :
    (c : Consumer) (consumers : Consumers) (platform_id : Bytes)
    → get_consumer (register_consumer c consumers) platform_id
      ≡ (if same c.platform_id platform_id then ok c else get_consumer consumers platform_id)
unfolding get_consumer register_consumer
get-register_consumer c consumers platform_id =
    rw (lookup-insert c.platform_id platform_id c consumers) (ground arith)
