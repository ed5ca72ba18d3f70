-- ===== src/Discord/Consumer.antt =====
-- internal/discord/consumer.go: an event is sent to a channel.
use cross_platform_media_sha.Base.{ℕ, Option, none, some, ◌++◌, if◌then◌else◌, ◌==◌}
use cross_platform_media_sha.Text.{Bytes, lit, is_empty, decimal}
use cross_platform_media_sha.Models.{MediaEvent}
use cross_platform_media_sha.Database.Store.{Result, ok, err}

-- discordgo.MessageSend with one file
pub record MessageSend : Type 0 where
  pub content : Bytes
  pub name : Bytes
  pub content_type : Bytes
  pub body : Bytes

-- The session and HTTP: a request that cannot be made has an error; a response has a status and a
-- body; a message that is refused has an error.
pub record Client : Type 0 where
  pub new_request : Bytes → Option Bytes
  pub do_request : Bytes → Result (ℕ × Bytes)
  pub channel_message_send : Bytes → Bytes → Option Bytes
  pub channel_message_send_complex : Bytes → MessageSend → Option Bytes

abbrev upload : Client → MediaEvent → Result (ℕ × Bytes) → Option Bytes
upload c e (err m) = some m
upload c e (ok (status, body)) =
    if status == 200
    then c.channel_message_send_complex e.target_id (record {
      content = e.caption;
      name = e.file_name;
      content_type = e.content_type;
      body = body;
    })
    else some (lit "failed to stream file, status code: " ++ decimal status)

abbrev request : Client → MediaEvent → Option Bytes → Option Bytes
request c e (some m) = some m
request c e none = upload c e (c.do_request e.file_url)

-- Send of a session; `none` is success
unfoldable pub send : Option Client → MediaEvent → Option Bytes
unfolding decimal
send none e = some (lit "discord session not initialized")
send (some c) e =
    if is_empty e.file_url
    then c.channel_message_send e.target_id e.caption
    else request c e (c.new_request e.file_url)
