-- ===== src/Telegram/Consumer.antt =====
-- internal/telegram/consumer.go: an event is sent to a chat.
use cross_platform_media_sha.Base.{
  ℕ, ℤ, ◌≡◌, ◌∙◌, ap, refl, Option, none, some, [], ◌++◌, if◌then◌else◌, ◌==◌,
}
use cross_platform_media_sha.Text.{
  Bytes, lit, same, is_empty, decimal, parse_int, IsInt64, parse_int-decimal_int,
}
use cross_platform_media_sha.Models.{
  MediaEvent, media_type_photo, media_type_video, media_type_animation,
}
use cross_platform_media_sha.Database.Store.{Result, ok, err}
use cross_platform_media_sha.Telegram.Message.{Message, chat_string}

-- what the Telegram library sends: a text, or a file of a kind with a caption
pub data Outgoing : Type 0 where
  text : ℤ → Bytes → Outgoing
  new_photo : ℤ → Bytes → Bytes → Bytes → Outgoing
  new_video : ℤ → Bytes → Bytes → Bytes → Outgoing
  new_animation : ℤ → Bytes → Bytes → Bytes → Outgoing
  new_document : ℤ → Bytes → Bytes → Bytes → Outgoing

-- The bot and HTTP: a request that cannot be made has an error; a response has a status and a body;
-- a message that is refused has an error; `parse_error` is the text of strconv.ParseInt's error.
pub record Client : Type 0 where
  pub parse_error : Bytes → Bytes
  pub new_request : Bytes → Option Bytes
  pub do_request : Bytes → Result (ℕ × Bytes)
  pub send_message : Outgoing → Option Bytes

-- the message for a file, by the type of the event
abbrev file_message : MediaEvent → ℤ → Bytes → Outgoing
file_message e chat body =
    if same e.media_type media_type_photo
    then new_photo chat e.file_name body e.caption
    else if same e.media_type media_type_video
    then new_video chat e.file_name body e.caption
    else if same e.media_type media_type_animation
    then new_animation chat e.file_name body e.caption
    else new_document chat e.file_name body e.caption

abbrev stream_response : Client → MediaEvent → ℤ → Result (ℕ × Bytes) → Option Bytes
stream_response c e chat (err m) = some (lit "failed to stream file from url: " ++ m)
stream_response c e chat (ok (status, body)) =
    if status == 200
    then c.send_message (file_message e chat body)
    else some (lit "unexpected status code when streaming file: " ++ decimal status)

abbrev stream_request : Client → MediaEvent → ℤ → Option Bytes → Option Bytes
stream_request c e chat (some m) = some (lit "failed to create request for file stream: " ++ m)
stream_request c e chat none = stream_response c e chat (c.do_request e.file_url)

abbrev send_to : Client → MediaEvent → Option ℤ → Option Bytes
send_to c e none = some (lit "invalid telegram target id: " ++ c.parse_error e.target_id)
send_to c e (some chat) =
    if is_empty e.file_url
    then c.send_message (text chat e.caption)
    else stream_request c e chat (c.new_request e.file_url)

-- Send of a bot; `none` is success
unfoldable pub send : Option Client → MediaEvent → Option Bytes
unfolding parse_int decimal
send none e = some (lit "telegram bot instance not initialized")
send (some c) e = send_to c e (parse_int e.target_id)

-- A text for a Telegram chat goes to that chat: where an event has no file, and its target is the
-- number of a message's chat as the producer prints it, and the number is an int64, Send hands the
-- caption to the bot for that very chat, and answers what the bot answers.
pub send-chat_string :
    (c : Client) (e : MediaEvent) (m : Message)
    → IsInt64 m.chat_id
    → e.target_id ≡ chat_string m
    → e.file_url ≡ []
    → send (some c) e ≡ c.send_message (text m.chat_id e.caption)
unfolding send chat_string
send-chat_string c e m h t u =
    let read : parse_int e.target_id ≡ some m.chat_id =
      ap parse_int t ∙ parse_int-decimal_int m.chat_id h in
    rw (read, u) refl
