-- ===== src/Discord/Message.antt =====
-- The messages that the Discord library hands over, and what the producer reads from them.
use cross_platform_media_sha.Base.{ℕ, Option, none, some, List, ◌++◌, if◌then◌else◌}
use cross_platform_media_sha.Text.{Bytes, lit, same, has_prefix, is_empty}
use cross_platform_media_sha.Models.{
  media_type_photo, media_type_video, media_type_animation, media_type_document,
}

pub record Author : Type 0 where
  pub id : Bytes
  pub user_name : Bytes

pub record Member : Type 0 where
  pub nick : Bytes
  pub roles : List Bytes

pub record Attachment : Type 0 where
  pub id : Bytes
  pub url : Bytes
  pub file_name : Bytes
  pub content_type : Bytes
  pub size : ℕ

pub record MessageCreate : Type 0 where
  pub id : Bytes
  pub author : Option Author
  pub member : Option Member
  pub guild_id : Bytes
  pub channel_id : Bytes
  pub content : Bytes
  pub attachments : List Attachment

unfoldable pub get_media_type : Bytes → Bytes
unfolding has_prefix
get_media_type content_type =
    if has_prefix content_type (lit "image/")
    then if same content_type (lit "image/gif") then media_type_animation else media_type_photo
    else if has_prefix content_type (lit "video/")
    then media_type_video
    else media_type_document

-- the nick in the guild, where there is one
abbrev pub sender_name : Author → Option Member → Bytes
sender_name a none = a.user_name
sender_name a (some m) = if is_empty m.nick then a.user_name else m.nick

-- the number of an event; `part` is the attachment, or "text"
abbrev pub discord_event_id : MessageCreate → Bytes → Bytes → Bytes
discord_event_id m part target_id =
    lit "dc:" ++ m.channel_id ++ lit ":" ++ m.id ++ lit ":" ++ part ++ lit ":" ++ target_id
