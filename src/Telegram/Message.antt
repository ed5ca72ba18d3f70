-- ===== src/Telegram/Message.antt =====
-- The messages that the Telegram library hands over, and what the producer reads from them.
use cross_platform_media_sha.Base.{ℕ, ℤ, Option, none, some, List, [], ◌∷◌, ◌++◌, if◌then◌else◌}
use cross_platform_media_sha.Text.{Bytes, lit, trim, is_empty, decimal_int}
use cross_platform_media_sha.Models.{
  media_type_photo, media_type_video, media_type_animation, media_type_document,
}

pub record User : Type 0 where
  pub id : ℤ
  pub first_name : Bytes
  pub last_name : Bytes
  pub user_name : Bytes

pub record MediaFile : Type 0 where
  pub file_id : Bytes
  pub file_name : Bytes
  pub file_size : ℕ
  pub mime_type : Bytes

pub record ReplyTo : Type 0 where
  pub from : Option User
  pub text : Bytes
  pub caption : Bytes

-- `command` is the name and the arguments, where IsCommand holds
pub record Message : Type 0 where
  pub chat_id : ℤ
  pub message_id : ℤ
  pub from : Option User
  pub caption : Bytes
  pub media_group_id : Bytes
  pub reply_to_message : Option ReplyTo
  pub photo : List MediaFile
  pub video : Option MediaFile
  pub animation : Option MediaFile
  pub document : Option MediaFile
  pub command : Option (Bytes × Bytes)

-- (fileID, fileName, mediaType, fileSize, contentType)
pub record Metadata : Type 0 where
  pub file_id : Bytes
  pub file_name : Bytes
  pub media_type : Bytes
  pub file_size : ℕ
  pub content_type : Bytes

-- the file of a kind, with a name where it has none
abbrev described : Bytes → Bytes → MediaFile → Metadata
described name media_type f = record {
  file_id = f.file_id;
  file_name = if is_empty f.file_name then name else f.file_name;
  media_type = media_type;
  file_size = f.file_size;
  content_type = f.mime_type;
}

abbrev no_media : Metadata
no_media = record {
  file_id = [];
  file_name = [];
  media_type = [];
  file_size = 0;
  content_type = [];
}

abbrev of_document : Option MediaFile → Metadata
of_document none = no_media
of_document (some f) = described (lit "document.bin") media_type_document f

abbrev of_animation : Option MediaFile → Metadata → Metadata
of_animation none rest = rest
of_animation (some f) rest = described (lit "animation.mp4") media_type_animation f

abbrev of_video : Option MediaFile → Metadata → Metadata
of_video none rest = rest
of_video (some f) rest = described (lit "video.mp4") media_type_video f

-- the last size of a photo, which is the largest
abbrev of_photo : List MediaFile → Metadata → Metadata
of_photo [] rest = rest
of_photo (f ∷ []) rest = record {
  file_id = f.file_id;
  file_name = lit "image.jpg";
  media_type = media_type_photo;
  file_size = f.file_size;
  content_type = lit "image/jpeg";
}
of_photo (f ∷ g ∷ fs) rest = of_photo (g ∷ fs) rest

unfoldable pub extract_media_metadata : Message → Metadata
extract_media_metadata m =
    of_photo m.photo (of_video m.video (of_animation m.animation (of_document m.document)))

unfoldable pub chat_string : Message → Bytes
unfolding decimal_int
chat_string m = decimal_int m.chat_id

unfoldable pub build_event_id : Message → Bytes → Bytes → Bytes
unfolding decimal_int
build_event_id m file_id target_id =
    lit "tg:"
    ++ decimal_int m.chat_id
    ++ lit ":"
    ++ decimal_int m.message_id
    ++ lit ":"
    ++ file_id
    ++ lit ":"
    ++ target_id

-- the name of a user: the two names, or the user name
abbrev full_name : User → Bytes
full_name f =
    let name = trim (f.first_name ++ lit " " ++ f.last_name) in
    if is_empty name then f.user_name else name

abbrev pub name_of : Option User → Bytes
name_of none = []
name_of (some f) = full_name f

unfoldable pub user_id : Option User → Bytes
unfolding decimal_int
user_id none = []
user_id (some f) = decimal_int f.id

abbrev pub reply_sender : Option ReplyTo → Bytes
reply_sender none = []
reply_sender (some r) = name_of r.from

abbrev pub reply_caption : Option ReplyTo → Bytes
reply_caption none = []
reply_caption (some r) = if is_empty r.text then r.caption else r.text
