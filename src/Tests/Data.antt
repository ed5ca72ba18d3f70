-- ===== src/Tests/Data.antt =====
-- The events, stores and surroundings that the tests share.
use cross_platform_media_sha.Base.{ℕ, pos, ◌+◌, ◌*◌, ◌&&◌, none, [], ◌∷◌, leb, map, if◌then◌else◌}
use cross_platform_media_sha.Text.{Unicode, lit}
use cross_platform_media_sha.Models.{MediaEvent, no_rules}
use cross_platform_media_sha.Database.Rows.{empty_db, PendingRow}
use cross_platform_media_sha.Database.Store.{Store, Env, ok, second}
use cross_platform_media_sha.Database.Pending.{Json, pending_row}

-- the table of the letters A to Z
abbrev lower_byte : ℕ → ℕ
lower_byte c = if leb 65 c && leb c 90 then c + 32 else c

instance abbrev pub ascii : Unicode
ascii = record { map_lower = map lower_byte }

abbrev pub photo : MediaEvent
photo = record {
  event_id = lit "e1";
  file_name = lit "a.png";
  file_hash = [];
  caption = lit "Hello World";
  source_platform = lit "telegram";
  source_id = lit "1";
  target_platform = lit "discord";
  target_id = lit "2";
  media_group_id = [];
  media_type = lit "photo";
  content_type = lit "image/png";
  available_at = 0;
  sender_name = lit "ann";
  reply_to_sender = [];
  reply_to_caption = [];
  file_url = [];
}

-- a payload is the event's id
instance abbrev pub id_json : Json
id_json = record {
  encode_event = λ e. ok e.event_id;
  decode_event = λ b. ok (record photo { event_id = b });
  encode_rules = λ c. ok [];
  decode_rules = λ b. no_rules;
}

-- the clock shows a second more at each step
abbrev pub steady : Env
steady = record {
  fault = λ n. none;
  clock = λ n. (1000 + n) * second;
  duplicate_media_window = pos 86_400;
}

abbrev pub start : Store
start = record { db = empty_db; tx = none; env = steady; step = 0 }

-- the store that holds one queued event, with some retries
abbrev pub waiting : ℕ → PendingRow
waiting n = record (pending_row photo (lit "e1") 1000) { retry_count = n }

abbrev pub busy : ℕ → Store
busy n = record start { db = record empty_db { pending_events = waiting n ∷ [] } }

abbrev pub second_row : PendingRow
second_row = record (pending_row photo (lit "e2") 1001) { event_id = lit "e2" }

-- two events, both due
abbrev pub pair : Store
pair = record start { db = record empty_db { pending_events = waiting 0 ∷ second_row ∷ [] } }

abbrev pub hashed_photo : MediaEvent
hashed_photo = record photo { file_hash = lit "f00d" }
