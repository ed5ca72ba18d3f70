-- ===== src/Models.antt =====
-- internal/models: the event that travels through the bridge, and the rules of a pairing.
use cross_platform_media_sha.Base.{
  ℕ, ℤ, pos, Bool, false, List, [], ◌≡◌, Eq, ◌↔◌, true, ◌&&◌, arith,
}
use cross_platform_media_sha.Text.{Bytes, lit, same, same_iff}

-- models.MediaEvent. `available_at` is a Unix time, 0 if not set.
pub record MediaEvent : Type 0 where
  pub event_id : Bytes
  pub file_name : Bytes
  pub file_hash : Bytes
  pub caption : Bytes
  pub source_platform : Bytes
  pub source_id : Bytes
  pub target_platform : Bytes
  pub target_id : Bytes
  pub media_group_id : Bytes
  pub media_type : Bytes
  pub content_type : Bytes
  pub available_at : ℕ
  pub sender_name : Bytes
  pub reply_to_sender : Bytes
  pub reply_to_caption : Bytes
  pub file_url : Bytes

abbrev pub media_type_photo : Bytes
media_type_photo = lit "photo"

abbrev pub media_type_video : Bytes
media_type_video = lit "video"

abbrev pub media_type_animation : Bytes
media_type_animation = lit "animation"

abbrev pub media_type_document : Bytes
media_type_document = lit "document"

-- models.RuleConfig. A float64 is its bit pattern.
pub record RuleConfig : Type 0 where
  pub regex_filters : List Bytes
  pub blocked_senders : List Bytes
  pub include_words : List Bytes
  pub required_tags : List Bytes
  pub allowed_mime_types : List Bytes
  pub max_file_size_mb : ℤ
  pub quiet_hours_start : Bytes
  pub quiet_hours_end : Bytes
  pub burst_limit : ℤ
  pub burst_window : ℤ
  pub caption_template : Bytes
  pub language : Bytes
  pub simulation_mode : Bool
  pub digest_enabled : Bool
  pub digest_interval_minutes : ℤ
  pub digest_max_items : ℤ
  pub ai_moderation_enabled : Bool
  pub ai_moderation_threshold : ℕ

-- models.RuleConfig{}
abbrev pub no_rules : RuleConfig
no_rules = record {
  regex_filters = [];
  blocked_senders = [];
  include_words = [];
  required_tags = [];
  allowed_mime_types = [];
  max_file_size_mb = pos 0;
  quiet_hours_start = [];
  quiet_hours_end = [];
  burst_limit = pos 0;
  burst_window = pos 0;
  caption_template = [];
  language = [];
  simulation_mode = false;
  digest_enabled = false;
  digest_interval_minutes = pos 0;
  digest_max_items = pos 0;
  ai_moderation_enabled = false;
  ai_moderation_threshold = 0;
}

-- The four columns by which the tables address a pairing.
pub record Route : Type 0 where
  pub source_platform : Bytes
  pub source_id : Bytes
  pub target_platform : Bytes
  pub target_id : Bytes

abbrev pub route_of : MediaEvent → Route
route_of e = record {
  source_platform = e.source_platform;
  source_id = e.source_id;
  target_platform = e.target_platform;
  target_id = e.target_id;
}

unfoldable pub same_route : Route → Route → Bool
same_route a b =
    same a.source_platform b.source_platform
    && (same a.source_id b.source_id
        && (same a.target_platform b.target_platform && same a.target_id b.target_id))

pub same_route_iff : (a b : Route) → (same_route a b ≡ true) ↔ (a ≡ b)
unfolding same_route
same_route_iff a b = ground (
  arith,
  same_iff a.source_platform b.source_platform,
  same_iff a.source_id b.source_id,
  same_iff a.target_platform b.target_platform,
  same_iff a.target_id b.target_id,
)

instance abbrev pub bytes_eq : Eq Bytes
bytes_eq = record { beq = same; beq_iff = same_iff }

instance abbrev pub route_eq : Eq Route
route_eq = record { beq = same_route; beq_iff = same_route_iff }
