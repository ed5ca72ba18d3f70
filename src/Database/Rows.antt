-- ===== src/Database/Rows.antt =====
-- The tables of the SQLite file, one record for the columns of each (internal/database/migrations.go).
-- The four columns that address a pairing stand together as a `Route`.
use cross_platform_media_sha.Base.{ℕ, Option, List, [], ◌≡◌, ◌↔◌, Bool, true, ◌&&◌, arith, Eq}
use cross_platform_media_sha.Text.{Bytes, same, same_iff}
use cross_platform_media_sha.Models.{Route, same_route, same_route_iff}

-- pairings; `none` is NULL
pub record PairingRow : Type 0 where
  pub route : Route
  pub rule_config : Option Bytes
  pub webhook_secret : Option Bytes

-- blocked_words
pub record BlockedRow : Type 0 where
  pub route : Route
  pub word : Bytes

-- pending_events; times are Unix seconds
pub record PendingRow : Type 0 where
  pub event_id : Bytes
  pub route : Route
  pub payload : Bytes
  pub available_at : ℕ
  pub retry_count : ℕ
  pub last_error : Bytes
  pub created_at : ℕ

-- processed_events
pub record ProcessedRow : Type 0 where
  pub event_id : Bytes
  pub processed_at : ℕ

-- dead_letters
pub record DeadLetterRow : Type 0 where
  pub dead_letter_id : ℕ
  pub event_id : Bytes
  pub route : Route
  pub file_name : Bytes
  pub payload : Bytes
  pub retry_count : ℕ
  pub failure_reason : Bytes
  pub failed_at : ℕ

-- media_dedupe
pub record DedupeRow : Type 0 where
  pub route : Route
  pub file_hash : Bytes
  pub created_at : ℕ

-- event_history
pub record HistoryRow : Type 0 where
  pub id : ℕ
  pub event_id : Bytes
  pub status : Bytes
  pub details : Bytes
  pub created_at : ℕ

-- audit_log
pub record AuditRow : Type 0 where
  pub id : ℕ
  pub action : Bytes
  pub actor_platform : Bytes
  pub actor_id : Bytes
  pub details : Bytes
  pub created_at : ℕ

-- digest_events
pub record DigestRow : Type 0 where
  pub id : ℕ
  pub route : Route
  pub event_id : Bytes
  pub caption : Bytes
  pub file_name : Bytes
  pub media_type : Bytes
  pub created_at : ℕ
  pub deliver_after : ℕ

-- The file. `next_id` is the counter behind the AUTOINCREMENT columns, which only have to be new.
pub record Db : Type 0 where
  pub pairings : List PairingRow
  pub blocked_words : List BlockedRow
  pub pending_events : List PendingRow
  pub processed_events : List ProcessedRow
  pub dead_letters : List DeadLetterRow
  pub media_dedupe : List DedupeRow
  pub event_history : List HistoryRow
  pub audit_log : List AuditRow
  pub digest_events : List DigestRow
  pub next_id : ℕ

abbrev pub empty_db : Db
empty_db = record {
  pairings = [];
  blocked_words = [];
  pending_events = [];
  processed_events = [];
  dead_letters = [];
  media_dedupe = [];
  event_history = [];
  audit_log = [];
  digest_events = [];
  next_id = 1;
}

-- PRIMARY KEY (source_platform, source_id, target_platform, target_id, file_hash)
pub record DedupeKey : Type 0 where
  pub route : Route
  pub file_hash : Bytes

abbrev pub dedupe_key : DedupeRow → DedupeKey
dedupe_key r = record { route = r.route; file_hash = r.file_hash }

pub same_dedupe : DedupeKey → DedupeKey → Bool
same_dedupe a b = same_route a.route b.route && same a.file_hash b.file_hash

pub same_dedupe_iff : (a b : DedupeKey) → (same_dedupe a b ≡ true) ↔ (a ≡ b)
unfolding same_dedupe
same_dedupe_iff a b =
    ground (arith, same_route_iff a.route b.route, same_iff a.file_hash b.file_hash)

-- PRIMARY KEY (source_platform, source_id, target_platform, target_id, word)
unfoldable pub same_blocked : BlockedRow → BlockedRow → Bool
same_blocked a b = same_route a.route b.route && same a.word b.word

pub same_blocked_iff : (a b : BlockedRow) → (same_blocked a b ≡ true) ↔ (a ≡ b)
unfolding same_blocked
same_blocked_iff a b = ground (arith, same_route_iff a.route b.route, same_iff a.word b.word)

instance abbrev pub dedupe_eq : Eq DedupeKey
dedupe_eq = record { beq = same_dedupe; beq_iff = same_dedupe_iff }

instance abbrev pub blocked_eq : Eq BlockedRow
blocked_eq = record { beq = same_blocked; beq_iff = same_blocked_iff }
