-- ===== src/Database/Stats.antt =====
-- internal/database/stats.go: how many events of a source had which status.
use cross_platform_media_sha.Base.{
  ℕ, suc, Bool, false, ◌&&◌, ◌||◌, Option, none, some, List, [], ◌∷◌, leb, ltb, if◌then◌else◌,
}
use cross_platform_media_sha.Text.{Bytes, lit, trim, is_empty, same, split}
use cross_platform_media_sha.Database.Table.{select}
use cross_platform_media_sha.Database.Rows.{HistoryRow}
use cross_platform_media_sha.Database.Store.{Exec, fail, query}
use cross_platform_media_sha.Security.RateLimit.{lookup, insert}

abbrev pub source_of_parts : List Bytes → Option (Bytes × Bytes)
source_of_parts [] = none
source_of_parts (a ∷ []) = none
source_of_parts (a ∷ b ∷ rest) =
    if same a (lit "tg")
    then some (lit "telegram", b)
    else if same a (lit "dc")
    then some (lit "discord", b)
    else if same a (lit "digest")
    then elim rest [ [] ↦ none | c ∷ _ ↦ some (trim b, trim c) ]
    else none

unfoldable pub parse_source_from_event_id : Bytes → Option (Bytes × Bytes)
unfolding split
parse_source_from_event_id event_id = source_of_parts (split event_id b':')

-- `counts` is a Go map: a later entry hides an earlier one; `last_event_at` is in seconds
pub record ChatStats : Type 0 where
  pub source_platform : Bytes
  pub source_id : Bytes
  pub since : ℕ
  pub counts : List (Bytes × ℕ)
  pub last_event_at : Option ℕ

abbrev pub or_zero : Option ℕ → ℕ
or_zero none = 0
or_zero (some n) = n

abbrev clean_status : Bytes → Bytes
clean_status s = if is_empty (trim s) then lit "unknown" else trim s

abbrev later : Option ℕ → ℕ → Option ℕ
later none t = some t
later (some l) t = if ltb l t then some t else some l

abbrev is_source : Option (Bytes × Bytes) → Bytes → Bytes → Bool
is_source none platform id = false
is_source (some (p, i)) platform id = same p platform && same i id

-- one row of the event history
abbrev pub tally : HistoryRow → ChatStats → ChatStats
tally r c =
    if is_source (parse_source_from_event_id r.event_id) c.source_platform c.source_id
    then record c {
      counts =
          insert (clean_status r.status) (suc (or_zero (lookup (clean_status r.status) c.counts)))
            c.counts;
      last_event_at = later c.last_event_at r.created_at;
    }
    else c

unfoldable pub tally_rows : List HistoryRow → ChatStats → ChatStats
unfolding parse_source_from_event_id lookup insert
tally_rows [] c = c
tally_rows (r ∷ rs) c = tally_rows rs (tally r c)

unfoldable pub get_chat_stats : Bytes → Bytes → ℕ → Exec ChatStats
unfolding tally_rows
get_chat_stats source_platform source_id since =
    let platform = trim source_platform in
    let id = trim source_id in
    let empty : ChatStats = record {
      source_platform = platform;
      source_id = id;
      since = since;
      counts = [];
      last_event_at = none;
    } in
    if is_empty platform || is_empty id
    then fail (lit "source platform and id are required")
    else query λ d. tally_rows (select (λ r. leb since r.created_at) d.event_history) empty
