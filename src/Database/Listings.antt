-- ===== src/Database/Listings.antt =====
-- The queries of internal/database that list rows for the commands and the admin panel.
use cross_platform_media_sha.Base.{
  ℕ, suc, ◌++◌, ◌==◌, Bool, ◌&&◌, ◌||◌, List, [], ◌∷◌, ltb, leb, length, take, if◌then◌else◌,
}
use cross_platform_media_sha.Text.{Bytes, trim, same}
use cross_platform_media_sha.Models.{Route, bytes_eq, same_route}
use cross_platform_media_sha.Database.Table.{select, at}
use cross_platform_media_sha.Database.Rows.{
  PairingRow, DeadLetterRow, HistoryRow, AuditRow, DigestRow,
}
use cross_platform_media_sha.Database.Store.{Exec, ◌>>=◌, query, exec, time_now, unix}
use cross_platform_media_sha.Database.Pending.{Json}
use cross_platform_media_sha.Database.Pairings.{Pairing, bytes_lt, scan_pairings}

module _ {A : Type 0} where
  abbrev pub insert_by : (A → A → Bool) → A → List A → List A
  insert_by lt r [] = r ∷ []
  insert_by lt r (q ∷ qs) = let rest = insert_by lt r qs in if lt q r then q ∷ rest else r ∷ q ∷ qs

  -- ORDER BY; rows that tie stay in the order of the table
  unfoldable pub order_by : (A → A → Bool) → List A → List A
  order_by lt [] = []
  order_by lt (r ∷ rs) = insert_by lt r (order_by lt rs)

-- a limit that is not positive has a default, and there is a largest one
abbrev pub clamp_limit : ℕ → ℕ → ℕ → ℕ
clamp_limit default largest limit =
    if limit == 0 then default else if ltb largest limit then largest else limit

abbrev from_source : Bytes → Bytes → PairingRow → Bool
from_source platform id r = same r.route.source_platform platform && same r.route.source_id id

abbrev to_target : Bytes → Bytes → PairingRow → Bool
to_target platform id r = same r.route.target_platform platform && same r.route.target_id id

abbrev by_target_id : PairingRow → PairingRow → Bool
by_target_id q r = bytes_lt q.route.target_id r.route.target_id

abbrev by_source_id : PairingRow → PairingRow → Bool
by_source_id q r = bytes_lt q.route.source_id r.route.source_id

-- the order of the primary key, column by column
unfoldable pub route_lt : Route → Route → Bool
unfolding bytes_lt
route_lt a b =
    bytes_lt a.source_platform b.source_platform
    || (same a.source_platform b.source_platform
        && (bytes_lt a.source_id b.source_id
            || (same a.source_id b.source_id
                && (bytes_lt a.target_platform b.target_platform
                    || (same a.target_platform b.target_platform
                        && bytes_lt a.target_id b.target_id)))))

module _ ⦃j : Json⦄ where
  unfoldable pub get_pairings_by_source : Bytes → Bytes → Exec (List Pairing)
  unfolding order_by bytes_lt scan_pairings
  get_pairings_by_source platform id = do
    rows ← query (λ d. order_by by_target_id (select (from_source platform id) d.pairings))
    scan_pairings rows

  unfoldable pub get_pairings_by_target : Bytes → Bytes → Exec (List Pairing)
  unfolding order_by bytes_lt scan_pairings
  get_pairings_by_target platform id = do
    rows ← query (λ d. order_by by_source_id (select (to_target platform id) d.pairings))
    scan_pairings rows

  unfoldable pub list_all_pairings : ℕ → Exec (List Pairing)
  unfolding order_by route_lt scan_pairings
  list_all_pairings limit = do
    rows ← query (λ d.
        take (clamp_limit 100 500 limit) (order_by (λ q r. route_lt q.route r.route) d.pairings))
    scan_pairings rows

unfoldable pub count_pairings : Exec ℕ
count_pairings = query (λ d. length d.pairings)

unfoldable pub count_dead_letters : Exec ℕ
count_dead_letters = query (λ d. length d.dead_letters)

abbrev letter_to : Bytes → Bytes → DeadLetterRow → Bool
letter_to platform id l = same l.route.target_platform platform && same l.route.target_id id

-- the newest first
unfoldable pub list_dead_letters_by_target : Bytes → Bytes → ℕ → Exec (List DeadLetterRow)
unfolding order_by
list_dead_letters_by_target platform id limit = query λ d.
    take (clamp_limit 10 50 limit) (
      order_by (λ q r. ltb r.failed_at q.failed_at) (select (letter_to platform id) d.dead_letters))

abbrev history_of : HistoryRow → Bytes
history_of r = r.event_id

unfoldable pub get_event_history : Bytes → Exec (List HistoryRow)
unfolding order_by
get_event_history event_id = query λ d.
    order_by (λ q r. ltb q.created_at r.created_at)
      (select (at history_of event_id) d.event_history)

unfoldable pub insert_audit_log : Bytes → Bytes → Bytes → Bytes → Exec (Unit {0})
insert_audit_log action actor_platform actor_id details = do
  now ← time_now
  exec λ d. record d {
    audit_log =
        d.audit_log
        ++ record {
          id = d.next_id;
          action = trim action;
          actor_platform = trim actor_platform;
          actor_id = trim actor_id;
          details = trim details;
          created_at = unix now;
        }
          ∷ [];
    next_id = suc d.next_id;
  }

-- the newest first
unfoldable pub list_audit_logs : ℕ → Exec (List AuditRow)
unfolding order_by
list_audit_logs limit = query λ d.
    take (clamp_limit 10 50 limit) (order_by (λ q r. ltb r.created_at q.created_at) d.audit_log)

-- a target with entries that are due
pub record DigestGroup : Type 0 where
  pub route : Route
  pub deliver_after : ℕ
  pub count : ℕ

abbrev sooner : ℕ → ℕ → ℕ
sooner a b = if ltb b a then b else a

-- GROUP BY route, with MIN(deliver_after) and COUNT(*); the groups come in the order of the route
abbrev group_row : DigestRow → List DigestGroup → List DigestGroup
group_row r [] = record { route = r.route; deliver_after = r.deliver_after; count = 1 } ∷ []
group_row r (g ∷ gs) =
    let rest = group_row r gs in
    if same_route g.route r.route
    then record g { deliver_after = sooner g.deliver_after r.deliver_after; count = suc g.count }
      ∷ gs
    else if route_lt r.route g.route
    then record { route = r.route; deliver_after = r.deliver_after; count = 1 } ∷ (g ∷ gs)
    else g ∷ rest

unfoldable pub group_rows : List DigestRow → List DigestGroup
unfolding route_lt
group_rows [] = []
group_rows (r ∷ rs) = group_row r (group_rows rs)

unfoldable pub list_digest_groups_due : ℕ → ℕ → Exec (List DigestGroup)
unfolding group_rows order_by
list_digest_groups_due now limit = query λ d. take (clamp_limit 20 100 limit) (
    order_by (λ g h. ltb g.deliver_after h.deliver_after)
      (group_rows (select (λ r. leb r.deliver_after (unix now)) d.digest_events)))
