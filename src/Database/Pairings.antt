-- ===== src/Database/Pairings.antt =====
-- Pairings, their rules and their blocked words (internal/database/db.go), and the event history.
use cross_platform_media_sha.Base.{
  suc, Bool, true, false, ◌&&◌, ◌||◌, Option, none, some, List, [], ◌∷◌, ◌++◌, map, ltb, ◌==◌,
  if◌then◌else◌,
}
use cross_platform_media_sha.Text.{Bytes, Unicode, lit, trim, to_lower, is_empty}
use cross_platform_media_sha.Models.{RuleConfig, no_rules, Route, same_route, route_eq, bytes_eq}
use cross_platform_media_sha.Database.Table.{select, delete, update, has, at, insert_new, count}
use cross_platform_media_sha.Database.Rows.{Db, PairingRow, BlockedRow, blocked_eq}
use cross_platform_media_sha.Database.Store.{
  Exec, pure, fail, lift, ◌>>=◌, query, exec, statement, time_now, unix,
}
use cross_platform_media_sha.Database.Pending.{Json}
use cross_platform_media_sha.Database.Delivery.{no_rows}

pub record Pairing : Type 0 where
  pub route : Route
  pub blocked_words : List Bytes
  pub rule_config : RuleConfig
  pub webhook_secret : Bytes

abbrev pub pairing_route : PairingRow → Route
pairing_route r = r.route

abbrev pub blocked_row : BlockedRow → BlockedRow
blocked_row r = r

-- the order of SQLite's BINARY collation
unfoldable pub bytes_lt : Bytes → Bytes → Bool
bytes_lt s [] = false
bytes_lt [] (b ∷ t) = true
bytes_lt (a ∷ s) (b ∷ t) = ltb a b || (a == b && bytes_lt s t)

abbrev pub place : Bytes → List Bytes → List Bytes
place w [] = w ∷ []
place w (v ∷ vs) = let rest = place w vs in if bytes_lt v w then v ∷ rest else w ∷ v ∷ vs

-- ORDER BY word ASC
unfoldable pub sort_words : List Bytes → List Bytes
unfolding bytes_lt
sort_words [] = []
sort_words (w ∷ ws) = place w (sort_words ws)

abbrev pub trim_route : Route → Route
trim_route r = record {
  source_platform = trim r.source_platform;
  source_id = trim r.source_id;
  target_platform = trim r.target_platform;
  target_id = trim r.target_id;
}

abbrev pub incomplete : Route → Bool
incomplete r =
    is_empty r.source_platform
    || (is_empty r.source_id || (is_empty r.target_platform || is_empty r.target_id))

-- INSERT INTO pairings … ON CONFLICT(…) DO UPDATE SET webhook_secret; rule_config has its default
abbrev pub upsert_pairing : Route → Bytes → Db → Db
upsert_pairing r secret d = record d {
  pairings =
      if has pairing_route r d.pairings
      then update (at pairing_route r) (λ p. record p { webhook_secret = some secret }) d.pairings
      else d.pairings
        ++ record { route = r; rule_config = some (lit "{}"); webhook_secret = some secret } ∷ [];
}

unfoldable pub link_channel : Route → Bytes → Exec (Unit {0})
link_channel route secret =
    let r = trim_route route in
    if incomplete r
    then fail (lit "all pairing ids and platforms are required")
    else exec (upsert_pairing r secret)

unfoldable pub unlink_channel : Route → Exec Bool
unlink_channel r =
    statement (λ d. ltb 0 (count (at pairing_route r) d.pairings))
      λ d. record d { pairings = delete (at pairing_route r) d.pairings }

abbrev pub words_of : Route → Db → List Bytes
words_of r d = sort_words (map (λ b. b.word) (select (λ b. same_route b.route r) d.blocked_words))

unfoldable pub get_blocked_words : Route → Exec (List Bytes)
get_blocked_words r = query (words_of r)

abbrev text_of : Option Bytes → Bytes
text_of none = []
text_of (some t) = t

module _ ⦃j : Json⦄ where
  unfoldable pub rules_of : Option Bytes → RuleConfig
  rules_of none = no_rules
  rules_of (some t) = if is_empty t then no_rules else j.decode_rules t

  abbrev pub scanned : PairingRow → List Bytes → Pairing
  scanned r words = record {
    route = r.route;
    blocked_words = words;
    rule_config = rules_of r.rule_config;
    webhook_secret = text_of r.webhook_secret;
  }

  -- scanPairings: the rows, then the blocked words of each
  unfoldable pub scan_pairings : List PairingRow → Exec (List Pairing)
  unfolding get_blocked_words
  scan_pairings [] = pure []
  scan_pairings (r ∷ rs) = do
    words ← get_blocked_words r.route
    rest ← scan_pairings rs
    pure (scanned r words ∷ rest)

  abbrev pub first_pairing : List Pairing → Exec Pairing
  first_pairing [] = fail no_rows
  first_pairing (p ∷ ps) = pure p

  unfoldable pub get_pairing : Route → Exec Pairing
  unfolding scan_pairings
  get_pairing r = do
    rows ← query (λ d. select (at pairing_route r) d.pairings)
    found ← scan_pairings rows
    first_pairing found

  unfoldable pub update_rule_config : Route → RuleConfig → Exec (Unit {0})
  update_rule_config r config = do
    text ← lift (j.encode_rules config)
    exec λ d. record d {
      pairings = update (at pairing_route r) (λ p. record p { rule_config = some text }) d.pairings;
    }

module _ ⦃u : Unicode⦄ where
  unfoldable pub normalize_blocked_word : Bytes → Bytes
  normalize_blocked_word word = to_lower (trim word)

  unfoldable pub add_blocked_word : Route → Bytes → Exec (Unit {0})
  unfolding normalize_blocked_word
  add_blocked_word r word =
      let w = normalize_blocked_word word in
      if is_empty w
      then fail (lit "blocked word cannot be empty")
      else exec λ d. record d {
        blocked_words = insert_new blocked_row (record { route = r; word = w }) d.blocked_words;
      }

  unfoldable pub remove_blocked_word : Route → Bytes → Exec Bool
  unfolding normalize_blocked_word
  remove_blocked_word r word =
      let w = normalize_blocked_word word in
      let row : BlockedRow = record { route = r; word = w } in
      if is_empty w
      then fail (lit "blocked word cannot be empty")
      else statement (λ d. ltb 0 (count (at blocked_row row) d.blocked_words))
          λ d. record d { blocked_words = delete (at blocked_row row) d.blocked_words }

unfoldable pub clear_blocked_words : Route → Exec (Unit {0})
clear_blocked_words r =
    exec λ d. record d { blocked_words = delete (λ b. same_route b.route r) d.blocked_words }

unfoldable pub insert_event_history : Bytes → Bytes → Bytes → Exec (Unit {0})
insert_event_history event_id status details = do
  now ← time_now
  exec λ d. record d {
    event_history =
        d.event_history
        ++ record {
          id = d.next_id;
          event_id = trim event_id;
          status = trim status;
          details = trim details;
          created_at = unix now;
        }
          ∷ [];
    next_id = suc d.next_id;
  }
