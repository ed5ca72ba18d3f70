-- ===== src/Database/Migrations/Reached.antt =====
-- Each later migration succeeds on the schema of the version before it, and leaves that of its own.
use mathlib.Core.Path.{subst}
use cross_platform_media_sha.Base.{
  ◌≡◌, refl, sym, ap, ◌∙◌, true, false, none, some, List, [], ◌∷◌, ◌++◌, arith, if◌then◌else◌,
}
use cross_platform_media_sha.Text.{Unicode}
use cross_platform_media_sha.Models.{route_eq, same_route_iff}
use cross_platform_media_sha.Database.Table.{Unique, has, has-append}
use cross_platform_media_sha.Database.Rows.{BlockedRow}
use cross_platform_media_sha.Database.Migrations.Legacy.{Interruption}
use cross_platform_media_sha.Database.Migrations.Catalog.{
  Catalog, PairingsTable, LegacyRow, TableName, IndexName, done, refused, is_some, create_index,
  with_index, if_not_exists, index_exists_already, no_such_table, idx_blocked_words_source,
  blocked_words_table, idx_event_history_event_id, idx_event_history_created_at,
  event_history_table,
}
use cross_platform_media_sha.Database.Migrations.Script.{
  Script, meaning, ◌>>=◌, ◌>>◌, meaning-send, meaning->>=, after, sql,
}
use cross_platform_media_sha.Database.Migrations.Steps.{
  legacy_route, copy_rows, v2_normalize_blocked_words, v3_create_event_history,
  v4_create_digest_events, normalize_words, rebuild_pairings, shown, moved, dropped,
}
use cross_platform_media_sha.Database.Migrations.Words.{
  meaning-normalize_words, add_pairs, pairings_of, file,
}
use cross_platform_media_sha.Database.Migrations.Shape.{Has, HasQueue, LacksHistory, Schema}
use cross_platform_media_sha.Database.Migrations.InitReached.{Reaches}

-- a new index where there is none of the name
created :
    (c : Catalog) (i : IndexName) (t : TableName)
    → Has t c
    → c.index_of i ≡ none
    → create_index i t c ≡ done tt (with_index i t c)
created c i t h n =
    ap
      (λ b.
        if b
        then if is_some (c.index_of i)
          then refused (index_exists_already i)
          else done tt (with_index i t c)
        else refused (no_such_table t))
      h
    ∙ ap (λ o. if is_some o then refused (index_exists_already i) else done tt (with_index i t c)) n

-- as the last statement of a script
index_last-Reaches :
    (P : Catalog → Type 0) (c : Catalog) (i : IndexName) (t : TableName)
    → Has t c
    → c.index_of i ≡ none
    → P (with_index i t c)
    → Reaches P (meaning (sql (create_index i t)) c)
unfolding meaning
index_last-Reaches P c i t h n k =
    subst (λ o. Reaches P (elim o [ done b d ↦ done b d | refused p ↦ refused p ]))
      (sym (created c i t h n)) k

-- and before others
index-Reaches :
    {B : Type 0} (P : Catalog → Type 0) (c : Catalog) (i : IndexName) (t : TableName) (q : Script B)
    → Has t c
    → c.index_of i ≡ none
    → Reaches P (meaning q (with_index i t c))
    → Reaches P (meaning (sql (create_index i t) >> q) c)
unfolding meaning
index-Reaches P c i t q h n k =
    rw (meaning-send (create_index i t) (λ _. q) c)
      (subst (λ o. Reaches P (after o (λ _. q))) (sym (created c i t h n)) k)

pub v3-Reaches : (c : Catalog) → Schema 2 c → Reaches (Schema 3) (meaning v3_create_event_history c)
unfolding v3_create_event_history meaning ◌>>=◌
v3-Reaches c h =
    let d : Catalog = record c { event_history = if_not_exists [] c.event_history } in
    index-Reaches (Schema 3) d idx_event_history_event_id event_history_table
      (sql (create_index idx_event_history_created_at event_history_table)) refl h.0.0
      (index_last-Reaches (Schema 3) (with_index idx_event_history_event_id event_history_table d)
        idx_event_history_created_at event_history_table refl h.0.1 (refl, h.1))

pub v4-Reaches : (c : Catalog) → Schema 3 c → Reaches (Schema 4) (meaning v4_create_digest_events c)
unfolding v4_create_digest_events meaning ◌>>=◌
v4-Reaches c h = (refl, h)

-- the rows are copied, as no two of them have one key and none is there yet
AreFresh : List LegacyRow → List LegacyRow → Type 0
AreFresh [] out = Unit
AreFresh (r ∷ rs) out = (has legacy_route r.route out ≡ false) × AreFresh rs out

append-AreFresh :
    (q : LegacyRow) (rs out : List LegacyRow)
    → AreFresh rs out
    → has legacy_route q.route rs ≡ false
    → AreFresh rs (out ++ q ∷ [])
unfolding AreFresh has
append-AreFresh q [] out h k = tt
append-AreFresh q (r ∷ rs) out h k = ground (
  arith,
  append-AreFresh q rs out,
  has-append legacy_route r.route out q,
  same_route_iff q.route r.route,
  same_route_iff r.route q.route,
)

copy_rows_ok :
    (rs out : List LegacyRow)
    → Unique legacy_route rs
    → AreFresh rs out
    → (all : List LegacyRow) × (copy_rows rs out ≡ some all)
unfolding copy_rows AreFresh
copy_rows_ok [] out h k = (out, refl)
copy_rows_ok (r ∷ rs) out h k =
    rw (k.0, copy_rows)
      (copy_rows_ok rs (out ++ record r { words = none } ∷ []) h.1
        (append-AreFresh (record r { words = none }) rs out k.1 h.0))

nothing-AreFresh : (rs : List LegacyRow) → AreFresh rs []
unfolding AreFresh has
nothing-AreFresh [] = tt
nothing-AreFresh (r ∷ rs) = (refl, nothing-AreFresh rs)

module _ ⦃u : Unicode⦄ ⦃cut : Interruption⦄ where
  rebuild-Reaches :
      (c : Catalog) (words : List BlockedRow) (rows : List LegacyRow)
      → Unique legacy_route rows
      → LacksHistory c
      → HasQueue c
      → Reaches (Schema 2) (
          meaning rebuild_pairings
            (file c (some words) (some (pairings_of true true true rows)) none))
  unfolding rebuild_pairings meaning ◌>>=◌ copy_rows
  rebuild-Reaches c words rows h l q =
      let (all, e) = copy_rows_ok rows [] h (nothing-AreFresh rows) in
      rw e (
        (ap (λ o. dropped (moved o)) l.0, ap (λ o. dropped (moved o)) l.1),
        ((all, refl), (refl, q)),
      )

  v2-Schema :
      (c : Catalog) (rows : List LegacyRow)
      → Unique legacy_route rows
      → c.index_of idx_blocked_words_source ≡ none
      → LacksHistory c
      → HasQueue c
      → Reaches (Schema 2) (
          meaning v2_normalize_blocked_words
            (file c none (some (pairings_of true true true rows)) none))
  unfolding v2_normalize_blocked_words meaning ◌>>=◌
  v2-Schema c rows h n l q =
      let t : PairingsTable = pairings_of true true true rows in
      let d : Catalog = with_index idx_blocked_words_source blocked_words_table c in
      index-Reaches (Schema 2) (file c (some []) (some t) none) idx_blocked_words_source
        blocked_words_table (normalize_words >> rebuild_pairings) refl n
        (rw (meaning->>= normalize_words (λ _. rebuild_pairings) (file d (some []) (some t) none)) (
          rw (meaning-normalize_words d none true true rows)
            (rebuild-Reaches d (add_pairs (shown cut.rows_before_error rows) []) rows h l q)))

  pub v2-Reaches :
      (c : Catalog) → Schema 1 c → Reaches (Schema 2) (meaning v2_normalize_blocked_words c)
  v2-Reaches c h =
      subst (λ d. Reaches (Schema 2) (meaning v2_normalize_blocked_words d))
        (ap (λ b. file c b (some (pairings_of true true true h.1.0.0)) none) (sym h.0.0)
          ∙ ap (λ p. file c c.blocked_words p none) (sym h.1.0.1.0)
          ∙ ap (λ o. file c c.blocked_words c.pairings o) (sym h.0.1.0))
        (v2-Schema c h.1.0.0 h.1.0.1.1 h.0.1.1.0 h.0.1.1.1 h.1.1)
