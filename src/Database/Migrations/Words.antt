-- ===== src/Database/Migrations/Words.antt =====
-- v2NormalizeBlockedWords keeps the data: the words of the column are those of the new table, and
-- the pairings that are built again are the ones that were there.
use mathlib.Core.List.{append_assoc, append-nil, map-append}
use cross_platform_media_sha.Base.{
  ◌≡◌, refl, ap, ◌∙◌, Bool, true, false, ◌&&◌, ◌||◌, Option, none, some, List, [], ◌∷◌, ◌++◌, map,
  arith, Option-cases, inl, inr, if◌then◌else◌,
}
use cross_platform_media_sha.Text.{Bytes, Unicode}
use cross_platform_media_sha.Models.{Route, same_route, route_eq, bytes_eq}
use cross_platform_media_sha.Database.Table.{has, insert_new, has-insert_new}
use cross_platform_media_sha.Database.Rows.{BlockedRow, blocked_eq, same_blocked}
use cross_platform_media_sha.Database.Pairings.{blocked_row}
use cross_platform_media_sha.Database.Migrations.Legacy.{Interruption}
use cross_platform_media_sha.Database.Migrations.Legacy.{cell_words, word_key}
use cross_platform_media_sha.Database.Migrations.Catalog.{
  Catalog, PairingsTable, LegacyRow, Outcome, done, refused, TableName, IndexName, is_some, present,
  create_index, with_index, idx_blocked_words_source, blocked_words_table,
}
use cross_platform_media_sha.Database.Migrations.Script.{
  Script, meaning, ◌>>=◌, ◌>>◌, meaning->>=, meaning-send, after, sql,
}
use cross_platform_media_sha.Database.Migrations.Steps.{
  insert_words, insert_pairs, copy_rows, rebuild_pairings, normalize_words, shown,
  v2_normalize_blocked_words,
}
use cross_platform_media_sha.Database.Migrations.Data.{
  KeepsData, KeepsData-trans, legacy_blocks, setting,
}
use cross_platform_media_sha.Database.Migrations.Keeping.{KeepsInto, IsKept, indexes-KeepsData}

abbrev add_word : Route → List BlockedRow → Bytes → List BlockedRow
add_word r t w = insert_new blocked_row (record { route = r; word = w }) t

-- the table after the words of one pairing
abbrev pub add_words : Route → List Bytes → List BlockedRow → List BlockedRow
add_words r [] t = t
add_words r (w ∷ ws) t = add_words r ws (add_word r t w)

meaning-insert_words :
    (r : Route) (ws : List Bytes) (c : Catalog) (t : List BlockedRow)
    → meaning (insert_words r ws) (record c { blocked_words = some t })
      ≡ done tt (record c { blocked_words = some (add_words r ws t) })
unfolding meaning insert_words ◌>>=◌
meaning-insert_words r [] c t = refl
meaning-insert_words r (w ∷ ws) c t = meaning-insert_words r ws c (add_word r t w)

has-add_words :
    (r q : Route) (ws : List Bytes) (t : List BlockedRow) (w : Bytes)
    → has blocked_row (record { route = q; word = w }) (add_words r ws t) ≡ (
        has blocked_row (record { route = q; word = w }) t || (same_route r q && has word_key w ws))
unfolding has same_blocked
has-add_words r q [] t w = ground arith
has-add_words r q (v ∷ vs) t w = ground (
  arith,
  has-add_words r q vs (add_word r t v) w,
  has-insert_new blocked_row (record { route = q; word = w }) (record { route = r; word = v }) t,
)

module _ ⦃u : Unicode⦄ where
  -- the table after the words of all pairings
  abbrev pub add_pairs : List LegacyRow → List BlockedRow → List BlockedRow
  add_pairs [] t = t
  add_pairs (p ∷ ps) t = add_pairs ps (add_words p.route (cell_words p.words) t)

  pub meaning-insert_pairs :
      (ps : List LegacyRow) (c : Catalog) (t : List BlockedRow)
      → meaning (insert_pairs ps) (record c { blocked_words = some t })
        ≡ done tt (record c { blocked_words = some (add_pairs ps t) })
  unfolding meaning insert_pairs
  meaning-insert_pairs [] c t = refl
  meaning-insert_pairs (p ∷ ps) c t =
      meaning->>= (insert_words p.route (cell_words p.words)) (λ _. insert_pairs ps) _
      ∙ ap (λ o. after o (λ _. insert_pairs ps))
          (meaning-insert_words p.route (cell_words p.words) c t)
      ∙ meaning-insert_pairs ps c (add_words p.route (cell_words p.words) t)

  has-add_pairs :
      (ps : List LegacyRow) (t : List BlockedRow) (q : Route) (w : Bytes)
      → has blocked_row (record { route = q; word = w }) (add_pairs ps t)
        ≡ (has blocked_row (record { route = q; word = w }) t || legacy_blocks ps q w)
  unfolding legacy_blocks
  has-add_pairs [] t q w = ground arith
  has-add_pairs (p ∷ ps) t q w = ground (
    arith,
    has-add_pairs ps (add_words p.route (cell_words p.words) t) q w,
    has-add_words p.route q (cell_words p.words) t w,
  )

  -- What the new table blocks is what the column blocked.
  pub add_pairs-legacy_blocks :
      (ps : List LegacyRow) (q : Route) (w : Bytes)
      → has blocked_row (record { route = q; word = w }) (add_pairs ps []) ≡ legacy_blocks ps q w
  unfolding has
  add_pairs-legacy_blocks ps q w = has-add_pairs ps [] q w

-- The rows that are copied are the old ones.
copy_rows-setting :
    (rs out : List LegacyRow) {all : List LegacyRow}
    → copy_rows rs out ≡ some all
    → map (setting true true) all ≡ map (setting true true) out ++ map (setting true true) rs
unfolding copy_rows
copy_rows-setting [] out h = ground (arith, append-nil (map (setting true true) out))
copy_rows-setting (r ∷ rs) out {all = all} h = ground (
  arith,
  copy_rows-setting rs (out ++ record r { words = none } ∷ []) {all = all},
  map-append (setting true true) out (record r { words = none } ∷ []),
  append_assoc (map (setting true true) out) (setting true true r ∷ [])
      (map (setting true true) rs),
)

-- a table of pairings with the named columns or without them
abbrev pub pairings_of : Bool → Bool → Bool → List LegacyRow → PairingsTable
pairings_of words rules secrets rows = record {
  has_blocked_words = words;
  has_rule_config = rules;
  has_webhook_secret = secrets;
  rows = rows;
}

-- the file that the migration gets, with the tables that it reads or writes apart
abbrev pub file :
    Catalog → Option (List BlockedRow) → Option PairingsTable → Option PairingsTable → Catalog
file c b p o = record c { blocked_words = b; pairings = p; pairings_old = o }

module _ ⦃u : Unicode⦄ ⦃cut : Interruption⦄ where
  -- A statement that a test lets through or refuses, and what follows it.
  if-KeepsInto :
      {A B : Type 0} (a : Catalog) (b : Bool) (x y : Outcome A) (g : A → Script B)
      → KeepsInto a (after x g)
      → KeepsInto a (after y g)
      → KeepsInto a (after (if b then x else y) g)
  if-KeepsInto a true x y g h k = h
  if-KeepsInto a false x y g h k = k

  index-KeepsInto :
      {B : Type 0} (a c : Catalog) (i : IndexName) (t : TableName) (q : Script B)
      → KeepsInto a (meaning q (with_index i t c))
      → KeepsInto a (meaning (sql (create_index i t) >> q) c)
  unfolding meaning
  index-KeepsInto a c i t q h = rw (meaning-send (create_index i t) (λ _. q) c) (
      if-KeepsInto a (present t c) _ _ (λ _. q)
        (if-KeepsInto a (is_some (c.index_of i)) _ _ (λ _. q) tt h) tt)

  pub meaning-normalize_words :
      (c : Catalog) (o : Option PairingsTable) (rules secrets : Bool) (rows : List LegacyRow)
      → meaning normalize_words (file c (some []) (some (pairings_of true rules secrets rows)) o)
        ≡ done tt (
            file c
              (some (add_pairs (shown cut.rows_before_error rows) []))
              (some (pairings_of true rules secrets rows))
              o)
  unfolding normalize_words meaning ◌>>=◌
  meaning-normalize_words c o rules secrets rows =
      meaning-insert_pairs (shown cut.rows_before_error rows)
        (file c none (some (pairings_of true rules secrets rows)) o) []

  rebuild-KeepsInto :
      (c : Catalog) (o : Option PairingsTable) (rules secrets : Bool) (rows : List LegacyRow)
      → KeepsInto (file c none (some (pairings_of true rules secrets rows)) o) (
          meaning rebuild_pairings (
            file c
              (some (add_pairs (shown cut.rows_before_error rows) []))
              (some (pairings_of true rules secrets rows))
              o))
  unfolding rebuild_pairings meaning ◌>>=◌ copy_rows
  rebuild-KeepsInto c (some t) rules secrets rows = tt
  rebuild-KeepsInto c none false secrets rows = tt
  rebuild-KeepsInto c none true false rows = tt
  rebuild-KeepsInto c none true true rows = elim (Option-cases (copy_rows rows [])) [
    | inl e ↦ rw e tt
    | inr (all, e) ↦ rw e (record {
      same_versions = refl;
      same_settings = copy_rows-setting rows [] e;
      same_blocks = λ z r w.
          ap (λ n. has blocked_row (record { route = r; word = w }) (add_pairs (shown n rows) [])) z
          ∙ add_pairs-legacy_blocks rows r w;
      same_pending = refl;
      same_processed = refl;
      same_letters = refl;
      same_hashes = refl;
      same_audit = refl;
      same_history = refl;
      same_digests = refl;
    })
  ]

  no_column :
      (c : Catalog) (o : Option PairingsTable) (rules secrets : Bool) (rows : List LegacyRow)
      → KeepsInto (file c none (some (pairings_of false rules secrets rows)) o) (
          after
            (meaning normalize_words
              (file c (some []) (some (pairings_of false rules secrets rows)) o))
            λ _. rebuild_pairings)
  unfolding normalize_words meaning ◌>>=◌
  no_column c o rules secrets rows = tt

  no_pairings :
      (c : Catalog) (o : Option PairingsTable)
      → KeepsInto
          (file c none none o)
          (meaning (normalize_words >> rebuild_pairings) (file c (some []) none o))
  unfolding normalize_words meaning ◌>>=◌
  no_pairings c o = tt

  normalized-KeepsInto :
      (c : Catalog) (words rules secrets : Bool) (rows : List LegacyRow) (o : Option PairingsTable)
      → KeepsInto (file c none (some (pairings_of words rules secrets rows)) o) (
          after
            (meaning normalize_words
              (file c (some []) (some (pairings_of words rules secrets rows)) o))
            λ _. rebuild_pairings)
  normalized-KeepsInto c true rules secrets rows o =
      rw (meaning-normalize_words c o rules secrets rows) (rebuild-KeepsInto c o rules secrets rows)
  normalized-KeepsInto c false rules secrets rows o = no_column c o rules secrets rows

  pairings-KeepsInto :
      (c : Catalog) (p o : Option PairingsTable)
      → KeepsInto
          (file c none p o)
          (meaning (normalize_words >> rebuild_pairings) (file c (some []) p o))
  pairings-KeepsInto c none o = no_pairings c o
  pairings-KeepsInto c (some t) o =
      rw (meaning->>= normalize_words (λ _. rebuild_pairings) _)
        (normalized-KeepsInto c t.has_blocked_words t.has_rule_config t.has_webhook_secret t.rows o)

  KeepsInto-trans :
      {A : Type 0} {a b : Catalog} (o : Outcome A) → KeepsData a b → KeepsInto b o → KeepsInto a o
  KeepsInto-trans (done x d) k l = KeepsData-trans k l
  KeepsInto-trans (refused p) k l = tt

  v2-KeepsInto :
      (c : Catalog) (b : Option (List BlockedRow)) (p o : Option PairingsTable)
      → KeepsInto (file c b p o) (meaning v2_normalize_blocked_words (file c b p o))
  unfolding v2_normalize_blocked_words meaning ◌>>=◌
  v2-KeepsInto c (some t) p o = tt
  v2-KeepsInto c none p o =
      let d : Catalog = with_index idx_blocked_words_source blocked_words_table c in
      index-KeepsInto (file c none p o) (file c (some []) p o) idx_blocked_words_source
        blocked_words_table (normalize_words >> rebuild_pairings)
        (KeepsInto-trans (meaning (normalize_words >> rebuild_pairings) (file d (some []) p o))
          (indexes-KeepsData (file c none p o) d.index_of) (pairings-KeepsInto d p o))

  pub v2-IsKept : IsKept v2_normalize_blocked_words
  v2-IsKept = record { kept = λ c. v2-KeepsInto c c.blocked_words c.pairings c.pairings_old }
