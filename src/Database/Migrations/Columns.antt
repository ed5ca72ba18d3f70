-- ===== src/Database/Migrations/Columns.antt =====
-- The table of the pairings and its columns: ensureColumnExistsTx of internal/database/migrations.go.
use cross_platform_media_sha.Base.{Bool, true, false, none, some, [], map}
use cross_platform_media_sha.Text.{lit}
use cross_platform_media_sha.Models.{route_eq}
use cross_platform_media_sha.Database.Rows.{blocked_eq}
use cross_platform_media_sha.Database.Migrations.Catalog.{
  Catalog, PairingsTable, LegacyRow, Outcome, done, refused, if_not_exists, no_such_table,
  pairings_table,
}
use cross_platform_media_sha.Database.Migrations.Script.{Script, finish, ◌>>=◌, sql}

-- CREATE TABLE IF NOT EXISTS pairings
abbrev pub create_pairings_if_absent : Catalog → Outcome (Unit {0})
create_pairings_if_absent c = done tt (record c {
  pairings =
      if_not_exists
        (record {
          has_blocked_words = true;
          has_rule_config = true;
          has_webhook_secret = true;
          rows = [];
        })
        c.pairings;
})

-- a column of pairings that not every file has
pub data Column : Type 0 where
  blocked_words_column : Column
  rule_config_column : Column
  webhook_secret_column : Column

abbrev pub has_column : Column → PairingsTable → Bool
has_column blocked_words_column t = t.has_blocked_words
has_column rule_config_column t = t.has_rule_config
has_column webhook_secret_column t = t.has_webhook_secret

-- the default of a column
abbrev pub fill : Column → LegacyRow → LegacyRow
fill blocked_words_column r = record r { words = some [] }
fill rule_config_column r = record r { rules = some (lit "{}") }
fill webhook_secret_column r = record r { secret = some [] }

-- ALTER TABLE pairings ADD COLUMN: every row gets the default
abbrev pub add_column : Column → PairingsTable → PairingsTable
add_column blocked_words_column t = record t {
  has_blocked_words = true;
  rows = map (fill blocked_words_column) t.rows;
}
add_column rule_config_column t = record t {
  has_rule_config = true;
  rows = map (fill rule_config_column) t.rows;
}
add_column webhook_secret_column t = record t {
  has_webhook_secret = true;
  rows = map (fill webhook_secret_column) t.rows;
}

-- PRAGMA table_info(pairings): no rows where there is no such table. An error in the middle of the
-- rows, for which the source does not ask, either hides a column that is there, so that the ALTER TABLE
-- fails and the migration reports an error, as it does here where the driver refuses the PRAGMA; or
-- it changes nothing.
abbrev table_info : Column → Catalog → Outcome Bool
table_info col c = done (elim c.pairings [ none ↦ false | some t ↦ has_column col t ]) c

abbrev alter_pairings : Column → Catalog → Outcome (Unit {0})
alter_pairings col c = elim c.pairings [
  | none ↦ refused (no_such_table pairings_table)
  | some t ↦ done tt (record c { pairings = some (add_column col t) })
]

-- every call of ensureColumnExistsTx is about pairings
unfoldable pub ensure_column_exists_tx : Column → Script (Unit {0})
ensure_column_exists_tx col = sql (table_info col) >>= λ has_col. elim has_col [
  | true ↦ finish tt
  | false ↦ sql (alter_pairings col)
]
