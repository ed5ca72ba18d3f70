-- ===== src/Database/Migrations/Data.antt =====
-- What the migrations may not lose: the pairings with their rules and secrets, the blocked words of
-- each route, and the rows of all other tables.
use cross_platform_media_sha.Base.{
  ◌≡◌, refl, ◌∙◌, Bool, false, ◌&&◌, ◌||◌, Option, none, some, List, [], ◌∷◌, map, if◌then◌else◌,
}
use cross_platform_media_sha.Text.{Bytes, Unicode, lit}
use cross_platform_media_sha.Models.{Route, same_route, route_eq, bytes_eq}
use cross_platform_media_sha.Database.Table.{has}
use cross_platform_media_sha.Database.Rows.{
  PairingRow, blocked_eq, PendingRow, ProcessedRow, DeadLetterRow, DedupeRow, HistoryRow, AuditRow,
  DigestRow,
}
use cross_platform_media_sha.Database.Pairings.{blocked_row}
use cross_platform_media_sha.Database.Migrations.Legacy.{Interruption, cell_words, word_key}
use cross_platform_media_sha.Database.Migrations.Catalog.{
  Catalog, PairingsTable, LegacyRow, TableName, IndexName, if_not_exists,
}

-- what the program reads of a pairing: a column that the table lacks has its default
abbrev pub setting : Bool → Bool → LegacyRow → PairingRow
setting has_rules has_secret r = record {
  route = r.route;
  rule_config = if has_rules then r.rules else some (lit "{}");
  webhook_secret = if has_secret then r.secret else some [];
}

abbrev pub table_settings : PairingsTable → List PairingRow
table_settings t = map (setting t.has_rule_config t.has_webhook_secret) t.rows

abbrev pub settings : Catalog → List PairingRow
settings c = elim c.pairings [ none ↦ [] | some t ↦ table_settings t ]

abbrev pub rows_of {ℓ} : {A : Type ℓ} → Option (List A) → List A
rows_of none = []
rows_of (some rs) = rs

module _ ⦃u : Unicode⦄ where
  -- some pairing of the route has the word in its cell
  unfoldable pub legacy_blocks : List LegacyRow → Route → Bytes → Bool
  unfolding cell_words
  legacy_blocks [] r w = false
  legacy_blocks (p ∷ ps) r w =
      (same_route p.route r && has word_key w (cell_words p.words)) || legacy_blocks ps r w

  abbrev pub column_blocks : Option PairingsTable → Route → Bytes → Bool
  column_blocks none r w = false
  column_blocks (some t) r w = t.has_blocked_words && legacy_blocks t.rows r w

  -- Is the word blocked on the route? The table says so, or the column where there is no table yet.
  abbrev pub blocks : Catalog → Route → Bytes → Bool
  blocks c r w = elim c.blocked_words [
    | none ↦ column_blocks c.pairings r w
    | some t ↦ has blocked_row (record { route = r; word = w }) t
  ]

module _ ⦃u : Unicode⦄ ⦃cut : Interruption⦄ where
  -- No row of the first file is missing, changed or added in the second; for the blocked words, where
  -- no error ends the reading of the pairings in the middle.
  pub record KeepsData (c d : Catalog) : Type 0 where
    pub same_versions : d.schema_migrations ≡ c.schema_migrations
    pub same_settings : settings d ≡ settings c
    pub same_blocks :
        cut.rows_before_error ≡ none → (r : Route) (w : Bytes) → blocks d r w ≡ blocks c r w
    pub same_pending : rows_of d.pending_events ≡ rows_of c.pending_events
    pub same_processed : rows_of d.processed_events ≡ rows_of c.processed_events
    pub same_letters : rows_of d.dead_letters ≡ rows_of c.dead_letters
    pub same_hashes : rows_of d.media_dedupe ≡ rows_of c.media_dedupe
    pub same_audit : rows_of d.audit_log ≡ rows_of c.audit_log
    pub same_history : rows_of d.event_history ≡ rows_of c.event_history
    pub same_digests : rows_of d.digest_events ≡ rows_of c.digest_events

  pub KeepsData-refl : (c : Catalog) → KeepsData c c
  KeepsData-refl c = record {
    same_versions = refl;
    same_settings = refl;
    same_blocks = λ z r w. refl;
    same_pending = refl;
    same_processed = refl;
    same_letters = refl;
    same_hashes = refl;
    same_audit = refl;
    same_history = refl;
    same_digests = refl;
  }

  pub KeepsData-trans : {a b c : Catalog} → KeepsData a b → KeepsData b c → KeepsData a c
  KeepsData-trans k l = record {
    same_versions = l.same_versions ∙ k.same_versions;
    same_settings = l.same_settings ∙ k.same_settings;
    same_blocks = λ z r w. l.same_blocks z r w ∙ k.same_blocks z r w;
    same_pending = l.same_pending ∙ k.same_pending;
    same_processed = l.same_processed ∙ k.same_processed;
    same_letters = l.same_letters ∙ k.same_letters;
    same_hashes = l.same_hashes ∙ k.same_hashes;
    same_audit = l.same_audit ∙ k.same_audit;
    same_history = l.same_history ∙ k.same_history;
    same_digests = l.same_digests ∙ k.same_digests;
  }

  -- Only the tables that hold neither pairings nor blocked words are created.
  pub tables-KeepsData :
      (c : Catalog) {pe : Option (List PendingRow)} {pr : Option (List ProcessedRow)}
      {dl : Option (List DeadLetterRow)} {md : Option (List DedupeRow)}
      {al : Option (List AuditRow)} {eh : Option (List HistoryRow)} {de : Option (List DigestRow)}
      {ix : IndexName → Option TableName}
      → rows_of pe ≡ rows_of c.pending_events
      → rows_of pr ≡ rows_of c.processed_events
      → rows_of dl ≡ rows_of c.dead_letters
      → rows_of md ≡ rows_of c.media_dedupe
      → rows_of al ≡ rows_of c.audit_log
      → rows_of eh ≡ rows_of c.event_history
      → rows_of de ≡ rows_of c.digest_events
      → KeepsData c (record c {
        pending_events = pe;
        processed_events = pr;
        dead_letters = dl;
        media_dedupe = md;
        audit_log = al;
        event_history = eh;
        digest_events = de;
        index_of = ix;
      })
  tables-KeepsData c e1 e2 e3 e4 e5 e6 e7 = record {
    same_versions = refl;
    same_settings = refl;
    same_blocks = λ z r w. refl;
    same_pending = e1;
    same_processed = e2;
    same_letters = e3;
    same_hashes = e4;
    same_audit = e5;
    same_history = e6;
    same_digests = e7;
  }

-- A table that is created if it is missing has the rows that it had.
pub rows_of-if_not_exists {ℓ} :
    {A : Type ℓ} (o : Option (List A)) → rows_of (if_not_exists [] o) ≡ rows_of o
rows_of-if_not_exists none = refl
rows_of-if_not_exists (some rs) = refl
