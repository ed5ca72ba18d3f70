-- ===== src/Database/Migrations/InitReached.antt =====
-- v1Init succeeds on a file of any age, and leaves the schema of version 1.
use cross_platform_media_sha.Base.{
  ◌≡◌, refl, ap, ◌∙◌, Bool, true, false, Option, none, some, List, [], ◌∷◌, map, ◌||◌,
}
use cross_platform_media_sha.Models.{Route, same_route, route_eq}
use cross_platform_media_sha.Database.Table.{Unique, has}
use cross_platform_media_sha.Database.Migrations.Catalog.{
  Catalog, PairingsTable, LegacyRow, Outcome, done, refused,
}
use cross_platform_media_sha.Database.Migrations.Script.{meaning, ◌>>=◌}
use cross_platform_media_sha.Database.Migrations.Steps.{legacy_route, v1_init}
use cross_platform_media_sha.Database.Migrations.Columns.{
  Column, blocked_words_column, rule_config_column, webhook_secret_column, fill,
}
use cross_platform_media_sha.Database.Migrations.Words.{pairings_of}
use cross_platform_media_sha.Database.Migrations.Shape.{LacksWords, AnyPairings, Schema}

-- the outcome is a file with the property
abbrev pub Reaches : {A : Type 0} → (Catalog → Type 0) → Outcome A → Type 0
Reaches P (done a d) = P d
Reaches P (refused p) = ⊥

has-fill :
    (col : Column) (r : Route) (rs : List LegacyRow)
    → has legacy_route r (map (fill col) rs) ≡ has legacy_route r rs
unfolding has
has-fill col r [] = refl
has-fill blocked_words_column r (q ∷ rs) =
    ap (λ b. same_route q.route r || b) (has-fill blocked_words_column r rs)
has-fill rule_config_column r (q ∷ rs) =
    ap (λ b. same_route q.route r || b) (has-fill rule_config_column r rs)
has-fill webhook_secret_column r (q ∷ rs) =
    ap (λ b. same_route q.route r || b) (has-fill webhook_secret_column r rs)

-- a column that is added leaves the keys as they are
fill-Unique :
    (col : Column) (rs : List LegacyRow)
    → Unique legacy_route rs
    → Unique legacy_route (map (fill col) rs)
fill-Unique col [] h = tt
fill-Unique blocked_words_column (r ∷ rs) h =
    (has-fill blocked_words_column r.route rs ∙ h.0, fill-Unique blocked_words_column rs h.1)
fill-Unique rule_config_column (r ∷ rs) h =
    (has-fill rule_config_column r.route rs ∙ h.0, fill-Unique rule_config_column rs h.1)
fill-Unique webhook_secret_column (r ∷ rs) h =
    (has-fill webhook_secret_column r.route rs ∙ h.0, fill-Unique webhook_secret_column rs h.1)

-- the tables of the queue are there after v1Init
abbrev queue : (true ≡ true) × ((true ≡ true) × ((true ≡ true) × ((true ≡ true) × (true ≡ true))))
queue = (refl, (refl, (refl, (refl, refl))))

v1-Schema :
    (c : Catalog) (words rules secrets : Bool) (rows : List LegacyRow)
    → LacksWords c
    → Unique legacy_route rows
    → Reaches
        (Schema 1)
        (meaning v1_init (record c { pairings = some (pairings_of words rules secrets rows) }))
unfolding v1_init meaning ◌>>=◌
v1-Schema c true true true rows l h = (l, ((_, (refl, h)), queue))
v1-Schema c true true false rows l h =
    (l, ((_, (refl, fill-Unique webhook_secret_column rows h)), queue))
v1-Schema c true false true rows l h =
    (l, ((_, (refl, fill-Unique rule_config_column rows h)), queue))
v1-Schema c true false false rows l h =
    let k = fill-Unique rule_config_column rows h in
    (l, ((_, (refl, fill-Unique webhook_secret_column _ k)), queue))
v1-Schema c false true true rows l h =
    (l, ((_, (refl, fill-Unique blocked_words_column rows h)), queue))
v1-Schema c false true false rows l h =
    let k = fill-Unique blocked_words_column rows h in
    (l, ((_, (refl, fill-Unique webhook_secret_column _ k)), queue))
v1-Schema c false false true rows l h =
    let k = fill-Unique blocked_words_column rows h in
    (l, ((_, (refl, fill-Unique rule_config_column _ k)), queue))
v1-Schema c false false false rows l h =
    let k = fill-Unique blocked_words_column rows h in
    let k' = fill-Unique rule_config_column _ k in
    (l, ((_, (refl, fill-Unique webhook_secret_column _ k')), queue))

-- a file of any age, with the table of the pairings apart
pub v1-Reaches :
    (c : Catalog) (p : Option PairingsTable)
    → LacksWords c
    → AnyPairings p
    → Reaches (Schema 1) (meaning v1_init (record c { pairings = p }))
unfolding v1_init meaning ◌>>=◌
v1-Reaches c none l h = (l, (([], (refl, tt)), queue))
v1-Reaches c (some t) l h =
    v1-Schema c t.has_blocked_words t.has_rule_config t.has_webhook_secret t.rows l h

-- the same of the whole file
pub v1_file-Reaches : (c : Catalog) → Schema 0 c → Reaches (Schema 1) (meaning v1_init c)
v1_file-Reaches c h = v1-Reaches c c.pairings h.0 h.1
