-- ===== src/Database/Export.antt =====
-- internal/database/export.go: pairings as JSON items, out and in again.
use cross_platform_media_sha.Base.{ℕ, suc, Bool, List, [], ◌∷◌, map, if◌then◌else◌}
use cross_platform_media_sha.Text.{Bytes, Unicode, lit, trim}
use cross_platform_media_sha.Models.{RuleConfig, Route}
use cross_platform_media_sha.Database.Store.{Result, ok, err, Exec, pure, fail, ◌>>=◌, ◌>>◌}
use cross_platform_media_sha.Database.Pending.{Json}
use cross_platform_media_sha.Database.Pairings.{
  Pairing, trim_route, incomplete, get_pairing, link_channel, update_rule_config,
  clear_blocked_words, add_blocked_word,
}
use cross_platform_media_sha.Database.Listings.{list_all_pairings}

pub record PairingExport : Type 0 where
  pub route : Route
  pub rule_config : RuleConfig
  pub blocked_words : List Bytes
  pub webhook_secret : Bytes

abbrev pub exported : Bool → Pairing → PairingExport
exported include_secrets p = record {
  route = p.route;
  rule_config = p.rule_config;
  blocked_words = p.blocked_words;
  webhook_secret = if include_secrets then p.webhook_secret else [];
}

-- a call whose error is looked at
abbrev pub attempt : {A : Type 0} → Exec A → Exec (Result A)
attempt m s = let (r, s') = m s in (ok r, s')

module _ ⦃j : Json⦄ where
  unfoldable pub export_pairings : ℕ → Bool → Exec (List PairingExport)
  unfolding list_all_pairings
  export_pairings limit include_secrets = do
    pairings ← list_all_pairings limit
    pure (map (exported include_secrets) pairings)

  abbrev pub secret_of : Result Pairing → Bytes
  secret_of (ok p) = p.webhook_secret
  secret_of (err e) = []

  -- the secret that an item is linked with
  unfoldable pub import_secret : PairingExport → Route → Bool → Exec Bytes
  unfolding get_pairing
  import_secret item r include_secrets =
      if include_secrets
      then pure (trim item.webhook_secret)
      else do found ← attempt (get_pairing r); pure (secret_of found)

module _ ⦃j : Json⦄ ⦃u : Unicode⦄ where
  unfoldable pub add_words : Route → List Bytes → Exec (Unit {0})
  unfolding add_blocked_word
  add_words r [] = pure tt
  add_words r (w ∷ ws) = do add_blocked_word r w; add_words r ws

  unfoldable pub import_pairing : PairingExport → Bool → Bool → Exec (Unit {0})
  unfolding import_secret link_channel update_rule_config clear_blocked_words add_words
  import_pairing item include_secrets replace_blocked =
      let r = trim_route item.route in
      if incomplete r then fail (lit "pairing fields cannot be empty") else do
        secret ← import_secret item r include_secrets
        link_channel r secret
        update_rule_config r item.rule_config
        if replace_blocked
            then (do _ ← attempt (clear_blocked_words r); add_words r item.blocked_words)
            else pure tt

  -- the loop; it stops at the first error, and what was applied by then is dropped here
  unfoldable pub import_items : List PairingExport → Bool → Bool → ℕ → Exec ℕ
  unfolding import_pairing
  import_items [] include_secrets replace_blocked applied = pure applied
  import_items (i ∷ is) include_secrets replace_blocked applied = do
    import_pairing i include_secrets replace_blocked
    import_items is include_secrets replace_blocked (suc applied)

  unfoldable pub import_pairings : List PairingExport → Bool → Bool → Exec ℕ
  unfolding import_items
  import_pairings [] include_secrets replace_blocked = fail (lit "no pairings provided")
  import_pairings (i ∷ is) include_secrets replace_blocked =
      import_items (i ∷ is) include_secrets replace_blocked 0
