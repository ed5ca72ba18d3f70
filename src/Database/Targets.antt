-- ===== src/Database/Targets.antt =====
-- The blocked words of all targets of a source (internal/database/db.go).
use cross_platform_media_sha.Base.{ℕ, suc, ◌==◌, Bool, ◌&&◌, List, [], ◌∷◌, if◌then◌else◌}
use cross_platform_media_sha.Text.{Bytes, Unicode, lit, is_empty, same}
use cross_platform_media_sha.Database.Table.{delete, count}
use cross_platform_media_sha.Database.Rows.{BlockedRow}
use cross_platform_media_sha.Database.Store.{Exec, pure, fail, ◌>>=◌, ◌>>◌, statement}
use cross_platform_media_sha.Database.Pending.{Json}
use cross_platform_media_sha.Database.Delivery.{no_rows}
use cross_platform_media_sha.Database.Pairings.{Pairing, add_blocked_word, normalize_blocked_word}
use cross_platform_media_sha.Database.Listings.{get_pairings_by_source}

module _ ⦃u : Unicode⦄ where
  -- the loop over the pairings; it stops at the first error, and what it has counted by then is
  -- dropped here, as the callers do
  unfoldable pub add_to_all : Bytes → Bytes → List Pairing → Bytes → ℕ → Exec ℕ
  unfolding add_blocked_word
  add_to_all platform id [] word updated = pure updated
  add_to_all platform id (p ∷ ps) word updated = do
    add_blocked_word (record p.route { source_platform = platform; source_id = id }) word
    add_to_all platform id ps word (suc updated)

  abbrev pub add_to_linked : Bytes → Bytes → List Pairing → Bytes → Exec ℕ
  add_to_linked platform id [] word = fail no_rows
  add_to_linked platform id (p ∷ ps) word = add_to_all platform id (p ∷ ps) word 0

  unfoldable pub add_blocked_word_for_all_targets : ⦃j : Json⦄ → Bytes → Bytes → Bytes → Exec ℕ
  unfolding get_pairings_by_source add_to_all
  add_blocked_word_for_all_targets platform id word = do
    pairings ← get_pairings_by_source platform id
    add_to_linked platform id pairings word

abbrev of_source : Bytes → Bytes → BlockedRow → Bool
of_source platform id b = same b.route.source_platform platform && same b.route.source_id id

unfoldable pub remove_blocked_word_from_all_targets : ⦃u : Unicode⦄ → Bytes → Bytes → Bytes → Exec ℕ
unfolding normalize_blocked_word
remove_blocked_word_from_all_targets platform id word =
    let w = normalize_blocked_word word in
    let hit : BlockedRow → Bool = λ b. of_source platform id b && same b.word w in
    if is_empty w
    then fail (lit "blocked word cannot be empty")
    else statement (λ d. count hit d.blocked_words)
        λ d. record d { blocked_words = delete hit d.blocked_words }

unfoldable pub clear_blocked_words_for_all_targets : Bytes → Bytes → Exec ℕ
clear_blocked_words_for_all_targets platform id = do
  removed ←
      statement (λ d. count (of_source platform id) d.blocked_words)
        λ d. record d { blocked_words = delete (of_source platform id) d.blocked_words }
  if removed == 0 then fail no_rows else pure removed
