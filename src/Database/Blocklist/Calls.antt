-- ===== src/Database/Blocklist/Calls.antt =====
-- The calls that change the blocked words, and what each of them does to the set of blocked words.
use cross_platform_media_sha.Base.{◌⊎◌, ◌≡◌, Bool, true, false, not, ◌&&◌, ◌||◌, if◌then◌else◌}
use cross_platform_media_sha.Text.{Bytes, Unicode, same}
use cross_platform_media_sha.Models.{Route, same_route}
use cross_platform_media_sha.Database.Table.{has}
use cross_platform_media_sha.Database.Rows.{Db, blocked_eq}
use cross_platform_media_sha.Database.Store.{Store, Result, ok, err}
use cross_platform_media_sha.Database.Pending.{Json}
use cross_platform_media_sha.Database.Pairings.{
  blocked_row, normalize_blocked_word, add_blocked_word, remove_blocked_word, clear_blocked_words,
}
use cross_platform_media_sha.Database.Targets.{
  add_blocked_word_for_all_targets, remove_blocked_word_from_all_targets,
  clear_blocked_words_for_all_targets,
}

-- whether a word is blocked on a route
abbrev pub Blocklist : Type 0
Blocklist = Route → Bytes → Bool

abbrev pub view : Db → Blocklist
view d r w = has blocked_row (record { route = r; word = w }) d.blocked_words

-- The calls that change the blocked words.
pub data WordCall : Type 0 where
  add : Route → Bytes → WordCall
  remove : Route → Bytes → WordCall
  clear : Route → WordCall
  remove_all : Bytes → Bytes → Bytes → WordCall
  clear_all : Bytes → Bytes → WordCall
  add_all : Bytes → Bytes → Bytes → WordCall

abbrev pub forget_result {ℓ} : {A : Type ℓ} → Result A × Store → Bool × Store
forget_result (ok a, s) = (true, s)
forget_result (err e, s) = (false, s)

abbrev pub is_from : Bytes → Bytes → Route → Bool
is_from platform id r = same r.source_platform platform && same r.source_id id

module _ ⦃j : Json⦄ ⦃u : Unicode⦄ where
  -- whether the call succeeds, and the store it leaves
  unfoldable pub perform_word : WordCall → Store → Bool × Store
  perform_word (add r w) s = forget_result (add_blocked_word r w s)
  perform_word (remove r w) s = forget_result (remove_blocked_word r w s)
  perform_word (clear r) s = forget_result (clear_blocked_words r s)
  perform_word (remove_all p i w) s = forget_result (remove_blocked_word_from_all_targets p i w s)
  perform_word (clear_all p i) s = forget_result (clear_blocked_words_for_all_targets p i s)
  perform_word (add_all p i w) s = forget_result (add_blocked_word_for_all_targets p i w s)

module _ ⦃u : Unicode⦄ where
  -- What a call for the targets of a source may do that adds a word for one after the other: no word
  -- is lost, and none is added but this one for targets of that source.
  abbrev pub OnlyAdds : Bytes → Bytes → Bytes → Blocklist → Blocklist → Type 0
  OnlyAdds p i w b b' =
      (r : Route) (v : Bytes)
      → (b r v ≡ true → b' r v ≡ true)
        × (b' r v ≡ true
            → (b r v ≡ true) ⊎ ((is_from p i r ≡ true) × (v ≡ normalize_blocked_word w)))

  -- what the other calls do to the set
  abbrev pub specified : WordCall → Blocklist → Blocklist
  specified (add r w) b =
      λ r' w'. b r' w' || (same_route r r' && same (normalize_blocked_word w) w')
  specified (remove r w) b =
      λ r' w'. b r' w' && not (same_route r' r && same w' (normalize_blocked_word w))
  specified (clear r) b = λ r' w'. b r' w' && not (same_route r' r)
  specified (remove_all p i w) b =
      λ r' w'. b r' w' && not (is_from p i r' && same w' (normalize_blocked_word w))
  specified (clear_all p i) b = λ r' w'. b r' w' && not (is_from p i r')
  specified (add_all p i w) b = b

  -- how a call, which succeeds or fails, may change the set
  abbrev pub IsSpecified : WordCall → Bool → Blocklist → Blocklist → Type 0
  IsSpecified (add r w) done b b' = b' ≡ (if done then specified (add r w) b else b)
  IsSpecified (remove r w) done b b' = b' ≡ (if done then specified (remove r w) b else b)
  IsSpecified (clear r) done b b' = b' ≡ (if done then specified (clear r) b else b)
  IsSpecified (remove_all p i w) done b b' =
      b' ≡ (if done then specified (remove_all p i w) b else b)
  IsSpecified (clear_all p i) done b b' = b' ≡ (if done then specified (clear_all p i) b else b)
  IsSpecified (add_all p i w) done b b' = OnlyAdds p i w b b'
