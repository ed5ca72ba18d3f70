-- ===== src/Moderation/Repeats.antt =====
-- What the loop over the words of a text finds.
use cross_platform_media_sha.Base.{◌≡◌, ◌≤◌, ◌↔◌, ◌⊎◌, true, List, [], ◌∷◌, length, arith}
use cross_platform_media_sha.Text.{Bytes, same_iff, fields}
use cross_platform_media_sha.Moderation.{run_from, scan_words, has_repeated_words}

-- some word stands three times in a row
abbrev pub IsTripled : List Bytes → Type 0
IsTripled [] = ⊥
IsTripled (a ∷ []) = ⊥
IsTripled (a ∷ b ∷ []) = ⊥
IsTripled (a ∷ b ∷ c ∷ ws) = ((a ≡ b) × (b ≡ c)) ⊎ IsTripled (b ∷ c ∷ ws)

-- the first word is the one given
abbrev StartsWith : Bytes → List Bytes → Type 0
StartsWith w [] = ⊥
StartsWith w (v ∷ vs) = w ≡ v

abbrev CountsRuns : Bytes → List Bytes → Type 0
CountsRuns w ws =
    ((run_from w 1 ws ≡ true) ↔ IsTripled (w ∷ ws))
    × ((run_from w 2 ws ≡ true) ↔ (StartsWith w ws ⊎ IsTripled (w ∷ ws)))

runs_iff : (w : Bytes) (ws : List Bytes) → CountsRuns w ws
unfolding run_from
runs_iff w [] = (ground arith, ground arith)
runs_iff w (v ∷ []) = (ground (arith, same_iff v w), ground (arith, same_iff v w))
runs_iff w (v ∷ x ∷ ws) =
    let h = runs_iff v (x ∷ ws) in
    (ground (arith, same_iff v w, h.0, h.1), ground (arith, same_iff v w, h.0, h.1))

scan_words_iff : (ws : List Bytes) → (scan_words ws ≡ true) ↔ IsTripled ws
scan_words_iff [] = ground arith
scan_words_iff (w ∷ ws) = (runs_iff w ws).0

-- The moderation finds repeated words exactly in the texts of at least four words of which one stands
-- three times in a row.
pub has_repeated_words_iff :
    (text : Bytes)
    → (has_repeated_words text ≡ true) ↔ ((4 ≤ length (fields text)) × IsTripled (fields text))
unfolding has_repeated_words
has_repeated_words_iff text = ground (arith, scan_words_iff (fields text))
