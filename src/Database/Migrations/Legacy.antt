-- ===== src/Database/Migrations/Legacy.antt =====
-- splitBlockedWordsLegacy of internal/database/db.go: the words of the column `blocked_words` that the
-- table of pairings had before it became a table of its own.
use cross_platform_media_sha.Base.{ℕ, true, false, Option, none, some, List, [], ◌∷◌}
use cross_platform_media_sha.Text.{Bytes, Unicode, trim, is_empty, split}
use cross_platform_media_sha.Models.{bytes_eq}
use cross_platform_media_sha.Database.Table.{has}
use cross_platform_media_sha.Database.Pairings.{normalize_blocked_word}

-- An error in the middle of the rows that v2NormalizeBlockedWords reads of the pairings: after how
-- many rows it ends the loop, if there is one. The source takes it for the end of the rows, as it
-- does not ask rows.Err.
pub record Interruption : Type 0 where
  pub rows_before_error : Option ℕ

-- the word itself, as the key by which it is looked up
abbrev pub word_key : Bytes → Bytes
word_key w = w

module _ ⦃u : Unicode⦄ where
  -- the loop over the parts; `seen` is the map of the words so far
  unfoldable pub collect_words : List Bytes → List Bytes → List Bytes
  unfolding normalize_blocked_word
  collect_words [] seen = []
  collect_words (part ∷ parts) seen =
      let normalized = normalize_blocked_word part in
      elim (is_empty normalized) [
        | true ↦ collect_words parts seen
        | false ↦ elim (has word_key normalized seen) [
          | true ↦ collect_words parts seen
          | false ↦ normalized ∷ collect_words parts (normalized ∷ seen)
        ]
      ]

  unfoldable pub split_blocked_words_legacy : Bytes → List Bytes
  unfolding collect_words
  split_blocked_words_legacy words = elim (is_empty (trim words)) [
    | true ↦ []
    | false ↦ collect_words (split words b',') []
  ]

  -- the words of a cell of the column: `p.words.Valid && p.words.String != ""`
  unfoldable pub cell_words : Option Bytes → List Bytes
  unfolding split_blocked_words_legacy
  cell_words none = []
  cell_words (some text) = elim (is_empty text) [
    | true ↦ []
    | false ↦ split_blocked_words_legacy text
  ]
