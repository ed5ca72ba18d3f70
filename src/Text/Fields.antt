-- ===== src/Text/Fields.antt =====
-- strings.Fields and strings.SplitN.
use cross_platform_media_sha.Base.{ℕ, zero, suc, List, [], ◌∷◌, ◌++◌, true, false, ◌==◌}
use cross_platform_media_sha.Text.Equal.{Bytes}
use cross_platform_media_sha.Text.Trim.{front}

-- a word that is not empty
abbrev flush : Bytes → List Bytes
flush [] = []
flush (c ∷ w) = (c ∷ w) ∷ []

-- `n` bytes of white space are still to be skipped, and `cur` is the word so far
unfoldable pub fields_from : Bytes → ℕ → Bytes → List Bytes
fields_from [] n cur = flush cur
fields_from (c ∷ s) (suc n) cur = fields_from s n cur
fields_from (c ∷ s) zero cur = elim (front (c ∷ s)) [
  | zero ↦ fields_from s 0 (cur ++ c ∷ [])
  | suc n ↦ flush cur ++ fields_from s n []
]

-- strings.Fields
unfoldable pub fields : Bytes → List Bytes
unfolding fields_from front
fields s = fields_from s 0 []

-- strings.SplitN by one byte, into `suc cuts` parts at most
unfoldable pub split_n : ℕ → Bytes → ℕ → Bytes → List Bytes
split_n cuts [] sep cur = cur ∷ []
split_n zero (c ∷ s) sep cur = (cur ++ c ∷ s) ∷ []
split_n (suc cuts) (c ∷ s) sep cur = elim (c == sep) [
  | true ↦ cur ∷ split_n cuts s sep []
  | false ↦ split_n (suc cuts) s sep (cur ++ c ∷ [])
]
