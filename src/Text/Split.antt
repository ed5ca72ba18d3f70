-- ===== src/Text/Split.antt =====
-- strings.Split, strings.Join and strings.Fields.
use mathlib.Core.List.{append_assoc, append-nil}
use cross_platform_media_sha.Base.{ℕ, ◌≡◌, true, false, List, [], ◌∷◌, ◌++◌, arith, ◌==◌, ==_iff}
use cross_platform_media_sha.Text.Equal.{Bytes}

-- `sep` is one byte in every call of the program
cut : ℕ → Bytes → Bytes → List Bytes
cut sep [] cur = cur ∷ []
cut sep (c ∷ s) cur = elim (c == sep) [
  | true ↦ cur ∷ cut sep s []
  | false ↦ cut sep s (cur ++ c ∷ [])
]

-- strings.Split
unfoldable pub split : Bytes → ℕ → List Bytes
unfolding cut
split s sep = cut sep s []

-- strings.Join
unfoldable pub join : List Bytes → Bytes → Bytes
join [] sep = []
join (p ∷ []) sep = p
join (p ∷ q ∷ ps) sep = p ++ (sep ++ join (q ∷ ps) sep)

-- no byte of the text is the separator
abbrev pub Lacks : ℕ → Bytes → Type 0
Lacks sep [] = Unit {0}
Lacks sep (c ∷ s) = ((c == sep) ≡ false) × Lacks sep s

cut-append :
    (sep : ℕ) (p rest cur : Bytes) → Lacks sep p → cut sep (p ++ rest) cur ≡ cut sep rest (cur ++ p)
unfolding cut
cut-append sep [] rest cur h = rw append-nil
cut-append sep (c ∷ p) rest cur h =
    ground (arith, cut-append sep p rest (cur ++ c ∷ []), append_assoc cur (c ∷ []) p)

-- The first part of a split is what stands before the first separator.
pub split-first :
    (sep : ℕ) (p rest : Bytes) → Lacks sep p → split (p ++ (sep ∷ rest)) sep ≡ p ∷ split rest sep
unfolding split
split-first sep p rest h = rw (cut-append sep p _ [] h) (ground (arith, ==_iff sep sep))
