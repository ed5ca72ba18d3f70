-- ===== src/Queue/Words.antt =====
-- `containsBlockedWord`: a word of the list occurs in the caption, in any case.
use cross_platform_media_sha.Base.{
  ◌≡◌, ◌↔◌, inl, inr, Bool, true, false, List, [], ◌∷◌, Some, arith, if◌then◌else◌, Bool-cases,
}
use cross_platform_media_sha.Text.{Bytes, Unicode, to_lower, trim, contains, is_empty}

module _ ⦃u : Unicode⦄ where
  abbrev pub trimmed_word : Bytes → Bytes
  trimmed_word word = to_lower (trim word)

  unfoldable pub has_word : List Bytes → Bytes → Bool
  has_word [] lower_text = false
  has_word (w ∷ ws) lower_text =
      let rest = has_word ws lower_text in
      if is_empty (trimmed_word w)
      then rest
      else if contains lower_text (trimmed_word w)
      then true
      else rest

  unfoldable pub contains_blocked_word : Bytes → List Bytes → Bool
  contains_blocked_word text words = has_word words (to_lower text)

  -- A blocked word that hits: it is not blank, and stands in the text.
  pub record Hits (lower_text word : Bytes) : Type 0 where
    pub not_blank : is_empty (trimmed_word word) ≡ false
    pub occurs : contains lower_text (trimmed_word word) ≡ true

  has_word_iff : (ws : List Bytes) (t : Bytes) → (has_word ws t ≡ true) ↔ Some (Hits t) ws
  unfolding has_word
  has_word_iff [] t = ((λ h. cc), λ h. absurd h)
  has_word_iff (w ∷ ws) t =
      let ih = has_word_iff ws t in
      elim (Bool-cases (is_empty (trimmed_word w))) [
        | inl e ↦ (
          (λ h. inr (ih.0 (ground (arith, e)))),
          λ h. elim h [ inl p ↦ cc (p.not_blank, e) | inr p ↦ ground (arith, e, ih.1 p) ],
        )
        | inr e ↦ elim (Bool-cases (contains t (trimmed_word w))) [
          | inl c ↦ ((λ _. inl (record { not_blank = e; occurs = c })), λ _. ground (arith, e, c))
          | inr c ↦ (
            (λ h. inr (ih.0 (ground (arith, e, c)))),
            λ h. elim h [ inl p ↦ cc (p.occurs, c) | inr p ↦ ground (arith, e, c, ih.1 p) ],
          )
        ]
      ]

  -- A text is blocked exactly when one of the words that are not blank occurs in it, whatever the
  -- case of either.
  pub contains_blocked_word_iff :
      (text : Bytes) (words : List Bytes)
      → (contains_blocked_word text words ≡ true) ↔ Some (Hits (to_lower text)) words
  unfolding contains_blocked_word
  contains_blocked_word_iff text words = has_word_iff words (to_lower text)
