-- ===== src/Rules/Hashtags.antt =====
-- What `extractHashtags` finds, said of the caption itself.
use cross_platform_media_sha.Base.{
  ℕ, ◌≡◌, ◌≢◌, ◌≤◌, ◌↔◌, ◌⊎◌, inl, inr, refl, sym, ap, ◌∙◌, arith, Some, All, Bool-cases, true,
  false, List, [], ◌∷◌, ◌++◌, ◌==◌, ==_iff,
}
use mathlib.Core.Path.{subst}
use cross_platform_media_sha.Text.{Bytes, Unicode, lit, trim, to_lower, trim_prefix, is_empty}
use cross_platform_media_sha.Models.{RuleConfig}
use cross_platform_media_sha.Rules.Tags.{
  is_word, word, add, submatches, normalize_tags, extract_hashtags, evaluate_tag_rule,
  with_required_iff, IsCarried,
}

-- A letter, a digit or `_`.
abbrev pub IsWordByte : ℕ → Type 0
IsWordByte c = ((65 ≤ c) × (c ≤ 90)) ⊎ (((97 ≤ c) × (c ≤ 122)) ⊎ (((48 ≤ c) × (c ≤ 57)) ⊎ (c ≡ 95)))

is_word_iff : (c : ℕ) → (is_word c ≡ true) ↔ IsWordByte c
is_word_iff c = ((λ h. ground (arith, h)), λ h. ground (arith, h))

-- no letter, digit or `_` in front
abbrev pub EndsWord : Bytes → Type 0
EndsWord [] = Unit
EndsWord (c ∷ s) = IsWordByte c → ⊥

-- The caption has `#w`, where `w` is a word of letters, digits and `_`, as long as it can be.
pub record IsHashtag (w caption : Bytes) : Type 0 where
  pub before : Bytes
  pub behind : Bytes
  pub found : caption ≡ before ++ b'#' ∷ (w ++ behind)
  pub not_empty : w ≢ []
  pub is_word : All IsWordByte w
  pub is_whole : EndsWord behind

word-append : (w s : Bytes) → All IsWordByte w → EndsWord s → word (w ++ s) ≡ w
unfolding word
word-append [] [] h k = refl
word-append [] (c ∷ s) h k = elim (Bool-cases (is_word c)) [
  | inl e ↦ absurd (k ((is_word_iff c).0 e))
  | inr e ↦ ground (arith, e)
]
word-append (c ∷ w) s h k = rw ((is_word_iff c).1 h.0) (ap (λ v. c ∷ v) (word-append w s h.1 k))

-- what `word` takes, and what it leaves
word-IsWhole :
    (s : Bytes)
    → All IsWordByte (word s) × ((rest : Bytes) × ((s ≡ word s ++ rest) × EndsWord rest))
unfolding word
word-IsWhole [] = (tt, ([], (refl, tt)))
word-IsWhole (c ∷ s) =
    let (h, (rest, (e, k))) = word-IsWhole s in
    elim (Bool-cases (is_word c)) [
      | inl p ↦ rw p (((is_word_iff c).0 p, h), (rest, (ap (λ v. c ∷ v) e, k)))
      | inr p ↦ rw p (tt, (c ∷ s, (refl, λ q. cc ((is_word_iff c).1 q, p))))
    ]

Some-add :
    (w t : Bytes) (ts : List Bytes)
    → Some (λ v. v ≡ w) (add t ts) ↔ (((t ≡ w) × (w ≢ [])) ⊎ Some (λ v. v ≡ w) ts)
Some-add w [] ts = ((λ h. inr h), λ h. elim h [ inl p ↦ absurd (p.1 (sym p.0)) | inr p ↦ p ])
Some-add w (c ∷ t) ts = (
  (λ h. elim h [ inl p ↦ inl (p, λ n. cc (p, n)) | inr p ↦ inr p ]),
  λ h. elim h [ inl p ↦ inl p.0 | inr p ↦ inr p ],
)

later-IsHashtag : (w : Bytes) (c : ℕ) (s : Bytes) → IsHashtag w s → IsHashtag w (c ∷ s)
later-IsHashtag w c s h = record {
  before = c ∷ h.before;
  behind = h.behind;
  found = ap (λ v. c ∷ v) h.found;
  not_empty = h.not_empty;
  is_word = h.is_word;
  is_whole = h.is_whole;
}

nothing-IsHashtag : (w before rest : Bytes) → [] ≡ before ++ b'#' ∷ rest → ⊥
nothing-IsHashtag w [] rest h = cc h
nothing-IsHashtag w (c ∷ before) rest h = cc h

first_or_later :
    (w : Bytes) (c : ℕ) (s before behind : Bytes)
    → c ∷ s ≡ before ++ b'#' ∷ (w ++ behind)
    → w ≢ []
    → All IsWordByte w
    → EndsWord behind
    → ((c ≡ b'#') × (word s ≡ w)) ⊎ IsHashtag w s
first_or_later w c s [] behind h n a k =
    let here : c ≡ b'#' = cc h in
    let rest : s ≡ w ++ behind = cc h in inl (here, ap word rest ∙ word-append w behind a k)
first_or_later w c s (b ∷ before) behind h n a k =
    let rest : s ≡ before ++ b'#' ∷ (w ++ behind) = cc h in
    inr (record {
      before = before;
      behind = behind;
      found = rest;
      not_empty = n;
      is_word = a;
      is_whole = k;
    })

first-IsHashtag :
    (w : Bytes) (c : ℕ) (s : Bytes) → c ≡ b'#' → word s ≡ w → w ≢ [] → IsHashtag w (c ∷ s)
first-IsHashtag w c s e p n =
    let (a, (rest, (q, k))) = word-IsWhole s in
    record {
      before = [];
      behind = rest;
      found = ap (λ v. v ∷ s) e ∙ ap (λ v. b'#' ∷ v) (q ∙ ap (λ v. v ++ rest) p);
      not_empty = n;
      is_word = subst (All IsWordByte) p a;
      is_whole = k;
    }

-- The submatches of the regular expression are the hashtags of the caption.
submatches_iff : (s w : Bytes) → Some (λ v. v ≡ w) (submatches s) ↔ IsHashtag w s
unfolding submatches
submatches_iff [] w = ((λ h. absurd h), λ h. nothing-IsHashtag w h.before (w ++ h.behind) h.found)
submatches_iff (c ∷ s) w =
    let ih = submatches_iff s w in
    let tag = Some-add w (word s) (submatches s) in
    let later = λ (h : IsHashtag w (c ∷ s)).
      first_or_later w c s h.before h.behind h.found h.not_empty h.is_word h.is_whole in
    elim (Bool-cases (c == b'#')) [
      | inl e ↦ rw e (
        (λ h. elim (tag.0 h) [
          | inl p ↦ first-IsHashtag w c s ((==_iff c b'#').0 e) p.0 p.1
          | inr p ↦ later-IsHashtag w c s (ih.0 p)
        ]),
        λ h. tag.1 (elim (later h) [ inl p ↦ inl (p.1, h.not_empty) | inr p ↦ inr (ih.1 p) ]),
      )
      | inr e ↦ rw e (
        (λ h. later-IsHashtag w c s (ih.0 h)),
        λ h. elim (later h) [ inl p ↦ absurd (cc ((==_iff c b'#').1 p.0, e)) | inr p ↦ ih.1 p ],
      )
    ]

module _ ⦃u : Unicode⦄ where
  normalize_tags_iff :
      (ws : List Bytes) (tag : Bytes)
      → Some (λ t. t ≡ tag) (normalize_tags ws)
        ↔ ((tag ≢ []) × Some (λ w. trim (to_lower w) ≡ tag) ws)
  unfolding normalize_tags
  normalize_tags_iff [] tag = ((λ h. absurd h), λ h. absurd h.1)
  normalize_tags_iff (w ∷ ws) tag =
      let ih = normalize_tags_iff ws tag in
      let one = Some-add tag (trim (to_lower w)) (normalize_tags ws) in
      (
        (λ h. elim (one.0 h) [ inl p ↦ (p.1, inl p.0) | inr p ↦ let q = ih.0 p in (q.0, inr q.1) ]),
        λ h. one.1 (elim h.1 [ inl p ↦ inl (p, h.0) | inr p ↦ inr (ih.1 (h.0, p)) ]),
      )

  -- a hashtag that is the tag once it is in lower case
  abbrev Carries : Bytes → Bytes → Type 0
  Carries caption tag = (w : Bytes) × (IsHashtag w caption × (trim (to_lower w) ≡ tag))

  Some-Carries :
      (ws : List Bytes) (caption tag : Bytes)
      → ((w : Bytes) → Some (λ v. v ≡ w) ws → IsHashtag w caption)
      → Some (λ w. trim (to_lower w) ≡ tag) ws
      → Carries caption tag
  Some-Carries [] caption tag k h = absurd h
  Some-Carries (w ∷ ws) caption tag k h = elim h [
    | inl p ↦ (w, (k w (inl refl), p))
    | inr p ↦ Some-Carries ws caption tag (λ v q. k v (inr q)) p
  ]

  Carries-Some :
      (ws : List Bytes) (w tag : Bytes)
      → trim (to_lower w) ≡ tag
      → Some (λ v. v ≡ w) ws
      → Some (λ v. trim (to_lower v) ≡ tag) ws
  Carries-Some [] w tag e h = absurd h
  Carries-Some (v ∷ ws) w tag e h = elim h [
    | inl p ↦ inl (ap (λ x. trim (to_lower x)) p ∙ e)
    | inr p ↦ inr (Carries-Some ws w tag e p)
  ]

  extract_hashtags_iff :
      (caption tag : Bytes)
      → Some (λ t. t ≡ tag) (extract_hashtags caption) ↔ ((tag ≢ []) × Carries caption tag)
  unfolding extract_hashtags
  extract_hashtags_iff caption tag =
      let words = submatches caption in
      let all = normalize_tags_iff words tag in
      (
        (λ h. (
          (all.0 h).0,
          Some-Carries words caption tag (λ w. (submatches_iff caption w).0) (all.0 h).1,
        )),
        λ h.
            all.1 (
              h.0,
              Carries-Some words h.1.0 tag h.1.1.1 ((submatches_iff caption h.1.0).1 h.1.1.0),
            ),
      )

-- A required tag, without its `#` and in lower case, is not blank and is a hashtag of the caption,
-- in lower case.
abbrev pub IsWorn : ⦃u : Unicode⦄ → Bytes → Bytes → Type 0
IsWorn caption required =
    let tag = trim (trim_prefix (to_lower required) (lit "#")) in
    (tag ≢ []) × ((w : Bytes) × (IsHashtag w caption × (trim (to_lower w) ≡ tag)))

Some-iff :
    (P Q : Bytes → Type 0) → ((r : Bytes) → P r ↔ Q r) → (rs : List Bytes) → Some P rs ↔ Some Q rs
Some-iff P Q k [] = ((λ h. h), λ h. h)
Some-iff P Q k (r ∷ rs) =
    let ih = Some-iff P Q k rs in
    (
      (λ h. elim h [ inl p ↦ inl ((k r).0 p) | inr p ↦ inr (ih.0 p) ]),
      λ h. elim h [ inl p ↦ inl ((k r).1 p) | inr p ↦ inr (ih.1 p) ],
    )

is_empty_iff : (s : Bytes) → (is_empty s ≡ false) ↔ (s ≢ [])
is_empty_iff [] = ((λ h. cc h), λ h. absurd (h refl))
is_empty_iff (c ∷ s) = ((λ h n. cc n), λ h. refl)

carried_iff :
    ⦃u : Unicode⦄ (caption required : Bytes)
    → IsCarried (extract_hashtags caption) required ↔ IsWorn caption required
carried_iff caption required =
    let tag = trim (trim_prefix (to_lower required) (lit "#")) in
    let all = extract_hashtags_iff caption tag in
    (
      (λ h. ((is_empty_iff tag).0 h.not_blank, (all.0 h.among).1)),
      λ h. record { not_blank = (is_empty_iff tag).1 h.0; among = all.1 h },
    )

-- A caption passes exactly when no tag is required, or when one of the required tags is worn: without
-- its `#` and in lower case it is not blank, and the caption has a `#`, with a longest word of
-- letters, digits and `_` behind it, which in lower case is that tag.
pub evaluate_tag_rule_iff :
    ⦃u : Unicode⦄ (config : RuleConfig) (caption : Bytes)
    → (evaluate_tag_rule config caption ≡ true)
      ↔ ((config.required_tags ≡ []) ⊎ Some (IsWorn caption) config.required_tags)
unfolding evaluate_tag_rule
evaluate_tag_rule_iff config caption =
    let all = with_required_iff config.required_tags (extract_hashtags caption) in
    let worn =
      Some-iff (IsCarried (extract_hashtags caption)) (IsWorn caption) (carried_iff caption)
        config.required_tags in
    (
      (λ h. elim (all.0 h) [ inl p ↦ inl p | inr p ↦ inr (worn.0 p) ]),
      λ h. all.1 (elim h [ inl p ↦ inl p | inr p ↦ inr (worn.1 p) ]),
    )
