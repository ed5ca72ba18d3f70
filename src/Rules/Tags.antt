-- ===== src/Rules/Tags.antt =====
-- `EvaluateTagRule` and `extractHashtags`.
use cross_platform_media_sha.Base.{
  ℕ, ◌≡◌, ◌↔◌, ◌⊎◌, inl, inr, refl, sym, ◌∙◌, arith, Some, Bool-cases, Bool, true, false, ◌&&◌,
  ◌||◌, List, [], ◌∷◌, leb, ◌==◌, if◌then◌else◌,
}
use cross_platform_media_sha.Text.{
  Bytes, Unicode, lit, same, same_iff, trim, to_lower, is_empty, trim_prefix,
}
use cross_platform_media_sha.Models.{RuleConfig}

-- [A-Za-z0-9_]
abbrev pub is_word : ℕ → Bool
is_word c =
    (leb 65 c && leb c 90) || ((leb 97 c && leb c 122) || ((leb 48 c && leb c 57) || c == 95))

-- the longest word at the front
unfoldable pub word : Bytes → Bytes
word [] = []
word (c ∷ s) = let rest = word s in if is_word c then c ∷ rest else []

abbrev pub add : Bytes → List Bytes → List Bytes
add [] tags = tags
add (c ∷ w) tags = (c ∷ w) ∷ tags

-- the submatches of `#([A-Za-z0-9_]+)`: the words behind a `#`
unfoldable pub submatches : Bytes → List Bytes
unfolding word
submatches [] = []
submatches (c ∷ s) = let rest = submatches s in if c == b'#' then add (word s) rest else rest

-- `_, ok := tags[tag]`
unfoldable pub has_tag : Bytes → List Bytes → Bool
has_tag tag [] = false
has_tag tag (t ∷ ts) = same t tag || has_tag tag ts

module _ ⦃u : Unicode⦄ where
  -- the set of tags, as a list
  unfoldable pub normalize_tags : List Bytes → List Bytes
  normalize_tags [] = []
  normalize_tags (w ∷ ws) = add (trim (to_lower w)) (normalize_tags ws)

  unfoldable pub extract_hashtags : Bytes → List Bytes
  unfolding submatches normalize_tags
  extract_hashtags caption = normalize_tags (submatches caption)

  abbrev pub normalized : Bytes → Bytes
  normalized tag = trim (trim_prefix (to_lower tag) (lit "#"))

  unfoldable pub has_required : List Bytes → List Bytes → Bool
  unfolding has_tag
  has_required [] tags = false
  has_required (r ∷ rs) tags =
      if is_empty (normalized r)
      then has_required rs tags
      else if has_tag (normalized r) tags
      then true
      else has_required rs tags

  abbrev no_tags : List Bytes → Bool
  no_tags [] = true
  no_tags (t ∷ ts) = false

  abbrev pub with_required : List Bytes → List Bytes → Bool
  with_required [] tags = true
  with_required (r ∷ rs) tags = if no_tags tags then false else has_required (r ∷ rs) tags

  unfoldable pub evaluate_tag_rule : RuleConfig → Bytes → Bool
  unfolding extract_hashtags has_required
  evaluate_tag_rule config caption = with_required config.required_tags (extract_hashtags caption)

has_tag_iff :
    (tag : Bytes) (tags : List Bytes) → (has_tag tag tags ≡ true) ↔ Some (λ t. t ≡ tag) tags
unfolding has_tag
has_tag_iff tag [] = ((λ h. cc), λ h. absurd h)
has_tag_iff tag (t ∷ ts) =
    let ih = has_tag_iff tag ts in
    let here = same_iff t tag in
    elim (Bool-cases (same t tag)) [
      | inl e ↦ ((λ _. inl (here.0 e)), λ _. ground (arith, e))
      | inr e ↦ (
        (λ h. inr (ih.0 (ground (arith, e)))),
        λ h. elim h [ inl p ↦ cc (here.1 p, e) | inr p ↦ ground (arith, e, ih.1 p) ],
      )
    ]

-- A required tag that is not blank, and among the tags.
pub record IsCarried ⦃u : Unicode⦄ (tags : List Bytes) (required : Bytes) : Type 0 where
  pub not_blank : is_empty (normalized required) ≡ false
  pub among : Some (λ t. t ≡ normalized required) tags

has_required_iff :
    ⦃u : Unicode⦄ (rs tags : List Bytes) → (has_required rs tags ≡ true) ↔ Some (IsCarried tags) rs
unfolding has_required
has_required_iff [] tags = ((λ h. cc), λ h. absurd h)
has_required_iff (r ∷ rs) tags =
    let ih = has_required_iff rs tags in
    let tag = has_tag_iff (normalized r) tags in
    elim (Bool-cases (is_empty (normalized r))) [
      | inl e ↦ (
        (λ h. inr (ih.0 (ground (arith, e)))),
        λ h. elim h [ inl p ↦ cc (p.not_blank, e) | inr p ↦ ground (arith, e, ih.1 p) ],
      )
      | inr e ↦ elim (Bool-cases (has_tag (normalized r) tags)) [
        | inl c ↦
            ((λ _. inl (record { not_blank = e; among = tag.0 c })), λ _. ground (arith, e, c))
        | inr c ↦ (
          (λ h. inr (ih.0 (ground (arith, e, c)))),
          λ h. elim h [ inl p ↦ cc (tag.1 p.among, c) | inr p ↦ ground (arith, e, c, ih.1 p) ],
        )
      ]
    ]

required_of_none : ⦃u : Unicode⦄ (rs : List Bytes) → has_required rs [] ≡ false
unfolding has_required
required_of_none [] = refl
required_of_none (r ∷ rs) = ground (arith, required_of_none rs)

with_required_lem :
    ⦃u : Unicode⦄ (r : Bytes) (rs tags : List Bytes)
    → with_required (r ∷ rs) tags ≡ has_required (r ∷ rs) tags
with_required_lem r rs [] = sym (required_of_none (r ∷ rs))
with_required_lem r rs (t ∷ ts) = refl

pub with_required_iff :
    ⦃u : Unicode⦄ (rs tags : List Bytes)
    → (with_required rs tags ≡ true) ↔ ((rs ≡ []) ⊎ Some (IsCarried tags) rs)
with_required_iff [] tags = ((λ _. inl refl), λ _. refl)
with_required_iff (r ∷ rs) tags =
    let all = has_required_iff (r ∷ rs) tags in
    let step = with_required_lem r rs tags in
    ((λ h. inr (all.0 (sym step ∙ h))), λ h. elim h [ inl p ↦ cc p | inr p ↦ step ∙ all.1 p ])
