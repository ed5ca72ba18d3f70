-- ===== src/Rules/Files.antt =====
-- `EvaluateFileRule`: the size and the type of a file.
use cross_platform_media_sha.Base.{
  ℕ, ◌+◌, ◌*◌, ◌/◌, ◌≡◌, ◌↔◌, ◌<◌, refl, Bool, true, false, ◌&&◌, List, [], ◌∷◌, arith, pos_part,
  Some, ltb, if◌then◌else◌, ◌==◌, Bool-cases, inl, inr,
}
use cross_platform_media_sha.Text.{Bytes, Unicode, trim, to_lower, has_prefix}
use cross_platform_media_sha.Models.{RuleConfig}
use cross_platform_media_sha.Security.Defaults.{
  apply_file_rule_defaults, default_max_file_size_mb, or_default,
}

abbrev pub mega : ℕ
mega = 1024 * 1024

module _ ⦃u : Unicode⦄ where
  unfoldable pub has_mime : List Bytes → Bytes → Bool
  has_mime [] content_type = false
  has_mime (m ∷ ms) content_type =
      if has_prefix (to_lower content_type) (to_lower (trim m))
      then true
      else has_mime ms content_type

  abbrev mime_allowed : List Bytes → Bytes → Bool
  mime_allowed [] content_type = true
  mime_allowed (m ∷ ms) content_type = has_mime (m ∷ ms) content_type

  -- the checks behind the defaults
  unfoldable pub check_file : RuleConfig → ℕ → Bytes → Bool
  check_file config file_size content_type =
      if ltb 0 (pos_part config.max_file_size_mb)
        && ltb (pos_part config.max_file_size_mb) (file_size / mega)
      then false
      else mime_allowed config.allowed_mime_types content_type

  unfoldable pub evaluate_file_rule : RuleConfig → ℕ → Bytes → Bool
  unfolding check_file apply_file_rule_defaults
  evaluate_file_rule config file_size content_type =
      check_file (apply_file_rule_defaults config) file_size content_type

-- the size limit in force, in MB
abbrev pub size_limit : RuleConfig → ℕ
size_limit c =
    if pos_part c.max_file_size_mb == 0
    then default_max_file_size_mb
    else pos_part c.max_file_size_mb

has_mime_iff :
    ⦃u : Unicode⦄ (ms : List Bytes) (content_type : Bytes)
    → (has_mime ms content_type ≡ true)
      ↔ Some (λ m. has_prefix (to_lower content_type) (to_lower (trim m)) ≡ true) ms
unfolding has_mime
has_mime_iff [] t = ((λ h. cc), λ h. absurd h)
has_mime_iff (m ∷ ms) t =
    let ih = has_mime_iff ms t in
    elim (Bool-cases (has_prefix (to_lower t) (to_lower (trim m)))) [
      | inl e ↦ rw e ((λ _. inl refl), λ _. refl)
      | inr e ↦ rw e ((λ h. inr (ih.0 h)), λ h. elim h [ inl p ↦ cc p | inr p ↦ ih.1 p ])
    ]

mime_allowed_lem :
    ⦃u : Unicode⦄ (ms : List Bytes) (t : Bytes)
    → mime_allowed (or_default ms) t ≡ has_mime (or_default ms) t
mime_allowed_lem [] t = refl
mime_allowed_lem (m ∷ ms) t = refl

-- A file passes exactly when it is smaller than one MB more than the limit in force, and its type
-- begins with one of the types in force.
pub evaluate_file_rule_iff :
    ⦃u : Unicode⦄ (config : RuleConfig) (file_size : ℕ) (content_type : Bytes)
    → (evaluate_file_rule config file_size content_type ≡ true) ↔ (
        (file_size < (size_limit config + 1) * mega)
        × Some
            (λ m. has_prefix (to_lower content_type) (to_lower (trim m)) ≡ true)
            (or_default config.allowed_mime_types))
unfolding evaluate_file_rule
evaluate_file_rule_iff config n t =
    let types = or_default config.allowed_mime_types in
    let mime = has_mime_iff types t in
    let same_test = mime_allowed_lem config.allowed_mime_types t in
    elim (Bool-cases (has_mime types t)) [
      | inl e ↦
          (λ h. (ground (arith, e, same_test), mime.0 e), λ h. ground (arith, e, same_test, h.0))
      | inr e ↦ (λ h. cc (small h e), λ h. cc (mime.1 h.1, e))
    ]
  where
    small :
        evaluate_file_rule config n t ≡ true
        → has_mime (or_default config.allowed_mime_types) t ≡ false
        → false ≡ true
    small h e = ground (arith, e, mime_allowed_lem config.allowed_mime_types t)
