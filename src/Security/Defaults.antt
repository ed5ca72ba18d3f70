-- ===== src/Security/Defaults.antt =====
-- internal/security/security.go: the defaults of the file rules.
use cross_platform_media_sha.Base.{ℕ, pos, pos_part, List, [], ◌∷◌, ◌==◌, if◌then◌else◌}
use cross_platform_media_sha.Text.{Bytes, lit}
use cross_platform_media_sha.Models.{RuleConfig}

abbrev pub default_max_file_size_mb : ℕ
default_max_file_size_mb = 50

abbrev pub default_allowed_mime_types : List Bytes
default_allowed_mime_types = lit "image/" ∷ lit "video/" ∷ lit "application/pdf" ∷ []

abbrev pub or_default : List Bytes → List Bytes
or_default [] = default_allowed_mime_types
or_default (m ∷ ms) = m ∷ ms

unfoldable pub apply_file_rule_defaults : RuleConfig → RuleConfig
apply_file_rule_defaults c = record c {
  max_file_size_mb =
      if pos_part c.max_file_size_mb == 0 then pos default_max_file_size_mb else c.max_file_size_mb;
  allowed_mime_types = or_default c.allowed_mime_types;
}
