-- ===== src/Security/Environment.antt =====
-- internal/security: the settings of the rate limits, and the secrets, from the environment.
use cross_platform_media_sha.Base.{
  ℕ, ℤ, pos, negsuc, Option, none, some, List, [], ◌∷◌, ◌++◌, if◌then◌else◌,
}
use cross_platform_media_sha.Text.{Bytes, lit, trim, is_empty, parse_int}

-- os.Getenv, os.ReadFile, and the replacement of the matches of each of the package's patterns
pub record System : Type 0 where
  pub getenv : Bytes → Bytes
  pub read_file : Bytes → Option Bytes
  pub token_patterns : List (Bytes → Bytes → Bytes)

-- a number that is not negative
abbrev or_default : ℕ → Option ℤ → ℕ
or_default default none = default
or_default default (some (pos n)) = n
or_default default (some (negsuc n)) = default

unfoldable pub parse_int_env_default : System → Bytes → ℕ → ℕ
unfolding parse_int
parse_int_env_default s name default =
    let raw = trim (s.getenv name) in
    if is_empty raw then default else or_default default (parse_int raw)

abbrev secret_in : Option Bytes → Bytes
secret_in none = []
secret_in (some text) = trim text

abbrev secret_at : System → Bytes → Bytes
secret_at s path = if is_empty path then [] else secret_in (s.read_file path)

-- the file that NAME_FILE names, or else NAME
unfoldable pub load_secret : System → Bytes → Bytes
load_secret s name =
    let secret = secret_at s (trim (s.getenv (name ++ lit "_FILE"))) in
    if is_empty secret then trim (s.getenv name) else secret

unfoldable pub replace_matches : List (Bytes → Bytes → Bytes) → Bytes → Bytes
replace_matches [] value = value
replace_matches (p ∷ ps) value = replace_matches ps (p value (lit "***REDACTED***"))

unfoldable pub mask_secrets : System → Bytes → Bytes
unfolding replace_matches
mask_secrets s value = if is_empty value then value else replace_matches s.token_patterns value
