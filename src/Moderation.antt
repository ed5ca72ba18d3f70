-- ===== src/Moderation.antt =====
-- internal/moderation: the score of an event and the decision to block it. A float64 is its bit
-- pattern, and the float operations are a parameter.
use cross_platform_media_sha.Base.{
  ℕ, zero, suc, ◌-◌, Bool, true, false, not, ◌&&◌, ◌||◌, Option, none, some, List, [], ◌∷◌, ◌++◌,
  leb, ltb, length, any, if◌then◌else◌, ◌==◌,
}
use cross_platform_media_sha.Text.{
  Bytes, Unicode, lit, trim, same, is_empty, to_lower, has_prefix, contains, fields, split,
}
use cross_platform_media_sha.Models.{MediaEvent, RuleConfig}
pub mod Repeats

-- The float operations: a constant as it is written in Go, addition, the order, strconv.ParseFloat.
-- `range` is the order in which Go visits the entries of a map.
pub record Floats : Type 0 where
  pub constant : Bytes → ℕ
  pub add : ℕ → ℕ → ℕ
  pub less : ℕ → ℕ → Bool
  pub at_most : ℕ → ℕ → Bool
  pub parse_float : Bytes → Option ℕ
  pub range : List (Bytes × Bytes) → List (Bytes × Bytes)

-- the variables of the environment
abbrev pub Environ : Type 0
Environ = Bytes → Bytes

pub record Verdict : Type 0 where
  pub enabled : Bool
  pub blocked : Bool
  pub score : ℕ
  pub threshold : ℕ
  pub reasons : List Bytes

unfoldable pub risky_extensions : List (Bytes × Bytes)
risky_extensions =
    (lit ".exe", lit "0.60")
    ∷ (lit ".bat", lit "0.50")
    ∷ (lit ".cmd", lit "0.50")
    ∷ (lit ".scr", lit "0.50")
    ∷ (lit ".js", lit "0.40")
    ∷ []

unfoldable pub default_keyword_score : List (Bytes × Bytes)
default_keyword_score =
    (lit "nsfw", lit "0.60")
    ∷ (lit "porn", lit "0.75")
    ∷ (lit "xxx", lit "0.80")
    ∷ (lit "onlyfans", lit "0.60")
    ∷ (lit "casino", lit "0.55")
    ∷ (lit "crypto giveaway", lit "0.60")
    ∷ (lit "free money", lit "0.60")
    ∷ (lit "airdrop", lit "0.40")
    ∷ []

-- the matches of `https?://|www\.`; `k` bytes of a match are still to be passed over
unfoldable pub count_urls : ℕ → Bytes → ℕ
count_urls k [] = 0
count_urls (suc k) (c ∷ s) = count_urls k s
count_urls zero (c ∷ s) =
    let plain = count_urls 6 s in
    let secure = count_urls 7 s in
    let bare = count_urls 3 s in
    let rest = count_urls 0 s in
    if has_prefix (c ∷ s) (lit "http://")
    then suc plain
    else if has_prefix (c ∷ s) (lit "https://")
    then suc secure
    else if has_prefix (c ∷ s) (lit "www.")
    then suc bare
    else rest

abbrev is_loud : ℕ → Bool
is_loud c = c == b'!' || c == b'?'

-- a match of `[!?]{3,}`; the first argument counts the signs just before
unfoldable pub repeated_punct : ℕ → Bytes → Bool
repeated_punct n [] = leb 3 n
repeated_punct n (c ∷ s) =
    let more = repeated_punct (suc n) s in
    let none_here = repeated_punct 0 s in leb 3 n || (if is_loud c then more else none_here)

abbrev has_slash : Bytes → Bool
has_slash s = any (λ c. c == b'/') s

-- filepath.Ext: from the last dot of the last element of the path
unfoldable pub ext : Bytes → Bytes
ext [] = []
ext (c ∷ s) =
    let rest = ext s in
    if not (is_empty rest) then rest else if c == b'.' && not (has_slash s) then c ∷ s else []

-- the words after `previous`, which ends a run of equal words
unfoldable pub run_from : Bytes → ℕ → List Bytes → Bool
run_from previous run [] = false
run_from previous run (w ∷ ws) =
    let longer = run_from w (suc run) ws in
    let fresh = run_from w 1 ws in
    if same w previous then if leb 3 (suc run) then true else longer else fresh

abbrev pub scan_words : List Bytes → Bool
scan_words [] = false
scan_words (w ∷ ws) = run_from w 1 ws

unfoldable pub has_repeated_words : Bytes → Bool
unfolding run_from fields
has_repeated_words text =
    let parts = fields text in if ltb (length parts) 4 then false else scan_words parts

abbrev pub yes : List Bytes
yes = lit "1" ∷ lit "true" ∷ lit "yes" ∷ lit "on" ∷ []

abbrev pub no : List Bytes
no = lit "0" ∷ lit "false" ∷ lit "no" ∷ lit "off" ∷ []

module _ ⦃u : Unicode⦄ where
  unfoldable pub csv_parts : List Bytes → List Bytes
  csv_parts [] = []
  csv_parts (p ∷ ps) =
      let rest = csv_parts ps in
      if is_empty (to_lower (trim p)) then rest else to_lower (trim p) ∷ rest

  unfoldable pub split_csv : Bytes → List Bytes
  unfolding csv_parts split
  split_csv raw = if is_empty (trim raw) then [] else csv_parts (split raw b',')

  unfoldable pub parse_bool_env : Environ → Bytes → Bool → Bool
  parse_bool_env env name default =
      let raw = to_lower (trim (env name)) in
      if is_empty raw
      then default
      else if any (same raw) yes
      then true
      else if any (same raw) no
      then false
      else default

module _ (f : Floats) where
  abbrev positive_or : ℕ → Option ℕ → ℕ
  positive_or default none = default
  positive_or default (some v) = if f.at_most v (f.constant (lit "0")) then default else v

  unfoldable pub parse_float_env : Environ → Bytes → ℕ → ℕ
  parse_float_env env name default =
      let raw = trim (env name) in
      if is_empty raw then default else positive_or default (f.parse_float raw)

  unfoldable pub threshold_of : Environ → RuleConfig → ℕ
  unfolding parse_float_env
  threshold_of env rules =
      let wanted =
        if f.at_most rules.ai_moderation_threshold (f.constant (lit "0"))
        then parse_float_env env (lit "AI_MODERATION_MIN_SCORE") (f.constant (lit "0.70"))
        else rules.ai_moderation_threshold in
      let capped = if f.less (f.constant (lit "1")) wanted then f.constant (lit "1") else wanted in
      if f.less capped (f.constant (lit "0.05")) then f.constant (lit "0.05") else capped

  -- a reason, and what it adds to the score
  abbrev scored : Bool → Bytes → Bytes → ℕ × List Bytes → ℕ × List Bytes
  scored true weight reason (score, reasons) =
      (f.add score (f.constant weight), reasons ++ reason ∷ [])
  scored false weight reason p = p

  unfoldable pub score_keywords : Bytes → List (Bytes × Bytes) → ℕ × List Bytes → ℕ × List Bytes
  score_keywords text [] p = p
  score_keywords text ((k, weight) ∷ ks) p =
      score_keywords text ks (scored (contains text k) weight (lit "keyword:" ++ k) p)

  unfoldable pub score_custom : Bytes → List Bytes → ℕ × List Bytes → ℕ × List Bytes
  score_custom text [] p = p
  score_custom text (k ∷ ks) p =
      score_custom text ks (scored (contains text k) (lit "0.25") (lit "custom_keyword:" ++ k) p)

  -- the entry of the extension, if there is one
  unfoldable pub score_extension : Bytes → List (Bytes × Bytes) → ℕ × List Bytes → ℕ × List Bytes
  score_extension e [] p = p
  score_extension e ((k, weight) ∷ ks) p =
      let rest = score_extension e ks p in
      if same e k then scored true weight (lit "risky_extension:" ++ e) p else rest

  module _ ⦃u : Unicode⦄ where
    unfoldable pub score_of : Environ → MediaEvent → ℕ × List Bytes
    unfolding score_keywords score_custom score_extension count_urls repeated_punct
        has_repeated_words ext split_csv default_keyword_score risky_extensions
    score_of env e =
        let text = to_lower (trim (e.caption ++ lit " " ++ e.file_name)) in
        let known =
          score_keywords text (f.range default_keyword_score) (f.constant (lit "0.0"), []) in
        let custom = score_custom text (split_csv (env (lit "AI_MODERATION_KEYWORDS"))) known in
        let urls = scored (leb 3 (count_urls 0 text)) (lit "0.35") (lit "many_urls") custom in
        let loud =
          scored (repeated_punct 0 text) (lit "0.10") (lit "aggressive_punctuation") urls in
        let said = scored (has_repeated_words text) (lit "0.20") (lit "repeated_words") loud in
        score_extension (to_lower (ext (trim e.file_name))) risky_extensions said

    abbrev disabled : Verdict
    disabled = record {
      enabled = false;
      blocked = false;
      score = f.constant (lit "0");
      threshold = f.constant (lit "0");
      reasons = [];
    }

    unfoldable pub evaluate : Environ → MediaEvent → RuleConfig → Verdict
    unfolding score_of threshold_of parse_bool_env
    evaluate env e rules =
        let (score, reasons) = score_of env e in
        let capped = if f.less (f.constant (lit "1")) score then f.constant (lit "1") else score in
        let threshold = threshold_of env rules in
        if rules.ai_moderation_enabled || parse_bool_env env (lit "AI_MODERATION_ENABLED") false
        then record {
          enabled = true;
          blocked = f.at_most threshold capped;
          score = capped;
          threshold = threshold;
          reasons = reasons;
        }
        else disabled
