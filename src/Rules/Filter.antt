-- ===== src/Rules/Filter.antt =====
-- `EvaluateFilterRule`: blocked senders, required words, and regular expressions that block.
use cross_platform_media_sha.Base.{
  ◌≡◌, ◌↔◌, ◌⊎◌, inl, inr, refl, Bool, true, false, not, Option, none, some, List, [], ◌∷◌, arith,
  ◌≢◌, All, Some, if◌then◌else◌, Bool-cases, Option-cases,
}
use cross_platform_media_sha.Text.{Bytes, Unicode, same, same_iff, trim, to_lower, contains}
use cross_platform_media_sha.Models.{RuleConfig}

-- regexp.MatchString of a pattern and a text; `none` is a pattern that does not compile
pub record Regex : Type 0 where
  pub match_string : Bytes → Bytes → Option Bool

abbrev pub is_match : Option Bool → Bool
is_match none = false
is_match (some b) = b

-- the loops of `EvaluateFilterRule`
unfoldable pub is_blocked_sender : List Bytes → Bytes → Bool
is_blocked_sender [] sender = false
is_blocked_sender (b ∷ bs) sender =
    if same sender (trim b) then true else is_blocked_sender bs sender

module _ ⦃u : Unicode⦄ where
  unfoldable pub has_include : List Bytes → Bytes → Bool
  has_include [] lower = false
  has_include (w ∷ ws) lower =
      if contains lower (to_lower (trim w)) then true else has_include ws lower

abbrev pub includes : ⦃u : Unicode⦄ → List Bytes → Bytes → Bool
includes [] caption = true
includes (w ∷ ws) caption = has_include (w ∷ ws) (to_lower caption)

module _ ⦃r : Regex⦄ where
  unfoldable pub hits_regex : List Bytes → Bytes → Bool
  hits_regex [] caption = false
  hits_regex (p ∷ ps) caption =
      if is_match (r.match_string p caption) then true else hits_regex ps caption

module _ ⦃u : Unicode⦄ ⦃r : Regex⦄ where
  unfoldable pub evaluate_filter_rule : RuleConfig → Bytes → Bytes → Bool
  evaluate_filter_rule config caption sender =
      if is_blocked_sender config.blocked_senders sender
      then false
      else if not (includes config.include_words caption)
      then false
      else not (hits_regex config.regex_filters caption)

sender_free_iff :
    (bs : List Bytes) (sender : Bytes)
    → (is_blocked_sender bs sender ≡ false) ↔ All (λ b. sender ≢ trim b) bs
unfolding is_blocked_sender
sender_free_iff [] sender = ((λ _. tt), λ _. refl)
sender_free_iff (b ∷ bs) sender = (
  (λ h. (
    (λ e. ground (arith, same_iff sender (trim b))),
    (sender_free_iff bs sender).0 (ground arith),
  )),
  λ h.
      let other : same sender (trim b) ≡ false = not_same sender (trim b) h.0 in
      rw other ((sender_free_iff bs sender).1 h.1),
)
  where
    not_same : (s t : Bytes) → s ≢ t → same s t ≡ false
    not_same s t n = elim (Bool-cases (same s t)) [
      | inl e ↦ absurd (n ((same_iff s t).0 e))
      | inr e ↦ e
    ]

included_iff :
    ⦃u : Unicode⦄ (ws : List Bytes) (lower : Bytes)
    → (has_include ws lower ≡ true) ↔ Some (λ w. contains lower (to_lower (trim w)) ≡ true) ws
unfolding has_include
included_iff [] lower = ((λ h. cc), λ h. absurd h)
included_iff (w ∷ ws) lower =
    let ih = included_iff ws lower in
    let c = contains lower (to_lower (trim w)) in
    elim (Bool-cases c) [
      | inl e ↦ rw e ((λ _. inl refl), λ _. refl)
      | inr e ↦ rw e ((λ h. inr (ih.0 h)), λ h. elim h [ inl p ↦ cc p | inr p ↦ ih.1 p ])
    ]

unmatched_iff :
    ⦃r : Regex⦄ (ps : List Bytes) (caption : Bytes)
    → (hits_regex ps caption ≡ false) ↔ All (λ p. r.match_string p caption ≢ some true) ps
unfolding hits_regex
unmatched_iff [] caption = ((λ _. tt), λ _. refl)
unmatched_iff ⦃r⦄ (p ∷ ps) caption =
    let ih = unmatched_iff ps caption in
    elim (Option-cases (r.match_string p caption)) [
      | inl e ↦
          (λ h. ((λ f. cc (e, f)), ih.0 (ground (arith, e))), λ h. ground (arith, e, ih.1 h.1))
      | inr (true, e) ↦ ((λ h. cc (e, unfold_hit e h)), λ h. absurd (h.0 e))
      | inr (false, e) ↦
          (λ h. ((λ f. cc (e, f)), ih.0 (ground (arith, e))), λ h. ground (arith, e, ih.1 h.1))
    ]
  where
    unfold_hit :
        r.match_string p caption ≡ some true → hits_regex (p ∷ ps) caption ≡ false → true ≡ false
    unfold_hit e h = ground (arith, e)

includes_iff :
    ⦃u : Unicode⦄ (ws : List Bytes) (caption : Bytes)
    → (includes ws caption ≡ true)
      ↔ ((ws ≡ []) ⊎ Some (λ w. contains (to_lower caption) (to_lower (trim w)) ≡ true) ws)
includes_iff [] caption = ((λ _. inl refl), λ _. refl)
includes_iff (w ∷ ws) caption =
    let all = included_iff (w ∷ ws) (to_lower caption) in
    ((λ h. inr (all.0 h)), λ h. elim h [ inl p ↦ cc p | inr p ↦ all.1 p ])

-- What the rule asks of a message.
pub record Passes ⦃u : Unicode⦄ ⦃r : Regex⦄ (config : RuleConfig) (caption sender : Bytes)
    : Type 0 where
  -- the sender is on no block list
  pub sender_free : All (λ b. sender ≢ trim b) config.blocked_senders
  -- the caption holds one of the words to include, where there are such
  pub included :
      (config.include_words ≡ [])
      ⊎ Some (λ w. contains (to_lower caption) (to_lower (trim w)) ≡ true) config.include_words
  -- no pattern that compiles matches the caption
  pub unmatched : All (λ p. r.match_string p caption ≢ some true) config.regex_filters

-- A message passes exactly when it meets all that the rule asks.
pub evaluate_filter_rule_iff :
    ⦃u : Unicode⦄ ⦃r : Regex⦄ (config : RuleConfig) (caption sender : Bytes)
    → (evaluate_filter_rule config caption sender ≡ true) ↔ Passes config caption sender
unfolding evaluate_filter_rule
evaluate_filter_rule_iff config caption sender =
    let senders = sender_free_iff config.blocked_senders sender in
    let words = includes_iff config.include_words caption in
    let patterns = unmatched_iff config.regex_filters caption in
    (
      (λ h. record {
        sender_free = senders.0 (ground (arith, h));
        included = words.0 (ground (arith, h));
        unmatched = patterns.0 (ground (arith, h));
      }),
      λ p.
          let s = senders.1 p.sender_free in
          let w = words.1 p.included in let r = patterns.1 p.unmatched in ground (arith, s, w, r),
    )
