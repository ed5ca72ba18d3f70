-- ===== src/Text/Trim.antt =====
-- strings.TrimSpace: the white space of the package `unicode`, in its UTF-8 encoding, is cut off at
-- both ends.
use mathlib.Core.List.{reverse-reverse, reverse-append}
use cross_platform_media_sha.Base.{
  ℕ, zero, suc, ◌≡◌, refl, ap, ◌∙◌, sym, Bool, ◌&&◌, ◌||◌, [], ◌∷◌, ◌++◌, reverse, arith, ◌==◌, leb,
  if◌then◌else◌,
}
use cross_platform_media_sha.Text.Equal.{Bytes}

-- U+0009 to U+000D and U+0020
abbrev is_space1 : ℕ → Bool
is_space1 a = (leb 9 a && leb a 13) || a == 32

-- U+0085 and U+00A0
abbrev is_space2 : ℕ → ℕ → Bool
is_space2 a b = a == 0xC2 && (b == 0x85 || b == 0xA0)

-- U+1680, U+2000 to U+200A, U+2028, U+2029, U+202F, U+205F and U+3000
abbrev is_space3 : ℕ → ℕ → ℕ → Bool
is_space3 a b c =
    (a == 0xE1 && (b == 0x9A && c == 0x80))
    || ((a == 0xE2
          && ((b == 0x80 && ((leb 0x80 c && leb c 0x8A) || (c == 0xA8 || (c == 0xA9 || c == 0xAF))))
              || (b == 0x81 && c == 0x9F)))
        || (a == 0xE3 && (b == 0x80 && c == 0x80)))

-- how many bytes the white space at the front of a text takes
unfoldable pub front : Bytes → ℕ
front [] = 0
front (a ∷ []) = if is_space1 a then 1 else 0
front (a ∷ b ∷ []) = if is_space1 a then 1 else if is_space2 a b then 2 else 0
front (a ∷ b ∷ c ∷ s) =
    if is_space1 a then 1 else if is_space2 a b then 2 else if is_space3 a b c then 3 else 0

-- the same of a text that is read from its end
back : Bytes → ℕ
back [] = 0
back (a ∷ []) = if is_space1 a then 1 else 0
back (b ∷ a ∷ []) = if is_space1 b then 1 else if is_space2 a b then 2 else 0
back (c ∷ b ∷ a ∷ s) =
    if is_space1 c then 1 else if is_space2 b c then 2 else if is_space3 a b c then 3 else 0

module _ (width : Bytes → ℕ) where
  -- `n` bytes are still to be dropped
  strip : Bytes → ℕ → Bytes
  strip [] n = []
  strip (c ∷ s) (suc n) = strip s n
  strip (c ∷ s) zero = elim (width (c ∷ s)) [ zero ↦ c ∷ s | suc n ↦ strip s n ]

  strip_suffix : (s : Bytes) (n : ℕ) → (pre : Bytes) × (s ≡ pre ++ strip s n)
  unfolding strip
  strip_suffix [] n = ([], refl)
  strip_suffix (c ∷ s) (suc n) = let (pre, e) = strip_suffix s n in (c ∷ pre, ap (λ t. c ∷ t) e)
  strip_suffix (c ∷ s) zero = go (width (c ∷ s)) (λ n. strip_suffix s n)
    where
      go :
          (w : ℕ)
          → ((n : ℕ) → (pre : Bytes) × (s ≡ pre ++ strip s n))
          → (pre : Bytes) × (c ∷ s ≡ pre ++ elim w [ zero ↦ c ∷ s | suc n ↦ strip s n ])
      go zero ih = ([], refl)
      go (suc n) ih = let (pre, e) = ih n in (c ∷ pre, ap (λ t. c ∷ t) e)

  strip_of_width : (s : Bytes) → width s ≡ 0 → strip s 0 ≡ s
  unfolding strip
  strip_of_width [] h = refl
  strip_of_width (c ∷ s) h = rw (h, strip)

  width-strip : (s : Bytes) (n : ℕ) → width [] ≡ 0 → width (strip s n) ≡ 0
  unfolding strip
  width-strip [] n h = h
  width-strip (c ∷ s) (suc n) h = width-strip s n h
  width-strip (c ∷ s) zero h = go (width (c ∷ s)) refl (λ n. width-strip s n h)
    where
      go :
          (w : ℕ)
          → width (c ∷ s) ≡ w
          → ((n : ℕ) → width (strip s n) ≡ 0)
          → width (elim w [ zero ↦ c ∷ s | suc n ↦ strip s n ]) ≡ 0
      go zero e ih = e
      go (suc n) e ih = ih n

unfoldable pub trim : Bytes → Bytes
unfolding strip front back
trim s = reverse (strip back (reverse (strip front s 0)) 0)

front_prefix : (p q : Bytes) → front (p ++ q) ≡ 0 → front p ≡ 0
unfolding front
front_prefix [] q h = refl
front_prefix (a ∷ []) [] h = h
front_prefix (a ∷ []) (b ∷ []) h = ground arith
front_prefix (a ∷ []) (b ∷ c ∷ q) h = ground arith
front_prefix (a ∷ b ∷ []) [] h = h
front_prefix (a ∷ b ∷ []) (c ∷ q) h = ground arith
front_prefix (a ∷ b ∷ c ∷ p) q h = h

strip_of_trimmed : (u : Bytes) → front u ≡ 0 → back (reverse u) ≡ 0 → trim u ≡ u
unfolding trim
strip_of_trimmed u f b =
    rw (strip_of_width front u f) (rw (strip_of_width back (reverse u) b) (reverse-reverse u))

back-trim : (s : Bytes) → back (reverse (trim s)) ≡ 0
unfolding trim
back-trim s = rw reverse-reverse (width-strip back (reverse (strip front s 0)) 0 refl)

-- what is left after the front has been trimmed begins with the trimmed text
trim_prefix_of : (s : Bytes) → (post : Bytes) × (strip front s 0 ≡ trim s ++ post)
unfolding trim
trim_prefix_of s =
    let t = strip front s 0 in
    let (pre, e) = strip_suffix back (reverse t) 0 in
    (reverse pre, sym (reverse-reverse t) ∙ ap reverse e ∙ reverse-append pre _)

front-trim : (s : Bytes) → front (trim s) ≡ 0
unfolding front
front-trim s =
    let (post, e) = trim_prefix_of s in
    front_prefix (trim s) post (rw (← e) (width-strip front s 0 refl))

-- Trimming a trimmed text changes nothing.
pub trim-trim : (s : Bytes) → trim (trim s) ≡ trim s
trim-trim s = strip_of_trimmed (trim s) (front-trim s) (back-trim s)
