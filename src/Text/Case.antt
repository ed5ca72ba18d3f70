-- ===== src/Text/Case.antt =====
-- strings.ToLower. The case table of the package `unicode` is a parameter: a text with a byte beyond
-- ASCII goes through it, an ASCII text is mapped byte by byte.
use cross_platform_media_sha.Base.{
  ℕ, ◌+◌, ◌≡◌, refl, Bool, true, false, ◌&&◌, [], ◌∷◌, arith, all, leb, ltb, if◌then◌else◌,
}
use cross_platform_media_sha.Text.Equal.{Bytes}

pub record Unicode : Type 0 where
  -- strings.Map(unicode.ToLower, s)
  pub map_lower : Bytes → Bytes

abbrev pub is_ascii : Bytes → Bool
is_ascii = all (λ c. ltb c 0x80)

pub lower_byte : ℕ → ℕ
lower_byte c = if leb 65 c && leb c 90 then c + 32 else c

pub map_ascii : Bytes → Bytes
unfolding lower_byte
map_ascii [] = []
map_ascii (c ∷ s) = lower_byte c ∷ map_ascii s

-- What the program relies on: the table's result is in lower case.
pub record IsTable (u : Unicode) : Type 0 where
  pub lower_lower : (s : Bytes) → is_ascii s ≡ false → u.map_lower (u.map_lower s) ≡ u.map_lower s
  pub lower_ascii :
      (s : Bytes) → is_ascii (u.map_lower s) ≡ true → map_ascii (u.map_lower s) ≡ u.map_lower s

module _ ⦃u : Unicode⦄ where
  unfoldable pub to_lower : Bytes → Bytes
  unfolding map_ascii
  to_lower s = if is_ascii s then map_ascii s else u.map_lower s

lower_byte_idem : (c : ℕ) → lower_byte (lower_byte c) ≡ lower_byte c
unfolding lower_byte
lower_byte_idem c = ground arith

map_ascii_idem : (s : Bytes) → map_ascii (map_ascii s) ≡ map_ascii s
unfolding map_ascii
map_ascii_idem [] = refl
map_ascii_idem (c ∷ s) = ground (arith, lower_byte_idem c, map_ascii_idem s)

is_ascii-map_ascii : (s : Bytes) → is_ascii s ≡ true → is_ascii (map_ascii s) ≡ true
unfolding map_ascii
is_ascii-map_ascii [] h = refl
is_ascii-map_ascii (c ∷ s) h = ground (arith, is_ascii-map_ascii s)

-- Lower case is reached in one step.
pub to_lower_idem : ⦃u : Unicode⦄ → IsTable u → (s : Bytes) → to_lower (to_lower s) ≡ to_lower s
unfolding to_lower
to_lower_idem ⦃u⦄ t s =
    ground (arith, map_ascii_idem s, is_ascii-map_ascii s, t.lower_lower s, t.lower_ascii s)
