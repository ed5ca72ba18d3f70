-- ===== src/Text/Numbers.antt =====
-- strconv.ParseInt in base 10 for 64 bits, which is also strconv.Atoi where an int has 64 bits.
use cross_platform_media_sha.Base.{
  ℕ, zero, suc, ℤ, pos, negsuc, ◌+◌, ◌-◌, ◌*◌, ◌^◌, ◌&&◌, Option, none, some, [], ◌∷◌, leb, ltb,
  if◌then◌else◌, ◌==◌,
}
use cross_platform_media_sha.Text.Equal.{Bytes}

unfoldable pub digits_value : Bytes → ℕ → Option ℕ
digits_value [] n = some n
digits_value (c ∷ s) n =
    let rest = digits_value s (n * 10 + (c - 48)) in if leb 48 c && leb c 57 then rest else none

abbrev pub natural : Bytes → Option ℕ
natural [] = none
natural (c ∷ s) = digits_value (c ∷ s) 0

abbrev below : ℕ → Option ℕ → Option ℤ
below bound none = none
below bound (some n) = if ltb n bound then some (pos n) else none

abbrev minus : Option ℕ → Option ℤ
minus none = none
minus (some zero) = some (pos 0)
minus (some (suc n)) = if ltb n (2 ^ 63) then some (negsuc n) else none

unfoldable pub parse_int : Bytes → Option ℤ
unfolding digits_value
parse_int [] = none
parse_int (c ∷ s) =
    if c == b'-'
    then minus (natural s)
    else if c == b'+'
    then below (2 ^ 63) (natural s)
    else below (2 ^ 63) (natural (c ∷ s))

-- `err == nil && parsed > 0`
abbrev pub positive : Option ℤ → Option ℕ
positive none = none
positive (some (pos zero)) = none
positive (some (pos (suc n))) = some (suc n)
positive (some (negsuc n)) = none
