-- ===== src/Text/Printed.antt =====
-- Printed numbers are read back.
use cross_platform_media_sha.Base.{
  ℕ, zero, suc, ℤ, pos, negsuc, ◌+◌, ◌-◌, ◌*◌, ◌/◌, ◌%◌, ◌^◌, ◌≡◌, ◌<◌, ◌∙◌, ap, refl, inl, inr,
  ◌&&◌, Option, none, some, [], ◌∷◌, ◌++◌, leb, ltb, arith, Bool-cases, if◌then◌else◌,
}
use cross_platform_media_sha.Text.Equal.{Bytes}
use cross_platform_media_sha.Text.Decimal.{digits, decimal, decimal_int}
use cross_platform_media_sha.Text.Numbers.{digits_value, parse_int}

-- ten to the fuel
bound : ℕ → ℕ
bound zero = 1
bound (suc n) = 10 * bound n

-- one more digit
abbrev push : ℕ → Option ℕ → Option ℕ
push c none = none
push c (some v) = if leb 48 c && leb c 57 then some (v * 10 + (c - 48)) else none

digits_value-append :
    (s : Bytes) (c n : ℕ) → digits_value (s ++ c ∷ []) n ≡ push c (digits_value s n)
unfolding digits_value
digits_value-append [] c n = refl
digits_value-append (d ∷ s) c n = ground (arith, digits_value-append s c (n * 10 + (d - 48)))

digits_value-digits : (fuel n : ℕ) → n < bound fuel → digits_value (digits fuel n) 0 ≡ some n
unfolding digits_value digits bound
digits_value-digits zero n h = ground arith
digits_value-digits (suc fuel) n h = elim (Bool-cases (ltb n 10)) [
  | inl e ↦ rw e (ground arith)
  | inr e ↦ rw e (
      digits_value-append (digits fuel (n / 10)) (48 + n % 10) 0
      ∙ ap (push (48 + n % 10)) (digits_value-digits fuel (n / 10) (omega arith))
      ∙ ground arith)
]

-- the numbers of an int64
abbrev pub IsInt64 : ℤ → Type 0
IsInt64 (pos n) = n < 2 ^ 63
IsInt64 (negsuc n) = n < 2 ^ 63

digits_value-decimal : (n : ℕ) → n < 2 ^ 64 → digits_value (decimal n) 0 ≡ some n
unfolding decimal bound
digits_value-decimal n h = digits_value-digits 20 n (omega (arith, h))

parse_int-positive :
    (s : Bytes) (n : ℕ)
    → digits_value s 0 ≡ some (suc n)
    → suc n < 2 ^ 63
    → parse_int s ≡ some (pos (suc n))
unfolding parse_int digits_value
parse_int-positive [] n h k = ground arith
parse_int-positive (c ∷ s) n h k = ground (arith, h, k)

parse_int-negative :
    (s : Bytes) (n : ℕ)
    → digits_value s 0 ≡ some (suc n)
    → n < 2 ^ 63
    → parse_int (b'-' ∷ s) ≡ some (negsuc n)
unfolding parse_int digits_value
parse_int-negative [] n h k = ground arith
parse_int-negative (c ∷ s) n h k = ground (arith, h, k)

zero_read : parse_int (decimal_int (pos zero)) ≡ some (pos zero)
unfolding parse_int decimal_int decimal digits digits_value
zero_read = refl

-- A printed int64 is read back as the same number.
pub parse_int-decimal_int : (z : ℤ) → IsInt64 z → parse_int (decimal_int z) ≡ some z
unfolding decimal_int
parse_int-decimal_int (pos zero) h = zero_read
parse_int-decimal_int (pos (suc n)) h =
    parse_int-positive (decimal (suc n)) n (digits_value-decimal (suc n) (omega (arith, h))) h
parse_int-decimal_int (negsuc n) h =
    parse_int-negative (decimal (suc n)) n (digits_value-decimal (suc n) (omega (arith, h))) h
