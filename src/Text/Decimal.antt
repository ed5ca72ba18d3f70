-- ===== src/Text/Decimal.antt =====
-- The decimal digits of a number (`%d`), and strings.ReplaceAll.
use cross_platform_media_sha.Base.{
  ℤ, pos, negsuc, refl, Bool-cases, inl, inr, arith, ℕ, zero, suc, ◌+◌, ◌-◌, ◌/◌, ◌%◌, [], ◌∷◌,
  ◌++◌, ltb, length, if◌then◌else◌,
}
use cross_platform_media_sha.Text.Equal.{Bytes, has_prefix}
use cross_platform_media_sha.Text.Split.{Lacks}

-- a number below ten to the fuel has its digits before the fuel ends
unfoldable pub digits : ℕ → ℕ → Bytes
digits zero n = []
digits (suc fuel) n =
    let rest = digits fuel (n / 10) in
    if ltb n 10 then (48 + n) ∷ [] else rest ++ (48 + n % 10) ∷ []

-- an int has at most nineteen digits
unfoldable pub decimal : ℕ → Bytes
unfolding digits
decimal n = digits 20 n

-- `%d` of a signed number
unfoldable pub decimal_int : ℤ → Bytes
unfolding decimal
decimal_int (pos n) = decimal n
decimal_int (negsuc n) = b'-' ∷ decimal (suc n)

Lacks-append : (sep : ℕ) (s t : Bytes) → Lacks sep s → Lacks sep t → Lacks sep (s ++ t)
Lacks-append sep [] t h k = k
Lacks-append sep (c ∷ s) t h k = (h.0, Lacks-append sep s t h.1 k)

-- a digit is no colon
digits-Lacks : (fuel n : ℕ) → Lacks b':' (digits fuel n)
unfolding digits
digits-Lacks zero n = tt
digits-Lacks (suc fuel) n = elim (Bool-cases (ltb n 10)) [
  | inl e ↦ rw e (ground arith, tt)
  | inr e ↦
      rw e
        (Lacks-append b':' (digits fuel (n / 10)) _ (digits-Lacks fuel (n / 10)) (ground arith, tt))
]

-- A printed number holds no colon.
pub decimal_int-Lacks : (n : ℤ) → Lacks b':' (decimal_int n)
unfolding decimal_int
decimal_int-Lacks (pos n) = digits-Lacks 20 n
decimal_int-Lacks (negsuc n) = (refl, digits-Lacks 20 (suc n))

-- the first argument counts the bytes of an occurrence that are still to be left out
unfoldable pub replace_from : ℕ → Bytes → Bytes → Bytes → Bytes
replace_from k old new [] = []
replace_from (suc k) old new (c ∷ cs) = replace_from k old new cs
replace_from zero old new (c ∷ cs) =
    let hit = replace_from (length old - 1) old new cs in
    let rest = replace_from zero old new cs in
    if has_prefix (c ∷ cs) old then new ++ hit else c ∷ rest

-- strings.ReplaceAll, where what is replaced is not empty
unfoldable pub replace_all : Bytes → Bytes → Bytes → Bytes
unfolding replace_from
replace_all s old new = replace_from 0 old new s
