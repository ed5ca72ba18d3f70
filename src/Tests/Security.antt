-- ===== src/Tests/Security.antt =====
-- The rate limits of internal/security at work.
use cross_platform_media_sha.Base.{◌≡◌, ◌≤◌, refl, [], ◌∷◌, arith}
use cross_platform_media_sha.Text.{Bytes, lit, same}
use cross_platform_media_sha.Security.RateLimit.{
  lookup, insert, check_limit, admitted, admitted_window,
}

abbrev key : Bytes
key = lit "telegram:1"

-- the calls at the end of a window and at the start of the next all pass
burst : admitted key 2 60 (100 ∷ 160 ∷ 161 ∷ 162 ∷ []) [] ≡ 4
unfolding admitted check_limit lookup insert same
burst = refl

admitted_window_example : admitted key 2 60 (158 ∷ 159 ∷ 160 ∷ []) [] ≤ 4
admitted_window_example =
    admitted_window key 2 60 100 (158 ∷ 159 ∷ 160 ∷ []) [] (omega arith)
      ((omega arith, omega arith), ((omega arith, omega arith), ((omega arith, omega arith), tt)))
