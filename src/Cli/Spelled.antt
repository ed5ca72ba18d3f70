-- ===== src/Cli/Spelled.antt =====
-- The flags that are spelled as `-name=value` are read back by Parse.
use mathlib.Core.List.{reverse_aux}
use cross_platform_media_sha.Base.{
  ℤ, ◌≡◌, refl, true, false, Option, none, some, List, [], ◌∷◌, ◌++◌, ◌==◌, map, All, reverse,
}
use cross_platform_media_sha.Text.{Bytes}
use cross_platform_media_sha.Cli.Flags.{
  Flag, FlagKind, Setting, parsed, option, find_flag, split_value, named, classify, fits, parse,
}

-- no `=` in a name
abbrev pub LacksEquals : Bytes → Type 0
LacksEquals [] = Unit
LacksEquals (c ∷ s) = ((c == b'=') ≡ false) × LacksEquals s

-- a name that a flag can have on the command line: not empty, without `=`, and not with a `-` first
abbrev pub IsName : Bytes → Type 0
IsName [] = ⊥
IsName (c ∷ s) = ((c == b'-') ≡ false) × LacksEquals (c ∷ s)

abbrev pub spelled : Setting → Bytes
spelled s = b'-' ∷ s.name ++ b'=' ∷ s.value

split_value-append :
    (name value : Bytes)
    → LacksEquals name
    → split_value (name ++ b'=' ∷ value) ≡ (name, some value)
unfolding split_value
split_value-append [] value h = refl
split_value-append (c ∷ s) value h = rw (h.0, split_value-append s value h.1) refl

classify-spelled :
    (name value : Bytes)
    → IsName name
    → classify (b'-' ∷ name ++ b'=' ∷ value) ≡ option (name, some value)
unfolding classify named
classify-spelled [] value h = absurd h
classify-spelled (c ∷ s) value h = rw (h.0, h.1.0, split_value-append s value h.1.1) refl

module _ (parse_int_flag : Bytes → Option ℤ) where
  -- a setting of a flag of the set, with a value of its kind
  abbrev pub IsSetting : List Flag → Setting → Type 0
  IsSetting flags s =
      IsName s.name
      × ((kind : FlagKind) × ((find_flag s.name flags ≡ some kind)
            × (fits parse_int_flag kind s.value ≡ true)))

  parse_onto-spelled :
      (flags : List Flag) (ss given : List Setting)
      → All (IsSetting flags) ss
      → parse parse_int_flag flags none (map spelled ss) given ≡ parsed (reverse_aux ss given)
  unfolding parse
  parse_onto-spelled flags [] given h = refl
  parse_onto-spelled flags (s ∷ ss) given h =
      rw (classify-spelled s.name s.value h.0.0, h.0.1.1.0, h.0.1.1.1)
        (parse_onto-spelled flags ss (s ∷ given) h.1)

  -- Settings of flags of the set, each with a value of its kind and a name that is not empty, has no
  -- `=` and no `-` in front, are read back by Parse from the arguments `-name=value`, the later ones
  -- in front.
  pub parse-spelled :
      (flags : List Flag) (ss : List Setting)
      → All (IsSetting flags) ss
      → parse parse_int_flag flags none (map spelled ss) [] ≡ parsed (reverse ss)
  parse-spelled flags ss h = parse_onto-spelled flags ss [] h
