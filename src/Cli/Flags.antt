-- ===== src/Cli/Flags.antt =====
-- The package `flag`, as cmd/cli/main.go uses it: flags of three kinds in a set that ends the program
-- on an error.
use cross_platform_media_sha.Base.{
  ℕ, ℤ, Bool, true, false, not, ◌||◌, Option, none, some, List, [], ◌∷◌, ◌==◌, if◌then◌else◌,
}
use cross_platform_media_sha.Text.{Bytes, lit, same, is_empty}

pub data FlagKind : Type 0 where
  string_flag : FlagKind
  int_flag : FlagKind
  bool_flag : FlagKind

pub record Flag : Type 0 where
  pub name : Bytes
  pub kind : FlagKind

-- a flag that was given; where it was given twice, the later one stands in front
pub record Setting : Type 0 where
  pub name : Bytes
  pub value : Bytes

-- what Parse leaves, or the status with which it ends the program
pub data Parsed : Type 0 where
  parsed : List Setting → Parsed
  exits : ℕ → Parsed

unfoldable pub find_flag : Bytes → List Flag → Option FlagKind
find_flag name [] = none
find_flag name (f ∷ fs) =
    let rest = find_flag name fs in if same f.name name then some f.kind else rest

-- the value that a flag was set to
unfoldable pub find_value : Bytes → List Setting → Option Bytes
find_value name [] = none
find_value name (s ∷ ss) =
    let rest = find_value name ss in if same s.name name then some s.value else rest

abbrev among : List Bytes → Bytes → Bool
among [] s = false
among (t ∷ ts) s = same s t || among ts s

-- strconv.ParseBool
unfoldable pub parse_bool : Bytes → Option Bool
parse_bool s =
    if among (lit "1" ∷ lit "t" ∷ lit "T" ∷ lit "TRUE" ∷ lit "true" ∷ lit "True" ∷ []) s
    then some true
    else if among (lit "0" ∷ lit "f" ∷ lit "F" ∷ lit "FALSE" ∷ lit "false" ∷ lit "False" ∷ []) s
    then some false
    else none

abbrev pub is_some : {A : Type 0} → Option A → Bool
is_some none = false
is_some (some a) = true

-- the text before the first `=`, and what is behind it
unfoldable pub split_value : Bytes → Bytes × Option Bytes
split_value [] = ([], none)
split_value (c ∷ s) =
    let (name, value) = split_value s in if c == b'=' then ([], some s) else (c ∷ name, value)

-- what one argument is
pub data Argument : Type 0 where
  -- not a flag: the parsing ends
  operand : Argument
  -- `--`: the parsing ends behind it
  terminator : Argument
  malformed : Argument
  option : Bytes × Option Bytes → Argument

unfoldable pub named : Bytes → Argument
unfolding split_value
named [] = malformed
named (c ∷ s) = if c == b'-' || c == b'=' then malformed else option (split_value (c ∷ s))

unfoldable pub classify : Bytes → Argument
unfolding named
classify [] = operand
classify (a ∷ []) = operand
classify (a ∷ b ∷ s) =
    if not (a == b'-')
    then operand
    else if b == b'-'
    then if is_empty s then terminator else named s
    else named (b ∷ s)

-- a flag that is not defined: a request for help ends the program as well
unfoldable pub undefined : Bytes → Parsed
undefined name = if same name (lit "help") || same name (lit "h") then exits 0 else exits 2

-- strconv.ParseInt in the base that the text names, for an int; `none` is an error
module _ (parse_int_flag : Bytes → Option ℤ) where
  -- the value is one of the flag's kind
  unfoldable pub fits : FlagKind → Bytes → Bool
  unfolding parse_bool
  fits string_flag v = true
  fits int_flag v = is_some (parse_int_flag v)
  fits bool_flag v = is_some (parse_bool v)

  -- FlagSet.Parse with ExitOnError; the second argument is the flag whose value comes next
  unfoldable pub parse : List Flag → Option (Bytes × FlagKind) → List Bytes → List Setting → Parsed
  unfolding find_flag classify undefined fits
  parse flags none [] given = parsed given
  parse flags (some f) [] given = exits 2
  parse flags (some f) (value ∷ args) given =
      let rest = parse flags none args (record { name = f.0; value = value } ∷ given) in
      if fits f.1 value then rest else exits 2
  parse flags none (arg ∷ args) given = elim (classify arg) [
    | operand ↦ parsed given
    | terminator ↦ parsed given
    | malformed ↦ exits 2
    | option (name, some value) ↦ elim (find_flag name flags) [
      | none ↦ undefined name
      | some kind ↦
          if fits kind value
          then parse flags none args (record { name = name; value = value } ∷ given)
          else exits 2
    ]
    | option (name, none) ↦ elim (find_flag name flags) [
      | none ↦ undefined name
      | some bool_flag ↦ parse flags none args (record { name = name; value = lit "true" } ∷ given)
      | some kind ↦ parse flags (some (name, kind)) args given
    ]
  ]
