-- ===== src/Cli/Commands.antt =====
-- cmd/cli/main.go: the commands. `main` starts when InitDB has opened the database. The list of the
-- flags that PrintDefaults adds to a message is not modelled.
use cross_platform_media_sha.Base.{
  ℕ, ℤ, pos, negsuc, Bool, true, false, ◌||◌, Option, none, some, List, [], ◌∷◌, ◌++◌, length,
  if◌then◌else◌,
}
use cross_platform_media_sha.Text.{Bytes, Unicode, lit, same, trim, is_empty, decimal}
use cross_platform_media_sha.Models.{Route}
use cross_platform_media_sha.Database.Store.{Result, ok, err, Exec, pure, ◌>>=◌}
use cross_platform_media_sha.Database.Pending.{Json}
use cross_platform_media_sha.Database.Pairings.{link_channel}
use cross_platform_media_sha.Database.Export.{
  PairingExport, attempt, export_pairings, import_pairings,
}
use cross_platform_media_sha.Cli.Flags.{
  Flag, FlagKind, string_flag, int_flag, bool_flag, Setting, Parsed, parsed, exits, find_value,
  parse_bool, parse,
}

-- how the program ends, and what it says
pub data Ending : Type 0 where
  printed : Bytes → Ending
  -- the text of printUsage
  usage : Ending
  unknown_command : Bytes → Ending
  -- a file with its path and contents, and the message
  written : Bytes → Bytes → Bytes → Ending
  fatal : Bytes → Ending
  flag_exit : ℕ → Ending

-- os.ReadFile and os.WriteFile, the JSON of an export, and strconv.ParseInt for a flag
pub record Machine : Type 0 where
  pub read_file : Bytes → Result Bytes
  pub write_error : Bytes → Bytes → Option Bytes
  pub encode_items : List PairingExport → Result Bytes
  pub decode_items : Bytes → Result (List PairingExport)
  pub parse_int_flag : Bytes → Option ℤ

abbrev or_else : {A : Type 0} → A → Option A → A
or_else default none = default
or_else default (some a) = a

abbrev text_value : Bytes → Bytes → List Setting → Bytes
text_value name default given = or_else default (find_value name given)

abbrev bool_of : Bool → Option Bytes → Bool
bool_of default none = default
bool_of default (some v) = or_else default (parse_bool v)

abbrev bool_value : Bytes → Bool → List Setting → Bool
bool_value name default given = bool_of default (find_value name given)

-- a limit below 0 is clamped like 0
abbrev not_negative : ℤ → ℕ
not_negative (pos n) = n
not_negative (negsuc n) = 0

abbrev int_of : Machine → ℕ → Option Bytes → ℕ
int_of m default none = default
int_of m default (some v) =
    or_else default (elim (m.parse_int_flag v) [ none ↦ none | some i ↦ some (not_negative i) ])

-- `if err != nil { log.Fatalf(…) }`
abbrev pub answered : {A : Type 0} → Bytes → (A → Exec Ending) → Result A → Exec Ending
answered text k (ok a) = k a
answered text k (err e) = pure (fatal (text ++ e))

abbrev pub or_fatal : {A : Type 0} → Bytes → Exec A → (A → Exec Ending) → Exec Ending
or_fatal text m k = attempt m >>= answered text k

abbrev flag : Bytes → FlagKind → Flag
flag name kind = record { name = name; kind = kind }

abbrev pub webhook_route : List Setting → Route
webhook_route given = record {
  source_platform = text_value (lit "source-platform") (lit "telegram") given;
  source_id = text_value (lit "source-id") [] given;
  target_platform = lit "webhook";
  target_id = text_value (lit "url") [] given;
}

abbrev pub webhook_flags : List Flag
webhook_flags =
    flag (lit "source-platform") string_flag
    ∷ flag (lit "source-id") string_flag
    ∷ flag (lit "url") string_flag
    ∷ flag (lit "secret") string_flag
    ∷ []

abbrev pub linked_text : Route → Bytes
linked_text r =
    lit "Successfully linked "
    ++ (r.source_platform ++ (lit ":" ++ (r.source_id ++ (lit " to webhook " ++ r.target_id))))

unfoldable pub add_webhook : List Setting → Exec Ending
unfolding link_channel find_value
add_webhook given =
    let r = webhook_route given in
    if is_empty r.source_id || is_empty r.target_id
    then pure (printed (lit "Error: -source-id and -url are required"))
    else or_fatal (lit "Failed to add webhook: ")
        (link_channel r (text_value (lit "secret") [] given)) λ x. pure (printed (linked_text r))

abbrev pub write_out : Bytes → ℕ → Bytes → Option Bytes → Exec Ending
write_out out_path n payload (some e) = pure (fatal (lit "Failed to write export file: " ++ e))
write_out out_path n payload none =
    pure (
      written out_path payload
        (lit "Exported " ++ (decimal n ++ (lit " pairings to " ++ out_path))))

-- the end of an export: on the standard output, or in a file
abbrev pub put_out : Machine → Bytes → ℕ → Bytes → Exec Ending
put_out m out_path n payload =
    if is_empty (trim out_path)
    then pure (printed payload)
    else write_out out_path n payload (m.write_error out_path payload)

abbrev pub with_settings : (List Setting → Exec Ending) → Parsed → Exec Ending
with_settings f (parsed given) = f given
with_settings f (exits n) = pure (flag_exit n)

abbrev pub with_flags :
    Machine → List Flag → (List Setting → Exec Ending) → List Bytes → Exec Ending
with_flags m flags f args = with_settings f (parse m.parse_int_flag flags none args [])

abbrev pub export_limit : Machine → List Setting → ℕ
export_limit m given = int_of m 500 (find_value (lit "limit") given)

abbrev pub secrets_included : List Setting → Bool
secrets_included given = bool_value (lit "include-secrets") false given

abbrev pub out_path_of : List Setting → Bytes
out_path_of given = text_value (lit "out") [] given

abbrev pub file_path_of : List Setting → Bytes
file_path_of given = text_value (lit "file") [] given

abbrev pub blocked_replaced : List Setting → Bool
blocked_replaced given = bool_value (lit "replace-blocked") true given

module _ ⦃j : Json⦄ where
  unfoldable pub export_command : Machine → List Setting → Exec Ending
  unfolding export_pairings find_value parse_bool decimal
  export_command m given =
      or_fatal (lit "Export failed: ")
        (export_pairings (export_limit m given) (secrets_included given))
        λ items.
          answered (lit "Failed to encode export: ") (put_out m (out_path_of given) (length items))
            (m.encode_items items)

module _ ⦃j : Json⦄ ⦃u : Unicode⦄ where
  unfoldable pub import_command : Machine → List Setting → Exec Ending
  unfolding import_pairings find_value parse_bool decimal
  import_command m given =
      let file_path = file_path_of given in
      if is_empty (trim file_path)
      then pure (printed (lit "Error: -file is required"))
      else answered (lit "Failed to read import file: ")
          (λ data_bytes.
            answered (lit "Invalid import JSON: ")
              (λ items.
                or_fatal (lit "Import failed: ")
                  (import_pairings items (secrets_included given) (blocked_replaced given))
                  (λ count. pure (printed (lit "Imported " ++ (decimal count ++ lit " pairings")))))
              (m.decode_items data_bytes))
          (m.read_file file_path)

  -- the switch on the command
  unfoldable pub switch_command : Machine → Bytes → List Bytes → Exec Ending
  unfolding parse add_webhook export_command import_command
  switch_command m command args =
      if same command (lit "add-webhook")
      then with_flags m webhook_flags add_webhook args
      else if same command (lit "export-pairings")
      then with_flags m
          (flag (lit "out") string_flag
            ∷ flag (lit "limit") int_flag
            ∷ flag (lit "include-secrets") bool_flag
            ∷ [])
          (export_command m) args
      else if same command (lit "import-pairings")
      then with_flags m
          (flag (lit "file") string_flag
            ∷ flag (lit "include-secrets") bool_flag
            ∷ flag (lit "replace-blocked") bool_flag
            ∷ [])
          (import_command m) args
      else if same command (lit "list")
      then pure (printed (lit "Listing all pairings is not fully implemented in CLI yet."))
      else pure (unknown_command command)

  -- os.Args: the program, the command, and its arguments
  unfoldable pub main : Machine → List Bytes → Exec Ending
  unfolding switch_command
  main m [] = pure usage
  main m (program ∷ []) = pure usage
  main m (program ∷ command ∷ args) = switch_command m command args
