-- ===== src/Cli/Safety.antt =====
-- What the commands of cmd/cli/main.go may change.
use cross_platform_media_sha.Base.{
  ℕ, ◌≡◌, Bool, true, false, Option, none, some, suc, List, [], ◌∷◌, length,
}
use cross_platform_media_sha.Text.{Bytes, Unicode, lit, same}
use cross_platform_media_sha.Models.{Route}
use cross_platform_media_sha.Database.Rows.{Db}
use cross_platform_media_sha.Database.Store.{Exec, Store, Result, ok, err, query}
use cross_platform_media_sha.Database.Pending.{Json}
use cross_platform_media_sha.Database.Pairings.{
  Pairing, get_pairing, link_channel, update_rule_config, clear_blocked_words, add_blocked_word,
  trim_route, incomplete, first_pairing, scan_pairings,
}
use cross_platform_media_sha.Database.Listings.{list_all_pairings}
use cross_platform_media_sha.Database.Export.{
  PairingExport, export_pairings, import_secret, import_pairing, import_pairings, import_items,
  add_words, secret_of,
}
use cross_platform_media_sha.Database.Frame.{
  IsFrame, Changes, SparesQueue, SparesQueue-frame, Unchanged-frame, Changes-pure, Changes-fail,
  Changes-query, Changes-bind, Changes-ask, Changes-scan, Changes-if, Changes-then, Changes-when,
}
use cross_platform_media_sha.Database.Frames.{
  Spares-link_channel, Spares-update_rule_config, Spares-add_blocked_word,
  Spares-clear_blocked_words,
}
use cross_platform_media_sha.Cli.Flags.{Setting, Parsed, parsed, exits}
use cross_platform_media_sha.Cli.Commands.{
  Machine, Ending, answered, or_fatal, write_out, put_out, add_webhook, export_command,
  import_command, with_settings, export_limit, secrets_included, out_path_of, file_path_of,
  blocked_replaced, switch_command, main,
}

module _ {R : Db → Db → Type 0} (o : IsFrame R) where
  Changes-answered :
      {A : Type 0} (text : Bytes) (k : A → Exec Ending) (r : Result A)
      → ((a : A) → Changes R (k a))
      → Changes R (answered text k r)
  Changes-answered text k (ok a) h = h a
  Changes-answered text k (err e) h = Changes-pure o _

  Changes-or_fatal :
      {A : Type 0} (text : Bytes) (m : Exec A) (k : A → Exec Ending)
      → Changes R m
      → ((a : A) → Changes R (k a))
      → Changes R (or_fatal text m k)
  Changes-or_fatal text m k h l =
      Changes-ask o m (answered text k) h λ r. Changes-answered text k r l

  Changes-write_out :
      (path : Bytes) (n : ℕ) (payload : Bytes) (r : Option Bytes)
      → Changes R (write_out path n payload r)
  Changes-write_out path n payload none = Changes-pure o _
  Changes-write_out path n payload (some e) = Changes-pure o _

  Changes-put_out :
      (m : Machine) (path : Bytes) (n : ℕ) (payload : Bytes) → Changes R (put_out m path n payload)
  Changes-put_out m path n payload =
      Changes-if _ _ _ (Changes-pure o _) (Changes-write_out path n payload _)

  Changes-with_settings :
      (f : List Setting → Exec Ending) (p : Parsed)
      → ((given : List Setting) → Changes R (f given))
      → Changes R (with_settings f p)
  Changes-with_settings f (parsed given) h = h given
  Changes-with_settings f (exits n) h = Changes-pure o _

  module _ ⦃j : Json⦄ where
    Changes-export_pairings :
        (limit : ℕ) (include_secrets : Bool) → Changes R (export_pairings limit include_secrets)
    unfolding export_pairings list_all_pairings
    Changes-export_pairings limit include_secrets =
        Changes-bind o (list_all_pairings limit) _
          (Changes-bind o _ scan_pairings (Changes-query o _) (Changes-scan o))
          λ ps. Changes-pure o _

    Changes-export_command :
        (m : Machine) (given : List Setting) → Changes R (export_command m given)
    unfolding export_command
    Changes-export_command m given =
        Changes-or_fatal (lit "Export failed: ")
          (export_pairings (export_limit m given) (secrets_included given))
          (λ items.
            answered (lit "Failed to encode export: ")
              (put_out m (out_path_of given) (length items)) (m.encode_items items))
          (Changes-export_pairings (export_limit m given) (secrets_included given))
          λ items.
            Changes-answered (lit "Failed to encode export: ")
              (put_out m (out_path_of given) (length items)) (m.encode_items items)
              (Changes-put_out m (out_path_of given) (length items))

  module _ ⦃j : Json⦄ ⦃u : Unicode⦄ where
    -- what the two commands that write may change is what the program may change
    pub Changes-switch_command :
        (m : Machine) (command : Bytes) (args : List Bytes)
        → (same command (lit "add-webhook") ≡ true
            → (given : List Setting) → Changes R (add_webhook given))
        → (same command (lit "import-pairings") ≡ true
            → (given : List Setting) → Changes R (import_command m given))
        → Changes R (switch_command m command args)
    unfolding switch_command
    Changes-switch_command m command args h k =
        Changes-when (same command (lit "add-webhook")) _ _
          (λ e. Changes-with_settings add_webhook _ (h e))
          (Changes-if (same command (lit "export-pairings")) _ _
            (Changes-with_settings (export_command m) _ (Changes-export_command m))
            (Changes-when (same command (lit "import-pairings")) _ _
              (λ e. Changes-with_settings (import_command m) _ (k e))
              (Changes-if (same command (lit "list")) _ _ (Changes-pure o _) (Changes-pure o _))))

module _ ⦃j : Json⦄ ⦃u : Unicode⦄ where
  -- A command other than `add-webhook` and `import-pairings` leaves the database as it is, whatever
  -- its arguments and whatever the driver refuses.
  pub switch_command-reads :
      (m : Machine) (command : Bytes) (args : List Bytes) (s : Store)
      → same command (lit "add-webhook") ≡ false
      → same command (lit "import-pairings") ≡ false
      → (switch_command m command args s).1.db ≡ s.db
  switch_command-reads m command args s h k =
      Changes.within
        (Changes-switch_command Unchanged-frame m command args (λ e. cc (h, e)) (λ e. cc (k, e))) s

  Spares-add_webhook : (given : List Setting) → Changes SparesQueue (add_webhook given)
  unfolding add_webhook
  Spares-add_webhook given = Changes-if _ _ _ (Changes-pure SparesQueue-frame _) (
      Changes-or_fatal SparesQueue-frame (lit "Failed to add webhook: ") (link_channel _ _) _
        (Spares-link_channel _ _) λ x. Changes-pure SparesQueue-frame _)

  Spares-first_pairing : (ps : List Pairing) → Changes SparesQueue (first_pairing ps)
  Spares-first_pairing [] = Changes-fail SparesQueue-frame _
  Spares-first_pairing (p ∷ ps) = Changes-pure SparesQueue-frame p

  Spares-get_pairing : (r : Route) → Changes SparesQueue (get_pairing r)
  unfolding get_pairing
  Spares-get_pairing r =
      Changes-bind SparesQueue-frame (query _) _ (Changes-query SparesQueue-frame _) λ rows.
        Changes-bind SparesQueue-frame (scan_pairings rows) first_pairing
          (Changes-scan SparesQueue-frame rows) Spares-first_pairing

  Spares-import_secret :
      (item : PairingExport) (r : Route) (include_secrets : Bool)
      → Changes SparesQueue (import_secret item r include_secrets)
  unfolding import_secret
  Spares-import_secret item r include_secrets =
      Changes-if include_secrets _ _ (Changes-pure SparesQueue-frame _) (
        Changes-ask SparesQueue-frame (get_pairing r) _ (Spares-get_pairing r)
          λ found. Changes-pure SparesQueue-frame (secret_of found))

  Spares-add_words : (r : Route) (ws : List Bytes) → Changes SparesQueue (add_words r ws)
  unfolding add_words
  Spares-add_words r [] = Changes-pure SparesQueue-frame tt
  Spares-add_words r (w ∷ ws) =
      Changes-bind SparesQueue-frame (add_blocked_word r w) (λ _. add_words r ws)
        (Spares-add_blocked_word r w) λ x. Spares-add_words r ws

  Spares-import_pairing :
      (item : PairingExport) (include_secrets replace_blocked : Bool)
      → Changes SparesQueue (import_pairing item include_secrets replace_blocked)
  unfolding import_pairing
  Spares-import_pairing item include_secrets replace_blocked =
      let r = trim_route item.route in
      Changes-if (incomplete r) _ _ (Changes-fail SparesQueue-frame _) (
        Changes-bind SparesQueue-frame (import_secret item r include_secrets) _
          (Spares-import_secret item r include_secrets)
          λ secret.
            Changes-bind SparesQueue-frame (link_channel r secret) _ (Spares-link_channel r secret)
              λ x.
                Changes-bind SparesQueue-frame (update_rule_config r item.rule_config) _
                  (Spares-update_rule_config r item.rule_config)
                  λ y.
                    Changes-if replace_blocked _ _
                      (Changes-then SparesQueue-frame (clear_blocked_words r)
                        (add_words r item.blocked_words) (Spares-clear_blocked_words r)
                        (Spares-add_words r item.blocked_words))
                      (Changes-pure SparesQueue-frame tt))

  Spares-import_items :
      (is : List PairingExport) (include_secrets replace_blocked : Bool) (applied : ℕ)
      → Changes SparesQueue (import_items is include_secrets replace_blocked applied)
  unfolding import_items
  Spares-import_items [] include_secrets replace_blocked applied =
      Changes-pure SparesQueue-frame applied
  Spares-import_items (i ∷ is) include_secrets replace_blocked applied =
      Changes-bind SparesQueue-frame (import_pairing i include_secrets replace_blocked)
        (λ _. import_items is include_secrets replace_blocked (suc applied))
        (Spares-import_pairing i include_secrets replace_blocked)
        λ x. Spares-import_items is include_secrets replace_blocked (suc applied)

  Spares-import_pairings :
      (is : List PairingExport) (include_secrets replace_blocked : Bool)
      → Changes SparesQueue (import_pairings is include_secrets replace_blocked)
  unfolding import_pairings
  Spares-import_pairings [] include_secrets replace_blocked = Changes-fail SparesQueue-frame _
  Spares-import_pairings (i ∷ is) include_secrets replace_blocked =
      Spares-import_items (i ∷ is) include_secrets replace_blocked 0

  Spares-import_command :
      (m : Machine) (given : List Setting) → Changes SparesQueue (import_command m given)
  unfolding import_command
  Spares-import_command m given = Changes-if _ _ _ (Changes-pure SparesQueue-frame _) (
      Changes-answered SparesQueue-frame (lit "Failed to read import file: ") _
        (m.read_file (file_path_of given))
        λ data_bytes.
          Changes-answered SparesQueue-frame (lit "Invalid import JSON: ") _
            (m.decode_items data_bytes)
            λ items.
              Changes-or_fatal SparesQueue-frame (lit "Import failed: ")
                (import_pairings items (secrets_included given) (blocked_replaced given)) _
                (Spares-import_pairings items (secrets_included given) (blocked_replaced given))
                λ count. Changes-pure SparesQueue-frame _)

  -- Whatever the arguments of the program are, and whatever the driver refuses, the tables of the
  -- queue stay as they are, and the sequence of their numbers does not go back.
  pub main-SparesQueue :
      (m : Machine) (args : List Bytes) (s : Store) → SparesQueue s.db (main m args s).1.db
  unfolding main
  main-SparesQueue m [] s = SparesQueue-frame.same s.db
  main-SparesQueue m (program ∷ []) s = SparesQueue-frame.same s.db
  main-SparesQueue m (program ∷ command ∷ args) s =
      Changes.within
        (Changes-switch_command SparesQueue-frame m command args (λ e. Spares-add_webhook)
          (λ e. Spares-import_command m))
        s
