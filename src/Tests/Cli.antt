-- ===== src/Tests/Cli.antt =====
-- The command line.
use cross_platform_media_sha.Base.{◌≡◌, refl, none, List, [], ◌∷◌}
use cross_platform_media_sha.Text.{Bytes, lit, same, trim}
use cross_platform_media_sha.Database.Frame.{SparesQueue}
use cross_platform_media_sha.Database.Store.{ok, err}
use cross_platform_media_sha.Cli.Commands.{Machine, main, printed, flag_exit}
use cross_platform_media_sha.Cli.Linked.{route_to, main-link_channel}
use cross_platform_media_sha.Database.Pairings.{link_channel}
use cross_platform_media_sha.Cli.Safety.{main-SparesQueue}
use cross_platform_media_sha.Tests.Data.{ascii, id_json}
use cross_platform_media_sha.Tests.Bots.{linked_store}

abbrev machine : Machine
machine = record {
  read_file = λ path. err (lit "no such file");
  write_error = λ path payload. none;
  encode_items = λ items. ok (lit "[]");
  decode_items = λ payload. ok [];
  parse_int_flag = λ v. none;
}

abbrev add_webhook_args : List Bytes
add_webhook_args =
    lit "cli" ∷ lit "add-webhook" ∷ lit "-source-id=7" ∷ lit "--url" ∷ lit "http://h" ∷ []

linked_by_hand :
    (main machine add_webhook_args linked_store).0
    ≡ ok (printed (lit "Successfully linked telegram:7 to webhook http://h"))
unfolding main same trim
linked_by_hand = refl

asked_for_help :
    (main machine (lit "cli" ∷ lit "export-pairings" ∷ lit "-h" ∷ []) linked_store).0
    ≡ ok (flag_exit 0)
unfolding main same trim
asked_for_help = refl

main-SparesQueue_example :
    SparesQueue linked_store.db (main machine add_webhook_args linked_store).1.db
main-SparesQueue_example = main-SparesQueue machine add_webhook_args linked_store

main-link_channel_example :
    (main machine
      (lit "cli"
        ∷ lit "add-webhook"
        ∷ lit "-source-platform=discord"
        ∷ lit "-source-id=7"
        ∷ lit "-url=http://h?a=b"
        ∷ lit "-secret=s"
        ∷ [])
      linked_store).1
    ≡ (link_channel
        (route_to (lit "discord") (lit "7") (lit "http://h?a=b"))
        (lit "s")
        linked_store).1
main-link_channel_example =
    main-link_channel machine (lit "cli") (lit "discord") (lit "7") (lit "http://h?a=b") (lit "s")
      linked_store refl refl
