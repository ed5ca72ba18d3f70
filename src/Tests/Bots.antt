-- ===== src/Tests/Bots.antt =====
-- The bots at work: messages of Telegram and Discord, and the theorems applied to them.
use cross_platform_media_sha.Base.{pos, ◌*◌, ◌≡◌, refl, ap, sym, false, none, some, [], ◌∷◌}
use cross_platform_media_sha.Text.{lit, to_lower, same, has_prefix}
use cross_platform_media_sha.Models.{Route}
use cross_platform_media_sha.Database.Table.{has, select, delete}
use cross_platform_media_sha.Security.RateLimit.{lookup}
use cross_platform_media_sha.Database.Pairings.{rules_of, insert_event_history}
use cross_platform_media_sha.Rules.Files.{has_mime}
use cross_platform_media_sha.Database.Rows.{empty_db, PairingRow}
use cross_platform_media_sha.Database.Store.{Store, ok, err, second}
use cross_platform_media_sha.Database.Stats.{parse_source_from_event_id}
use cross_platform_media_sha.Rules.Filter.{Regex, is_blocked_sender, hits_regex}
use cross_platform_media_sha.Producer.{Intake, Remote}
use cross_platform_media_sha.Producer.Sound.{IsReady}
use cross_platform_media_sha.Telegram.Message.{
  User, MediaFile, Message, build_event_id, chat_string, user_id,
}
use cross_platform_media_sha.Telegram.Media.{SourceLimit, Bot}
use cross_platform_media_sha.Telegram.Commands.{is_authorized_telegram_user}
use cross_platform_media_sha.Telegram.Dispatch.{RulesParser, handle_command}
use cross_platform_media_sha.Telegram.Updates.{handle_updates}
use cross_platform_media_sha.Telegram.Access.{handle_command_unchanged, is_admin_command}
use cross_platform_media_sha.Telegram.Ids.{parse_source_from_event_id-build_event_id}
use cross_platform_media_sha.Discord.Message.{Author, Attachment, MessageCreate}
use cross_platform_media_sha.Discord.Access.{Session, Admins, is_authorized_admin_command}
use cross_platform_media_sha.Discord.Dispatch
use cross_platform_media_sha.Discord.Guard.{handle_discord_command_unchanged}
use cross_platform_media_sha.Tests.Data.{ascii, id_json, start}

instance abbrev pub no_pattern : Regex
no_pattern = record { match_string = λ p s. none }

abbrev ann : User
ann = record { id = pos 5; first_name = lit "Ann"; last_name = []; user_name = lit "ann" }

abbrev picture : MediaFile
picture = record { file_id = lit "f1"; file_name = []; file_size = 10; mime_type = [] }

-- a picture in the chat 1
abbrev pub posted : Message
posted = record {
  chat_id = pos 1;
  message_id = pos 7;
  from = some ann;
  caption = lit "look";
  media_group_id = [];
  reply_to_message = none;
  photo = picture ∷ [];
  video = none;
  animation = none;
  document = none;
  command = none;
}

-- and the command that blocks a word
abbrev block_spam : Message
block_spam = record posted { photo = []; command = some (lit "block", lit "spam") }

-- the chat 1 is linked to the Discord channel 2
abbrev chat_route : Route
chat_route = record {
  source_platform = lit "telegram";
  source_id = lit "1";
  target_platform = lit "discord";
  target_id = lit "2";
}

abbrev linked_row : PairingRow
linked_row = record { route = chat_route; rule_config = none; webhook_secret = none }

abbrev pub linked_store : Store
linked_store = record start { db = record empty_db { pairings = linked_row ∷ [] } }

pub linked-IsReady : IsReady none linked_store
unfolding has
linked-IsReady = record {
  held = tt;
  closed = refl;
  sound = record {
    pending_unique = tt;
    processed_unique = tt;
    dedupe_unique = tt;
    letters_unique = tt;
    letters_fresh = tt;
    disjoint = λ id p. refl;
  };
}

abbrev intake : Intake
intake = record {
  store = linked_store;
  source_buckets = [];
  bursts = record { burst_counts = []; burst_last = [] };
  received_events_total = 0;
}

abbrev pub http : Remote
http = record { get_url = λ url. ok (200, ok url); sha256_hex = λ b. lit "f00d" }

abbrev pub bot : Bot
bot = record { get_file_direct_url = λ id. ok id }

abbrev pub parser : RulesParser
parser = record { unmarshal_rules = λ t. err (lit "unexpected end of JSON input") }

abbrev pub limit : SourceLimit
limit = record { max = 30; window = 60 * second }

-- the picture is taken into the queue
taken_in :
    (handle_updates parser bot http [] limit
      (some posted ∷ some block_spam ∷ none ∷ [])
      intake).1.received_events_total
    ≡ 1
unfolding handle_updates same lookup select is_blocked_sender rules_of hits_regex has_mime
    has_prefix has delete insert_event_history
taken_in = refl

-- Ann is not among the trusted users
handle_command_unchanged_example :
    (handle_command parser (lit "9" ∷ []) block_spam (lit "Block") (lit "spam") linked_store).1.db
    ≡ linked_store.db
unfolding is_admin_command is_authorized_telegram_user user_id to_lower same
handle_command_unchanged_example =
    handle_command_unchanged parser (lit "9" ∷ []) block_spam (lit "Block") (lit "spam")
      linked_store refl

parse_source_from_event_id-build_event_id_example :
    parse_source_from_event_id (build_event_id posted (lit "f1") (lit "2"))
    ≡ some (lit "telegram", chat_string posted)
parse_source_from_event_id-build_event_id_example =
    parse_source_from_event_id-build_event_id posted (lit "f1") (lit "2")

abbrev bob : Author
bob = record { id = lit "u1"; user_name = lit "bob" }

abbrev attached : Attachment
attached = record {
  id = lit "a1";
  url = lit "https://cdn/a1";
  file_name = lit "a.png";
  content_type = lit "image/png";
  size = 10;
}

abbrev shared : MessageCreate
shared = record {
  id = lit "m1";
  author = some bob;
  member = none;
  guild_id = lit "g1";
  channel_id = lit "2";
  content = lit "look";
  attachments = attached ∷ [];
}

abbrev replay_first : MessageCreate
replay_first = record shared { content = lit "!replaydead 1"; attachments = [] }

-- nobody manages channels, and no guild has members
abbrev session : Session
session = record {
  user_id = lit "bot";
  cached_permissions = λ u c. err (lit "not cached");
  user_channel_permissions = λ u c. ok (pos 0);
  manages_channels = λ p. false;
  guild_member = λ g u. err (lit "unknown member");
}

abbrev admins : Admins
admins = record { admin_role_ids = lit "r1" ∷ []; trusted_user_ids = lit "u9" ∷ [] }

no_rights :
    (a : Author)
    → replay_first.author ≡ some a
    → is_authorized_admin_command session admins replay_first a ≡ false
unfolding is_authorized_admin_command same
no_rights a h = let e : bob ≡ a = ap (λ o. elim o [ none ↦ bob | some b ↦ b ]) h in rw (sym e) refl

handle_discord_command_unchanged_example :
    (Dispatch.handle_command (λ t. []) session admins replay_first linked_store).1.db
    ≡ linked_store.db
handle_discord_command_unchanged_example =
    handle_discord_command_unchanged (λ t. []) session admins replay_first linked_store no_rights
