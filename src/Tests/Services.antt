-- ===== src/Tests/Services.antt =====
-- The consumers, the moderation and the administration at work.
use cross_platform_media_sha.AdminPanel.{PanelConfig, Request, failure, is_authorized, serve}
use cross_platform_media_sha.AdminPanel.Access.{serve_unauthorized}
use cross_platform_media_sha.Text.{trim}
use cross_platform_media_sha.Models.{MediaEvent, no_rules, route_of, same_route}
use cross_platform_media_sha.Base.{inl, inr, ◌++◌, ◌≤◌, ◌↔◌, length, arith, true}
use cross_platform_media_sha.Text.{Bytes, fields, decimal_int, decimal, digits}
use cross_platform_media_sha.Database.Pairings.{Pairing, get_pairing, sort_words}
use cross_platform_media_sha.Base.{pos, ◌≡◌, refl, none, some, [], ◌∷◌}
use cross_platform_media_sha.Text.{
  lit, to_lower, same, has_prefix, fields, decimal_int, decimal, digits,
}
use cross_platform_media_sha.Models.{Route}
use cross_platform_media_sha.Database.Table.{select}
use cross_platform_media_sha.Database.Pairings.{Pairing, get_pairing, rules_of}
use cross_platform_media_sha.Database.Rows.{empty_db}
use cross_platform_media_sha.Database.Store.{Store, ok}
use cross_platform_media_sha.Telegram.Message.{chat_string}
use cross_platform_media_sha.Telegram.Consumer
use cross_platform_media_sha.Telegram.Consumer.{send-chat_string}
use cross_platform_media_sha.Webhook
use cross_platform_media_sha.Webhook.{send_signed}
use cross_platform_media_sha.Moderation.{has_repeated_words}
use cross_platform_media_sha.Moderation.Repeats.{IsTripled, has_repeated_words_iff}
use cross_platform_media_sha.Tests.Data.{ascii, id_json, start, photo}
use cross_platform_media_sha.Tests.Bots.{posted, linked_store}

-- a client that takes every message
abbrev telegram_client : Consumer.Client
telegram_client = record {
  parse_error = λ t. t;
  new_request = λ url. none;
  do_request = λ url. ok (200, url);
  send_message = λ m. none;
}

abbrev answer : MediaEvent
answer = record photo { target_id = lit "1" }

send-chat_string_example :
    Consumer.send (some telegram_client) answer
    ≡ telegram_client.send_message (Consumer.text (pos 1) answer.caption)
unfolding chat_string decimal_int decimal digits
send-chat_string_example = send-chat_string telegram_client answer posted (omega arith) refl refl

-- a server that answers 204, and a stand-in for the HMAC
abbrev webhook_client : Webhook.Client
webhook_client = record {
  new_request = λ url. ok tt;
  post = λ url payload signature. ok 204;
  hmac = λ key payload. key ++ payload;
}

abbrev hook_route : Route
hook_route = route_of photo

abbrev hook_store : Store
hook_store = record start {
  db = record empty_db {
    pairings =
        record { route = hook_route; rule_config = none; webhook_secret = some (lit "key") } ∷ [];
  };
}

abbrev hook_pairing : Pairing
hook_pairing = record {
  route = hook_route;
  blocked_words = [];
  rule_config = no_rules;
  webhook_secret = lit "key";
}

send_signed_example :
    (payload : Bytes) × ((id_json.encode_event photo ≡ ok payload)
      × Webhook.IsSuccess (
          webhook_client.post photo.target_id payload
            (some (webhook_client.hmac (lit "key") payload))))
unfolding Webhook.send get_pairing select same_route same rules_of sort_words
send_signed_example = send_signed webhook_client photo hook_store hook_pairing refl refl refl

has_repeated_words_iff_example :
    (has_repeated_words (lit "buy now now now") ≡ true)
    ↔ ((4 ≤ length (fields (lit "buy now now now"))) × IsTripled (fields (lit "buy now now now")))
has_repeated_words_iff_example = has_repeated_words_iff (lit "buy now now now")

abbrev panel : PanelConfig
panel = record { enabled = true; addr = lit ":8091"; token = lit "t0ken"; default_limit = 100 }

-- the wrong token
abbrev intruder : Request
intruder = record {
  path = lit "/admin/api/pairings";
  x_admin_token = [];
  authorization = lit "Bearer guess";
  query = λ name. [];
}

serve_unauthorized_example :
    serve panel intruder linked_store
    ≡ (ok (record { status = 401; body = failure (lit "unauthorized") }), linked_store)
unfolding is_authorized has_prefix to_lower trim same
serve_unauthorized_example =
    serve_unauthorized panel intruder linked_store refl
      λ h. elim h.1 [ inl p ↦ cc p | inr p ↦ cc (p.1.0) ]
