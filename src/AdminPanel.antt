-- ===== src/AdminPanel.antt =====
-- internal/adminpanel: the HTTP end points of the administration, which read the database.
use cross_platform_media_sha.Base.{
  ℕ, ◌-◌, ◌*◌, ◌≡◌, refl, inl, inr, Bool, true, false, not, ◌&&◌, ◌||◌, Option, none, some, List,
  [], ◌∷◌, ◌++◌, ltb, drop, any, if◌then◌else◌, Bool-cases, arith,
}
use cross_platform_media_sha.Text.{
  Bytes, Unicode, lit, trim, same, is_empty, to_lower, has_prefix, parse_int, positive,
}
use cross_platform_media_sha.Database.Rows.{Db}
use cross_platform_media_sha.Database.Store.{
  Store, Result, ok, err, Exec, pure, ◌>>=◌, time_now, second, unix,
}
use cross_platform_media_sha.Database.Pending.{Json}
use cross_platform_media_sha.Database.Pairings.{Pairing}
use cross_platform_media_sha.Database.Listings.{
  list_all_pairings, count_pairings, count_dead_letters,
}
use cross_platform_media_sha.Database.Delivery.{get_queue_stats}
use cross_platform_media_sha.Database.Stats.{ChatStats, get_chat_stats}
use cross_platform_media_sha.Database.Export.{attempt}
use cross_platform_media_sha.Moderation.{Environ, parse_bool_env}
pub mod Access
pub mod Reads

pub record PanelConfig : Type 0 where
  pub enabled : Bool
  pub addr : Bytes
  pub token : Bytes
  pub default_limit : ℕ

-- two headers and the query
pub record Request : Type 0 where
  pub path : Bytes
  pub x_admin_token : Bytes
  pub authorization : Bytes
  pub query : Bytes → Bytes

-- what is written as JSON, or the page
pub data Body : Type 0 where
  index : Body
  not_found : Body
  healthy : Body
  failure : Bytes → Body
  -- the pairings, the depths of the queue and of the retries, the dead letters, the time
  summary : ℕ → ℕ → ℕ → ℕ → ℕ → Body
  items : List Pairing → Body
  chat_stats : ChatStats → Body

pub record Response : Type 0 where
  pub status : ℕ
  pub body : Body

abbrev pub respond : ℕ → Body → Exec Response
respond status body = pure (record { status = status; body = body })

abbrev bearer : ⦃u : Unicode⦄ → Bytes → Bytes
bearer auth = if has_prefix (to_lower auth) (lit "bearer ") then trim (drop 7 auth) else []

unfoldable pub is_authorized : ⦃u : Unicode⦄ → Request → Bytes → Bool
is_authorized r expected_token =
    let given = trim r.x_admin_token in
    let token = if is_empty given then bearer (trim r.authorization) else given in
    not (is_empty token) && same token (trim expected_token)

-- a positive number of the query, up to a largest one
abbrev capped : ℕ → ℕ → Option ℕ → ℕ
capped default largest none = default
capped default largest (some n) = if ltb largest n then largest else n

abbrev pub limit_of : ℕ → ℕ → Bytes → ℕ
limit_of default largest raw = capped default largest (positive (parse_int (trim raw)))

-- a query, and an answer 500 where it fails
abbrev pub or_500 : {A : Type 0} → Exec A → (A → Exec Response) → Exec Response
or_500 m f = attempt m >>= λ r. elim r [ ok a ↦ f a | err e ↦ respond 500 (failure e) ]

unfoldable pub summary_handler : Exec Response
unfolding get_queue_stats count_pairings count_dead_letters
summary_handler = or_500 get_queue_stats λ depths. or_500 count_pairings λ pairings.
    or_500 count_dead_letters λ letters.
      time_now >>= λ now. respond 200 (summary pairings depths.0 depths.1 letters (unix now))

unfoldable pub pairings_handler : ⦃j : Json⦄ → PanelConfig → Request → Exec Response
unfolding list_all_pairings parse_int
pairings_handler cfg r =
    or_500 (list_all_pairings (limit_of cfg.default_limit 500 (r.query (lit "limit"))))
      λ ps. respond 200 (items ps)

unfoldable pub chat_stats_handler : Request → Exec Response
unfolding get_chat_stats parse_int
chat_stats_handler r =
    let platform = trim (r.query (lit "source_platform")) in
    let id = trim (r.query (lit "source_id")) in
    let hours = limit_of 24 168 (r.query (lit "since_hours")) in
    if is_empty platform || is_empty id
    then respond 400 (failure (lit "source_platform and source_id are required"))
    else time_now >>= λ now.
        or_500 (get_chat_stats platform id (unix (now - hours * (3600 * second))))
          λ c. respond 200 (chat_stats c)

module _ ⦃u : Unicode⦄ where
  abbrev pub with_token_auth : Bytes → Request → Exec Response → Exec Response
  with_token_auth token r next =
      if is_authorized r token then next else respond 401 (failure (lit "unauthorized"))

  -- the multiplexer: three paths that want the token, the health check, and the page
  unfoldable pub serve : ⦃j : Json⦄ → PanelConfig → Request → Exec Response
  unfolding is_authorized summary_handler pairings_handler chat_stats_handler
  serve cfg r =
      if same r.path (lit "/admin/api/summary")
      then with_token_auth cfg.token r summary_handler
      else if same r.path (lit "/admin/api/pairings")
      then with_token_auth cfg.token r (pairings_handler cfg r)
      else if same r.path (lit "/admin/api/chat-stats")
      then with_token_auth cfg.token r (chat_stats_handler r)
      else if same r.path (lit "/admin/healthz")
      then respond 200 healthy
      else if has_prefix r.path (lit "/admin/")
      then respond 200 index
      else respond 404 not_found

  abbrev or_default : {A : Type 0} → A → Option A → A
  or_default default none = default
  or_default default (some a) = a

  unfoldable pub load_config : Environ → PanelConfig
  unfolding parse_bool_env parse_int
  load_config env = record {
    enabled = parse_bool_env env (lit "ADMIN_HTTP_ENABLED") false;
    addr =
        (let value = trim (env (lit "ADMIN_HTTP_ADDR")) in
          if is_empty value then lit ":8091" else value);
    token = trim (env (lit "ADMIN_HTTP_TOKEN"));
    default_limit =
        or_default 100 (positive (parse_int (trim (env (lit "ADMIN_HTTP_DEFAULT_LIMIT")))));
  }

  -- whether the server is started
  unfoldable pub starts : PanelConfig → Bool
  starts cfg = cfg.enabled && not (is_empty (trim cfg.token))
