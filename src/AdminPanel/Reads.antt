-- ===== src/AdminPanel/Reads.antt =====
-- The administration panel only reads.
use cross_platform_media_sha.Base.{ℕ, ◌≡◌, ◌-◌, ◌*◌}
use cross_platform_media_sha.Text.{Bytes, Unicode, lit, same, trim, has_prefix}
use cross_platform_media_sha.Database.Rows.{Db}
use cross_platform_media_sha.Database.Store.{Exec, Store, Result, ok, err, time_now, unix, second}
use cross_platform_media_sha.Database.Pending.{Json}
use cross_platform_media_sha.Database.Pairings.{scan_pairings}
use cross_platform_media_sha.Database.Delivery.{get_queue_stats}
use cross_platform_media_sha.Database.Listings.{
  list_all_pairings, count_pairings, count_dead_letters,
}
use cross_platform_media_sha.Database.Stats.{get_chat_stats}
use cross_platform_media_sha.Database.Frame.{
  IsFrame, Changes, Changes-pure, Changes-fail, Changes-query, Changes-if, Changes-bind,
  Changes-ask, Changes-time_now, Changes-scan, Unchanged-frame,
}
use cross_platform_media_sha.AdminPanel.{
  PanelConfig, Request, Response, Body, failure, items, summary, chat_stats, healthy, index,
  not_found, limit_of, respond, or_500, summary_handler, pairings_handler, chat_stats_handler,
  with_token_auth, serve, is_authorized,
}

module _ {R : Db → Db → Type 0} (o : IsFrame R) where
  Changes-respond : (status : ℕ) (b : Body) → Changes R (respond status b)
  Changes-respond status b = Changes-pure o _

  Changes-answer :
      {A : Type 0} (f : A → Exec Response)
      → ((a : A) → Changes R (f a))
      → (r : Result A) → Changes R (elim r [ ok a ↦ f a | err e ↦ respond 500 (failure e) ])
  Changes-answer f k (ok a) = k a
  Changes-answer f k (err e) = Changes-respond 500 (failure e)

  Changes-or_500 :
      {A : Type 0} (m : Exec A) (f : A → Exec Response)
      → Changes R m
      → ((a : A) → Changes R (f a))
      → Changes R (or_500 m f)
  Changes-or_500 m f h k =
      Changes-ask o m (λ r. elim r [ ok a ↦ f a | err e ↦ respond 500 (failure e) ]) h
        (Changes-answer f k)

  Changes-summary : Changes R summary_handler
  unfolding summary_handler get_queue_stats count_pairings count_dead_letters
  Changes-summary = Changes-or_500 get_queue_stats _ (Changes-query o _) λ depths.
      Changes-or_500 count_pairings _ (Changes-query o _) λ pairings.
        Changes-or_500 count_dead_letters _ (Changes-query o _) λ letters.
          Changes-bind o time_now _ (Changes-time_now o)
            λ now. Changes-respond 200 (summary pairings depths.0 depths.1 letters (unix now))

  Changes-pairings :
      ⦃j : Json⦄ (cfg : PanelConfig) (r : Request) → Changes R (pairings_handler cfg r)
  unfolding pairings_handler list_all_pairings
  Changes-pairings cfg r =
      Changes-or_500 (list_all_pairings (limit_of cfg.default_limit 500 (r.query (lit "limit")))) _
        (Changes-bind o _ scan_pairings (Changes-query o _) (Changes-scan o))
        λ ps. Changes-respond 200 (items ps)

  Changes-chat_stats_of :
      (platform id : Bytes) (since : ℕ) → Changes R (get_chat_stats platform id since)
  unfolding get_chat_stats
  Changes-chat_stats_of platform id since = Changes-if _ _ _ (Changes-fail o _) (Changes-query o _)

  Changes-chat_stats : (r : Request) → Changes R (chat_stats_handler r)
  unfolding chat_stats_handler
  Changes-chat_stats r =
      let platform = trim (r.query (lit "source_platform")) in
      let id = trim (r.query (lit "source_id")) in
      let hours = limit_of 24 168 (r.query (lit "since_hours")) in
      Changes-if _ _ _ (Changes-respond 400 _) (
        Changes-bind o time_now _ (Changes-time_now o) λ now.
          Changes-or_500 _ _
            (Changes-chat_stats_of platform id (unix (now - hours * (3600 * second))))
            λ c. Changes-respond 200 (chat_stats c))

  Changes-with_token :
      ⦃u : Unicode⦄ (token : Bytes) (r : Request) (m : Exec Response)
      → Changes R m
      → Changes R (with_token_auth token r m)
  Changes-with_token token r m h = Changes-if (is_authorized r token) m _ h (Changes-respond 401 _)

  pub Changes-serve :
      ⦃j : Json⦄ ⦃u : Unicode⦄ (cfg : PanelConfig) (r : Request) → Changes R (serve cfg r)
  unfolding serve
  Changes-serve cfg r =
      Changes-if _ _ _ (Changes-with_token cfg.token r summary_handler Changes-summary) (
        Changes-if _ _ _
          (Changes-with_token cfg.token r (pairings_handler cfg r) (Changes-pairings cfg r))
          (Changes-if _ _ _
            (Changes-with_token cfg.token r (chat_stats_handler r) (Changes-chat_stats r))
            (Changes-if (same r.path (lit "/admin/healthz")) _ _ (Changes-respond 200 healthy) (
              Changes-if (has_prefix r.path (lit "/admin/")) _ _ (Changes-respond 200 index)
                (Changes-respond 404 not_found)))))

-- Whatever is asked of the administration panel, and whatever the driver refuses, no row of the
-- database is added, changed or removed.
pub serve-reads :
    ⦃j : Json⦄ ⦃u : Unicode⦄ (cfg : PanelConfig) (r : Request) (s : Store)
    → (serve cfg r s).1.db ≡ s.db
serve-reads cfg r s = (Changes-serve Unchanged-frame cfg r).within s
