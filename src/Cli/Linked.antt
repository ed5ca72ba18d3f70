-- ===== src/Cli/Linked.antt =====
-- From the arguments of `add-webhook` to the call of LinkChannel.
use mathlib.Core.Path.{subst}
use cross_platform_media_sha.Base.{
  ◌≡◌, refl, sym, ℤ, Bool, true, false, not, ◌&&◌, ◌==◌, Bool-cases, inl, inr, Option, List, [],
  ◌∷◌, map, All, reverse,
}
use cross_platform_media_sha.Text.{Bytes, Unicode, lit, same, is_empty}
use cross_platform_media_sha.Models.{Route}
use cross_platform_media_sha.Database.Store.{Store, Result, ok, err, pure}
use cross_platform_media_sha.Database.Pending.{Json}
use cross_platform_media_sha.Database.Pairings.{link_channel}
use cross_platform_media_sha.Cli.Flags.{Setting, string_flag, find_flag, find_value, fits}
use cross_platform_media_sha.Cli.Commands.{
  Machine, printed, answered, linked_text, webhook_flags, add_webhook, with_settings,
  switch_command, main,
}
use cross_platform_media_sha.Cli.Spelled.{spelled, IsSetting, LacksEquals, parse-spelled}

-- the four settings of `add-webhook`
abbrev pub webhook_settings : Bytes → Bytes → Bytes → Bytes → List Setting
webhook_settings platform id url secret =
    record { name = lit "source-platform"; value = platform }
    ∷ record { name = lit "source-id"; value = id }
    ∷ record { name = lit "url"; value = url }
    ∷ record { name = lit "secret"; value = secret }
    ∷ []

abbrev pub route_to : Bytes → Bytes → Bytes → Route
route_to platform id url = record {
  source_platform = platform;
  source_id = id;
  target_platform = lit "webhook";
  target_id = url;
}

-- a test that a name passes, and so has no `=`
abbrev lacks_equals : Bytes → Bool
lacks_equals [] = true
lacks_equals (c ∷ s) = not (c == b'=') && lacks_equals s

passed-LacksEquals : (s : Bytes) → lacks_equals s ≡ true → LacksEquals s
passed-LacksEquals [] h = tt
passed-LacksEquals (c ∷ s) h = elim (Bool-cases (c == b'=')) [
  | inl e ↦ let f = subst (λ b. (not b && lacks_equals s) ≡ true) e h in cc f
  | inr e ↦ (e, passed-LacksEquals s (subst (λ b. (not b && lacks_equals s) ≡ true) e h))
]

settings-IsSetting :
    (p : Bytes → Option ℤ) (platform id url secret : Bytes)
    → All (IsSetting p webhook_flags) (webhook_settings platform id url secret)
unfolding find_flag fits same
settings-IsSetting p platform id url secret = (
  ((refl, passed-LacksEquals (lit "source-platform") refl), (string_flag, (refl, refl))),
  (
    ((refl, passed-LacksEquals (lit "source-id") refl), (string_flag, (refl, refl))),
    (
      ((refl, passed-LacksEquals (lit "url") refl), (string_flag, (refl, refl))),
      (((refl, passed-LacksEquals (lit "secret") refl), (string_flag, (refl, refl))), tt),
    ),
  ),
)

answered-store :
    (text said : Bytes) (r : Result (Unit {0})) (s : Store)
    → (answered text (λ x. pure (printed said)) r s).1 ≡ s
answered-store text said (ok x) s = refl
answered-store text said (err e) s = refl

add_webhook-link_channel :
    (platform id url secret : Bytes) (s : Store)
    → is_empty id ≡ false
    → is_empty url ≡ false
    → (add_webhook (reverse (webhook_settings platform id url secret)) s).1
      ≡ (link_channel (route_to platform id url) secret s).1
unfolding add_webhook find_value same
add_webhook-link_channel platform id url secret s h k =
    let done = link_channel (route_to platform id url) secret s in
    rw (h, k)
      (answered-store (lit "Failed to add webhook: ") (linked_text (route_to platform id url))
        done.0 done.1)

-- `add-webhook` with its four flags, each written `-name=value`, where the id and the URL are not
-- empty, does to the store exactly what LinkChannel does with the route and the secret that they
-- give.
pub main-link_channel :
    ⦃j : Json⦄ ⦃u : Unicode⦄ (m : Machine) (program platform id url secret : Bytes) (s : Store)
    → is_empty id ≡ false
    → is_empty url ≡ false
    → (main m
        (program ∷ lit "add-webhook" ∷ map spelled (webhook_settings platform id url secret))
        s).1
      ≡ (link_channel (route_to platform id url) secret s).1
unfolding main switch_command same
main-link_channel m program platform id url secret s h k =
    subst
      (λ r.
        (with_settings add_webhook r s).1 ≡ (link_channel (route_to platform id url) secret s).1)
      (sym (
        parse-spelled m.parse_int_flag webhook_flags (webhook_settings platform id url secret)
          (settings-IsSetting m.parse_int_flag platform id url secret)))
      (add_webhook-link_channel platform id url secret s h k)
