-- ===== src/Webhook.antt =====
-- internal/webhook: an event is posted as JSON, with a signature where the pairing has a secret.
use cross_platform_media_sha.Base.{
  ℕ, ◌≡◌, ◌<◌, ◌≤◌, refl, false, ◌||◌, Option, none, some, ◌++◌, leb, ltb, arith, if◌then◌else◌,
}
use cross_platform_media_sha.Text.{Bytes, lit, is_empty, decimal}
use cross_platform_media_sha.Models.{MediaEvent, route_of}
use cross_platform_media_sha.Database.Store.{Store, Result, ok, err, Exec, lift, ◌>>=◌}
use cross_platform_media_sha.Database.Pending.{Json}
use cross_platform_media_sha.Database.Pairings.{Pairing, get_pairing}
use cross_platform_media_sha.Database.Export.{attempt}

-- HTTP: a request that cannot be made has an error, and a response has a status; the signature is
-- the value of the header X-Signature. And the hexadecimal HMAC-SHA-256 of a text under a key.
pub record Client : Type 0 where
  pub new_request : Bytes → Result (Unit {0})
  pub post : Bytes → Bytes → Option Bytes → Result ℕ
  pub hmac : Bytes → Bytes → Bytes

-- an error with more text before it
abbrev wrap : {A : Type 0} → Bytes → Result A → Result A
wrap prefix (ok a) = ok a
wrap prefix (err e) = err (prefix ++ e)

unfoldable pub signature_of : Client → Bytes → Result Pairing → Option Bytes
signature_of c payload (err e) = none
signature_of c payload (ok p) =
    if is_empty p.webhook_secret then none else some (c.hmac p.webhook_secret payload)

unfoldable pub answered : Result ℕ → Result (Unit {0})
unfolding decimal
answered (err e) = err (lit "webhook request failed: " ++ e)
answered (ok status) =
    if ltb status 200 || leb 300 status
    then err (lit "webhook returned non-success status code: " ++ decimal status)
    else ok tt

module _ ⦃j : Json⦄ where
  abbrev pub post_signed : Client → MediaEvent → Bytes → Exec (Unit {0})
  post_signed c e payload = attempt (get_pairing (route_of e)) >>= λ p.
      lift (answered (c.post e.target_id payload (signature_of c payload p)))

  unfoldable pub send : Client → MediaEvent → Exec (Unit {0})
  unfolding get_pairing signature_of answered
  send c e =
      lift (wrap (lit "failed to marshal webhook payload: ") (j.encode_event e)) >>= λ payload.
      lift (wrap (lit "failed to create webhook request: ") (c.new_request e.target_id)) >>= λ x.
      post_signed c e payload

-- a response that counts as a delivery
abbrev pub IsSuccess : Result ℕ → Type 0
IsSuccess r = (status : ℕ) × ((r ≡ ok status) × ((200 ≤ status) × (status < 300)))

answered-IsSuccess : (r : Result ℕ) → answered r ≡ ok tt → IsSuccess r
unfolding answered
answered-IsSuccess (err e) h = ground arith
answered-IsSuccess (ok status) h = (status, (refl, ground arith))

module _ ⦃j : Json⦄ (c : Client) (e : MediaEvent) (s : Store) where
  delivered :
      (encoded : Result Bytes) (made : Result (Unit {0}))
      → ((lift (wrap (lit "failed to marshal webhook payload: ") encoded) >>= λ payload.
            lift (wrap (lit "failed to create webhook request: ") made) >>= λ x.
            post_signed c e payload)
          s).0
        ≡ ok tt
      → (payload : Bytes) × ((encoded ≡ ok payload)
          × IsSuccess
              (c.post e.target_id payload (signature_of c payload (get_pairing (route_of e) s).0)))
  delivered (err m) made h = ground arith
  delivered (ok payload) (err m) h = ground arith
  delivered (ok payload) (ok tt) h = (payload, (refl, answered-IsSuccess _ h))

  -- A delivery to a web hook that counts was signed: where Send succeeds and the pairing of the event
  -- can be read and has a secret, the JSON of the event was posted to the target with the HMAC of that
  -- JSON under that secret, and the response had a status from 200 to 299.
  pub send_signed :
      (p : Pairing)
      → (send c e s).0 ≡ ok tt
      → (get_pairing (route_of e) s).0 ≡ ok p
      → is_empty p.webhook_secret ≡ false
      → (payload : Bytes) × ((j.encode_event e ≡ ok payload)
          × IsSuccess (c.post e.target_id payload (some (c.hmac p.webhook_secret payload))))
  unfolding send signature_of
  send_signed p h k n =
      let (payload, (q, r)) = delivered (j.encode_event e) (c.new_request e.target_id) h in
      (payload, (q, rw (k, n) at (r)))
