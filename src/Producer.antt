-- ===== src/Producer.antt =====
-- What the producers of internal/telegram and internal/discord do alike: the rules that a message
-- must pass for a pairing, and the way of an event into the queue. The two packages hold the same
-- code twice.
use cross_platform_media_sha.Base.{
  ℕ, suc, ◌≡◌, Bool, true, false, not, Option, none, some, List, [], ◌∷◌, ◌++◌, if◌then◌else◌, ◌==◌,
}
use cross_platform_media_sha.Text.{Bytes, Unicode, lit, decimal}
use cross_platform_media_sha.Models.{MediaEvent, RuleConfig}
use cross_platform_media_sha.Database.Store.{Result, ok, err, Store, Exec, time_now, unix}
use cross_platform_media_sha.Database.Pending.{Json, enqueue_pending_event}
use cross_platform_media_sha.Database.Pairings.{Pairing, insert_event_history}
use cross_platform_media_sha.Security.RateLimit.{Buckets}
use cross_platform_media_sha.Rules.Filter.{Regex, evaluate_filter_rule}
use cross_platform_media_sha.Rules.Tags.{evaluate_tag_rule}
use cross_platform_media_sha.Rules.Spam.{Bursts, evaluate_spam_rule}
use cross_platform_media_sha.Rules.Files.{evaluate_file_rule}
use cross_platform_media_sha.Rules.QuietHours.{evaluate_time_rule}
pub mod Sound

-- what a producer works on; `received_events_total` is the counter of internal/observability
pub record Intake : Type 0 where
  pub store : Store
  pub source_buckets : Buckets
  pub bursts : Bursts
  pub received_events_total : ℕ

-- an HTTP GET: the status and the body, or the error of either; and the hexadecimal SHA-256
pub record Remote : Type 0 where
  pub get_url : Bytes → Result (ℕ × Result Bytes)
  pub sha256_hex : Bytes → Bytes

-- a call whose error is dropped
abbrev pub ignore : {A : Type 0} → Exec A → Intake → Intake
ignore m w = record w { store = (m w.store).1 }

abbrev pub history : Bytes → Bytes → Bytes → Intake → Intake
history event_id status details = ignore (insert_event_history event_id status details)

abbrev pub now_of : Intake → ℕ
now_of w = w.store.env.clock w.store.step

abbrev hash_of : Result Bytes → Remote → Result Bytes
hash_of (ok body) http = ok (http.sha256_hex body)
hash_of (err e) http = err e

abbrev hash_response : Result (ℕ × Result Bytes) → Remote → Result Bytes
hash_response (err e) http = err e
hash_response (ok (status, body)) http =
    if status == 200
    then hash_of body http
    else err (lit "unexpected status code when hashing file: " ++ decimal status)

unfoldable pub compute_remote_file_hash : Remote → Bytes → Result Bytes
compute_remote_file_hash http url = hash_response (http.get_url url) http

-- the hash, or nothing where it could not be computed
abbrev pub hash_or_none : Result Bytes → Bytes
hash_or_none (ok h) = h
hash_or_none (err e) = []

-- the verdict on a message that a rule blocks: in simulation mode it is noted and let through
abbrev pub blocked : Bytes → Bytes → Bool → Intake → Bool × Intake
blocked event_id reason true w = (true, history event_id (lit "simulated_filter") reason w)
blocked event_id reason false w = (false, w)

-- what the rules are asked about
pub record Subject : Type 0 where
  pub caption : Bytes
  pub sender_id : Bytes
  pub source_id : Bytes
  pub file_size : ℕ
  pub content_type : Bytes

module _ ⦃u : Unicode⦄ ⦃r : Regex⦄ where
  unfoldable pub evaluate_file_step : RuleConfig → Bytes → Subject → Intake → Bool × Intake
  unfolding evaluate_file_rule
  evaluate_file_step rules event_id x w =
      if not (evaluate_file_rule rules x.file_size x.content_type)
      then blocked event_id (lit "file rule blocked") rules.simulation_mode w
      else (true, w)

  -- the spam rule counts the message, and reads the clock
  unfoldable pub evaluate_spam_step : RuleConfig → Bytes → Bytes → Subject → Intake → Bool × Intake
  unfolding evaluate_file_step evaluate_spam_rule
  evaluate_spam_step rules event_id target_id x w =
      let verdict = evaluate_spam_rule rules x.source_id target_id (now_of w) w.bursts in
      let counted : Intake = record w { bursts = verdict.1; store = (time_now w.store).1 } in
      if not verdict.0
      then blocked event_id (lit "spam rule blocked") rules.simulation_mode counted
      else evaluate_file_step rules event_id x counted

  -- the chain of rules for one pairing
  unfoldable pub evaluate_pairing : RuleConfig → Bytes → Bytes → Subject → Intake → Bool × Intake
  unfolding evaluate_spam_step evaluate_filter_rule evaluate_tag_rule
  evaluate_pairing rules event_id target_id x w =
      if not (evaluate_filter_rule rules x.caption x.sender_id)
      then blocked event_id (lit "filter rule blocked") rules.simulation_mode w
      else if not (evaluate_tag_rule rules x.caption)
      then blocked event_id (lit "required tags missing") rules.simulation_mode w
      else evaluate_spam_step rules event_id target_id x w

  -- the loop that collects the pairings that the message is for; `event_id` is made from the target
  unfoldable pub valid_pairings :
      (Bytes → Bytes) → List Pairing → Subject → Intake → List Pairing × Intake
  unfolding evaluate_pairing
  valid_pairings event_id [] x w = ([], w)
  valid_pairings event_id (p ∷ ps) x w =
      let target = p.route.target_id in
      let (passed, w') = evaluate_pairing p.rule_config (event_id target) target x w in
      let (rest, w'') = valid_pairings event_id ps x w' in (if passed then p ∷ rest else rest, w'')

-- how the two producers note what the queue has answered
pub record Notes : Type 0 where
  pub accepted : Bytes
  pub duplicate : Bytes
  -- whether an error of the queue is noted as a duplicate
  pub notes_errors : Bool

unfoldable pub note_enqueued : Notes → Bytes → Result Bool → Intake → Intake
note_enqueued n event_id (ok true) w =
    history event_id (lit "enqueued") n.accepted
      (record w { received_events_total = suc w.received_events_total })
note_enqueued n event_id (ok false) w = history event_id (lit "skipped") n.duplicate w
note_enqueued n event_id (err e) w =
    if n.notes_errors then history event_id (lit "skipped") n.duplicate w else w

-- when the event is due: the clock is read, and the quiet hours may put it off
unfoldable pub due_time : RuleConfig → Intake → ℕ
unfolding evaluate_time_rule
due_time rules w = unix (evaluate_time_rule rules (now_of w)).0

module _ ⦃j : Json⦄ where
  unfoldable pub enqueue_event : Notes → MediaEvent → Intake → Intake
  unfolding enqueue_pending_event note_enqueued
  enqueue_event n e w =
      let (answer, s) = enqueue_pending_event e w.store in
      note_enqueued n e.event_id answer (record w { store = s })

  -- the loop over the valid pairings; `event_for` makes the event of a pairing and its time
  unfoldable pub enqueue_all : Notes → (Pairing → ℕ → MediaEvent) → List Pairing → Intake → Intake
  unfolding enqueue_event due_time
  enqueue_all n event_for [] w = w
  enqueue_all n event_for (p ∷ ps) w =
      let e = event_for p (due_time p.rule_config w) in
      enqueue_all n event_for ps (enqueue_event n e (ignore time_now w))
