-- ===== src/Producer/Sound.antt =====
-- The producers keep what the queue's calls keep: the queue's invariant.
use cross_platform_media_sha.Base.{
  ℕ, suc, ◌≡◌, ◌<◌, ◌≤◌, ◌∙◌, Option, none, some, Bool, true, false, List, [], ◌∷◌, arith, All,
  Bool-cases, inl, inr,
}
use cross_platform_media_sha.Text.{Bytes, Unicode, lit}
use cross_platform_media_sha.Models.{MediaEvent, RuleConfig}
use cross_platform_media_sha.Database.Rows.{Db, DeadLetterRow}
use cross_platform_media_sha.Database.Store.{Store, Result, ok, err, Exec, time_now}
use cross_platform_media_sha.Database.Pending.{Json, enqueue_pending_event}
use cross_platform_media_sha.Database.Pairings.{Pairing}
use cross_platform_media_sha.Database.Frame.{
  Changes, SparesQueue, SparesQueue-frame, Changes-time_now,
}
use cross_platform_media_sha.Database.Frames.{Spares-insert_event_history}
use cross_platform_media_sha.Database.Queue.Invariant.{IsSound}
use cross_platform_media_sha.Database.Queue.Run.{
  Call, perform, run, enqueue, perform_closes, perform-IsSound, state-error_of,
}
use cross_platform_media_sha.Database.Queue.Kept.{is_kept}
use cross_platform_media_sha.Database.Queue.Loss.{run_keeps}
use cross_platform_media_sha.Rules.Filter.{Regex, evaluate_filter_rule}
use cross_platform_media_sha.Rules.Tags.{evaluate_tag_rule}
use cross_platform_media_sha.Rules.Spam.{evaluate_spam_rule}
use cross_platform_media_sha.Rules.Files.{evaluate_file_rule}
use cross_platform_media_sha.Producer.{
  Intake, Subject, Notes, history, ignore, now_of, blocked, evaluate_file_step, evaluate_spam_step,
  evaluate_pairing, valid_pairings, note_enqueued, enqueue_event, enqueue_all, due_time,
}

-- a watched event is queued, processed or a dead letter
abbrev pub Held : Option Bytes → Db → Type 0
Held none d = Unit
Held (some k) d = is_kept k d ≡ true

-- Between two calls: no transaction is open, the queue is sound, and the event that is watched, if
-- there is one, is not lost.
pub record IsReady (watched : Option Bytes) (s : Store) : Type 0 where
  pub closed : s.tx ≡ none
  pub sound : IsSound s.db
  pub held : Held watched s.db

weaken_fresh :
    (m n : ℕ) (ls : List DeadLetterRow)
    → m ≤ n
    → All (λ l. l.dead_letter_id < m) ls
    → All (λ l. l.dead_letter_id < n) ls
weaken_fresh m n [] le h = tt
weaken_fresh m n (l ∷ ls) le h = (omega (arith, h.0), weaken_fresh m n ls le h.1)

-- What spares the queue keeps it sound.
SparesQueue-IsSound : (c d : Db) → SparesQueue c d → IsSound c → IsSound d
SparesQueue-IsSound c d k h = record {
  pending_unique = rw (k.pending) h.pending_unique;
  processed_unique = rw (k.processed) h.processed_unique;
  dedupe_unique = rw (k.dedupe) h.dedupe_unique;
  letters_unique = rw (k.letters) h.letters_unique;
  letters_fresh =
      rw (k.letters) (weaken_fresh c.next_id d.next_id c.dead_letters k.numbers h.letters_fresh);
  disjoint = rw (k.processed, k.pending) h.disjoint;
}

SparesQueue-Held :
    (watched : Option Bytes) (c d : Db) → SparesQueue c d → Held watched c → Held watched d
SparesQueue-Held none c d k h = tt
SparesQueue-Held (some id) c d k h = rw (k.pending, k.processed, k.letters) h

perform-Held :
    ⦃j : Json⦄ (watched : Option Bytes) (c : Call) (s : Store)
    → IsReady watched s
    → Held watched (perform c s).1.db
unfolding run
perform-Held none c s h = tt
perform-Held (some k) c s h = run_keeps k (c ∷ []) s h.closed h.sound h.held

-- A call of the queue keeps the store ready.
pub perform-IsReady :
    ⦃j : Json⦄ (watched : Option Bytes) (c : Call) (s : Store)
    → IsReady watched s
    → IsReady watched (perform c s).1
perform-IsReady watched c s h = record {
  closed = perform_closes c s h.closed;
  sound = perform-IsSound c s h.closed h.sound;
  held = perform-Held watched c s h;
}

-- An action that spares the queue keeps the store ready.
pub Changes-IsReady :
    {watched : Option Bytes} {A : Type 0} (m : Exec A)
    → Changes SparesQueue m
    → (s : Store) → IsReady watched s
    → IsReady watched (m s).1
Changes-IsReady {watched = watched} m k s h = record {
  closed = k.same_tx s ∙ h.closed;
  sound = SparesQueue-IsSound s.db (m s).1.db (k.within s) h.sound;
  held = SparesQueue-Held watched s.db (m s).1.db (k.within s) h.held;
}

pub time_now-IsReady :
    {watched : Option Bytes} (s : Store) → IsReady watched s → IsReady watched (time_now s).1
time_now-IsReady s h = Changes-IsReady time_now (Changes-time_now SparesQueue-frame) s h

history-IsReady :
    {watched : Option Bytes} (id status details : Bytes) (w : Intake)
    → IsReady watched w.store
    → IsReady watched (history id status details w).store
history-IsReady id status details w h =
    Changes-IsReady _ (Spares-insert_event_history id status details) w.store h

pub blocked-IsReady :
    {watched : Option Bytes} (id reason : Bytes) (simulated : Bool) (w : Intake)
    → IsReady watched w.store
    → IsReady watched (blocked id reason simulated w).1.store
blocked-IsReady id reason true w h = history-IsReady id (lit "simulated_filter") reason w h
blocked-IsReady id reason false w h = h

module _ {watched : Option Bytes} ⦃u : Unicode⦄ ⦃r : Regex⦄ where
  evaluate_file_step-IsReady :
      (c : RuleConfig) (id : Bytes) (x : Subject) (w : Intake)
      → IsReady watched w.store
      → IsReady watched (evaluate_file_step c id x w).1.store
  unfolding evaluate_file_step
  evaluate_file_step-IsReady c id x w h =
      elim (Bool-cases (evaluate_file_rule c x.file_size x.content_type)) [
        | inl e ↦ rw e h
        | inr e ↦ rw e (blocked-IsReady id (lit "file rule blocked") c.simulation_mode w h)
      ]

  evaluate_spam_step-IsReady :
      (c : RuleConfig) (id target : Bytes) (x : Subject) (w : Intake)
      → IsReady watched w.store
      → IsReady watched (evaluate_spam_step c id target x w).1.store
  unfolding evaluate_spam_step
  evaluate_spam_step-IsReady c id target x w h =
      let verdict = evaluate_spam_rule c x.source_id target (now_of w) w.bursts in
      let counted : Intake = record w { bursts = verdict.1; store = (time_now w.store).1 } in
      let h' : IsReady watched counted.store = time_now-IsReady w.store h in
      elim (Bool-cases verdict.0) [
        | inl e ↦ rw e (evaluate_file_step-IsReady c id x counted h')
        | inr e ↦ rw e (blocked-IsReady id (lit "spam rule blocked") c.simulation_mode counted h')
      ]

  evaluate_pairing-IsReady :
      (c : RuleConfig) (id target : Bytes) (x : Subject) (w : Intake)
      → IsReady watched w.store
      → IsReady watched (evaluate_pairing c id target x w).1.store
  unfolding evaluate_pairing
  evaluate_pairing-IsReady c id target x w h =
      elim (Bool-cases (evaluate_filter_rule c x.caption x.sender_id)) [
        | inr e ↦ rw e (blocked-IsReady id (lit "filter rule blocked") c.simulation_mode w h)
        | inl e ↦ rw e (elim (Bool-cases (evaluate_tag_rule c x.caption)) [
          | inl t ↦ rw t (evaluate_spam_step-IsReady c id target x w h)
          | inr t ↦ rw t (blocked-IsReady id (lit "required tags missing") c.simulation_mode w h)
        ])
      ]

  pub valid_pairings-IsReady :
      (event_id : Bytes → Bytes) (ps : List Pairing) (x : Subject) (w : Intake)
      → IsReady watched w.store
      → IsReady watched (valid_pairings event_id ps x w).1.store
  unfolding valid_pairings
  valid_pairings-IsReady event_id [] x w h = h
  valid_pairings-IsReady event_id (p ∷ ps) x w h =
      let id = event_id p.route.target_id in
      valid_pairings-IsReady event_id ps x
        (evaluate_pairing p.rule_config id p.route.target_id x w).1
        (evaluate_pairing-IsReady p.rule_config id p.route.target_id x w h)

note_enqueued-IsReady :
    {watched : Option Bytes} (n : Notes) (id : Bytes) (r : Result Bool) (w : Intake)
    → IsReady watched w.store
    → IsReady watched (note_enqueued n id r w).store
unfolding note_enqueued
note_enqueued-IsReady n id (ok true) w h =
    history-IsReady id (lit "enqueued") n.accepted
      (record w { received_events_total = suc w.received_events_total }) h
note_enqueued-IsReady n id (ok false) w h = history-IsReady id (lit "skipped") n.duplicate w h
note_enqueued-IsReady n id (err e) w h = elim (Bool-cases n.notes_errors) [
  | inl q ↦ rw q (history-IsReady id (lit "skipped") n.duplicate w h)
  | inr q ↦ rw q h
]

module _ {watched : Option Bytes} ⦃j : Json⦄ where
  enqueue-IsReady :
      (e : MediaEvent) (s : Store)
      → IsReady watched s
      → IsReady watched (enqueue_pending_event e s).1
  unfolding perform
  enqueue-IsReady e s h =
      let same : (perform (enqueue e) s).1 ≡ (enqueue_pending_event e s).1 =
        state-error_of (enqueue_pending_event e s) in
      rw same at (perform-IsReady watched (enqueue e) s h)

  pub enqueue_event-IsReady :
      (n : Notes) (e : MediaEvent) (w : Intake)
      → IsReady watched w.store
      → IsReady watched (enqueue_event n e w).store
  unfolding enqueue_event
  enqueue_event-IsReady n e w h =
      note_enqueued-IsReady n e.event_id (enqueue_pending_event e w.store).0
        (record w { store = (enqueue_pending_event e w.store).1 }) (enqueue-IsReady e w.store h)

  pub enqueue_all-IsReady :
      (n : Notes) (event_for : Pairing → ℕ → MediaEvent) (ps : List Pairing) (w : Intake)
      → IsReady watched w.store
      → IsReady watched (enqueue_all n event_for ps w).store
  unfolding enqueue_all
  enqueue_all-IsReady n event_for [] w h = h
  enqueue_all-IsReady n event_for (p ∷ ps) w h =
      let e = event_for p (due_time p.rule_config w) in
      enqueue_all-IsReady n event_for ps (enqueue_event n e (ignore time_now w))
        (enqueue_event-IsReady n e (ignore time_now w) (time_now-IsReady w.store h))
