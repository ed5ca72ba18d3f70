-- ===== src/Database/Frame.antt =====
-- What an action on the store may change: a frame rule for each way to build an action, and the
-- frames of the queries.
use cross_platform_media_sha.Base.{
  ◌≡◌, ◌≤◌, refl, ◌∙◌, arith, Bool, true, false, List, [], ◌∷◌, if◌then◌else◌,
}
use cross_platform_media_sha.Text.{Bytes}
use cross_platform_media_sha.Database.Rows.{Db, PairingRow}
use cross_platform_media_sha.Database.Store.{
  Store, Exec, Result, ok, err, pure, fail, ◌>>=◌, ◌>>◌, query, time_now,
}
use cross_platform_media_sha.Database.Pending.{Json}
use cross_platform_media_sha.Database.Pairings.{get_blocked_words, scan_pairings}
use cross_platform_media_sha.Database.Export.{attempt}
use cross_platform_media_sha.Database.Listings.{get_pairings_by_source, get_pairings_by_target}
use cross_platform_media_sha.Models.{route_eq}

-- A relation between the contents before and after that holds of chains of steps.
pub record IsFrame (R : Db → Db → Type 0) : Type 0 where
  pub same : (d : Db) → R d d
  pub chain : (c d e : Db) → R c d → R d e → R c e

-- `m` changes the contents by `R` only, and leaves the transaction as it is
pub record Changes {A : Type 0} (R : Db → Db → Type 0) (m : Exec A) : Type 0 where
  pub within : (s : Store) → R s.db (m s).1.db
  pub same_tx : (s : Store) → (m s).1.tx ≡ s.tx

module _ {A : Type 0} {R : Db → Db → Type 0} (o : IsFrame R) where
  pub Changes-pure : (a : A) → Changes R (pure a)
  Changes-pure a = record { within = λ s. o.same s.db; same_tx = λ s. refl }

  pub Changes-fail : (e : Bytes) → Changes R (fail {A = A} e)
  Changes-fail e = record { within = λ s. o.same s.db; same_tx = λ s. refl }

  pub Changes-query : (f : Db → A) → Changes R (query f)
  Changes-query f = record {
    within = λ s. let e : (query f s).1.db ≡ s.db = ground arith in rw e (o.same s.db);
    same_tx = λ s. ground arith;
  }

module _ {A : Type 0} {R : Db → Db → Type 0} where
  pub Changes-attempt : (m : Exec A) → Changes R m → Changes R (attempt m)
  Changes-attempt m h = record { within = h.within; same_tx = h.same_tx }

  pub Changes-if :
      (b : Bool) (m n : Exec A) → Changes R m → Changes R n → Changes R (if b then m else n)
  Changes-if true m n h k = h
  Changes-if false m n h k = k

  -- with what the test says
  pub Changes-when :
      (b : Bool) (m n : Exec A)
      → (b ≡ true → Changes R m)
      → Changes R n
      → Changes R (if b then m else n)
  Changes-when true m n h k = h refl
  Changes-when false m n h k = k

pub Changes-time_now : {R : Db → Db → Type 0} → IsFrame R → Changes R time_now
Changes-time_now o = record { within = λ s. o.same s.db; same_tx = λ s. refl }

module _ {A B : Type 0} {R : Db → Db → Type 0} (o : IsFrame R) where
  after_within :
      (f : A → Exec B) (p : Result A × Store)
      → ((a : A) → Changes R (f a))
      → R p.1.db (((λ _. p) >>= f) p.1).1.db
  after_within f (ok a, s) h = (h a).within s
  after_within f (err e, s) h = o.same s.db

  after_tx :
      (f : A → Exec B) (p : Result A × Store)
      → ((a : A) → Changes R (f a))
      → (((λ _. p) >>= f) p.1).1.tx ≡ p.1.tx
  after_tx f (ok a, s) h = (h a).same_tx s
  after_tx f (err e, s) h = refl

  pub Changes-bind :
      (m : Exec A) (f : A → Exec B)
      → Changes R m
      → ((a : A) → Changes R (f a))
      → Changes R (m >>= f)
  Changes-bind m f h k = record {
    within = λ s. o.chain s.db (m s).1.db ((m >>= f) s).1.db (h.within s) (after_within f (m s) k);
    same_tx = λ s. after_tx f (m s) k ∙ h.same_tx s;
  }

module _ {A B : Type 0} {R : Db → Db → Type 0} (o : IsFrame R) where
  -- a call whose answer chooses what follows
  pub Changes-ask :
      (m : Exec A) (f : Result A → Exec B)
      → Changes R m
      → ((r : Result A) → Changes R (f r))
      → Changes R (attempt m >>= f)
  Changes-ask m f h k = Changes-bind o (attempt m) f (Changes-attempt m h) k

  -- a call whose answer is dropped
  pub Changes-then :
      (m : Exec A) (n : Exec B) → Changes R m → Changes R n → Changes R (attempt m >> n)
  Changes-then m n h k = Changes-ask m (λ _. n) h λ r. k

module _ ⦃j : Json⦄ {R : Db → Db → Type 0} (o : IsFrame R) where
  pub Changes-scan : (rows : List PairingRow) → Changes R (scan_pairings rows)
  unfolding scan_pairings get_blocked_words
  Changes-scan [] = Changes-pure o []
  Changes-scan (r ∷ rs) =
      Changes-bind o (get_blocked_words r.route) _ (Changes-query o _)
        λ words. Changes-bind o (scan_pairings rs) _ (Changes-scan rs) λ rest. Changes-pure o _

  pub Changes-by_source : (platform id : Bytes) → Changes R (get_pairings_by_source platform id)
  unfolding get_pairings_by_source
  Changes-by_source platform id = Changes-bind o _ scan_pairings (Changes-query o _) Changes-scan

  pub Changes-by_target : (platform id : Bytes) → Changes R (get_pairings_by_target platform id)
  unfolding get_pairings_by_target
  Changes-by_target platform id = Changes-bind o _ scan_pairings (Changes-query o _) Changes-scan

-- the frame of the actions that change nothing
abbrev pub Unchanged : Db → Db → Type 0
Unchanged d d' = d' ≡ d

pub Unchanged-frame : IsFrame Unchanged
Unchanged-frame = record { same = λ d. refl; chain = λ c d e h k. k ∙ h }

-- The tables of the queue are as they were; numbers of the sequence may have been used.
pub record SparesQueue (d d' : Db) : Type 0 where
  pub pending : d'.pending_events ≡ d.pending_events
  pub processed : d'.processed_events ≡ d.processed_events
  pub dedupe : d'.media_dedupe ≡ d.media_dedupe
  pub letters : d'.dead_letters ≡ d.dead_letters
  pub numbers : d.next_id ≤ d'.next_id

pub SparesQueue-frame : IsFrame SparesQueue
SparesQueue-frame = record {
  same = λ d. record {
    pending = refl;
    processed = refl;
    dedupe = refl;
    letters = refl;
    numbers = omega arith;
  };
  chain = λ c d e h k. record {
    pending = k.pending ∙ h.pending;
    processed = k.processed ∙ h.processed;
    dedupe = k.dedupe ∙ h.dedupe;
    letters = k.letters ∙ h.letters;
    numbers = omega (arith, h.numbers, k.numbers);
  };
}
