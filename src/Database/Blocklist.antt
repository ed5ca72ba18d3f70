-- ===== src/Database/Blocklist.antt =====
-- The blocked words as a set: for each route and word, whether the word is blocked there. The calls
-- that change the table are changes of that set.
use mathlib.Core.Path.{subst, fun_ext}
use cross_platform_media_sha.Base.{
  sym, ◌≡◌, inl, inr, refl, ap, ◌∙◌, Bool, true, false, not, ◌&&◌, List, [], ◌∷◌, arith,
  if◌then◌else◌, Bool-cases,
}
use cross_platform_media_sha.Text.{Bytes, Unicode, same}
use cross_platform_media_sha.Models.{Route, same_route}
use cross_platform_media_sha.Database.Table.{delete, count, has, at, has-insert_new}
use cross_platform_media_sha.Database.Rows.{BlockedRow, blocked_eq, same_blocked, same_blocked_iff}
use cross_platform_media_sha.Database.Store.{Store, Result, ok, err}
use cross_platform_media_sha.Database.Pending.{Json}
use cross_platform_media_sha.Database.Frame.{Changes}
use cross_platform_media_sha.Database.Pairings.{
  blocked_row, normalize_blocked_word, add_blocked_word, remove_blocked_word, clear_blocked_words,
}
use cross_platform_media_sha.Database.Targets.{
  add_blocked_word_for_all_targets, remove_blocked_word_from_all_targets,
  clear_blocked_words_for_all_targets,
}
use cross_platform_media_sha.Database.Blocklist.Added.{all-Extends}
use cross_platform_media_sha.Database.Blocklist.Calls.{
  Blocklist, view, WordCall, add, remove, clear, remove_all, clear_all, add_all, forget_result,
  is_from, perform_word, OnlyAdds, specified, IsSpecified,
}
pub mod Calls
pub mod Added

-- what a DELETE leaves of a table whose rows are their own keys
has-delete_where :
    (p : BlockedRow → Bool) (b : BlockedRow) (rows : List BlockedRow)
    → has blocked_row b (delete p rows) ≡ (has blocked_row b rows && not (p b))
unfolding has delete
has-delete_where p b [] = refl
has-delete_where p b (r ∷ rows) = elim (Bool-cases (same_blocked r b)) [
  | inl e ↦
      let here : r ≡ b = (same_blocked_iff r b).0 e in
      let agree : p r ≡ p b = ap p here in ground (arith, e, agree, has-delete_where p b rows)
  | inr e ↦ ground (arith, e, has-delete_where p b rows)
]

has-clear_all_none :
    (p : BlockedRow → Bool) (b : BlockedRow) (rows : List BlockedRow)
    → count p rows ≡ 0
    → (has blocked_row b rows && p b) ≡ false
unfolding has count
has-clear_all_none p b [] h = refl
has-clear_all_none p b (r ∷ rows) h = elim (Bool-cases (same_blocked r b)) [
  | inl e ↦
      let agree : p r ≡ p b = ap p ((same_blocked_iff r b).0 e) in
      ground (arith, e, agree, has-clear_all_none p b rows, h)
  | inr e ↦ ground (arith, e, has-clear_all_none p b rows, h)
]

module _ ⦃j : Json⦄ ⦃u : Unicode⦄ (s : Store) (r : Route) (w : Bytes) where
  abbrev row : BlockedRow
  row = record { route = r; word = w }

  add_refines :
      (r' : Route) (w' : Bytes)
      → view (perform_word (add r' w') s).1.db r w ≡ (
          if (perform_word (add r' w') s).0
          then specified (add r' w') (view s.db) r w
          else view s.db r w)
  unfolding perform_word add_blocked_word same_blocked
  add_refines r' w' = ground (
    arith,
    has-insert_new blocked_row row (record { route = r'; word = normalize_blocked_word w' })
        s.db.blocked_words,
  )

  remove_refines :
      (r' : Route) (w' : Bytes)
      → view (perform_word (remove r' w') s).1.db r w ≡ (
          if (perform_word (remove r' w') s).0
          then specified (remove r' w') (view s.db) r w
          else view s.db r w)
  unfolding perform_word remove_blocked_word same_blocked
  remove_refines r' w' = ground (
    arith,
    has-delete_where (at blocked_row (record { route = r'; word = normalize_blocked_word w' })) row
        s.db.blocked_words,
  )

  clear_refines :
      (r' : Route)
      → view (perform_word (clear r') s).1.db r w ≡ (
          if (perform_word (clear r') s).0
          then specified (clear r') (view s.db) r w
          else view s.db r w)
  unfolding perform_word clear_blocked_words
  clear_refines r' =
      ground
        (arith, has-delete_where (λ (b : BlockedRow). same_route b.route r') row s.db.blocked_words)

  remove_all_refines :
      (p i w' : Bytes)
      → view (perform_word (remove_all p i w') s).1.db r w ≡ (
          if (perform_word (remove_all p i w') s).0
          then specified (remove_all p i w') (view s.db) r w
          else view s.db r w)
  unfolding perform_word remove_blocked_word_from_all_targets
  remove_all_refines p i w' = ground (
    arith,
    has-delete_where
        (λ (b : BlockedRow). is_from p i b.route && same b.word (normalize_blocked_word w')) row
        s.db.blocked_words,
  )

  clear_all_refines :
      (p i : Bytes)
      → view (perform_word (clear_all p i) s).1.db r w ≡ (
          if (perform_word (clear_all p i) s).0
          then specified (clear_all p i) (view s.db) r w
          else view s.db r w)
  unfolding perform_word clear_blocked_words_for_all_targets
  clear_all_refines p i = ground (
    arith,
    has-delete_where (λ (b : BlockedRow). is_from p i b.route) row s.db.blocked_words,
    has-clear_all_none (λ (b : BlockedRow). is_from p i b.route) row s.db.blocked_words,
  )

if-apply :
    (t : Bool) (f g : Blocklist) (r : Route) (w : Bytes)
    → (if t then f r w else g r w) ≡ (if t then f else g) r w
if-apply true f g r w = refl
if-apply false f g r w = refl

-- what holds of each route and word holds of the sets
pointwise :
    (t : Bool) (f g h : Blocklist)
    → ((r : Route) (w : Bytes) → h r w ≡ (if t then f r w else g r w))
    → h ≡ (if t then f else g)
pointwise t f g h k = fun_ext λ r. fun_ext λ w. k r w ∙ if-apply t f g r w

forget-db : {A : Type 0} (r : Result A × Store) → (forget_result r).1.db ≡ r.1.db
forget-db (ok a, s) = refl
forget-db (err e, s) = refl

performed-all :
    ⦃j : Json⦄ ⦃u : Unicode⦄ (p i w : Bytes) (s : Store)
    → (perform_word (add_all p i w) s).1.db ≡ (add_blocked_word_for_all_targets p i w s).1.db
unfolding perform_word
performed-all p i w s = forget-db (add_blocked_word_for_all_targets p i w s)

-- The table of blocked words refines a set of words for each route. Each of the calls that add,
-- remove or clear the words of one target, or remove or clear those of all targets of a source,
-- changes the set as specified where it succeeds, and leaves it as it was where it fails. The call
-- that adds a word for all targets of a source loses no word and adds none but that one for targets
-- of the source, also where it fails between two targets.
pub perform_word-refines :
    ⦃j : Json⦄ ⦃u : Unicode⦄ (c : WordCall) (s : Store)
    → IsSpecified c (perform_word c s).0 (view s.db) (view (perform_word c s).1.db)
perform_word-refines (add q v) s =
    pointwise (perform_word (add q v) s).0 (specified (add q v) (view s.db)) (view s.db)
      (view (perform_word (add q v) s).1.db) (λ r w. add_refines s r w q v)
perform_word-refines (remove q v) s =
    pointwise (perform_word (remove q v) s).0 (specified (remove q v) (view s.db)) (view s.db)
      (view (perform_word (remove q v) s).1.db) (λ r w. remove_refines s r w q v)
perform_word-refines (clear q) s =
    pointwise (perform_word (clear q) s).0 (specified (clear q) (view s.db)) (view s.db)
      (view (perform_word (clear q) s).1.db) (λ r w. clear_refines s r w q)
perform_word-refines (remove_all p i v) s =
    pointwise (perform_word (remove_all p i v) s).0 (specified (remove_all p i v) (view s.db))
      (view s.db) (view (perform_word (remove_all p i v) s).1.db)
      (λ r w. remove_all_refines s r w p i v)
perform_word-refines (clear_all p i) s =
    pointwise (perform_word (clear_all p i) s).0 (specified (clear_all p i) (view s.db)) (view s.db)
      (view (perform_word (clear_all p i) s).1.db) (λ r w. clear_all_refines s r w p i)
perform_word-refines (add_all p i v) s =
    subst (λ d. OnlyAdds p i v (view s.db) (view d)) (sym (performed-all p i v s))
      (Changes.within (all-Extends p i v) s)
