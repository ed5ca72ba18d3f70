-- ===== src/Database/Blocklist/Added.antt =====
-- AddBlockedWordForAllTargets loses no word, and adds only its own.
use cross_platform_media_sha.Base.{
  ℕ, suc, ◌⊎◌, sym, Option-cases, ◌≡◌, inl, inr, ap, ◌∙◌, true, ◌&&◌, ◌||◌, List, [], ◌∷◌, arith,
  Bool-cases,
}
use cross_platform_media_sha.Text.{Bytes, Unicode, same, same_iff, same_refl, is_empty}
use cross_platform_media_sha.Models.{Route, same_route, same_route_iff}
use cross_platform_media_sha.Database.Table.{has-insert_new}
use cross_platform_media_sha.Database.Rows.{Db, blocked_eq, same_blocked}
use cross_platform_media_sha.Database.Store.{Store}
use cross_platform_media_sha.Database.Pending.{Json}
use cross_platform_media_sha.Database.Listings.{get_pairings_by_source}
use cross_platform_media_sha.Database.Frame.{
  IsFrame, Changes, Changes-pure, Changes-fail, Changes-bind, Changes-by_source,
}
use cross_platform_media_sha.Database.Pairings.{
  Pairing, blocked_row, normalize_blocked_word, add_blocked_word,
}
use cross_platform_media_sha.Database.Targets.{
  add_to_all, add_to_linked, add_blocked_word_for_all_targets,
}
use cross_platform_media_sha.Database.Blocklist.Calls.{view, is_from, OnlyAdds}

module _ ⦃u : Unicode⦄ (p i w : Bytes) where
  abbrev Extends : Db → Db → Type 0
  Extends d d' = OnlyAdds p i w (view d) (view d')

  Extends-frame : IsFrame Extends
  Extends-frame = record {
    same = λ d r v. ((λ h. h), λ h. inl h);
    chain = λ c d e h k r v. (
      (λ x. (k r v).0 ((h r v).0 x)),
      λ x. elim ((k r v).1 x) [ inl y ↦ (h r v).1 y | inr y ↦ inr y ],
    );
  }

  -- one target of the source
  added_view :
      (q : Route) (s : Store) (r : Route) (v : Bytes)
      → let d' = (add_blocked_word q w s).1.db in
        (view d' r v ≡ view s.db r v)
        ⊎ (view d' r v ≡ (view s.db r v || (same_route q r && same (normalize_blocked_word w) v)))
  unfolding add_blocked_word same_blocked
  added_view q s r v = elim (Bool-cases (is_empty (normalize_blocked_word w))) [
    | inl e ↦ inl (ground (arith, e))
    | inr e ↦ elim (Option-cases (s.env.fault s.step)) [
      | inr (m, f) ↦ inl (ground (arith, e, f))
      | inl f ↦ inr (
          ground (
            arith,
            e,
            f,
            has-insert_new blocked_row (record { route = r; word = v })
                (record { route = q; word = normalize_blocked_word w }) s.db.blocked_words,
          ))
    ]
  ]

  added-Extends : (q : Route) → is_from p i q ≡ true → Changes Extends (add_blocked_word q w)
  unfolding add_blocked_word
  added-Extends q h = record {
    within = λ s r v. elim (added_view q s r v) [
      | inl e ↦ ((λ x. e ∙ x), λ x. inl (sym e ∙ x))
      | inr e ↦ (
        (λ x. ground (arith, e, x)),
        λ x. elim (Bool-cases (view s.db r v)) [
          | inl y ↦ inl y
          | inr y ↦
              let here : q ≡ r = (same_route_iff q r).0 (ground (arith, e, x, y)) in
              let word : normalize_blocked_word w ≡ v =
                (same_iff (normalize_blocked_word w) v).0 (ground (arith, e, x, y)) in
              inr (ap (is_from p i) (sym here) ∙ h, sym word)
        ],
      )
    ];
    same_tx = λ s. ground arith;
  }

  add_to_all-Extends : (ps : List Pairing) (n : ℕ) → Changes Extends (add_to_all p i ps w n)
  unfolding add_to_all
  add_to_all-Extends [] n = Changes-pure Extends-frame n
  add_to_all-Extends (q ∷ ps) n =
      let r : Route = record q.route { source_platform = p; source_id = i } in
      Changes-bind Extends-frame (add_blocked_word r w) (λ _. add_to_all p i ps w (suc n))
        (added-Extends r (ground (arith, same_refl p, same_refl i)))
        λ x. add_to_all-Extends ps (suc n)

  linked-Extends : (ps : List Pairing) → Changes Extends (add_to_linked p i ps w)
  linked-Extends [] = Changes-fail Extends-frame _
  linked-Extends (q ∷ ps) = add_to_all-Extends (q ∷ ps) 0

  pub all-Extends : ⦃j : Json⦄ → Changes Extends (add_blocked_word_for_all_targets p i w)
  unfolding add_blocked_word_for_all_targets
  all-Extends =
      Changes-bind Extends-frame (get_pairings_by_source p i) (λ ps. add_to_linked p i ps w)
        (Changes-by_source Extends-frame p i) linked-Extends
