-- ===== src/Database/Retention.antt =====
-- internal/database/retention.go: old rows are deleted in batches.
use cross_platform_media_sha.Base.{
  ℕ, zero, suc, ◌≡◌, ◌≤◌, ◌<◌, refl, Bool, true, false, List, [], ◌∷◌, arith, length, ◌==◌,
  if◌then◌else◌, Option, none, some, Bool-cases, inl, inr, ◌∙◌,
}
use cross_platform_media_sha.Database.Table.{delete}

module _ {A : Type 0} where
  -- DELETE … WHERE rowid IN (SELECT rowid … WHERE old LIMIT ?)
  unfoldable pub delete_batch : (A → Bool) → ℕ → List A → List A
  delete_batch old zero rows = rows
  delete_batch old (suc n) [] = []
  delete_batch old (suc n) (r ∷ rs) = elim (old r) [
    | true ↦ delete_batch old n rs
    | false ↦ r ∷ delete_batch old (suc n) rs
  ]

  -- The loop of `cleanupTable`, one statement for each step, until the driver refuses one or no row
  -- is affected. `none` means that the fuel ran out.
  unfoldable pub cleanup_table : (ℕ → Bool) → ℕ → ℕ → (A → Bool) → ℕ → List A → Option (List A)
  unfolding delete_batch
  cleanup_table refused zero step old batch rows = none
  cleanup_table refused (suc fuel) step old batch rows =
      let rest = delete_batch old batch rows in
      let again = cleanup_table refused fuel (suc step) old batch rest in
      if refused step then some rows else if length rest == length rows then some rest else again

  length-delete_batch :
      (old : A → Bool) (n : ℕ) (rows : List A) → length (delete_batch old n rows) ≤ length rows
  unfolding delete_batch
  length-delete_batch old zero rows = omega arith
  length-delete_batch old (suc n) [] = omega arith
  length-delete_batch old (suc n) (r ∷ rs) =
      ground (arith, length-delete_batch old n rs, length-delete_batch old (suc n) rs)

  -- a batch that deletes nothing found nothing old
  batch_of_none :
      (old : A → Bool) (n : ℕ) (rows : List A)
      → length (delete_batch old (suc n) rows) ≡ length rows
      → delete_batch old (suc n) rows ≡ delete old rows
  unfolding delete_batch delete
  batch_of_none old n [] h = refl
  batch_of_none old n (r ∷ rs) h =
      ground (arith, batch_of_none old n rs, length-delete_batch old n rs)

  -- batches delete only what is old
  delete-delete_batch :
      (old : A → Bool) (n : ℕ) (rows : List A)
      → delete old (delete_batch old n rows) ≡ delete old rows
  unfolding delete_batch delete
  delete-delete_batch old zero rows = refl
  delete-delete_batch old (suc n) [] = refl
  delete-delete_batch old (suc n) (r ∷ rs) =
      ground (arith, delete-delete_batch old n rs, delete-delete_batch old (suc n) rs)

  -- With a batch of at least one row and more fuel than there are rows the loop ends, whatever is
  -- refused, and has deleted old rows only.
  pub cleanup_table_ends :
      (refused : ℕ → Bool) (fuel step : ℕ) (old : A → Bool) (n : ℕ) (rows : List A)
      → length rows < fuel
      → (rest : List A) × (cleanup_table refused fuel step old (suc n) rows ≡ some rest)
        × (delete old rest ≡ delete old rows)
  unfolding cleanup_table
  cleanup_table_ends refused zero step old n rows h = absurd (omega arith)
  cleanup_table_ends refused (suc fuel) step old n rows h = elim (Bool-cases (refused step)) [
    | inl r ↦ (rows, ground arith, refl)
    | inr r ↦ elim (Bool-cases (length (delete_batch old (suc n) rows) == length rows)) [
      | inl e ↦ (delete_batch old (suc n) rows, ground arith, delete-delete_batch old (suc n) rows)
      | inr e ↦
          let (rest, p, q) =
            cleanup_table_ends refused fuel (suc step) old n (delete_batch old (suc n) rows)
              (ground (arith, length-delete_batch old (suc n) rows)) in
          (rest, ground (arith, p), q ∙ delete-delete_batch old (suc n) rows)
    ]
  ]

  -- If the driver refuses nothing, what is left is the table without its old rows.
  pub cleanup_table_lem :
      (fuel step : ℕ) (old : A → Bool) (n : ℕ) (rows : List A)
      → length rows < fuel
      → cleanup_table (λ _. false) fuel step old (suc n) rows ≡ some (delete old rows)
  unfolding cleanup_table
  cleanup_table_lem zero step old n rows h = absurd (omega arith)
  cleanup_table_lem (suc fuel) step old n rows h = ground (
    arith,
    length-delete_batch old (suc n) rows,
    batch_of_none old n rows,
    delete-delete_batch old (suc n) rows,
    cleanup_table_lem fuel (suc step) old n (delete_batch old (suc n) rows),
  )
