-- ===== src/Database/Migrations/Keeping.antt =====
-- Scripts that keep the data, whatever file they run on: a rule for each way to build one.
use cross_platform_media_sha.Base.{refl, Bool, true, false, Option, if◌then◌else◌}
use cross_platform_media_sha.Text.{Unicode}
use cross_platform_media_sha.Database.Migrations.Legacy.{Interruption}
use cross_platform_media_sha.Database.Migrations.Catalog.{
  Catalog, Outcome, done, refused, TableName, IndexName, create_index_if_absent, create_index,
  present, is_some,
}
use cross_platform_media_sha.Database.Migrations.Script.{
  Script, meaning, ◌>>=◌, ◌>>◌, sql, after, meaning->>=,
}
use cross_platform_media_sha.Database.Migrations.Data.{KeepsData, KeepsData-trans, tables-KeepsData}

module _ ⦃u : Unicode⦄ ⦃cut : Interruption⦄ where
  -- where the statement or script is taken, it has kept the data
  abbrev pub KeepsInto : {A : Type 0} → Catalog → Outcome A → Type 0
  KeepsInto c (done a d) = KeepsData c d
  KeepsInto c (refused p) = Unit

  -- a script that keeps the data of any file that takes it
  pub record IsKept {A : Type 0} (p : Script A) : Type 0 where
    pub kept : (c : Catalog) → KeepsInto c (meaning p c)

  after-IsKept :
      {A B : Type 0} (g : A → Script B) (h : (a : A) → IsKept (g a)) (c : Catalog) (o : Outcome A)
      → KeepsInto c o
      → KeepsInto c (after o g)
  after-IsKept g h c (refused p) k = tt
  after-IsKept {B = B} g h c (done a d) k = go (meaning (g a) d) (IsKept.kept (h a) d)
    where
      go : (o : Outcome B) → KeepsInto d o → KeepsInto c o
      go (done b e) l = KeepsData-trans k l
      go (refused p) l = tt

  pub bind-IsKept :
      {A B : Type 0} {p : Script A} {g : A → Script B}
      → IsKept p
      → ((a : A) → IsKept (g a))
      → IsKept (p >>= g)
  bind-IsKept {p = p} {g = g} k h = record {
    kept = λ c. rw (meaning->>= p g c) (after-IsKept g h c (meaning p c) (IsKept.kept k c));
  }

  pub then-IsKept :
      {A B : Type 0} {p : Script A} {q : Script B} → IsKept p → IsKept q → IsKept (p >> q)
  then-IsKept k l = bind-IsKept k (λ a. l)

  sql-KeepsInto :
      {A : Type 0} (c : Catalog) (o : Outcome A)
      → KeepsInto c o
      → KeepsInto c (elim o [ done b d ↦ done b d | refused p ↦ refused p ])
  sql-KeepsInto c (done b d) k = k
  sql-KeepsInto c (refused p) k = tt

  pub sql-IsKept :
      {A : Type 0} (f : Catalog → Outcome A) → ((c : Catalog) → KeepsInto c (f c)) → IsKept (sql f)
  unfolding meaning
  sql-IsKept f h = record { kept = λ c. sql-KeepsInto c (f c) (h c) }

  if-KeepsInto :
      {A : Type 0} (c : Catalog) (b : Bool) (x y : Outcome A)
      → KeepsInto c x
      → KeepsInto c y
      → KeepsInto c (if b then x else y)
  if-KeepsInto c true x y h k = h
  if-KeepsInto c false x y h k = k

  pub indexes-KeepsData :
      (c : Catalog) (ix : IndexName → Option TableName) → KeepsData c (record c { index_of = ix })
  indexes-KeepsData c ix = tables-KeepsData c refl refl refl refl refl refl refl

  pub index-IsKept : (i : IndexName) (t : TableName) → IsKept (sql (create_index_if_absent i t))
  index-IsKept i t =
      sql-IsKept (create_index_if_absent i t)
        λ c. if-KeepsInto c (present t c) _ _ (indexes-KeepsData c _) tt

  pub new_index-IsKept : (i : IndexName) (t : TableName) → IsKept (sql (create_index i t))
  new_index-IsKept i t = sql-IsKept (create_index i t) λ c.
      if-KeepsInto c (present t c) _ _
        (if-KeepsInto c (is_some (c.index_of i)) _ _ tt (indexes-KeepsData c _)) tt
