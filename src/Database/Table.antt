-- ===== src/Database/Table.antt =====
-- Tables as lists of rows in the order of insertion, and the shapes of SQL statement that the
-- program sends: WHERE by a test, and by a key with a unique index.
use mathlib.Core.Option
use cross_platform_media_sha.Base.{
  ℕ, suc, ◌+◌, ◌≡◌, refl, Bool, true, false, ◌||◌, Option, none, some, List, [], ◌∷◌, ◌++◌, arith,
  length, Eq, if◌then◌else◌,
}

module _ {ℓ} {A : Type ℓ} where
  -- SELECT … WHERE p
  unfoldable pub select : (A → Bool) → List A → List A
  select p [] = []
  select p (r ∷ rs) = let rest = select p rs in if p r then r ∷ rest else rest

  -- DELETE … WHERE p
  unfoldable pub delete : (A → Bool) → List A → List A
  delete p [] = []
  delete p (r ∷ rs) = let rest = delete p rs in if p r then rest else r ∷ rest

  -- UPDATE … SET f WHERE p
  unfoldable pub update : (A → Bool) → (A → A) → List A → List A
  update p f [] = []
  update p f (r ∷ rs) = (if p r then f r else r) ∷ update p f rs

  -- SELECT … WHERE p, read by QueryRow: the first row, if there is one
  unfoldable pub first : (A → Bool) → List A → Option A
  first p [] = none
  first p (r ∷ rs) = if p r then some r else first p rs

  -- how many rows a DELETE reports
  unfoldable pub count : (A → Bool) → List A → ℕ
  count p [] = 0
  count p (r ∷ rs) = let rest = count p rs in if p r then suc rest else rest

  pub length-delete : (p : A → Bool) (rs : List A) → length (delete p rs) + count p rs ≡ length rs
  unfolding delete count
  length-delete p [] = omega arith
  length-delete p (r ∷ rs) = ground (arith, length-delete p rs)

  pub length-update : (p : A → Bool) (f : A → A) (rs : List A) → length (update p f rs) ≡ length rs
  unfolding update
  length-update p f [] = refl
  length-update p f (r ∷ rs) = ground (arith, length-update p f rs)

  pub delete-delete : (p : A → Bool) (rs : List A) → delete p (delete p rs) ≡ delete p rs
  unfolding delete
  delete-delete p [] = refl
  delete-delete p (r ∷ rs) = ground (arith, delete-delete p rs)

module _ {ℓ κ} {K : Type κ} {A : Type ℓ} ⦃e : Eq K⦄ (key : A → K) where
  -- WHERE key = k
  abbrev pub at : K → A → Bool
  at k r = e.beq (key r) k

  unfoldable pub has : K → List A → Bool
  has k [] = false
  has k (r ∷ rs) = at k r || has k rs

  -- No two rows have one key.
  abbrev pub Unique : List A → Type 0
  Unique [] = Unit
  Unique (r ∷ rs) = (has (key r) rs ≡ false) × Unique rs

  -- INSERT … ON CONFLICT(key) DO NOTHING
  unfoldable pub insert_new : A → List A → List A
  insert_new r rs = if has (key r) rs then rs else rs ++ r ∷ []

  pub has-append : (k : K) (rs : List A) (r : A) → has k (rs ++ r ∷ []) ≡ (has k rs || at k r)
  unfolding has
  has-append k [] r = ground arith
  has-append k (q ∷ rs) r = ground (arith, has-append k rs r)

  pub has-insert_new :
      (k : K) (r : A) (rs : List A) → has k (insert_new r rs) ≡ (has k rs || at k r)
  unfolding insert_new
  has-insert_new k r rs = ground (arith, has-append k rs r, e.beq_iff (key r) k)

  pub has-delete :
      (k j : K) (rs : List A) → has j (delete (at k) rs) ≡ (if e.beq k j then false else has j rs)
  unfolding has delete
  has-delete k j [] = ground arith
  has-delete k j (r ∷ rs) =
      ground (arith, has-delete k j rs, e.beq_iff (key r) k, e.beq_iff (key r) j, e.beq_iff k j)

  has-delete_le :
      (p : A → Bool) (k : K) (rs : List A) → has k rs ≡ false → has k (delete p rs) ≡ false
  unfolding has delete
  has-delete_le p k [] h = refl
  has-delete_le p k (r ∷ rs) h = ground (arith, has-delete_le p k rs)

  pub delete-Unique : (p : A → Bool) (rs : List A) → Unique rs → Unique (delete p rs)
  unfolding delete
  delete-Unique p [] h = tt
  delete-Unique p (r ∷ rs) h =
      ground (arith, delete-Unique p rs h.1, has-delete_le p (key r) rs h.0)

  pub append-Unique :
      (r : A) (rs : List A) → Unique rs → has (key r) rs ≡ false → Unique (rs ++ r ∷ [])
  unfolding has
  append-Unique r [] h n = (refl, tt)
  append-Unique r (q ∷ rs) h n = ground (
    arith,
    append-Unique r rs h.1,
    has-append (key q) rs r,
    e.beq_iff (key r) (key q),
    e.beq_iff (key q) (key r),
  )

  pub insert_new-Unique : (r : A) (rs : List A) → Unique rs → Unique (insert_new r rs)
  unfolding insert_new
  insert_new-Unique r rs h = ground (arith, append-Unique r rs h)

  module _ (p : A → Bool) (f : A → A) (same_key : (r : A) → key (f r) ≡ key r) where
    pub has-update : (k : K) (rs : List A) → has k (update p f rs) ≡ has k rs
    unfolding has update
    has-update k [] = refl
    has-update k (r ∷ rs) = ground (arith, has-update k rs, same_key r)

    pub update-Unique : (rs : List A) → Unique rs → Unique (update p f rs)
    unfolding update
    update-Unique [] h = tt
    update-Unique (r ∷ rs) h =
        ground (arith, update-Unique rs h.1, has-update (key r) rs, same_key r)

  pub first-of_has : (k : K) (rs : List A) → has k rs ≡ false → first (at k) rs ≡ none
  unfolding has first
  first-of_has k [] h = refl
  first-of_has k (r ∷ rs) h = ground (arith, first-of_has k rs)

  pub first-append :
      (k : K) (rs : List A) (r : A)
      → first (at k) (rs ++ r ∷ [])
        ≡ (if has k rs then first (at k) rs else if at k r then some r else none)
  unfolding has first
  first-append k [] r = refl
  first-append k (q ∷ rs) r = ground (arith, first-append k rs r)

  -- What a key finds after its rows were rewritten.
  pub first-update :
      (k j : K) (f : A → A) (same_key : (r : A) → key (f r) ≡ key r) (rs : List A)
      → first (at j) (update (at k) f rs)
        ≡ (if e.beq k j then Option.map f (first (at j) rs) else first (at j) rs)
  unfolding first update
  first-update k j f same_key [] = ground arith
  first-update k j f same_key (r ∷ rs) = ground (
    arith,
    first-update k j f same_key rs,
    same_key r,
    e.beq_iff (key r) k,
    e.beq_iff (key r) j,
    e.beq_iff k j,
  )

  pub first-delete :
      (k j : K) (rs : List A)
      → first (at j) (delete (at k) rs) ≡ (if e.beq k j then none else first (at j) rs)
  unfolding first delete
  first-delete k j [] = ground arith
  first-delete k j (r ∷ rs) =
      ground (arith, first-delete k j rs, e.beq_iff (key r) k, e.beq_iff (key r) j, e.beq_iff k j)

  -- A row that a key finds has that key.
  pub key-first : (k : K) (rs : List A) {r : A} → first (at k) rs ≡ some r → key r ≡ k
  unfolding first
  key-first k [] h = cc
  key-first k (q ∷ rs) {r} h = ground (arith, key-first k rs {r = r}, e.beq_iff (key q) k)

  pub has-first : (k : K) (rs : List A) {r : A} → first (at k) rs ≡ some r → has k rs ≡ true
  unfolding first has
  has-first k [] h = cc
  has-first k (q ∷ rs) {r} h = ground (arith, has-first k rs {r = r})
