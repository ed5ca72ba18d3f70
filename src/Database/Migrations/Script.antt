-- ===== src/Database/Migrations/Script.antt =====
-- A function that gets the transaction, as a script: the statements that it sends, each of which may
-- depend on the answers so far. `meaning` is what a script does to a database when the driver
-- refuses no statement.
use cross_platform_media_sha.Base.{◌≡◌, refl}
use cross_platform_media_sha.Database.Migrations.Catalog.{Catalog, Outcome, done, refused}

pub data Script (A : Type 0) : Type 1 where
  finish : A → Script A
  send : {B : Type 0} → (Catalog → Outcome B) → (B → Script A) → Script A

infixl 5 ◌>>=◌ ◌>>◌
-- the next script runs where the first ends: `if err != nil { return err }`
unfoldable pub ◌>>=◌ : {A B : Type 0} → Script A → (A → Script B) → Script B
finish a >>= g = g a
send f k >>= g = send f (λ b. k b >>= g)

abbrev pub ◌>>◌ : {A B : Type 0} → Script A → Script B → Script B
p >> q = p >>= λ _. q

-- one statement
abbrev pub sql : {A : Type 0} → (Catalog → Outcome A) → Script A
sql f = send f (λ b. finish b)

unfoldable pub meaning : {A : Type 0} → Script A → Catalog → Outcome A
meaning (finish a) c = done a c
meaning (send f k) c = elim (f c) [ done b c' ↦ meaning (k b) c' | refused p ↦ refused p ]

-- what a script does to what a first one leaves
abbrev pub after : {A B : Type 0} → Outcome A → (A → Script B) → Outcome B
after (done a c) g = meaning (g a) c
after (refused p) g = refused p

-- What a script and then another do is what the second does to what the first leaves.
pub meaning->>= :
    {A B : Type 0} (p : Script A) (g : A → Script B) (c : Catalog)
    → meaning (p >>= g) c ≡ after (meaning p c) g
unfolding meaning ◌>>=◌
meaning->>= (finish a) g c = refl
meaning->>= (send f k) g c =
    elim (f c)
      as (λ o.
        elim o [ done b c' ↦ meaning (k b >>= g) c' | refused p ↦ refused p ]
        ≡ after (elim o [ done b c' ↦ meaning (k b) c' | refused p ↦ refused p ]) g) [
          | done b c' ↦ meaning->>= (k b) g c'
          | refused p ↦ refl
        ]

-- The same where the first is one statement.
pub meaning-send :
    {A B : Type 0} (f : Catalog → Outcome A) (g : A → Script B) (c : Catalog)
    → meaning (sql f >>= g) c ≡ after (f c) g
unfolding meaning ◌>>=◌
meaning-send f g c =
    elim (f c)
      as (λ o. elim o [ done b c' ↦ meaning (g b) c' | refused p ↦ refused p ] ≡ after o g) [
        | done b c' ↦ refl
        | refused p ↦ refl
      ]
