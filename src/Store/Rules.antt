-- ===== src/Store/Rules.antt =====
-- Rules of proof for service calls: what a call ensures when it returns.
use neura_gen.Base.{◌⊎◌, inl, inr, ap, ◌≡◌, refl, Bool, true, false, Option, none, some}
use neura_gen.Store.Monad.{Db, Error, Result, ok, err, Action, after, roll_back, throw_if, or_throw}

-- If the call returns, `P` holds of its value and of the database after it.
abbrev pub Ensures {ℓ κ} : {A : Type ℓ} → (A → Db → Type κ) → Result A × Db → Type κ
Ensures P (ok a, db) = P a db
Ensures P (err e, db) = Unit

-- `P` holds of the database after the call, also if it throws.
abbrev pub Leaves {ℓ κ} : {A : Type ℓ} → (Db → Type κ) → Result A × Db → Type κ
Leaves P r = P r.1

pub after-Ensures {ℓ κ} :
    {A : Type ℓ} {B : Type κ} (P : A → Db → Type 0) (Q : B → Db → Type 0) (r : Result A × Db)
    (f : A → Action B)
    → Ensures P r
    → ((a : A) (db : Db) → P a db → Ensures Q (f a db))
    → Ensures Q (after r f)
after-Ensures P Q (ok a, db) f h k = k a db h
after-Ensures P Q (err e, db) f h k = tt

pub after-Leaves {ℓ κ} :
    {A : Type ℓ} {B : Type κ} (P : Db → Type 0) (r : Result A × Db) (f : A → Action B)
    → Leaves P r
    → ((a : A) (db : Db) → P db → Leaves P (f a db))
    → Leaves P (after r f)
after-Leaves P (ok a, db) f h k = k a db h
after-Leaves P (err e, db) f h k = h

-- A guard: what follows may use that its test was false.
pub throw_if-Ensures {ℓ} :
    {B : Type ℓ} (Q : B → Db → Type 0) (b : Bool) (e : Error) (k : Action B) (db : Db)
    → (b ≡ false → Ensures Q (k db))
    → Ensures Q (after (throw_if b e db) (λ _. k))
throw_if-Ensures Q true e k db h = tt
throw_if-Ensures Q false e k db h = h refl

pub or_throw-Ensures {ℓ κ} :
    {A : Type ℓ} {B : Type κ} (Q : B → Db → Type 0) (e : Error) (o : Option A) (k : A → Action B)
    (db : Db)
    → ((a : A) → o ≡ some a → Ensures Q (k a db))
    → Ensures Q (after (or_throw e o db) k)
or_throw-Ensures Q e none k db h = tt
or_throw-Ensures Q e (some a) k db h = h a refl

pub Ensures-mono {ℓ} :
    {A : Type ℓ} (P Q : A → Db → Type 0) (r : Result A × Db)
    → ((a : A) (db : Db) → P a db → Q a db)
    → Ensures P r
    → Ensures Q r
Ensures-mono P Q (ok a, db) f h = f a db h
Ensures-mono P Q (err e, db) f h = tt

pub rolled {ℓ} :
    {A : Type ℓ} (P : Db → Type 0) (db : Db) (r : Result A × Db)
    → P db
    → Ensures (λ _ db'. P db') r
    → P (roll_back db r).1
rolled P db (ok a, db') keep h = h
rolled P db (err e, db') keep h = keep

pub roll_back-Leaves {ℓ} :
    {A : Type ℓ} (P : Db → Type 0) (db : Db) (r : Result A × Db)
    → P db
    → P r.1
    → P (roll_back db r).1
roll_back-Leaves P db (ok a, db') keep h = h
roll_back-Leaves P db (err e, db') keep h = keep

pub or_throw-Leaves {ℓ} :
    {A : Type ℓ} (P : Db → Type 0) (e : Error) (o : Option A) (db : Db)
    → P db
    → P (or_throw e o db).1
or_throw-Leaves P e none db h = h
or_throw-Leaves P e (some a) db h = h

pub throw_if-Leaves :
    (P : Db → Type 0) (b : Bool) (e : Error) (db : Db) → P db → P (throw_if b e db).1
throw_if-Leaves P true e db h = h
throw_if-Leaves P false e db h = h

-- A call that writes nothing: it returned, or it threw.
pub same-cases {ℓ} :
    {A : Type ℓ} (db : Db) (r : Result A × Db)
    → r.1 ≡ db
    → ((a : A) × (r ≡ (ok a, db))) ⊎ ((e : Error) × (r ≡ (err e, db)))
same-cases db (ok a, db') p = inl (a, ap (λ d. (ok a, d)) p)
same-cases db (err e, db') p = inr (e, ap (λ d. (err e, d)) p)

-- The call returns, and `P` holds of its value and of the database after it.
abbrev pub Returns {ℓ} : {A : Type ℓ} → (A → Db → Type 0) → Result A × Db → Type 0
Returns P (ok a, db) = P a db
Returns P (err e, db) = ⊥

pub after-Returns {ℓ κ} :
    {A : Type ℓ} {B : Type κ} (P : A → Db → Type 0) (Q : B → Db → Type 0) (r : Result A × Db)
    (f : A → Action B)
    → Returns P r
    → ((a : A) (db : Db) → P a db → Returns Q (f a db))
    → Returns Q (after r f)
after-Returns P Q (ok a, db) f h k = k a db h
after-Returns P Q (err e, db) f h k = absurd h

pub roll_back-Returns {ℓ} :
    {A : Type ℓ} (P : A → Db → Type 0) (db : Db) (r : Result A × Db)
    → Returns P r
    → Returns P (roll_back db r)
roll_back-Returns P db (ok a, db') h = h
roll_back-Returns P db (err e, db') h = absurd h

-- What a call ensures when it returns, of a call that returns.
pub Returns-Ensures {ℓ} :
    {A : Type ℓ} (P : A → Db → Type 0) (r : Result A × Db)
    → Ensures P r
    → Returns (λ _ _. Unit) r
    → Returns P r
Returns-Ensures P (ok a, db) h k = h
Returns-Ensures P (err e, db) h k = k
