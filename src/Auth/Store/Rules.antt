-- ===== src/Auth/Store/Rules.antt =====
-- Rules of proof for the calls of src/modules/auth/auth.service.ts.
use neura_gen.Auth.Store.{proceed, refuse_if, require, AuthAction, update_many, AuthDb}
use neura_gen.Base.{case_option, not_both}
use neura_gen.Store.{Error, Result, ok, err}
use neura_gen.Base.{
  ℕ, ◌≡◌, ◌∷◌, if◌then◌else◌, arith, refl, none, some, Option, Bool, true, false, [], map_option,
  Table, lookup,
}

-- `P` holds of the database after the call, also if it throws.
abbrev pub Keeps {ℓ} : {A : Type ℓ} → (AuthDb → Type 0) → Result A × AuthDb → Type 0
Keeps P (ok a, db) = P db
Keeps P (err e, db) = P db

-- `P` holds of the value and of the database after it, if the call returns.
abbrev pub Gives {ℓ κ} : {A : Type ℓ} → (A → AuthDb → Type κ) → Result A × AuthDb → Type κ
Gives P (ok a, db) = P a db
Gives P (err e, db) = Unit

module _ {ℓ κ} {A : Type ℓ} {B : Type κ} where
  pub proceed-Keeps :
      (P : AuthDb → Type 0) (r : Result A × AuthDb) (f : A → AuthAction B)
      → Keeps P r
      → ((a : A) (db : AuthDb) → P db → Keeps P (f a db))
      → Keeps P (proceed r f)
  proceed-Keeps P (ok a, db) f h k = k a db h
  proceed-Keeps P (err e, db) f h k = h

  pub proceed-Gives {μ ν} :
      (P : A → AuthDb → Type μ) (Q : B → AuthDb → Type ν) (r : Result A × AuthDb)
      (f : A → AuthAction B)
      → Gives P r
      → ((a : A) (db : AuthDb) → P a db → Gives Q (f a db))
      → Gives Q (proceed r f)
  proceed-Gives P Q (ok a, db) f h k = k a db h
  proceed-Gives P Q (err e, db) f h k = tt

module _ {ℓ} {A : Type ℓ} where
  pub Keeps-after : (P : AuthDb → Type 0) (r : Result A × AuthDb) → Keeps P r → P r.1
  Keeps-after P (ok a, db) h = h
  Keeps-after P (err e, db) h = h

  pub require-Keeps :
      (P : AuthDb → Type 0) (e : Error) (o : Option A) (db : AuthDb)
      → P db
      → Keeps P (require e o db)
  unfolding require
  require-Keeps P e none db h = h
  require-Keeps P e (some a) db h = h

  pub require-Gives :
      (e : Error) (o : Option A) (db : AuthDb)
      → Gives (λ a db'. (o ≡ some a) × (db' ≡ db)) (require e o db)
  unfolding require
  require-Gives e none db = tt
  require-Gives e (some a) db = (refl, refl)

pub refuse_if-Keeps :
    (P : AuthDb → Type 0) (b : Bool) (e : Error) (db : AuthDb) → P db → Keeps P (refuse_if b e db)
unfolding refuse_if
refuse_if-Keeps P true e db h = h
refuse_if-Keeps P false e db h = h

pub refuse_if-Gives :
    (b : Bool) (e : Error) (db : AuthDb)
    → Gives (λ _ db'. (b ≡ false) × (db' ≡ db)) (refuse_if b e db)
unfolding refuse_if
refuse_if-Gives true e db = tt
refuse_if-Gives false e db = (refl, refl)

-- A test keeps what both branches keep.
pub case_option-Keeps {ℓ κ} :
    {A : Type ℓ} {B : Type κ} (P : AuthDb → Type 0) (o : Option A) (m : AuthAction B)
    (k : A → AuthAction B) (db : AuthDb)
    → Keeps P (m db)
    → ((a : A) → Keeps P (k a db))
    → Keeps P (case_option o m k db)
case_option-Keeps P none m k db h g = h
case_option-Keeps P (some a) m k db h g = g a

pub if-Keeps {ℓ} :
    {A : Type ℓ} (P : AuthDb → Type 0) (b : Bool) (m k : AuthAction A) (db : AuthDb)
    → Keeps P (m db)
    → Keeps P (k db)
    → Keeps P ((if b then m else k) db)
if-Keeps P true m k db h g = h
if-Keeps P false m k db h g = g

pub lookup-update_many {ℓ} :
    {V : Type ℓ} (p : V → Bool) (f : V → V) (k : ℕ) (t : Table V)
    → lookup k (update_many p f t) ≡ map_option (λ v. if p v then f v else v) (lookup k t)
unfolding update_many lookup
lookup-update_many p f k [] = refl
lookup-update_many p f k ((j, v) ∷ t) = ground (arith, lookup-update_many p f k t)

-- What holds before the tests holds after them.
pub require-holds {ℓ} :
    {A : Type ℓ} (P : AuthDb → Type 0) (e : Error) (o : Option A) (db : AuthDb)
    → P db
    → Gives (λ a d. (o ≡ some a) × P d) (require e o db)
unfolding require
require-holds P e none db h = tt
require-holds P e (some a) db h = (refl, h)

pub refuse_if-holds :
    (P : AuthDb → Type 0) (b : Bool) (e : Error) (db : AuthDb)
    → P db
    → Gives (λ _ d. (b ≡ false) × P d) (refuse_if b e db)
unfolding refuse_if
refuse_if-holds P true e db h = tt
refuse_if-holds P false e db h = (refl, h)

abbrev pub is_ok {ℓ} : {A : Type ℓ} → Result A → Bool
is_ok (ok a) = true
is_ok (err e) = false

pub returned {ℓ} :
    {A : Type ℓ} (P : AuthDb → Type 0) (r : Result A × AuthDb)
    → is_ok r.0 ≡ true
    → Gives (λ _ db. P db) r
    → P r.1
returned P (ok b, db) e h = h
returned P (err x, db) e h = not_both false e refl
