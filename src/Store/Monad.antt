-- ===== src/Store/Monad.antt =====
-- The database as a record of tables, and a service call as a function from the database to its
-- result and the database after it. What a call has written stays written when it throws, except
-- inside `$transaction`, which rolls back.
use neura_gen.Base.{String, Bool, Option, none, some, List, Table, ℤ, if◌then◌else◌}
use neura_gen.Store.Rows.{
  User, CreditTransaction, UserDailyUsage, PaymentOrder, GenerateJob, Asset, JobLog,
}

pub record Db : Type 0 where
  pub users : Table User
  pub wallets : Table ℤ
  pub transactions : List CreditTransaction
  pub usages : List UserDailyUsage
  pub orders : Table PaymentOrder
  pub jobs : Table GenerateJob
  pub assets : Table Asset
  pub logs : List JobLog

-- The exceptions of NestJS, those of Prisma: an update of a row that is not there (P2025) and a
-- unique constraint (P2002), and a plain `Error`.
pub data Error : Type 0 where
  bad_request not_found forbidden unauthorized conflict unavailable plain : String → Error
  record_not_found unique_violation : Error

pub data Result {ℓ} (A : Type ℓ) : Type ℓ where
  ok : A → Result A
  err : Error → Result A

abbrev pub Action {ℓ} : Type ℓ → Type ℓ
Action A = Db → Result A × Db

module _ {ℓ} {A : Type ℓ} where
  abbrev pub pure : A → Action A
  pure a db = (ok a, db)

  abbrev pub throw : Error → Action A
  throw e db = (err e, db)

  abbrev pub gets : (Db → A) → Action A
  gets f db = (ok (f db), db)

  -- `if (!x) throw e`
  abbrev pub or_throw : Error → Option A → Action A
  or_throw e none db = (err e, db)
  or_throw e (some a) db = (ok a, db)

  abbrev pub roll_back : Db → Result A × Db → Result A × Db
  roll_back db (ok a, db') = (ok a, db')
  roll_back db (err e, _) = (err e, db)

  -- `prisma.$transaction(async (tx) => …)`
  abbrev pub transaction : Action A → Action A
  transaction m db = roll_back db (m db)

-- What follows a call: the rest of the body, or the exception that it threw.
abbrev pub after {ℓ κ} : {A : Type ℓ} {B : Type κ} → Result A × Db → (A → Action B) → Result B × Db
after (ok a, db) f = f a db
after (err e, db) f = (err e, db)

infixl 5 ◌>>=◌ ◌>>◌
abbrev pub ◌>>=◌ {ℓ κ} : {A : Type ℓ} {B : Type κ} → Action A → (A → Action B) → Action B
◌>>=◌ m f db = after (m db) f

abbrev pub ◌>>◌ {ℓ κ} : {A : Type ℓ} {B : Type κ} → Action A → Action B → Action B
m >> k = m >>= λ _. k

-- `if (b) throw e`
abbrev pub throw_if : Bool → Error → Action (Unit {0})
throw_if b e db = if b then (err e, db) else (ok tt, db)

abbrev pub modify : (Db → Db) → Action (Unit {0})
modify f db = (ok tt, f db)

-- `if (b) await m`
abbrev pub when : Bool → Action (Unit {0}) → Action (Unit {0})
when b m db = if b then m db else (ok tt, db)
