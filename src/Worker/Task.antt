-- ===== src/Worker/Task.antt =====
-- What a run of the worker's handler (src/workers/video.worker.ts) works on: the database, the
-- object storage, its local variables, and the worker's breaker. A step is a function from this
-- state to a value or an exception and the state after it.
pub mod Rules
use neura_gen.Worker.Plan.{plain_error, Execution}
use neura_gen.Worker.Breaker.{ProviderError}
use neura_gen.Store.{Result, Action, Db, Error, ok, err}
use neura_gen.Base.{
  ℕ, ◌+◌, ◌-◌, ◌*◌, ◌/◌, ◌<◌, ◌≤◌, ◌≡◌, suc, zero, not, ◌||◌, ◌&&◌, ◌∷◌, ◌++◌, ◌==◌, ◌=ₛ◌,
  if◌then◌else◌, arith, refl, sym, ap, ◌∙◌, none, some, inl, inr, Option, Option-cases, Bool-cases,
  String, Bool, true, false, List, [], All, length, is_some, case_option, get_or, ltb, leb,
  map_option, Table, lookup, update, put, filterb, find,
}

-- `queries` counts the accesses to the database so far.
pub record Run : Type 0 where
  pub db : Db
  pub files : List String
  pub execution : Execution
  pub queries : ℕ
  pub current_progress : ℕ
  pub uploaded_keys : List String

-- `JobCancelledError`, and any other error.
pub data Failure : Type 0 where
  job_cancelled : (message : String) → Failure
  failure : ProviderError → Failure

pub data Outcome {ℓ} (A : Type ℓ) : Type ℓ where
  done : A → Outcome A
  raised : Failure → Outcome A

abbrev pub Task {ℓ} : Type ℓ → Type ℓ
Task A = Run → Outcome A × Run

-- What the other services write to the database before each of the run's own accesses.
abbrev pub Meanwhile : Type 0
Meanwhile = ℕ → Db → Db

module _ {ℓ} {A : Type ℓ} where
  abbrev pub return : A → Task A
  return a s = (done a, s)

  abbrev pub raise : Failure → Task A
  raise f s = (raised f, s)

  -- The exception of Prisma, which has none of the fields of a provider's error.
  abbrev pub lift_result : Run → (Result A) × Db → Outcome A × Run
  lift_result s (ok a, db) = (done a, record s { db = db; queries = suc s.queries })
  lift_result s (err e, db) = (
    raised (failure (plain_error "Record to update not found")),
    record s { db = db; queries = suc s.queries },
  )

  -- One access to the database.
  unfoldable pub query : Meanwhile → Action A → Task A
  query w m s = lift_result s (m (w s.queries s.db))

abbrev pub followed_by {ℓ κ} :
    {A : Type ℓ} {B : Type κ} → Outcome A × Run → (A → Task B) → Outcome B × Run
followed_by (done a, s) f = f a s
followed_by (raised e, s) f = (raised e, s)

infixl 5 ◌>>=◌ ◌>>◌
abbrev pub ◌>>=◌ {ℓ κ} : {A : Type ℓ} {B : Type κ} → Task A → (A → Task B) → Task B
◌>>=◌ m f s = followed_by (m s) f

abbrev pub ◌>>◌ {ℓ κ} : {A : Type ℓ} {B : Type κ} → Task A → Task B → Task B
m >> k = m >>= λ _. k

abbrev pub change : (Run → Run) → Task (Unit {0})
change f s = (done tt, f s)
