-- ===== src/Worker/Books.antt =====
-- The books under a run of the handler of src/workers/video.worker.ts, with the other services
-- writing in between.
pub mod Handler
use neura_gen.Worker.Pipeline.{prepare}
use neura_gen.Jobs.Books.{add_log-Reaches, update_job-Reaches}
use neura_gen.Jobs.Create.{is_i2v, is_empty, add_log}
use neura_gen.Worker.Task.Rules.{Fares, followed_by_rule}
use neura_gen.Worker.Task.{
  return, lift_result, followed_by, query, Task, Run, Outcome, done, raised, job_cancelled, failure,
}
use neura_gen.Store.{Asset, modify, gets, GenerateJob, Result, Action, JobStatus, Db, ok, err}
use neura_gen.Worker.Plan.{Answer, responded, failed, executed, thrown}
use neura_gen.Ledger.Steps.{Reaches, IsRun, same-Reaches}
use neura_gen.Worker.Steps.{
  latest_version, sign_input, resolve_input_asset, delete_assets, artifacts, is_cancelled,
  ensure_job_not_cancelled, Outside, cleanup_output_artifacts, set_status, log, await,
}
use neura_gen.Base.{
  ℕ, ◌+◌, ◌-◌, ◌*◌, ◌/◌, ◌<◌, ◌≤◌, ◌≡◌, suc, zero, not, ◌||◌, ◌&&◌, ◌∷◌, ◌++◌, ◌==◌, ◌=ₛ◌,
  if◌then◌else◌, arith, refl, sym, ap, ◌∙◌, none, some, inl, inr, Option, Option-cases, Bool-cases,
  String, Bool, true, false, List, [], All, length, is_some, case_option, get_or, ltb, leb,
  map_option, Table, lookup, update, put, filterb, find,
}

-- A step that leaves the books to the machine, also when it throws.
abbrev pub Steps {ℓ} : {A : Type ℓ} → Db → Outcome A × Run → Type 0
Steps start r = Fares (λ _ t. Reaches start t.db) (λ _ t. Reaches start t.db) r

module _ {ℓ κ} {A : Type ℓ} {B : Type κ} {start : Db} where
  pub then_Steps :
      (r : Outcome A × Run) (f : A → Task B)
      → Steps start r
      → ((a : A) (s : Run) → Reaches start s.db → Steps start (f a s))
      → Steps start (followed_by r f)
  then_Steps r f h k =
      followed_by_rule (λ _ t. Reaches start t.db) (λ _ t. Reaches start t.db)
        (λ _ t. Reaches start t.db) r f h k

lift_result-Steps {ℓ} :
    {A : Type ℓ} {start : Db} (s : Run) (r : Result A × Db)
    → Reaches start r.1
    → Steps start (lift_result s r)
lift_result-Steps s (ok a, db) h = h
lift_result-Steps s (err e, db) h = h

pub if-Steps {ℓ} :
    {A : Type ℓ} (start : Db) (b : Bool) (m k : Task A) (s : Run)
    → Steps start (m s)
    → Steps start (k s)
    → Steps start ((if b then m else k) s)
if-Steps start true m k s h g = h
if-Steps start false m k s h g = g

pub case_option-Steps {ℓ κ} :
    {A : Type ℓ} {B : Type κ} (start : Db) (o : Option B) (m : Task A) (k : B → Task A) (s : Run)
    → Steps start (m s)
    → ((b : B) → Steps start (k b s))
    → Steps start (case_option o m k s)
case_option-Steps start none m k s h g = h
case_option-Steps start (some b) m k s h g = g b

pub await-Steps : {start : Db} (a : Answer) (s : Run) → Reaches start s.db → Steps start (await a s)
await-Steps (responded x) s h = h
await-Steps (failed e) s h = h

module _ (w : Outside) {start : Db}
    (others : (n : ℕ) → (db : Db) → Reaches start db → Reaches start (w.meanwhile n db)) where
  pub query-Steps {ℓ} :
      {A : Type ℓ} (m : Action A) (s : Run)
      → IsRun start m
      → Reaches start s.db
      → Steps start (query w.meanwhile m s)
  unfolding query
  query-Steps m s h k =
      let db = w.meanwhile s.queries s.db in
      lift_result-Steps s (m db) (h db (others s.queries s.db k))

  pub set_status-Steps :
      (id : ℕ) (status : JobStatus) (n : ℕ) (f : GenerateJob → GenerateJob) (s : Run)
      → Reaches start s.db
      → Steps start (set_status w id status n f s)
  unfolding set_status
  set_status-Steps id status n f s h =
      query-Steps _ (record s { current_progress = n }) (update_job-Reaches id _) h

  pub log-Steps : (id : ℕ) (m : String) (s : Run) → Reaches start s.db → Steps start (log w id m s)
  unfolding log
  log-Steps id m s h = query-Steps (add_log id m) s (add_log-Reaches id m) h

  -- An access that only reads.
  pub read-Steps {ℓ} :
      {A : Type ℓ} (f : Db → A) (s : Run)
      → Reaches start s.db
      → Steps start (query w.meanwhile (gets f) s)
  read-Steps f s h = query-Steps (gets f) s (λ db k. k) h

  -- An access that writes no books.
  pub write-Steps {ℓ} :
      {A : Type ℓ} (m : Action A) (s : Run)
      → ((db : Db)
          → ((m db).1.wallets ≡ db.wallets)
            × ((m db).1.transactions ≡ db.transactions)
            × ((m db).1.usages ≡ db.usages))
      → Reaches start s.db
      → Steps start (query w.meanwhile m s)
  write-Steps m s same h =
      query-Steps m s (λ db k. same-Reaches db (m db).1 k (same db).0 (same db).1 (same db).2) h

  pub ensure-Steps :
      (id : ℕ) (m : String) (s : Run)
      → Reaches start s.db
      → Steps start (ensure_job_not_cancelled w id m s)
  unfolding ensure_job_not_cancelled
  ensure-Steps id m s h =
      then_Steps _ _ (read-Steps (λ db. lookup id db.jobs) s h)
        (λ row t k. if-Steps _ (is_cancelled row) _ _ t k k)

  pub cleanup-Steps :
      (id : ℕ) (s : Run) → Reaches start s.db → Steps start (cleanup_output_artifacts w id s)
  unfolding cleanup_output_artifacts
  cleanup-Steps id s h =
      then_Steps _ _ (read-Steps (λ db. artifacts id db.assets) s h) (λ found t k.
        if-Steps _ (is_empty found) _ _ _ k (
          write-Steps (modify (λ db. record db { assets = delete_assets found db.assets })) _
            (λ db. (refl, refl, refl)) k))
