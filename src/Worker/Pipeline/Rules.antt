-- ===== src/Worker/Pipeline/Rules.antt =====
-- What the steps of the handler of src/workers/video.worker.ts do to the job's row, where the other
-- services write nothing in between.
use neura_gen.Worker.Steps.Quiet.{query-quiet, IsQuiet}
use neura_gen.Worker.Task.Rules.{Succeeds}
use neura_gen.Jobs.Create.{add_log, update_job}
use neura_gen.Worker.Steps.{is_cancelled, ensure_job_not_cancelled, log, set_status, Outside}
use neura_gen.Worker.Task.{Run}
use neura_gen.Base.{==_refl, lookup-update}
use neura_gen.Store.{gets, Asset, JobStatus, GenerateJob}
use neura_gen.Base.{ℕ, ◌≡◌, refl, some, String, false, List, Table, lookup, update}

-- The job's row is there, with a property.
abbrev pub Row : ℕ → (GenerateJob → Type 0) → Run → Type 0
Row id P s = (j : GenerateJob) × (lookup id s.db.jobs ≡ some j) × P j

abbrev pub AnyRow : ℕ → Run → Type 0
AnyRow id s = Row id (λ j. Unit) s

-- The row has a status and a progress.
abbrev pub At : JobStatus → ℕ → GenerateJob → Type 0
At status progress j = (j.status ≡ status) × (j.progress ≡ progress)

pub updated :
    (id : ℕ) (g : GenerateJob → GenerateJob) (j : GenerateJob) (s : Run)
    → lookup id s.db.jobs ≡ some j
    → lookup id (update id g s.db.jobs) ≡ some (g j)
updated id g j s e = rw (lookup-update id id g s.db.jobs, ==_refl id, e) refl

-- `K` stands for what is known of the assets and of the storage.
module _ (w : Outside) (quiet : IsQuiet w) (id : ℕ) (K : Table Asset → List String → Type 0) where
  abbrev pub Knows : (GenerateJob → Type 0) → Run → Type 0
  Knows P s = Row id P s × K s.db.assets s.files

  pub set_status_rule :
      (P : GenerateJob → Type 0) (status : JobStatus) (n : ℕ) (f : GenerateJob → GenerateJob)
      (s : Run)
      → Knows P s
      → ((j : GenerateJob)
          → ((f (record j { status = status; progress = n })).status ≡ status)
            × ((f (record j { status = status; progress = n })).progress ≡ n))
      → Succeeds (λ _ t. Knows (At status n) t) (set_status w id status n f s)
  unfolding set_status update_job
  set_status_rule P status n f s ((j, e, p), k) h =
      let g : (GenerateJob → GenerateJob) = λ i. f (record i { status = status; progress = n }) in
      rw (query-quiet w (update_job id g) (record s { current_progress = n }) quiet, e)
        ((g j, updated id g j s e, h j), k)

  pub log_rule :
      (P : GenerateJob → Type 0) (m : String) (s : Run)
      → Knows P s
      → Succeeds (λ _ t. Knows P t) (log w id m s)
  unfolding log add_log
  log_rule P m s h = rw (query-quiet w (add_log id m) s quiet) h

  pub ensure_job_not_cancelled_rule :
      (P : GenerateJob → Type 0) (m : String) (s : Run)
      → ((j : GenerateJob) → P j → is_cancelled (some j) ≡ false)
      → Knows P s
      → Succeeds (λ _ t. Knows P t) (ensure_job_not_cancelled w id m s)
  unfolding ensure_job_not_cancelled
  ensure_job_not_cancelled_rule P m s alive ((j, e, p), k) =
      rw (query-quiet w (gets (λ db. lookup id db.jobs)) s quiet, e, alive j p) ((j, e, p), k)
