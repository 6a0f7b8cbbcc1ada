-- ===== src/Worker/Handle.antt =====
-- `handle` of src/workers/video.worker.ts, the handler of a queue entry.
pub mod Endings
pub mod Failures
use neura_gen.Worker.Pipeline.{produce}
use neura_gen.Credits.{pay_failed_refund, is_refund_of}
use neura_gen.Worker.Steps.{
  delete_files, BullJob, sign_input, resolve_input_asset, cleanup_output_artifacts, set_status,
  await, log, ensure_job_not_cancelled, Outside,
}
use neura_gen.Jobs.Create.{resolve_provider_plan}
use Prim.Native.String.{◌++◌ as ◌++ₛ◌}
use neura_gen.Worker.Task.{
  job_cancelled, raise, Failure, failure, query, change, return, Outcome, Task, Run, done, raised,
  ◌>>=◌, ◌>>◌,
}
use neura_gen.Worker.Plan.{
  thrown, executed, execute_provider_plan, Execution, provider_text, PlanResult, ProviderExecution,
  responded, failed, Answer,
}
use neura_gen.Worker.Breaker.{is_retryable_provider_error, ProviderError}
use neura_gen.Store.{
  CreditReason, gets, Action, Asset, GenerateJob, JobLog, ProviderName, AssetType, AssetRole,
  JobStatus, Error, ok, err,
}
use neura_gen.Base.{show, find_row, max}
use neura_gen.Base.{
  ℕ, ◌+◌, ◌-◌, ◌*◌, ◌/◌, ◌<◌, ◌≤◌, ◌≡◌, suc, zero, not, ◌||◌, ◌&&◌, ◌∷◌, ◌++◌, ◌==◌, ◌=ₛ◌,
  if◌then◌else◌, arith, refl, sym, ap, ◌∙◌, none, some, inl, inr, Option, Option-cases, Bool-cases,
  String, Bool, true, false, List, [], All, length, is_some, case_option, get_or, ltb, leb,
  map_option, Table, lookup, update, put, filterb, find,
}

-- What the handler's promise becomes: nothing to do, the key of the video, or an end without one.
pub data Handled : Type 0 where
  ignored stopped : Handled
  produced : (key : String) → Handled

-- `currentProgress`
abbrev pub progress_now : Task ℕ
progress_now s = (done (max s.current_progress 1), s)

-- `this.refundFailedJob`: its search and its transaction are two accesses.
unfoldable pub refund_in_run : Outside → ℕ → GenerateJob → String → Task (Unit {0})
refund_in_run w id job message = if leb job.credit_cost 0 then return tt else (do
  earlier ← query w.meanwhile (
      gets
        (λ db. find (is_refund_of job.user_id id CreditReason.refund_failed_job) db.transactions))
  if is_some earlier then return tt else query w.meanwhile (pay_failed_refund id job message))

-- The last failure.
unfoldable pub fail_job : Outside → ℕ → GenerateJob → ProviderError → Task Handled
fail_job w id job e = do
  cleanup_output_artifacts w id
  progress ← progress_now
  set_status w id JobStatus.failed progress
      (λ j. record j { error_message = some e.message; failed_at = some w.now })
  refund_in_run w id job e.message
  log w id ("Job failed permanently: " ++ₛ e.message)
  if is_retryable_provider_error e then raise (failure e) else return stopped

-- A failure before the last attempt.
unfoldable pub retry_job : Outside → BullJob → ProviderError → Task Handled
retry_job w bull e = do
  progress ← progress_now
  set_status w bull.job_id JobStatus.queued progress
      (λ j. record j { error_message = some e.message })
  log w bull.job_id
      ("Attempt " ++ₛ show (suc bull.attempts_made) ++ₛ " failed, retrying: " ++ₛ e.message)
  raise (failure e)

unfoldable pub is_final_attempt : BullJob → ProviderError → Bool
is_final_attempt bull e =
    not (is_retryable_provider_error e) || leb bull.max_attempts (suc bull.attempts_made)

-- The `catch`.
unfoldable pub on_failure : Outside → BullJob → GenerateJob → Failure → Task Handled
on_failure w bull job f = do
  change (λ s. record s { files = delete_files s.uploaded_keys s.files })
  elim f [
    | job_cancelled message ↦ do
      cleanup_output_artifacts w bull.job_id
      log w bull.job_id message
      return stopped
    | failure e ↦
        if is_final_attempt bull e then fail_job w bull.job_id job e else retry_job w bull e
  ]

-- The `try` and its `catch`.
abbrev pub caught : (Failure → Task Handled) → Outcome String × Run → Outcome Handled × Run
caught h (done key, s) = (done (produced key), s)
caught h (raised f, s) = h f s

-- `job.status === CANCELLED || job.status === COMPLETED`
abbrev pub is_closed : JobStatus → Bool
is_closed JobStatus.cancelled = true
is_closed JobStatus.completed = true
is_closed JobStatus.pending = false
is_closed JobStatus.queued = false
is_closed JobStatus.processing = false
is_closed JobStatus.failed = false

unfoldable pub handle_job : Outside → BullJob → GenerateJob → Task Handled
handle_job w bull job s =
    caught (on_failure w bull job)
      (produce w bull.job_id job (record s { current_progress = job.progress; uploaded_keys = [] }))

-- `handle`
unfoldable pub handle : Outside → BullJob → Task Handled
handle w bull = do
  row ← query w.meanwhile (gets (λ db. lookup bull.job_id db.jobs))
  case_option row (return ignored)
      (λ job. if is_closed job.status then return ignored else handle_job w bull job)
