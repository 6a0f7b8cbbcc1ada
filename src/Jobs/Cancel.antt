-- ===== src/Jobs/Cancel.antt =====
-- `JobsService.cancelJob` (src/modules/jobs/jobs.service.ts). The row that the call read first is an
-- argument of `finish_cancel`, since the worker may write the job in between.
pub mod Once
use neura_gen.Base.{
  ℕ, String, Bool, true, false, not, ◌==◌, Option, none, some, case_option, lookup, if◌then◌else◌,
}
use neura_gen.Store.{
  JobStatus, CreditReason, GenerateJob, Error, err, Action, pure, throw, when, transaction, ◌>>◌,
}
use neura_gen.Credits.{refund_credit_if_missing}
use neura_gen.Jobs.Create.{update_job, add_log}

pub record CancelResult : Type 0 where
  pub job_id : ℕ
  pub refunded_credit : ℕ

-- The statuses that cannot be cancelled, each with its exception.
abbrev pub refusal : JobStatus → Option String
refusal JobStatus.completed = some "Completed job cannot be canceled"
refusal JobStatus.failed = some "Failed job cannot be canceled"
refusal JobStatus.cancelled = some "Job already canceled"
refusal JobStatus.pending = none
refusal JobStatus.queued = none
refusal JobStatus.processing = none

abbrev pub cancelled_job : ℕ → GenerateJob → GenerateJob
cancelled_job now j = record j {
  status = JobStatus.cancelled;
  error_message = some "Cancelled by user";
  failed_at = some now;
}

-- The transaction at the end, for the job as it was read; it tests the status no more.
unfoldable pub finish_cancel : ℕ → ℕ → GenerateJob → Action (Unit {0})
finish_cancel now id job = transaction do
  update_job id (cancelled_job now)
  refund_credit_if_missing id job CreditReason.refund_canceled_job none
  add_log id "Job canceled by user"

-- What became of the queue's entry: `removed` also where there was none.
pub data Removal : Type 0 where
  removed still_running : Removal

abbrev pub is_running : Removal → Bool
is_running still_running = true
is_running removed = false

-- `cancelJob`
unfoldable pub cancel_job : (now user_id id : ℕ) → Removal → Action CancelResult
cancel_job now user_id id removal db =
    case_option (lookup id db.jobs) (err (Error.not_found "Job not found"), db)
      (λ job.
        (if not (job.user_id == user_id)
            then throw (Error.not_found "Job not found")
            else case_option (refusal job.status)
                (do
                  when (is_running removal) (
                      add_log id "Job marked as cancelled while an active worker was still running")
                  finish_cancel now id job
                  pure (record { job_id = id; refunded_credit = job.credit_cost }))
                (λ why. throw (Error.bad_request why)))
          db)
