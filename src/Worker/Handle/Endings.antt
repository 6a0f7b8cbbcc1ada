-- ===== src/Worker/Handle/Endings.antt =====
-- What a failed run of the handler of src/workers/video.worker.ts leaves behind.
use neura_gen.Worker.Task.Rules.{Fares, Succeeds}
use neura_gen.Worker.Steps.Cleanup.{IsAbsent}
use neura_gen.Worker.Pipeline.Rules.{Row}
use neura_gen.Credits.{refund_row}
use neura_gen.Credits.Once.{is_refunded}
use neura_gen.Worker.Steps.{artifacts}
use neura_gen.Worker.Task.{job_cancelled, failure}
use neura_gen.Worker.Handle.{
  ProviderError, is_retryable_provider_error, is_final_attempt, Handled, Outcome, Failure, BullJob,
  Run, stopped,
}
use neura_gen.Store.{CreditReason, GenerateJob, JobStatus}
use neura_gen.Base.{
  max, ℕ, ◌≡◌, some, String, Bool, true, false, List, [], All, ltb, ℤ, pos, ◌+ℤ◌, put, ◌∷◌, ◌&&◌,
  not,
}

-- The run wrote no credits.
abbrev pub SameMoney : Run → Run → Type 0
SameMoney s t = (t.db.wallets ≡ s.db.wallets) × (t.db.transactions ≡ s.db.transactions)

-- Neither an asset of the outputs nor a file of this attempt is left.
abbrev pub NothingLeft : ℕ → List String → Run → Type 0
NothingLeft id keys t = (artifacts id t.db.assets ≡ []) × All (λ k. IsAbsent k t.files) keys

-- A row with a status, a progress and the error's message.
abbrev pub Errs : JobStatus → ℕ → String → GenerateJob → Type 0
Errs status n m j = (j.status ≡ status) × (j.progress ≡ n) × (j.error_message ≡ some m)

-- The refund of a charged job that had none: the wallet, which held `b`, has the whole charge, and
-- the ledger the entry of the refund. If there was one, or the job cost nothing, no credits have
-- been written.
abbrev pub IsRefunded : ℕ → GenerateJob → String → ℤ → Run → Run → Type 0
IsRefunded id job m b s t =
    (ltb 0 job.credit_cost ≡ true
      → is_refunded job.user_id id CreditReason.refund_failed_job t.db.transactions ≡ true)
    × (ltb 0 job.credit_cost ≡ true
        → is_refunded job.user_id id CreditReason.refund_failed_job s.db.transactions ≡ false
        → (t.db.wallets ≡ put job.user_id (b +ℤ pos job.credit_cost) s.db.wallets)
          × (t.db.transactions
              ≡ refund_row job.user_id id job.credit_cost CreditReason.refund_failed_job (some m)
                ∷ s.db.transactions))
    × ((ltb 0 job.credit_cost
            && not (is_refunded job.user_id id CreditReason.refund_failed_job s.db.transactions))
          ≡ false
        → SameMoney s t)

-- What is left after the last failure.
abbrev pub FailedJob : BullJob → GenerateJob → ℤ → Run → String → Run → Type 0
FailedJob bull job b s m t =
    Row bull.job_id (Errs JobStatus.failed (max s.current_progress 1) m) t
    × IsRefunded bull.job_id job m b s t
    × NothingLeft bull.job_id s.uploaded_keys t

-- How the `catch` ends for an error, on the last attempt or on one before.
abbrev pub ErrorEnds :
    Bool → BullJob → GenerateJob → ℤ → Run → ProviderError → Outcome Handled × Run → Type 0
ErrorEnds true bull job b s e r =
    Fares
      (λ h t.
        (h ≡ stopped)
        × (is_retryable_provider_error e ≡ false)
        × FailedJob bull job b s e.message t)
      (λ f t.
        (f ≡ failure e)
        × (is_retryable_provider_error e ≡ true)
        × FailedJob bull job b s e.message t)
      r
ErrorEnds false bull job b s e r =
    Fares (λ _ _. ⊥)
      (λ f t.
        (f ≡ failure e)
        × Row bull.job_id (Errs JobStatus.queued (max s.current_progress 1) e.message) t
        × SameMoney s t
        × All (λ k. IsAbsent k t.files) s.uploaded_keys)
      r

-- How it ends for a failure.
abbrev pub FailureEnds : BullJob → GenerateJob → ℤ → Run → Failure → Outcome Handled × Run → Type 0
FailureEnds bull job b s (job_cancelled m) r =
    Succeeds
      (λ h t.
        (h ≡ stopped)
        × (t.db.jobs ≡ s.db.jobs)
        × SameMoney s t
        × NothingLeft bull.job_id s.uploaded_keys t)
      r
FailureEnds bull job b s (failure e) r = ErrorEnds (is_final_attempt bull e) bull job b s e r
