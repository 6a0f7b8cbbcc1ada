-- ===== src/Worker/Handle/Failures.antt =====
-- How a failed run of the handler of src/workers/video.worker.ts ends, where the other services
-- write nothing in between.
use neura_gen.Jobs.Create.{add_log, update_job}
use neura_gen.Credits.{is_refund_of}
use neura_gen.Worker.Handle.Endings.{SameMoney, Errs, IsRefunded, FailedJob, FailureEnds}
use neura_gen.Worker.Task.Rules.{after_success, Fares, Succeeds}
use neura_gen.Worker.Steps.Cleanup.{
  delete_files-gone, cleanup_output_artifacts-cleans, IsCleaned, IsAbsent,
}
use neura_gen.Worker.Steps.Quiet.{query-quiet, IsQuiet}
use neura_gen.Worker.Pipeline.Rules.{updated, Row}
use neura_gen.Credits.Once.{refunded-marks, pay_failed_refund-pays, not_free, is_refunded}
use neura_gen.Worker.Steps.{set_status, log}
use neura_gen.Jobs.Create.{update_job, add_log}
use Prim.Native.String.{◌++◌ as ◌++ₛ◌}
use neura_gen.Worker.Task.{lift_result, job_cancelled, failure}
use neura_gen.Worker.Handle.{
  delete_files, retry_job, on_failure, ProviderError, log, fail_job, set_status,
  is_retryable_provider_error, is_final_attempt, pay_failed_refund, refund_in_run, Failure, Outside,
  BullJob, Run, stopped,
}
use neura_gen.Store.{gets, CreditReason, GenerateJob, JobStatus}
use neura_gen.Base.{
  ◌&&◌, not, Bool, ltb, arith, ltb, Bool, show, All-map, not_both, ℤ, max, ℕ, ◌≡◌, suc, refl, ap,
  ◌∙◌, some, inl, inr, Bool-cases, String, true, false, All, leb, lookup, find,
}

still_due {ℓ} :
    {P : Type ℓ} (n : ℕ) (b : Bool) → leb n 0 ≡ false → b ≡ false → (ltb 0 n && not b) ≡ false → P
still_due n b due new nothing = absurd (ground arith)

-- The refund counts from any run with the same credits.
same-IsRefunded :
    (id : ℕ) (job : GenerateJob) (m : String) (b : ℤ) (s s' t : Run)
    → s.db.wallets ≡ s'.db.wallets
    → s.db.transactions ≡ s'.db.transactions
    → IsRefunded id job m b s t
    → IsRefunded id job m b s' t
same-IsRefunded id job m b s s' t wallets transactions (marked, paid, kept) = (
  marked,
  (λ charged new.
      let (w, x) = paid charged (rw transactions new) in (rw⁻¹ wallets w, rw⁻¹ transactions x)),
  λ nothing. let (w, x) = kept (rw transactions nothing) in (w ∙ wallets, x ∙ transactions),
)

module _ (w : Outside) (quiet : IsQuiet w) where
  -- The refund of a job whose owner has a wallet.
  refund_in_run-refunds :
      (id : ℕ) (job : GenerateJob) (m : String) (b : ℤ) (s : Run)
      → lookup job.user_id s.db.wallets ≡ some b
      → Succeeds
          (λ _ t.
            (t.db.jobs ≡ s.db.jobs)
            × (t.db.assets ≡ s.db.assets)
            × (t.files ≡ s.files)
            × IsRefunded id job m b s t)
          (refund_in_run w id job m s)
  unfolding refund_in_run
  refund_in_run-refunds id job m b s wallet = elim (Bool-cases (leb job.credit_cost 0)) [
    | inl free ↦ rw free (
      refl,
      refl,
      refl,
      (
        λ charged. not_both (leb job.credit_cost 0) free (not_free job.credit_cost charged),
        λ charged new. not_both (leb job.credit_cost 0) free (not_free job.credit_cost charged),
        λ nothing. (refl, refl),
      ),
    )
    | inr due ↦
        rw
          (
            due,
            query-quiet w
                (gets (λ db.
                  find (is_refund_of job.user_id id CreditReason.refund_failed_job)
                    db.transactions))
                s quiet,
          )
          (elim (Bool-cases
            (is_refunded job.user_id id CreditReason.refund_failed_job s.db.transactions)) [
              | inl earlier ↦ rw earlier (
                refl,
                refl,
                refl,
                (λ _. earlier, λ _ new. not_both true refl new, λ _. (refl, refl)),
              )
              | inr new ↦
                  rw
                    (
                      new,
                      query-quiet w (pay_failed_refund id job m)
                          (record s { queries = suc s.queries }) quiet,
                      pay_failed_refund-pays id job m s.db b wallet,
                    )
                    (
                      refl,
                      refl,
                      refl,
                      (
                        λ _. refunded-marks id job CreditReason.refund_failed_job (some m) b s.db,
                        λ _ _. (refl, refl),
                        λ nothing. still_due job.credit_cost false due refl nothing,
                      ),
                    )
            ])
  ]

-- A write to the job's row alone.
record IsWritten (id : ℕ) (P : GenerateJob → Type 0) (s t : Run) : Type 0 where
  pub row : Row id P t
  pub same_money : SameMoney s t
  pub same_assets : t.db.assets ≡ s.db.assets
  pub same_files : t.files ≡ s.files

module _ (w : Outside) (quiet : IsQuiet w) where
  set_status-sets :
      (id : ℕ) (P : GenerateJob → Type 0) (status : JobStatus) (n : ℕ)
      (f : GenerateJob → GenerateJob) (j : GenerateJob) (s : Run)
      → lookup id s.db.jobs ≡ some j
      → P (f (record j { status = status; progress = n }))
      → Succeeds (λ _ t. IsWritten id P s t) (set_status w id status n f s)
  unfolding set_status update_job
  set_status-sets id P status n f j s e h =
      let g : (GenerateJob → GenerateJob) = λ i. f (record i { status = status; progress = n }) in
      rw (query-quiet w (update_job id g) (record s { current_progress = n }) quiet, e)
        (record {
          row = (g j, updated id g j s e, h);
          same_money = (refl, refl);
          same_assets = refl;
          same_files = refl;
        })

  log_quiet : (id : ℕ) (m : String) (s : Run) → log w id m s ≡ lift_result s (add_log id m s.db)
  unfolding log
  log_quiet id m s = query-quiet w (add_log id m) s quiet

  fail_job-fails :
      (bull : BullJob) (job j : GenerateJob) (e : ProviderError) (b : ℤ) (s₀ s : Run)
      → lookup bull.job_id s.db.jobs ≡ some j
      → lookup job.user_id s.db.wallets ≡ some b
      → s.current_progress ≡ s₀.current_progress
      → SameMoney s₀ s
      → All (λ k. IsAbsent k s.files) s₀.uploaded_keys
      → Fares
          (λ h t.
            (h ≡ stopped)
            × (is_retryable_provider_error e ≡ false)
            × FailedJob bull job b s₀ e.message t)
          (λ f t.
            (f ≡ failure e)
            × (is_retryable_provider_error e ≡ true)
            × FailedJob bull job b s₀ e.message t)
          (fail_job w bull.job_id job e s)
  unfolding fail_job add_log
  fail_job-fails bull job j e b s₀ s there wallet progress money absent =
      let id = bull.job_id in
      let m = e.message in
      let text = "Job failed permanently: " ++ₛ m in
      after_success (λ _ t. IsCleaned id s t) _ _ _ _ (cleanup_output_artifacts-cleans w id s quiet)
        λ _ s₁ c.
          after_success
            (λ _ t. IsWritten id (Errs JobStatus.failed (max s₀.current_progress 1) m) s₁ t) _ _ _ _
            (set_status-sets id (Errs JobStatus.failed (max s₀.current_progress 1) m)
              JobStatus.failed (max s₁.current_progress 1) _ j s₁ (rw c.same_jobs there)
              (refl, ap (λ n. max n 1) (c.same_progress ∙ progress), refl))
            λ _ s₂ d.
              after_success
                (λ _ t.
                  (t.db.jobs ≡ s₂.db.jobs)
                  × (t.db.assets ≡ s₂.db.assets)
                  × (t.files ≡ s₂.files)
                  × IsRefunded id job m b s₂ t)
                _ _ _ _
                (refund_in_run-refunds w quiet id job m b s₂
                  (rw (d.same_money.0, c.same_wallets) wallet))
                λ _ s₃ (jobs, assets, files, refunded).
                  let left : FailedJob bull job b s₀ m s₃ = (
                    let (i, q, p) = d.row in (i, rw jobs q, p),
                    same-IsRefunded id job m b s₂ s₀ s₃ (d.same_money.0 ∙ c.same_wallets ∙ money.0)
                        (d.same_money.1 ∙ c.same_transactions ∙ money.1) refunded,
                    (
                      rw (assets, d.same_assets) c.no_artifacts,
                      All-map _ _ s₀.uploaded_keys
                          (λ k h. rw (files, d.same_files) (c.no_new_files k h)) absent,
                    ),
                  ) in
                  after_success (λ _ t. FailedJob bull job b s₀ m t) _ _ (log w id text s₃) _
                    (rw (log_quiet id text s₃) left)
                    λ _ s₄ end. elim (Bool-cases (is_retryable_provider_error e)) [
                      | inl again ↦ rw again (refl, refl, end)
                      | inr never ↦ rw never (refl, refl, end)
                    ]

  -- How a failed run ends, for a job whose row is there and whose owner has a wallet, where no
  -- other service writes in between. A cancellation returns and leaves the job's row and the
  -- credits as they are. An error on the last attempt marks the job as failed with its message and
  -- is thrown again if it is retryable; a charged job that had no refund of a failure is refunded:
  -- the wallet holds the whole charge more, and the ledger has the entry; otherwise no credits are
  -- written. An error before the last attempt queues the job again, leaves the credits as they are
  -- and is thrown again. No file that the run has uploaded is left, and no output asset of the job
  -- after a cancellation or the last attempt.
  pub on_failure-ends :
      (bull : BullJob) (job j : GenerateJob) (b : ℤ) (f : Failure) (s : Run)
      → lookup bull.job_id s.db.jobs ≡ some j
      → lookup job.user_id s.db.wallets ≡ some b
      → FailureEnds bull job b s f (on_failure w bull job f s)
  unfolding on_failure retry_job add_log
  on_failure-ends bull job j b (job_cancelled m) s there wallet =
      let id = bull.job_id in
      let s' = record s { files = delete_files s.uploaded_keys s.files } in
      after_success (λ _ t. IsCleaned id s' t) _ _ _ _
        (cleanup_output_artifacts-cleans w id s' quiet)
        λ _ s₁ c. rw (log_quiet id m s₁) (
          refl,
          c.same_jobs,
          (c.same_wallets, c.same_transactions),
          (
            c.no_artifacts,
            All-map _ _ s.uploaded_keys (λ k h. c.no_new_files k h)
                (delete_files-gone s.uploaded_keys s.files),
          ),
        )
  on_failure-ends bull job j b (failure e) s there wallet =
      let id = bull.job_id in
      let s' = record s { files = delete_files s.uploaded_keys s.files } in
      let text =
        "Attempt " ++ₛ show (suc bull.attempts_made) ++ₛ " failed, retrying: " ++ₛ e.message in
      elim (Bool-cases (is_final_attempt bull e)) [
        | inl last ↦ rw last (
            fail_job-fails bull job j e b s s' there wallet refl (refl, refl)
              (delete_files-gone s.uploaded_keys s.files))
        | inr more ↦ rw more (
            after_success
              (λ _ t.
                IsWritten id (Errs JobStatus.queued (max s.current_progress 1) e.message) s' t)
              _ _ _ _
              (set_status-sets id (Errs JobStatus.queued (max s.current_progress 1) e.message)
                JobStatus.queued (max s.current_progress 1) _ j s' there (refl, refl, refl))
              λ _ s₁ d. rw (log_quiet id text s₁) (
                refl,
                d.row,
                d.same_money,
                All-map _ _ s.uploaded_keys (λ k h. rw d.same_files h)
                    (delete_files-gone s.uploaded_keys s.files),
              ))
      ]
