-- ===== src/Worker/Books/Handler.antt =====
-- The books under a whole run of the handler of src/workers/video.worker.ts.
use neura_gen.Ledger.Refunds.{pay_failed_refund-Reaches}
use neura_gen.Worker.Breaker.{is_retryable_provider_error, ProviderError}
use neura_gen.Worker.Handle.{
  is_closed, is_final_attempt, handle_job, caught, retry_job, handle, on_failure, fail_job,
  refund_in_run,
}
use neura_gen.Worker.Books.{
  query-Steps, cleanup-Steps, read-Steps, set_status-Steps, await-Steps, log-Steps, ensure-Steps,
  case_option-Steps, if-Steps, then_Steps, Steps,
}
use neura_gen.Worker.Pipeline.{
  should_attach_background_audio, lift_plan, deliver, publish_thumbnail, mix_audio, run_plan,
  publish, publish_video, create_asset, create_version, upload, fetch_video, mixed_or_plain,
  produce, is_key_taken, has_first_version,
}
use neura_gen.Worker.Pipeline.{prepare}
use neura_gen.Jobs.Create.{is_i2v}
use neura_gen.Worker.Task.{Failure, return, Run, Outcome, done, raised, job_cancelled, failure}
use neura_gen.Store.{Asset, GenerateJob, JobStatus, Db}
use neura_gen.Worker.Plan.{
  ProviderExecution, Execution, PlanResult, Answer, responded, failed, executed, thrown,
}
use neura_gen.Ledger.Steps.{Reaches, IsRun, same-Reaches}
use neura_gen.Worker.Steps.{BullJob, latest_version, sign_input, resolve_input_asset, Outside}
use neura_gen.Base.{
  ℕ, refl, none, some, inl, inr, Option, Option-cases, Bool-cases, ◌||◌, String, is_some, leb,
  lookup,
}

module _ (w : Outside) {start : Db}
    (others : (n : ℕ) → (db : Db) → Reaches start db → Reaches start (w.meanwhile n db)) where
  resolve_input_asset-Steps :
      (id : ℕ) (job : GenerateJob) (s : Run)
      → Reaches start s.db
      → Steps start (resolve_input_asset w id job s)
  unfolding resolve_input_asset
  resolve_input_asset-Steps id job s h =
      then_Steps _ _
        (case_option-Steps _ job.extra_config.input_asset_id (return none) _ s h
          (λ a. read-Steps w others (λ db. lookup a db.assets) s h))
        (λ chosen t k.
          case_option-Steps _ chosen _ (λ a. return (some a)) t (read-Steps w others _ t k)
            (λ a. k))

  sign_input-Steps :
      (job : GenerateJob) (o : Option Asset) (s : Run)
      → Reaches start s.db
      → Steps start (sign_input w job o s)
  unfolding sign_input
  sign_input-Steps job none s h = if-Steps _ (is_i2v job.extra_config.workflow) _ _ s h h
  sign_input-Steps job (some a) s h =
      case_option-Steps _ (latest_version a.versions) _ _ s h
        (λ v. then_Steps _ _ (await-Steps (w.download_signed_url v.object_key) s h) (λ url t k. k))

  prepare-Steps :
      (id : ℕ) (job : GenerateJob) (s : Run) → Reaches start s.db → Steps start (prepare w id job s)
  unfolding prepare
  prepare-Steps id job s h = then_Steps _ _ (ensure-Steps w others id _ s h) λ _ s₁ h₁.
      then_Steps _ _ (cleanup-Steps w others id s₁ h₁) λ _ s₂ h₂.
        then_Steps _ _ (set_status-Steps w others id JobStatus.processing 5 _ s₂ h₂) λ _ s₃ h₃.
          then_Steps _ _ (resolve_input_asset-Steps id job s₃ h₃) λ input s₄ h₄.
            then_Steps _ _ (set_status-Steps w others id JobStatus.processing 15 _ s₄ h₄) λ _ s₅ h₅.
              then_Steps _ _ (sign_input-Steps job input s₅ h₅) λ url s₆ h₆.
                then_Steps _ _ (set_status-Steps w others id JobStatus.processing 30 _ s₆ h₆)
                  λ _ s₇ h₇. then_Steps _ _ (ensure-Steps w others id _ s₇ h₇) λ _ s₈ h₈. h₈

  lift_plan-Steps :
      (id : ℕ) (s : Run) (r : PlanResult × Execution)
      → Reaches start s.db
      → Steps start (lift_plan id s r)
  lift_plan-Steps id s (executed e, x) h = same-Reaches s.db _ h refl refl refl
  lift_plan-Steps id s (thrown e, x) h = same-Reaches s.db _ h refl refl refl

  mixed_or_plain-Steps :
      (id : ℕ) (buffer : String) (a : Answer) (s : Run)
      → Reaches start s.db
      → Steps start (mixed_or_plain w id buffer a s)
  unfolding mixed_or_plain
  mixed_or_plain-Steps id buffer (responded x) s h =
      then_Steps _ _ (log-Steps w others id _ s h) (λ _ t k. k)
  mixed_or_plain-Steps id buffer (failed e) s h =
      then_Steps _ _ (log-Steps w others id _ s h) (λ _ t k. k)

  fetch_video-Steps :
      (id : ℕ) (job : GenerateJob) (r : ProviderExecution) (s : Run)
      → Reaches start s.db
      → Steps start (fetch_video w id job r s)
  unfolding fetch_video mix_audio
  fetch_video-Steps id job r s h = then_Steps _ _ (log-Steps w others id _ s h) λ _ s₁ h₁.
      then_Steps _ _ (set_status-Steps w others id JobStatus.processing 60 _ s₁ h₁) λ _ s₂ h₂.
        then_Steps _ _ (ensure-Steps w others id _ s₂ h₂) λ _ s₃ h₃.
          then_Steps _ _ (await-Steps (w.video_buffer r.provider r.response) s₃ h₃) λ buffer s₄ h₄.
            then_Steps _ _ (set_status-Steps w others id JobStatus.processing 80 _ s₄ h₄) λ _ s₅ h₅.
              then_Steps _ _
                (if-Steps _ (should_attach_background_audio w job) _ _ s₅
                  (then_Steps _ _ (log-Steps w others id _ s₅ h₅) λ _ t k.
                    mixed_or_plain-Steps id buffer (w.add_background_audio buffer job.prompt id) t
                      k)
                  h₅)
                λ video s₆ h₆. then_Steps _ _ (ensure-Steps w others id _ s₆ h₆) λ _ s₇ h₇. h₇

  upload-Steps :
      (buffer folder name : String) (s : Run)
      → Reaches start s.db
      → Steps start (upload w buffer folder name s)
  unfolding upload
  upload-Steps buffer folder name s h =
      then_Steps _ _ (await-Steps (w.upload_key buffer folder name) s h) (λ key t k. k)

  create_version-IsRun : (id : ℕ) (key : String) → IsRun start (create_version id key)
  unfolding create_version
  create_version-IsRun id key db h = elim (Option-cases (lookup id db.assets)) [
    | inl gone ↦ rw gone h
    | inr (a, e) ↦ rw e (elim (Bool-cases (is_key_taken key db.assets || has_first_version a)) [
      | inl taken ↦ rw taken h
      | inr new ↦ rw new (same-Reaches db _ h refl refl refl)
    ])
  ]

  create_asset-IsRun : (id : ℕ) (a : Asset) → IsRun start (create_asset id a)
  unfolding create_asset
  create_asset-IsRun id a db h = elim (Bool-cases (is_some (lookup id db.assets))) [
    | inl taken ↦ rw taken h
    | inr new ↦ rw new (same-Reaches db _ h refl refl refl)
  ]

  publish_video-Steps :
      (id : ℕ) (job : GenerateJob) (video : String) (s : Run)
      → Reaches start s.db
      → Steps start (publish_video w id job video s)
  unfolding publish_video
  publish_video-Steps id job video s h = then_Steps _ _ (upload-Steps video _ _ s h) λ key s₁ h₁.
      then_Steps _ _ (set_status-Steps w others id JobStatus.processing 90 _ s₁ h₁) λ _ s₂ h₂.
        then_Steps _ _ (query-Steps w others _ s₂ (create_asset-IsRun w.output_id _) h₂) λ _ s₃ h₃.
          then_Steps _ _ (set_status-Steps w others id JobStatus.processing 95 _ s₃ h₃) λ _ s₄ h₄.
            then_Steps _ _ (query-Steps w others _ s₄ (create_version-IsRun w.output_id key) h₄)
              λ _ s₅ h₅. h₅

  publish-Steps :
      (id : ℕ) (job : GenerateJob) (r : ProviderExecution) (video : String) (s : Run)
      → Reaches start s.db
      → Steps start (publish w id job r video s)
  unfolding publish publish_thumbnail
  publish-Steps id job r video s h =
      then_Steps _ _ (publish_video-Steps id job video s h) λ key s₁ h₁.
        then_Steps _ _
          (then_Steps _ _ (await-Steps (w.generate_thumbnail video) s₁ h₁) λ thumbnail t₁ k₁.
            then_Steps _ _ (upload-Steps thumbnail _ _ t₁ k₁) λ thumb_key t₂ k₂.
              then_Steps _ _ (query-Steps w others _ t₂ (create_asset-IsRun w.thumbnail_id _) k₂)
                λ _ t₃ k₃.
                  query-Steps w others _ t₃ (create_version-IsRun w.thumbnail_id thumb_key) k₃)
          λ _ s₂ h₂.
            then_Steps _ _ (set_status-Steps w others id JobStatus.completed 100 _ s₂ h₂)
              λ _ s₃ h₃. h₃

  produce-Steps :
      (id : ℕ) (job : GenerateJob) (s : Run) → Reaches start s.db → Steps start (produce w id job s)
  unfolding produce run_plan deliver
  produce-Steps id job s h = then_Steps _ _ (prepare-Steps id job s h) λ _ s₁ h₁.
      then_Steps _ _ (lift_plan-Steps id s₁ _ h₁) λ r s₂ h₂.
        then_Steps _ _ (fetch_video-Steps id job r s₂ h₂)
          λ video s₃ h₃. publish-Steps id job r video s₃ h₃

  refund_in_run-Steps :
      (id : ℕ) (job : GenerateJob) (m : String) (s : Run)
      → Reaches start s.db
      → Steps start (refund_in_run w id job m s)
  unfolding refund_in_run
  refund_in_run-Steps id job m s h = if-Steps _ (leb job.credit_cost 0) _ _ s h (
      then_Steps _ _ (read-Steps w others _ s h) λ earlier t k.
        if-Steps _ (is_some earlier) _ _ t k
          (query-Steps w others _ t (pay_failed_refund-Reaches id job m) k))

  fail_job-Steps :
      (id : ℕ) (job : GenerateJob) (e : ProviderError) (s : Run)
      → Reaches start s.db
      → Steps start (fail_job w id job e s)
  unfolding fail_job
  fail_job-Steps id job e s h = then_Steps _ _ (cleanup-Steps w others id s h) λ _ s₁ h₁.
      then_Steps _ _ (set_status-Steps w others id JobStatus.failed _ _ s₁ h₁) λ _ s₂ h₂.
        then_Steps _ _ (refund_in_run-Steps id job e.message s₂ h₂) λ _ s₃ h₃.
          then_Steps _ _ (log-Steps w others id _ s₃ h₃)
            λ _ s₄ h₄. if-Steps _ (is_retryable_provider_error e) _ _ s₄ h₄ h₄

  on_failure-Steps :
      (bull : BullJob) (job : GenerateJob) (f : Failure) (s : Run)
      → Reaches start s.db
      → Steps start (on_failure w bull job f s)
  unfolding on_failure retry_job
  on_failure-Steps bull job (job_cancelled m) s h =
      then_Steps _ _ (cleanup-Steps w others bull.job_id _ h)
        λ _ s₁ h₁. then_Steps _ _ (log-Steps w others bull.job_id m s₁ h₁) λ _ s₂ h₂. h₂
  on_failure-Steps bull job (failure e) s h =
      if-Steps _ (is_final_attempt bull e) _ _ _ (fail_job-Steps bull.job_id job e _ h) (
        then_Steps _ _ (set_status-Steps w others bull.job_id JobStatus.queued _ _ _ h)
          λ _ s₁ h₁. then_Steps _ _ (log-Steps w others bull.job_id _ s₁ h₁) λ _ s₂ h₂. h₂)

  caught-Steps :
      (bull : BullJob) (job : GenerateJob) (r : Outcome String × Run)
      → Steps start r
      → Steps start (caught (on_failure w bull job) r)
  caught-Steps bull job (done key, s) h = h
  caught-Steps bull job (raised f, s) h = on_failure-Steps bull job f s h

  handle-Steps : (bull : BullJob) (s : Run) → Reaches start s.db → Steps start (handle w bull s)
  unfolding handle handle_job
  handle-Steps bull s h = then_Steps _ _ (read-Steps w others _ s h) λ row t k.
      case_option-Steps _ row _ _ t k λ job.
        if-Steps _ (is_closed job.status) _ _ t k
          (caught-Steps bull job _ (produce-Steps bull.job_id job _ k))

  Steps-Reaches {ℓ} : {A : Type ℓ} (r : Outcome A × Run) → Steps start r → Reaches start r.1.db
  Steps-Reaches (done a, s) h = h
  Steps-Reaches (raised f, s) h = h

  -- A run of the handler, whatever comes of it.
  pub handle-Reaches :
      (bull : BullJob) (s : Run) → Reaches start s.db → Reaches start (handle w bull s).1.db
  handle-Reaches bull s h = Steps-Reaches (handle w bull s) (handle-Steps bull s h)
