-- ===== src/Worker/Pipeline/Delivery.antt =====
-- A run of the handler of src/workers/video.worker.ts from a provider's response to the upload.
use neura_gen.Worker.Steps.Quiet.{IsQuiet}
use neura_gen.Worker.Plan.{responded, failed}
use neura_gen.Worker.Task.Rules.{await_rule, then_rule, Succeeds-mono, Succeeds}
use neura_gen.Worker.Pipeline.{
  with_provider, success_text, Answer, Task, fetch_video, ensure_job_not_cancelled, mixed_or_plain,
  log, Outcome, should_attach_background_audio, set_status, mix_audio,
}
use neura_gen.Worker.Pipeline.Rules.{
  set_status_rule, ensure_job_not_cancelled_rule, log_rule, At, Knows,
}
use neura_gen.Worker.Plan.{responded, ProviderExecution}
use neura_gen.Worker.Steps.{is_cancelled, Outside}
use Prim.Native.String.{◌++◌ as ◌++ₛ◌}
use neura_gen.Worker.Task.{followed_by, Run}
use neura_gen.Store.{failed, Asset, JobStatus, GenerateJob}
use neura_gen.Base.{ℕ, ◌≡◌, ◌==◌, refl, some, inl, inr, Bool-cases, String, false, List, Table}

-- What the outside answers where nothing goes wrong after the provider.
pub record Delivers (w : Outside) (r : ProviderExecution) : Type 0 where
  pub buffer : String
  pub has_buffer : w.video_buffer r.provider r.response ≡ responded buffer
  pub thumbnail : (video : String) → (t : String) × (w.generate_thumbnail video ≡ responded t)
  pub upload :
      (video folder name : String)
      → (key : String) × (w.upload_key video folder name ≡ responded key)
  pub distinct_ids : (w.output_id == w.thumbnail_id) ≡ false

abbrev pub IsProcessing : GenerateJob → Type 0
IsProcessing j = j.status ≡ JobStatus.processing

processing_alive : (j : GenerateJob) → IsProcessing j → is_cancelled (some j) ≡ false
processing_alive j h = rw h refl

module _ (w : Outside) (quiet : IsQuiet w) (id : ℕ) where
  -- One more `PROCESSING` on the way.
  pub processing_rule :
      (K : Table Asset → List String → Type 0) (P : GenerateJob → Type 0) (n : ℕ)
      (f : GenerateJob → GenerateJob) (s : Run)
      → Knows w quiet id K P s
      → ((j : GenerateJob) → ((f j).status ≡ j.status) × ((f j).progress ≡ j.progress))
      → Succeeds
          (λ _ t. Knows w quiet id K IsProcessing t)
          (set_status w id JobStatus.processing n f s)
  processing_rule K P n f s h same =
      Succeeds-mono (λ _ t. Knows w quiet id K (At JobStatus.processing n) t)
        (λ _ t. Knows w quiet id K IsProcessing t) (set_status w id JobStatus.processing n f s)
        (λ _ t ((j, e, (p, q)), k). ((j, e, p), k))
        (set_status_rule w quiet id K P JobStatus.processing n f s h
          (λ j. same (record j { status = JobStatus.processing; progress = n })))

  -- A step that changes nothing in what is known.
  abbrev pub Keeps {ℓ} :
      (Table Asset → List String → Type 0) → {A : Type ℓ} → Outcome A × Run → Type 0
  Keeps K r = Succeeds (λ _ t. Knows w quiet id K IsProcessing t) r

  pub then-Keeps {ℓ κ} :
      (K : Table Asset → List String → Type 0) {A : Type ℓ} {B : Type κ} (Q : B → Run → Type 0)
      (r : Outcome A × Run) (f : A → Task B)
      → Keeps K r
      → ((a : A) (s : Run) → Knows w quiet id K IsProcessing s → Succeeds Q (f a s))
      → Succeeds Q (followed_by r f)
  then-Keeps K Q r f h k = then_rule (λ _ t. Knows w quiet id K IsProcessing t) Q r f h k

  module _ (K : Table Asset → List String → Type 0) where
    abbrev Holds : Run → Type 0
    Holds s = Knows w quiet id K IsProcessing s

    log-Keeps : (m : String) (s : Run) → Holds s → Keeps K (log w id m s)
    log-Keeps m s h = log_rule w quiet id K IsProcessing m s h

    mixed_or_plain-Keeps :
        (buffer : String) (a : Answer) (s : Run)
        → Holds s
        → Keeps K (mixed_or_plain w id buffer a s)
    unfolding mixed_or_plain
    mixed_or_plain-Keeps buffer (responded x) s h =
        then-Keeps K (λ _ t. Holds t) _ _ (log-Keeps "Background audio added" s h) (λ _ t k. k)
    mixed_or_plain-Keeps buffer (failed e) s h =
        then-Keeps K (λ _ t. Holds t) _ _
          (log-Keeps ("Background audio skipped due to error: " ++ₛ e.message) s h) (λ _ t k. k)

    mix_audio-Keeps :
        (job : GenerateJob) (buffer : String) (s : Run)
        → Holds s
        → Keeps K (mix_audio w id job buffer s)
    unfolding mix_audio
    mix_audio-Keeps job buffer s h = elim (Bool-cases (should_attach_background_audio w job)) [
      | inl on ↦ rw on (
          then-Keeps K (λ _ t. Holds t) _ _ (log-Keeps "Adding background audio" s h)
            (λ _ t k.
              mixed_or_plain-Keeps buffer (w.add_background_audio buffer job.prompt id) t k))
      | inr off ↦ rw off h
    ]

    ensure-Keeps : (m : String) (s : Run) → Holds s → Keeps K (ensure_job_not_cancelled w id m s)
    ensure-Keeps m s h =
        ensure_job_not_cancelled_rule w quiet id K IsProcessing m s processing_alive h

  -- From any row: the status at the response is overwritten.
  pub fetch_video-Keeps :
      (K : Table Asset → List String → Type 0) (job : GenerateJob) (r : ProviderExecution)
      (d : Delivers w r) (s : Run)
      → Knows w quiet id K (λ j. Unit) s
      → Keeps K (fetch_video w id job r s)
  unfolding fetch_video
  fetch_video-Keeps K job r d s h =
      then_rule (λ _ t. Knows w quiet id K (λ j. Unit) t) (λ _ t. Knows w quiet id K IsProcessing t)
        _ _ (log_rule w quiet id K (λ j. Unit) (success_text r) s h)
        (λ _ t₁ h₁.
          then-Keeps K _ _ _
            (processing_rule K (λ j. Unit) 60 (with_provider r.provider) t₁ h₁ (λ j. (refl, refl)))
            (λ _ t₂ h₂.
              then-Keeps K _ _ _ (ensure-Keeps K "Job cancelled after provider response" t₂ h₂)
                (λ _ t₃ h₃.
                  then-Keeps K _ _ _
                    (await_rule (λ _ t. Knows w quiet id K IsProcessing t)
                      (w.video_buffer r.provider r.response) d.buffer t₃ d.has_buffer h₃)
                    (λ buffer t₄ h₄.
                      then-Keeps K _ _ _
                        (processing_rule K IsProcessing 80 (with_provider r.provider) t₄ h₄
                          (λ j. (refl, refl)))
                        (λ _ t₅ h₅.
                          then-Keeps K _ _ _ (mix_audio-Keeps K job buffer t₅ h₅) (λ video t₆ h₆.
                            then-Keeps K _ _ _
                              (ensure-Keeps K "Job cancelled before uploading outputs" t₆ h₆)
                              (λ _ t₇ h₇. h₇)))))))
