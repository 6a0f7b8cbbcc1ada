-- ===== src/Worker/Pipeline.antt =====
-- The `try` of `handle` in src/workers/video.worker.ts.
pub mod Rules
pub mod Delivery
pub mod Fresh
pub mod Outputs
pub mod Publishing
use neura_gen.Worker.Steps.{
  delete_files, BullJob, sign_input, resolve_input_asset, cleanup_output_artifacts, set_status,
  await, log, ensure_job_not_cancelled, Outside,
}
use neura_gen.Jobs.Create.{resolve_provider_plan}
use Prim.Native.String.{◌++◌ as ◌++ₛ◌}
use neura_gen.Worker.Task.{
  job_cancelled, raise, Failure, failure, query, change, return, Outcome, Task, Run, done, raised,
  ◌>>=◌, ◌>>◌,
}
use neura_gen.Worker.Plan.{
  thrown, executed, execute_provider_plan, Execution, provider_text, PlanResult, ProviderExecution,
  responded, failed, Answer,
}
use neura_gen.Worker.Breaker.{is_retryable_provider_error, ProviderError}
use neura_gen.Store.{
  gets, refund_failed_job, Action, Asset, GenerateJob, JobLog, ProviderName, AssetType, AssetRole,
  JobStatus, Error, ok, err,
}
use neura_gen.Base.{show, find_row, max}
use neura_gen.Base.{
  ℕ, ◌+◌, ◌-◌, ◌*◌, ◌/◌, ◌<◌, ◌≤◌, ◌≡◌, suc, zero, not, ◌||◌, ◌&&◌, ◌∷◌, ◌++◌, ◌==◌, ◌=ₛ◌,
  if◌then◌else◌, arith, refl, sym, ap, ◌∙◌, none, some, inl, inr, Option, Option-cases, Bool-cases,
  String, Bool, true, false, List, [], All, length, is_some, case_option, get_or, ltb, leb,
  map_option, Table, lookup, update, put, filterb, find,
}

abbrev pub has_provider : ProviderName → List ProviderName → Bool
has_provider p [] = false
has_provider ProviderName.vast (ProviderName.vast ∷ ps) = true
has_provider ProviderName.modal (ProviderName.modal ∷ ps) = true
has_provider p (q ∷ ps) = has_provider p ps

-- `[...new Set(plan)]`: the first of each, for the names in `seen` left out.
unfoldable pub distinct : (seen plan : List ProviderName) → List ProviderName
distinct seen [] = []
distinct seen (p ∷ ps) =
    if has_provider p seen then distinct seen ps else p ∷ distinct (p ∷ seen) ps

-- `resolveProviderPlan(extractProviderPlan(job.extraConfig))`
unfoldable pub provider_plan_of : (String → Option String) → List ProviderName → List ProviderName
provider_plan_of env [] = resolve_provider_plan env
provider_plan_of env (p ∷ ps) = distinct [] (p ∷ ps)

-- `executeProviderPlan` within a run; its messages become log entries.
abbrev pub log_all_messages : ℕ → List String → List JobLog
log_all_messages id [] = []
log_all_messages id (m ∷ ms) = record { job_id = id; message = m } ∷ log_all_messages id ms

abbrev pub lift_plan : ℕ → Run → PlanResult × Execution → Outcome ProviderExecution × Run
lift_plan id s (r, x) =
    let t = record s {
      execution = record x { messages = [] };
      db = record s.db { logs = log_all_messages id x.messages ++ s.db.logs };
    } in
    elim r [ executed e ↦ (done e, t) | thrown e ↦ (raised (failure e), t) ]

unfoldable pub run_plan : Outside → ℕ → List ProviderName → Task ProviderExecution
run_plan w id plan s = lift_plan id s (execute_provider_plan w.providers plan s.execution)

-- `shouldAttachBackgroundAudio`
unfoldable pub should_attach_background_audio : Outside → GenerateJob → Bool
should_attach_background_audio w job =
    not (
      w.providers.to_lower_case (get_or (w.env "VIDEO_BACKGROUND_AUDIO_ENABLED") "true") =ₛ "false")
    && job.extra_config.include_background_audio

abbrev pub no_extra : GenerateJob → GenerateJob
no_extra j = j

abbrev pub with_provider : ProviderName → GenerateJob → GenerateJob
with_provider p j = record j { provider = some (provider_text p) }

-- The `try` up to the provider's request.
unfoldable pub prepare : Outside → ℕ → GenerateJob → Task (Option String)
prepare w id job = do
  ensure_job_not_cancelled w id "Job cancelled before processing started"
  cleanup_output_artifacts w id
  set_status w id JobStatus.processing 5
      (λ j. record j { started_at = some w.now; error_message = none })
  input ← resolve_input_asset w id job
  set_status w id JobStatus.processing 15 no_extra
  url ← sign_input w job input
  set_status w id JobStatus.processing 30 no_extra
  ensure_job_not_cancelled w id "Job cancelled before provider request"
  return url

unfoldable pub success_text : ProviderExecution → String
success_text r =
    "Provider "
    ++ₛ provider_text r.provider
    ++ₛ " succeeded on attempt "
    ++ₛ show r.provider_attempt

-- The log entries after the mixing, and the buffer: the old one where the mixing failed.
unfoldable pub mixed_or_plain : Outside → ℕ → String → Answer → Task String
mixed_or_plain w id buffer (responded mixed) = do log w id "Background audio added"; return mixed
mixed_or_plain w id buffer (failed e) = do
  log w id ("Background audio skipped due to error: " ++ₛ e.message)
  return buffer

-- `if (shouldAttachBackgroundAudio)`, with its `try` and `catch`.
unfoldable pub mix_audio : Outside → ℕ → GenerateJob → String → Task String
mix_audio w id job buffer =
    if should_attach_background_audio w job
    then (do
      log w id "Adding background audio"
      mixed_or_plain w id buffer (w.add_background_audio buffer job.prompt id))
    else return buffer

-- From the provider's response to the buffer for the upload.
unfoldable pub fetch_video : Outside → ℕ → GenerateJob → ProviderExecution → Task String
fetch_video w id job r = do
  log w id (success_text r)
  set_status w id JobStatus.processing 60 (with_provider r.provider)
  ensure_job_not_cancelled w id "Job cancelled after provider response"
  buffer ← await (w.video_buffer r.provider r.response)
  set_status w id JobStatus.processing 80 (with_provider r.provider)
  video ← mix_audio w id job buffer
  ensure_job_not_cancelled w id "Job cancelled before uploading outputs"
  return video

-- `storageService.upload`, and `uploadedKeys.push`.
unfoldable pub upload : Outside → (buffer folder name : String) → Task String
upload w buffer folder name = do
  key ← await (w.upload_key buffer folder name)
  change (λ s. record s { files = key ∷ s.files; uploaded_keys = key ∷ s.uploaded_keys })
  return key

abbrev pub new_artifact : ℕ → ℕ → AssetType → AssetRole → Asset
new_artifact user_id id t r = record {
  user_id = user_id;
  job_id = some id;
  asset_type = t;
  role = r;
  versions = [];
}

-- The unique constraints of a version: on its storage key (the outputs share a bucket) and on its
-- number within the asset.
unfoldable pub holds_key : String → Asset → Bool
holds_key key a = is_some (find (λ v. v.object_key =ₛ key) a.versions)

unfoldable pub is_key_taken : String → Table Asset → Bool
is_key_taken key t = is_some (find_row (λ _ a. holds_key key a) t)

unfoldable pub has_first_version : Asset → Bool
has_first_version a = is_some (find (λ v. v.version == 1) a.versions)

-- `asset.create` and `assetVersion.create`; a version of an asset that is gone is an error.
unfoldable pub create_asset : ℕ → Asset → Action (Unit {0})
create_asset asset_id a db =
    if is_some (lookup asset_id db.assets)
    then (err Error.unique_violation, db)
    else (ok tt, record db { assets = put asset_id a db.assets })

unfoldable pub create_version : ℕ → String → Action (Unit {0})
create_version asset_id key db =
    case_option (lookup asset_id db.assets) (err Error.record_not_found, db)
      (λ a.
        if is_key_taken key db.assets || has_first_version a
        then (err Error.unique_violation, db)
        else (
          ok tt,
          record db {
            assets =
                put asset_id
                  (record a { versions = record { version = 1; object_key = key } ∷ a.versions })
                  db.assets;
          },
        ))

abbrev pub folder_of : ℕ → String
folder_of id = "jobs/" ++ₛ show id ++ₛ "/output"

abbrev pub video_name : ℕ → String
video_name id = "generated-video-" ++ₛ show id ++ₛ ".mp4"

abbrev pub thumbnail_name : ℕ → String
thumbnail_name id = "generated-thumbnail-" ++ₛ show id ++ₛ ".jpg"

-- The upload of the video, and its asset; the result is its key.
unfoldable pub publish_video : Outside → ℕ → GenerateJob → String → Task String
publish_video w id job video = do
  key ← upload w video (folder_of id) (video_name id)
  set_status w id JobStatus.processing 90 no_extra
  query w.meanwhile
      (create_asset w.output_id (new_artifact job.user_id id AssetType.video AssetRole.output))
  set_status w id JobStatus.processing 95 no_extra
  query w.meanwhile (create_version w.output_id key)
  return key

-- The thumbnail, its upload and its asset.
unfoldable pub publish_thumbnail : Outside → ℕ → GenerateJob → String → Task (Unit {0})
publish_thumbnail w id job video = do
  thumbnail ← await (w.generate_thumbnail video)
  key ← upload w thumbnail (folder_of id) (thumbnail_name id)
  query w.meanwhile (
      create_asset w.thumbnail_id
        (new_artifact job.user_id id AssetType.thumbnail AssetRole.thumbnail))
  query w.meanwhile (create_version w.thumbnail_id key)

-- From the upload to the end of the `try`.
unfoldable pub publish : Outside → ℕ → GenerateJob → ProviderExecution → String → Task String
publish w id job r video = do
  key ← publish_video w id job video
  publish_thumbnail w id job video
  set_status w id JobStatus.completed 100
      (λ j. record (with_provider r.provider j) { completed_at = some w.now })
  return key

-- The `try` of `handle`, from the provider's response on, and as a whole.
unfoldable pub deliver : Outside → ℕ → GenerateJob → ProviderExecution → Task String
deliver w id job r = do video ← fetch_video w id job r; publish w id job r video

unfoldable pub produce : Outside → ℕ → GenerateJob → Task String
produce w id job = do
  prepare w id job
  r ← run_plan w id (provider_plan_of w.env job.extra_config.provider_plan)
  deliver w id job r
