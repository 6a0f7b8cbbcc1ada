-- ===== src/Worker/Steps.antt =====
-- The steps of the handler of src/workers/video.worker.ts. What the storage, the providers and the
-- tools for video answer are parameters; a delete in the storage succeeds. The browser's
-- notifications are left out. The other services may write before each access to the database.
pub mod Quiet
pub mod Cleanup
use neura_gen.Jobs.Create.{is_empty, add_log, update_job, is_i2v}
use Prim.Native.String.{◌++◌ as ◌++ₛ◌}
use neura_gen.Worker.Task.{
  job_cancelled, return, query, change, raise, failure, Meanwhile, Task, done, raised, ◌>>=◌, ◌>>◌,
}
use neura_gen.Worker.Plan.{plain_error, Providers, responded, failed, Answer}
use neura_gen.Worker.Breaker.{ProviderError}
use neura_gen.Store.{
  modify, gets, AssetVersion, Asset, GenerateJob, ProviderName, AssetType, AssetRole, JobStatus,
  Error, ok, err,
}
use neura_gen.Base.{show, find_row, max}
use neura_gen.Base.{
  ℕ, ◌+◌, ◌-◌, ◌*◌, ◌/◌, ◌<◌, ◌≤◌, ◌≡◌, suc, zero, not, ◌||◌, ◌&&◌, ◌∷◌, ◌++◌, ◌==◌, ◌=ₛ◌,
  if◌then◌else◌, arith, refl, sym, ap, ◌∙◌, none, some, inl, inr, Option, Option-cases, Bool-cases,
  String, Bool, true, false, List, [], All, length, is_some, case_option, get_or, ltb, leb,
  map_option, Table, lookup, update, put, filterb, find,
}

pub record Outside : Type 0 where
  pub providers : Providers
  pub env : String → Option String
  pub now : ℕ
  pub meanwhile : Meanwhile
  pub download_signed_url : (object_key : String) → Answer
  pub video_buffer : ProviderName → (response : String) → Answer
  pub add_background_audio : (buffer prompt : String) → (seed : ℕ) → Answer
  pub generate_thumbnail : (buffer : String) → Answer
  pub upload_key : (buffer folder name : String) → Answer
  pub output_id : ℕ
  pub thumbnail_id : ℕ

-- The entry of the queue: `data.jobId`, `attemptsMade`, `opts.attempts ?? 1`.
pub record BullJob : Type 0 where
  pub job_id : ℕ
  pub attempts_made : ℕ
  pub max_attempts : ℕ

-- An awaited call of the outside.
abbrev pub await : Answer → Task String
await (responded x) s = (done x, s)
await (failed e) s = (raised (failure e), s)

abbrev pub throw_error {ℓ} : {A : Type ℓ} → String → Task A
throw_error m = raise (failure (plain_error m))

-- `this.setStatus`, with the columns of `extra`, and the local helper of that name.
unfoldable pub set_status :
    Outside → ℕ → JobStatus → (progress : ℕ) → (GenerateJob → GenerateJob) → Task (Unit {0})
set_status w id status progress extra = do
  change (λ s. record s { current_progress = progress })
  query w.meanwhile (update_job id (λ j. extra (record j { status = status; progress = progress })))

-- `this.log`
unfoldable pub log : Outside → ℕ → String → Task (Unit {0})
log w id message = query w.meanwhile (add_log id message)

abbrev pub is_cancelled : Option GenerateJob → Bool
is_cancelled none = false
is_cancelled (some j) = elim j.status [ JobStatus.cancelled ↦ true | _ ↦ false ]

-- `ensureJobNotCancelled`
unfoldable pub ensure_job_not_cancelled : Outside → ℕ → String → Task (Unit {0})
ensure_job_not_cancelled w id message = do
  row ← query w.meanwhile (gets (λ db. lookup id db.jobs))
  if is_cancelled row then raise (job_cancelled message) else return tt

abbrev pub is_output : AssetRole → Bool
is_output AssetRole.output = true
is_output AssetRole.thumbnail = true
is_output AssetRole.input = false
is_output AssetRole.preview = false
is_output AssetRole.temp = false

abbrev pub belongs_to : ℕ → Asset → Bool
belongs_to id a = case_option a.job_id false (λ j. j == id)

-- The outputs of a job.
abbrev pub is_artifact : ℕ → ℕ × Asset → Bool
is_artifact id (_, a) = belongs_to id a && is_output a.role

abbrev pub version_keys : List AssetVersion → List String
version_keys [] = []
version_keys (v ∷ vs) = v.object_key ∷ version_keys vs

-- `findMany` of the artifacts of a job.
unfoldable pub artifacts : ℕ → Table Asset → Table Asset
artifacts id t = filterb (is_artifact id) t

unfoldable pub artifact_keys : Table Asset → List String
artifact_keys [] = []
artifact_keys (a ∷ t) = version_keys a.1.versions ++ artifact_keys t

-- `Promise.allSettled(keys.map((key) => this.storageService.delete(key)))`
unfoldable pub delete_file : String → List String → List String
delete_file key files = filterb (λ f. not (f =ₛ key)) files

unfoldable pub delete_files : List String → List String → List String
delete_files [] files = files
delete_files (k ∷ ks) files = delete_files ks (delete_file k files)

-- `asset.deleteMany({ where: { id: { in: ids } } })`
unfoldable pub delete_assets : Table Asset → Table Asset → Table Asset
delete_assets gone t = filterb (λ a. not (is_some (lookup a.0 gone))) t

-- `cleanupOutputArtifacts`
unfoldable pub cleanup_output_artifacts : Outside → ℕ → Task (Unit {0})
cleanup_output_artifacts w id = do
  found ← query w.meanwhile (gets (λ db. artifacts id db.assets))
  change (λ s. record s { files = delete_files (artifact_keys found) s.files })
  if is_empty found
      then return tt
      else query w.meanwhile (modify (λ db. record db { assets = delete_assets found db.assets }))

abbrev pub is_input_image : ℕ → ℕ → Asset → Bool
is_input_image id _ a =
    belongs_to id a
    && (elim a.asset_type [ AssetType.image ↦ true | _ ↦ false ]
        && elim a.role [ AssetRole.input ↦ true | _ ↦ false ])

-- `resolveInputAsset`
unfoldable pub resolve_input_asset : Outside → ℕ → GenerateJob → Task (Option Asset)
resolve_input_asset w id job = do
  chosen ←
      case_option job.extra_config.input_asset_id (return none)
        (λ a. query w.meanwhile (gets (λ db. lookup a db.assets)))
  case_option chosen
      (query w.meanwhile
        (gets (λ db. map_option (λ r. r.1) (find_row (is_input_image id) db.assets))))
      (λ a. return (some a))

-- `versions: { orderBy: { version: 'desc' }, take: 1 }`
unfoldable pub latest_version : List AssetVersion → Option AssetVersion
latest_version [] = none
latest_version (v ∷ vs) =
    let rest = latest_version vs in
    some (case_option rest v (λ u. if ltb v.version u.version then u else v))

-- The signed URL of the input image.
unfoldable pub sign_input : Outside → GenerateJob → Option Asset → Task (Option String)
sign_input w job none =
    if is_i2v job.extra_config.workflow
    then throw_error "Input asset is required for the workflow"
    else return none
sign_input w job (some a) =
    case_option (latest_version a.versions) (throw_error "Input asset has no versions")
      λ v. do url ← await (w.download_signed_url v.object_key); return (some url)
