-- ===== src/Jobs/Create.antt =====
-- `JobsService.createVideoJob` (src/modules/jobs/jobs.service.ts): the checks, the transaction that
-- charges, the queue. `process.env` gives the provider plan. The notifications to the browser are
-- left out, since they change no stored state.
mod Terms
unfoldable pub use Terms.*
use Prim.Native.String.{◌++◌ as ◌++ₛ◌}
use neura_gen.Base.{
  ℤ, ℕ, ◌+◌, ◌-◌, ◌/◌, min, String, Bool, true, false, not, ◌&&◌, ◌==◌, ◌=ₛ◌, Option, none, some,
  get_or, List, [], ◌∷◌, case_option, lookup, put, show, update, is_some, if◌then◌else◌, pos, neg_ℕ,
  ltb_ℤ, ltb,
}
use neura_gen.Store.{
  User, UserRole, JobStatus, AssetRole, CreditReason, CreditTransaction, TransactionMetadata,
  UserDailyUsage, GenerateJob, JobLog, Workflow, ProviderName, Error, ok, err, Action, pure, throw,
  gets, or_throw, throw_if, when, modify, transaction, ◌>>=◌, ◌>>◌,
}
use neura_gen.Credits.{decrement_wallet, create_transaction, refund_credit_if_missing}
use neura_gen.Jobs.Catalog.{
  VideoGenerationPreset, tier_text, resolve_video_preset, is_pro_only_preset,
  pro_daily_free_premium_credits,
}

-- The checks on the input asset.
unfoldable pub check_input_asset : ℕ → CreateVideoJobDto → Workflow → Action (Unit {0})
check_input_asset user_id dto w =
    case_option dto.input_asset_id
      (throw_if (is_i2v w)
        (Error.bad_request "Preset requires inputAssetId for image-conditioned generation"))
      λ asset_id. do
        found ← gets (λ db. lookup asset_id db.assets)
        asset ← or_throw (Error.not_found "Input asset not found") found
        throw_if (not (asset.user_id == user_id))
            (Error.bad_request "Input asset does not belong to the user")
        throw_if (not (is_input asset.role)) (Error.bad_request "Asset role must be 'INPUT'")
        throw_if (is_empty asset.versions) (Error.bad_request "Input asset has no versions")

-- The free credits of the day that the job uses up, with their two rows. The row of the day is
-- there afterwards even if nothing is left to use.
unfoldable pub apply_daily_free :
    ℕ → ℕ → UserRole → CreateVideoJobDto → VideoGenerationPreset → Action ℕ
unfolding create_transaction
apply_daily_free now user_id role dto preset db =
    let day = get_business_date_key now in
    let free = free_credits preset.credit_cost (used_on user_id day db.usages) in
    if is_pro role && is_pro_only_preset preset.id
    then (do
      modify (λ db. record db { usages = add_usage user_id day free db.usages })
      when (ltb 0 free) (create_transaction (free_usage_row user_id day dto preset free))
      pure free)
        db
    else (ok 0, db)

-- The charge, to a wallet that held `balance` when it was read.
unfoldable pub charge_balance :
    ℕ
    → CreateVideoJobDto
    → VideoGenerationPreset
    → (balance : ℤ) → (charged free : ℕ) → Action (Unit {0})
charge_balance user_id dto preset balance charged free = do
  throw_if (ltb_ℤ balance (pos charged)) (Error.bad_request "Not enough credit")
  decrement_wallet user_id charged
  create_transaction (charge_row user_id dto preset charged free)

-- The charge to the wallet, if anything is left to pay.
unfoldable pub charge_wallet :
    ℕ → CreateVideoJobDto → VideoGenerationPreset → (charged free : ℕ) → Action (Unit {0})
charge_wallet user_id dto preset charged free = when (ltb 0 charged) do
  wallet ← gets (λ db. lookup user_id db.wallets)
  balance ← or_throw (Error.not_found "User credit wallet not found") wallet
  charge_balance user_id dto preset balance charged free

-- The newest log comes first.
abbrev pub log_all : ℕ → List String → List JobLog → List JobLog
log_all id [] logs = logs
log_all id (m ∷ ms) logs = log_all id ms (record { job_id = id; message = m } ∷ logs)

-- `tx.generateJob.create`, with its logs.
unfoldable pub insert_job : ℕ → GenerateJob → List String → Action GenerateJob
insert_job id job messages db =
    if is_some (lookup id db.jobs)
    then (err Error.unique_violation, db)
    else (ok job, record db { jobs = put id job db.jobs; logs = log_all id messages db.logs })

-- The role that has run out is written back.
unfoldable pub refresh_role : ℕ → ℕ → User → Action UserRole
refresh_role now user_id user db =
    let role = resolve_effective_role now user.role user.pro_expires_at in
    if same_role user.role role
    then (ok role, db)
    else (ok role, record db { users = update user_id (with_role role) db.users })

-- What the transaction does for a user in that role: the free credits, the charge, the job.
unfoldable pub charge_job :
    (String → Option String)
    → (now id user_id : ℕ) → UserRole
    → CreateVideoJobDto
    → VideoGenerationPreset
    → Action GenerateJob
charge_job env now id user_id role dto preset = do
  throw_if (is_pro_only_preset preset.id && (not (is_pro role) && not (is_admin role)))
      (Error.forbidden "This preset is available for PRO users only.")
  free ← apply_daily_free now user_id role dto preset
  charge_wallet user_id dto preset (preset.credit_cost - free) free
  let job = new_job env user_id dto preset (preset.credit_cost - free) free
  insert_job id job (creation_messages preset job)

-- The transaction of `createVideoJob`.
unfoldable pub charge_and_create :
    (String → Option String)
    → (now id user_id : ℕ) → CreateVideoJobDto
    → VideoGenerationPreset
    → Action GenerateJob
charge_and_create env now id user_id dto preset = transaction do
  found ← gets (λ db. lookup user_id db.users)
  user ← or_throw (Error.not_found "User not found") found
  role ← refresh_role now user_id user
  charge_job env now id user_id role dto preset

-- `tx.generateJob.update` and `tx.jobLog.create`.
unfoldable pub update_job : ℕ → (GenerateJob → GenerateJob) → Action (Unit {0})
update_job id f db =
    case_option (lookup id db.jobs) (err Error.record_not_found, db)
      (λ _. (ok tt, record db { jobs = update id f db.jobs }))

unfoldable pub add_log : ℕ → String → Action (Unit {0})
add_log id message db =
    (ok tt, record db { logs = record { job_id = id; message = message } ∷ db.logs })

abbrev pub failed_job : ℕ → String → GenerateJob → GenerateJob
failed_job now message j = record j {
  status = JobStatus.failed;
  error_message = some message;
  failed_at = some now;
}

-- The queue refused the job: it fails and is refunded.
unfoldable pub fail_enqueue : ℕ → ℕ → GenerateJob → String → Action (Unit {0})
fail_enqueue now id job message = transaction do
  update_job id (failed_job now message)
  refund_credit_if_missing id job CreditReason.refund_failed_job (some message)
  add_log id message

abbrev pub queued_job : GenerateJob → GenerateJob
queued_job j = record j { status = JobStatus.queued; progress = 1 }

unfoldable pub mark_queued : ℕ → Action (Unit {0})
mark_queued id = transaction do update_job id queued_job; add_log id "Job queued"

pub record JobCreated : Type 0 where
  pub job_id : ℕ
  pub credit_cost : ℕ
  pub preset_id : String
  pub include_background_audio : Bool

-- What `videoQueue.add` did: none is success, some its error.
unfoldable pub enqueue :
    ℕ → ℕ → GenerateJob → VideoGenerationPreset → Option String → Action JobCreated
enqueue now id job preset none = do
  mark_queued id
  pure (record {
    job_id = id;
    credit_cost = job.credit_cost;
    preset_id = preset.id;
    include_background_audio = job.extra_config.include_background_audio;
  })
enqueue now id job preset (some message) = do
  fail_enqueue now id job ("Queue enqueue failed: " ++ₛ message)
  throw (Error.unavailable "Failed to queue video job. Credits were refunded.")

-- `createVideoJob`; `id` is the identifier drawn for the row.
unfoldable pub create_video_job :
    (String → Option String)
    → (now id user_id : ℕ) → CreateVideoJobDto
    → (queue : Option String) → Action JobCreated
create_video_job env now id user_id dto queue =
    case_option (resolve_video_preset dto.preset_id)
      (throw (Error.bad_request "Unsupported video preset"))
      λ preset. do
        check_input_asset user_id dto preset.workflow
        job ← charge_and_create env now id user_id dto preset
        enqueue now id job preset queue
