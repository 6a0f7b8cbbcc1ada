-- ===== src/Jobs/Create/Terms.antt =====
-- What `createVideoJob` of src/modules/jobs/jobs.service.ts computes: the role in force, the quota of
-- the day, the provider plan, and the rows that it writes.
use Prim.Native.String.{◌++◌ as ◌++ₛ◌}
use neura_gen.Base.{
  ℕ, ◌+◌, ◌-◌, ◌/◌, min, String, Bool, true, false, ◌&&◌, ◌==◌, ◌=ₛ◌, Option, none, some, get_or,
  List, [], ◌∷◌, case_option, show, is_some, if◌then◌else◌, pos, neg_ℕ, ltb,
}
use neura_gen.Store.{
  User, UserRole, JobStatus, AssetRole, CreditReason, CreditTransaction, TransactionMetadata,
  UserDailyUsage, GenerateJob, Workflow, ProviderName,
}
use neura_gen.Jobs.Catalog.{VideoGenerationPreset, tier_text, pro_daily_free_premium_credits}

pub record CreateVideoJobDto : Type 0 where
  pub input_asset_id : Option ℕ
  pub prompt : String
  pub negative_prompt : Option String
  pub preset_id : Option String
  pub include_background_audio : Option Bool

abbrev pub is_i2v : Workflow → Bool
is_i2v Workflow.i2v = true
is_i2v Workflow.ti2v = false
is_i2v Workflow.t2v = false

abbrev pub is_input : AssetRole → Bool
is_input AssetRole.input = true
is_input AssetRole.output = false
is_input AssetRole.thumbnail = false
is_input AssetRole.preview = false
is_input AssetRole.temp = false

abbrev pub is_empty {ℓ} : {A : Type ℓ} → List A → Bool
is_empty [] = true
is_empty (x ∷ xs) = false

-- `resolveEffectiveRole`
abbrev pub resolve_effective_role : ℕ → UserRole → Option ℕ → UserRole
resolve_effective_role now UserRole.free expires = UserRole.free
resolve_effective_role now UserRole.admin expires = UserRole.admin
resolve_effective_role now UserRole.pro none = UserRole.free
resolve_effective_role now UserRole.pro (some t) = if ltb now t then UserRole.pro else UserRole.free

abbrev pub same_role : UserRole → UserRole → Bool
same_role UserRole.free UserRole.free = true
same_role UserRole.pro UserRole.pro = true
same_role UserRole.admin UserRole.admin = true
same_role _ _ = false

-- `tx.user.update` of a role that has run out.
abbrev pub with_role : UserRole → User → User
with_role UserRole.free u = record u { role = UserRole.free; pro_expires_at = none }
with_role r u = record u { role = r }

-- `resolveExecutionWorkflow`
abbrev pub resolve_execution_workflow : Workflow → Bool → Workflow
resolve_execution_workflow Workflow.ti2v has_input =
    if has_input then Workflow.i2v else Workflow.t2v
resolve_execution_workflow Workflow.i2v has_input = Workflow.i2v
resolve_execution_workflow Workflow.t2v has_input = Workflow.t2v

-- `getBusinessDateKey`: the day in Vietnam, seven hours ahead, numbered from 1970.
abbrev pub get_business_date_key : ℕ → ℕ
get_business_date_key now = (now + 25200000) / 86400000

-- `resolveProviderName` and `resolveProviderPlan`
abbrev pub resolve_provider_name : Option String → ProviderName → ProviderName
resolve_provider_name none d = d
resolve_provider_name (some s) d =
    if s =ₛ "vast" then ProviderName.vast else if s =ₛ "modal" then ProviderName.modal else d

abbrev pub plan_of : ProviderName → ProviderName → List ProviderName
plan_of ProviderName.vast ProviderName.vast = ProviderName.vast ∷ []
plan_of ProviderName.modal ProviderName.modal = ProviderName.modal ∷ []
plan_of primary fallback = primary ∷ fallback ∷ []

unfoldable pub resolve_provider_plan : (String → Option String) → List ProviderName
resolve_provider_plan env =
    plan_of (resolve_provider_name (env "VIDEO_PROVIDER_PRIMARY") ProviderName.vast)
      (resolve_provider_name (env "VIDEO_PROVIDER_FALLBACK") ProviderName.modal)

abbrev pub is_usage_of : ℕ → ℕ → UserDailyUsage → Bool
is_usage_of user_id date_key u = (u.user_id == user_id) && (u.date_key == date_key)

-- The free credits that a user has used on a day; no row is none.
unfoldable pub used_on : ℕ → ℕ → List UserDailyUsage → ℕ
used_on user_id date_key [] = 0
used_on user_id date_key (u ∷ us) =
    if is_usage_of user_id date_key u
    then u.premium_free_credits_used
    else used_on user_id date_key us

-- `userDailyUsage.upsert` and the increment after it.
unfoldable pub add_usage : ℕ → ℕ → ℕ → List UserDailyUsage → List UserDailyUsage
add_usage user_id date_key n [] =
    record { user_id = user_id; date_key = date_key; premium_free_credits_used = n } ∷ []
add_usage user_id date_key n (u ∷ us) =
    if is_usage_of user_id date_key u
    then record u { premium_free_credits_used = u.premium_free_credits_used + n } ∷ us
    else u ∷ add_usage user_id date_key n us

-- `Math.min(preset.creditCost, Math.max(0, limit - used))`
abbrev pub free_credits : ℕ → ℕ → ℕ
free_credits cost used = min cost (pro_daily_free_premium_credits - used)

abbrev pub free_usage_row :
    ℕ → ℕ → CreateVideoJobDto → VideoGenerationPreset → ℕ → CreditTransaction
free_usage_row user_id date_key dto preset free = record {
  user_id = user_id;
  amount = pos 0;
  reason = CreditReason.pro_daily_free_usage;
  metadata = TransactionMetadata.free_usage dto.input_asset_id dto.prompt preset.id date_key free;
}

abbrev pub is_pro : UserRole → Bool
is_pro UserRole.pro = true
is_pro UserRole.free = false
is_pro UserRole.admin = false

abbrev pub is_admin : UserRole → Bool
is_admin UserRole.admin = true
is_admin UserRole.free = false
is_admin UserRole.pro = false

abbrev pub charge_row :
    ℕ → CreateVideoJobDto → VideoGenerationPreset → (charged free : ℕ) → CreditTransaction
charge_row user_id dto preset charged free = record {
  user_id = user_id;
  amount = neg_ℕ charged;
  reason = CreditReason.create_image_to_video_job;
  metadata =
      TransactionMetadata.charge dto.input_asset_id dto.prompt preset.id preset.credit_cost charged
        free;
}

abbrev pub new_job :
    (String → Option String)
    → ℕ
    → CreateVideoJobDto
    → VideoGenerationPreset
    → (charged free : ℕ) → GenerateJob
new_job env user_id dto preset charged free =
    let workflow = resolve_execution_workflow preset.workflow (is_some dto.input_asset_id) in
    record {
      user_id = user_id;
      status = JobStatus.pending;
      prompt = dto.prompt;
      negative_prompt = dto.negative_prompt;
      model_name = preset.model_name;
      turbo_enabled = preset.turbo_enabled;
      progress = 0;
      credit_cost = charged;
      provider = some preset.provider;
      extra_config = record {
        input_asset_id = dto.input_asset_id;
        preset_id = preset.id;
        workflow = workflow;
        provider_plan = resolve_provider_plan env;
        preset_workflow = preset.workflow;
        input_mode = workflow;
        include_background_audio = get_or dto.include_background_audio true;
        base_credit_cost = preset.credit_cost;
        charged_credit_cost = charged;
        free_credit_applied = free;
      };
      error_message = none;
      started_at = none;
      completed_at = none;
      failed_at = none;
    }

abbrev pub workflow_text : Workflow → String
workflow_text Workflow.i2v = "I2V"
workflow_text Workflow.ti2v = "TI2V"
workflow_text Workflow.t2v = "T2V"

-- The logs that a new job is created with, in their order.
unfoldable pub creation_messages : VideoGenerationPreset → GenerateJob → List String
creation_messages preset job =
    "Job created"
    ∷ case_option job.extra_config.input_asset_id "Input asset: none (text-only mode)"
        (λ asset. "Input asset: " ++ₛ show asset)
    ∷ ("Execution workflow: " ++ₛ workflow_text job.extra_config.workflow)
    ∷ ("Preset capability: " ++ₛ workflow_text preset.workflow)
    ∷ ("Base credit cost: " ++ₛ show preset.credit_cost)
    ∷ ("Free credit applied: " ++ₛ show job.extra_config.free_credit_applied)
    ∷ ("Credit charged: " ++ₛ show job.credit_cost)
    ∷ ("Preset selected: " ++ₛ preset.id)
    ∷ ("Tier selected: " ++ₛ tier_text preset.tier)
    ∷ ("Background audio: " ++ₛ (if job.extra_config.include_background_audio then "on" else "off"))
    ∷ ("Estimated runtime: " ++ₛ show preset.estimated_duration_seconds ++ₛ "s")
    ∷ []
