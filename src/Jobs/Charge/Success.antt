-- ===== src/Jobs/Charge/Success.antt =====
-- The path of `createVideoJob` (src/modules/jobs/jobs.service.ts) without an exception.
use neura_gen.Base.{
  ℕ, ◌≡◌, refl, false, not, ◌&&◌, ◌-◌, Option, some, none, String, List, ltb, ltb_ℤ, ℤ, pos, lookup,
  lookup-put, lookup-update, ==_refl, Bool-cases, inl, inr,
}
use neura_gen.Store.{JobStatus, err, Db, User, UserRole, GenerateJob, Result, ok}
use neura_gen.Store.Rules.{Ensures, Returns, after-Returns, roll_back-Returns, Returns-Ensures}
use neura_gen.Credits.{decrement_wallet, create_transaction}
use neura_gen.Jobs.Catalog.{VideoGenerationPreset, is_pro_only_preset, resolve_video_preset}
use neura_gen.Jobs.Create.{
  charge_balance, CreateVideoJobDto, JobCreated, charge_job, charge_wallet, apply_daily_free,
  refresh_role, insert_job, charge_and_create, queued_job, resolve_effective_role, same_role,
  is_pro, is_admin, free_credits, used_on, get_business_date_key, enqueue, mark_queued, update_job,
  add_log, check_input_asset, create_video_job,
}
use neura_gen.Jobs.Charge.{
  charge_balance, IsFree, IsPaidFor, apply_daily_free-IsFree, charge_wallet-IsPaidFor, free_share,
}
use neura_gen.Jobs.Charge.Outcome.{
  Charges, charge_and_create-Charges, IsRefreshed, refresh_role-IsRefreshed,
}

apply_daily_free_never_throws :
    (now user_id : ℕ) (role : UserRole) (dto : CreateVideoJobDto) (preset : VideoGenerationPreset)
    (db : Db)
    → Returns (λ _ _. Unit) (apply_daily_free now user_id role dto preset db)
unfolding apply_daily_free
apply_daily_free_never_throws now user_id role dto preset db =
    elim (Bool-cases (is_pro role && is_pro_only_preset preset.id)) [
      | inr paid ↦ rw paid tt
      | inl premium ↦
          elim (Bool-cases (
            ltb 0 (
              free_credits preset.credit_cost
                (used_on user_id (get_business_date_key now) db.usages)))) [
                  | inl left_over ↦ rw (premium, left_over) tt
                  | inr used_up ↦ rw (premium, used_up) tt
                ]
    ]

apply_daily_free-Returns :
    (now user_id : ℕ) (role : UserRole) (dto : CreateVideoJobDto) (preset : VideoGenerationPreset)
    (db : Db)
    → Returns
        (IsFree now user_id role dto preset db)
        (apply_daily_free now user_id role dto preset db)
apply_daily_free-Returns now user_id role dto preset db =
    Returns-Ensures _ (apply_daily_free now user_id role dto preset db)
      (apply_daily_free-IsFree now user_id role dto preset db)
      (apply_daily_free_never_throws now user_id role dto preset db)

charge_wallet_enough :
    (user_id : ℕ) (dto : CreateVideoJobDto) (preset : VideoGenerationPreset) (charged free : ℕ)
    (db : Db) (b : ℤ)
    → lookup user_id db.wallets ≡ some b
    → ltb_ℤ b (pos charged) ≡ false
    → Returns (λ _ _. Unit) (charge_wallet user_id dto preset charged free db)
unfolding charge_wallet charge_balance decrement_wallet create_transaction
charge_wallet_enough user_id dto preset charged free db b wallet enough =
    elim (Bool-cases (ltb 0 charged)) [
      | inl due ↦ rw (due, wallet, enough, wallet) tt
      | inr nothing ↦ rw nothing tt
    ]

charge_wallet-Returns :
    (user_id : ℕ) (dto : CreateVideoJobDto) (preset : VideoGenerationPreset) (charged free : ℕ)
    (db : Db) (b : ℤ)
    → lookup user_id db.wallets ≡ some b
    → ltb_ℤ b (pos charged) ≡ false
    → Returns
        (λ _ d. IsPaidFor user_id dto preset charged free db d)
        (charge_wallet user_id dto preset charged free db)
charge_wallet-Returns user_id dto preset charged free db b wallet enough =
    Returns-Ensures _ (charge_wallet user_id dto preset charged free db)
      (charge_wallet-IsPaidFor user_id dto preset charged free db)
      (charge_wallet_enough user_id dto preset charged free db b wallet enough)

insert_job-Returns :
    (id : ℕ) (job : GenerateJob) (messages : List String) (db : Db)
    → lookup id db.jobs ≡ none
    → Returns (λ _ _. Unit) (insert_job id job messages db)
unfolding insert_job
insert_job-Returns id job messages db fresh = rw fresh tt

refresh_role_never_throws :
    (now user_id : ℕ) (user : User) (db : Db)
    → Returns (λ _ _. Unit) (refresh_role now user_id user db)
unfolding refresh_role
refresh_role_never_throws now user_id user db =
    elim (Bool-cases
      (same_role user.role (resolve_effective_role now user.role user.pro_expires_at))) [
        | inl kept ↦ rw kept tt
        | inr lapsed ↦ rw lapsed tt
      ]

refresh_role-Returns :
    (now user_id : ℕ) (user : User) (db : Db)
    → Returns (IsRefreshed now user db) (refresh_role now user_id user db)
refresh_role-Returns now user_id user db =
    Returns-Ensures _ (refresh_role now user_id user db)
      (refresh_role-IsRefreshed now user_id user db) (refresh_role_never_throws now user_id user db)

charge_job-Returns :
    (env : String → Option String) (now id user_id : ℕ) (role : UserRole) (dto : CreateVideoJobDto)
    (preset : VideoGenerationPreset) (db : Db) (b : ℤ)
    → (is_pro_only_preset preset.id && (not (is_pro role) && not (is_admin role))) ≡ false
    → lookup user_id db.wallets ≡ some b
    → ltb_ℤ b (pos (preset.credit_cost - free_share now user_id role preset db.usages)) ≡ false
    → lookup id db.jobs ≡ none
    → Returns (λ _ _. Unit) (charge_job env now id user_id role dto preset db)
unfolding charge_job
charge_job-Returns env now id user_id role dto preset db b allowed wallet enough fresh =
    rw allowed (
      after-Returns (IsFree now user_id role dto preset db) (λ _ _. Unit) _ _
        (apply_daily_free-Returns now user_id role dto preset db)
        λ free db₁ f.
          after-Returns (λ _ d. IsPaidFor user_id dto preset (preset.credit_cost - free) free db₁ d)
            (λ _ _. Unit) _ _
            (charge_wallet-Returns user_id dto preset (preset.credit_cost - free) free db₁ b
              (rw f.wallets wallet) (rw f.share enough))
            λ _ db₂ p. insert_job-Returns id _ _ db₂ (rw (p.jobs, f.jobs) fresh))

charge_and_create-Returns :
    (env : String → Option String) (now id user_id : ℕ) (dto : CreateVideoJobDto)
    (preset : VideoGenerationPreset) (db : Db) (user : User) (b : ℤ)
    → lookup user_id db.users ≡ some user
    → (is_pro_only_preset preset.id
        && (not (is_pro (resolve_effective_role now user.role user.pro_expires_at))
            && not (is_admin (resolve_effective_role now user.role user.pro_expires_at))))
      ≡ false
    → lookup user_id db.wallets ≡ some b
    → ltb_ℤ b (
        pos (
          preset.credit_cost
          - free_share now user_id
              (resolve_effective_role now user.role user.pro_expires_at)
              preset
              db.usages))
      ≡ false
    → lookup id db.jobs ≡ none
    → Returns (λ _ _. Unit) (charge_and_create env now id user_id dto preset db)
unfolding charge_and_create
charge_and_create-Returns env now id user_id dto preset db user b found allowed wallet enough
      fresh =
    rw found (
      roll_back-Returns (λ _ _. Unit) db _
        (after-Returns (IsRefreshed now user db) (λ _ _. Unit) _ _
          (refresh_role-Returns now user_id user db)
          λ role db₁ r.
            charge_job-Returns env now id user_id role dto preset db₁ b (rw r.same allowed)
              (rw r.wallets wallet) (rw (r.same, r.usages) enough) (rw r.jobs fresh)))

-- The transaction's effect on the table of jobs.
stored_job :
    (now id user_id : ℕ) (dto : CreateVideoJobDto) (preset : VideoGenerationPreset) (db : Db)
    (r : Result GenerateJob × Db)
    → Charges now id user_id dto preset db r
    → Ensures (λ job d. lookup id d.jobs ≡ some job) r
stored_job now id user_id dto preset db (err e, db') h = tt
stored_job now id user_id dto preset db (ok job, db') (user, _, c) =
    rw (c.jobs, lookup-put id id job db.jobs, ==_refl id) refl

-- The answer is about the job `id`, which waits in the queue.
abbrev pub IsQueued : ℕ → JobCreated → Db → Type 0
IsQueued id created db =
    (created.job_id ≡ id)
    × (job : GenerateJob) × (lookup id db.jobs ≡ some job)
    × (job.status ≡ JobStatus.queued)

enqueue-IsQueued :
    (now id : ℕ) (job : GenerateJob) (preset : VideoGenerationPreset) (db : Db)
    → lookup id db.jobs ≡ some job
    → Returns (IsQueued id) (enqueue now id job preset none db)
unfolding enqueue mark_queued update_job add_log
enqueue-IsQueued now id job preset db stored = rw stored (
  refl,
  queued_job job,
  rw (lookup-update id id queued_job db.jobs, ==_refl id, stored) refl,
  refl,
)

-- A request is served when its preset exists, its input asset is accepted, the user may use the
-- preset, the wallet covers what the day's free credits leave to pay, the identifier is new, and
-- the queue takes the job: the call returns, and the job is stored as queued.
pub create_video_job-IsQueued :
    (env : String → Option String) (now id user_id : ℕ) (dto : CreateVideoJobDto)
    (preset : VideoGenerationPreset) (db : Db) (user : User) (b : ℤ)
    → resolve_video_preset dto.preset_id ≡ some preset
    → check_input_asset user_id dto preset.workflow db ≡ (ok tt, db)
    → lookup user_id db.users ≡ some user
    → (is_pro_only_preset preset.id
        && (not (is_pro (resolve_effective_role now user.role user.pro_expires_at))
            && not (is_admin (resolve_effective_role now user.role user.pro_expires_at))))
      ≡ false
    → lookup user_id db.wallets ≡ some b
    → ltb_ℤ b (
        pos (
          preset.credit_cost
          - free_share now user_id
              (resolve_effective_role now user.role user.pro_expires_at)
              preset
              db.usages))
      ≡ false
    → lookup id db.jobs ≡ none
    → Returns (IsQueued id) (create_video_job env now id user_id dto none db)
unfolding create_video_job
create_video_job-IsQueued env now id user_id dto preset db user b known accepted found allowed
      wallet enough fresh =
    rw (known, accepted)
      (after-Returns (λ job d. lookup id d.jobs ≡ some job) (IsQueued id)
        (charge_and_create env now id user_id dto preset db) _
        (Returns-Ensures _ (charge_and_create env now id user_id dto preset db)
          (stored_job now id user_id dto preset db _
            (charge_and_create-Charges env now id user_id dto preset db))
          (charge_and_create-Returns env now id user_id dto preset db user b found allowed wallet
            enough fresh))
        λ job db₁ stored. enqueue-IsQueued now id job preset db₁ stored)
