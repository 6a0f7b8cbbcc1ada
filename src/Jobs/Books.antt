-- ===== src/Jobs/Books.antt =====
-- Jobs and the machine of the books (src/modules/jobs/jobs.service.ts).
use neura_gen.Base.{
  ℕ, ◌≡◌, refl, Bool, true, false, not, List, ◌&&◌, Option, none, some, String, pos, ◌-ℤ◌, +ℤ-neg_ℕ,
  ltb, ltb_ℤ, ◌-◌, ℤ, ◌≤ℤ◌, ◌≤◌, ◌+◌, ◌⊎◌, ◌==◌, lookup, Bool-cases, Option-cases, inl, inr, arith,
  is_some,
}
use neura_gen.Store.{
  when, transaction, Workflow, User, Db, CreditReason, GenerateJob, UserRole, ◌>>◌,
}
use neura_gen.Store.Rules.{roll_back-Leaves, rolled, Ensures, after-Ensures, after-Leaves}
use neura_gen.Credits.{decrement_wallet, create_transaction, refund_credit_if_missing}
use neura_gen.Ledger.Steps.{free-Reaches, Reaches, IsRun, entry-Reaches, same-Reaches}
use neura_gen.Ledger.Refunds.{refund_credit_if_missing-Reaches}
use neura_gen.Jobs.Catalog.{
  resolve_video_preset, VideoGenerationPreset, is_pro_only_preset, pro_daily_free_premium_credits,
}
use neura_gen.Jobs.Cancel.{is_running, refusal, Removal, finish_cancel, cancel_job}
use neura_gen.Jobs.Create.{
  charge_balance, charge_job, queued_job, is_admin, free_usage_row, get_business_date_key,
  resolve_effective_role, used_on, same_role, free_credits, is_pro, CreateVideoJobDto,
  charge_wallet, charge_row, apply_daily_free, refresh_role, insert_job, update_job, add_log,
  charge_and_create, fail_enqueue, mark_queued, enqueue, create_video_job, check_input_asset,
}

-- The free credits of a job stay within what is left of the day.
free_credits_quota :
    (cost used : ℕ)
    → (free_credits cost used ≡ 0)
      ⊎ (used + free_credits cost used ≤ pro_daily_free_premium_credits)
free_credits_quota cost used = ground arith

covered : (b : ℤ) (n : ℕ) → ltb_ℤ b (pos n) ≡ false → pos 0 ≤ℤ (b -ℤ pos n)
unfolding ◌-ℤ◌
covered b n h = ground arith

charge_wallet-Reaches :
    {start : Db} (user_id : ℕ) (dto : CreateVideoJobDto) (preset : VideoGenerationPreset)
    (charged free : ℕ) (db : Db)
    → Reaches start db
    → Ensures (λ _ db'. Reaches start db') (charge_wallet user_id dto preset charged free db)
unfolding charge_wallet charge_balance decrement_wallet create_transaction
charge_wallet-Reaches user_id dto preset charged free db h = elim (Bool-cases (ltb 0 charged)) [
  | inr nothing ↦ rw nothing h
  | inl due ↦ elim (Option-cases (lookup user_id db.wallets)) [
    | inl missing ↦ rw (due, missing) tt
    | inr (b, found) ↦ elim (Bool-cases (ltb_ℤ b (pos charged))) [
      | inl short ↦ rw (due, found, short) tt
      | inr enough ↦
          rw (due, found, enough, found)
            (entry-Reaches user_id (b -ℤ pos charged) (charge_row user_id dto preset charged free)
              db _ h refl (rw (found, +ℤ-neg_ℕ b charged) refl) (inr (covered b charged enough))
              refl refl refl)
    ]
  ]
]

apply_daily_free-Reaches :
    {start : Db} (now user_id : ℕ) (role : UserRole) (dto : CreateVideoJobDto)
    (preset : VideoGenerationPreset) (db : Db)
    → Reaches start db
    → Ensures (λ _ db'. Reaches start db') (apply_daily_free now user_id role dto preset db)
unfolding apply_daily_free
apply_daily_free-Reaches now user_id role dto preset db h =
    let day = get_business_date_key now in
    let n = free_credits preset.credit_cost (used_on user_id day db.usages) in
    let used_up_by = free-Reaches user_id day n (free_usage_row user_id day dto preset n) in
    let quota = free_credits_quota preset.credit_cost (used_on user_id day db.usages) in
    elim (Bool-cases (is_pro role && is_pro_only_preset preset.id)) [
      | inr paid ↦ rw paid h
      | inl premium ↦ elim (Bool-cases (ltb 0 n)) [
        | inr used_up ↦
            rw (premium, used_up) (used_up_by db _ h refl quota refl (rw used_up refl) refl)
        | inl some_left ↦
            rw (premium, some_left) (used_up_by db _ h refl quota refl (rw some_left refl) refl)
      ]
    ]

refresh_role-Reaches :
    {start : Db} (now user_id : ℕ) (user : User) (db : Db)
    → Reaches start db
    → Ensures (λ _ db'. Reaches start db') (refresh_role now user_id user db)
unfolding refresh_role
refresh_role-Reaches now user_id user db h =
    elim (Bool-cases
      (same_role user.role (resolve_effective_role now user.role user.pro_expires_at))) [
        | inl same ↦ rw same h
        | inr lapsed ↦ rw lapsed (same-Reaches db _ h refl refl refl)
      ]

insert_job-Reaches :
    {start : Db} (id : ℕ) (job : GenerateJob) (messages : List String) (db : Db)
    → Reaches start db
    → Ensures (λ _ db'. Reaches start db') (insert_job id job messages db)
unfolding insert_job
insert_job-Reaches id job messages db h = elim (Bool-cases (is_some (lookup id db.jobs))) [
  | inl taken ↦ rw taken tt
  | inr fresh ↦ rw fresh (same-Reaches db _ h refl refl refl)
]

charge_job-Reaches :
    {start : Db} (env : String → Option String) (now id user_id : ℕ) (role : UserRole)
    (dto : CreateVideoJobDto) (preset : VideoGenerationPreset) (db : Db)
    → Reaches start db
    → Ensures (λ _ db'. Reaches start db') (charge_job env now id user_id role dto preset db)
unfolding charge_job
charge_job-Reaches {start = start} env now id user_id role dto preset db h =
    elim (Bool-cases (is_pro_only_preset preset.id && (not (is_pro role) && not (is_admin role)))) [
      | inl forbidden ↦ rw forbidden tt
      | inr allowed ↦ rw allowed (
          after-Ensures (λ _ d. Reaches start d) (λ _ d. Reaches start d) _ _
            (apply_daily_free-Reaches now user_id role dto preset db h)
            λ free db₁ h₁.
              after-Ensures (λ _ d. Reaches start d) (λ _ d. Reaches start d) _ _
                (charge_wallet-Reaches user_id dto preset (preset.credit_cost - free) free db₁ h₁)
                λ _ db₂ h₂. insert_job-Reaches id _ _ db₂ h₂)
    ]

-- The transaction of `createVideoJob`.
pub charge_and_create-Reaches :
    {start : Db} (env : String → Option String) (now id user_id : ℕ) (dto : CreateVideoJobDto)
    (preset : VideoGenerationPreset)
    → IsRun start (charge_and_create env now id user_id dto preset)
unfolding charge_and_create
charge_and_create-Reaches {start = start} env now id user_id dto preset db h =
    elim (Option-cases (lookup user_id db.users)) [
      | inl missing ↦ rw missing h
      | inr (user, found) ↦ rw found (
          rolled (Reaches _) db _ h (
            after-Ensures (λ _ d. Reaches start d) (λ _ d. Reaches start d) _ _
              (refresh_role-Reaches now user_id user db h)
              λ role db₁ h₁. charge_job-Reaches env now id user_id role dto preset db₁ h₁))
    ]

pub check_input_asset-same :
    (user_id : ℕ) (dto : CreateVideoJobDto) (w : Workflow) (db : Db)
    → (check_input_asset user_id dto w db).1 ≡ db
unfolding check_input_asset
check_input_asset-same user_id dto w db = ground arith

pub update_job-Reaches :
    {start : Db} (id : ℕ) (f : GenerateJob → GenerateJob) → IsRun start (update_job id f)
unfolding update_job
update_job-Reaches id f db h = elim (Option-cases (lookup id db.jobs)) [
  | inl missing ↦ rw missing h
  | inr (job, found) ↦ rw found (same-Reaches db _ h refl refl refl)
]

pub add_log-Reaches : {start : Db} (id : ℕ) (message : String) → IsRun start (add_log id message)
unfolding add_log
add_log-Reaches id message db h = same-Reaches db _ h refl refl refl

log_when-Reaches :
    {start : Db} (b : Bool) (id : ℕ) (message : String) → IsRun start (when b (add_log id message))
log_when-Reaches true id message db h = add_log-Reaches id message db h
log_when-Reaches false id message db h = h

-- The refund of a job, between a write to the job and a log.
refund_job-Reaches :
    {start : Db} (id : ℕ) (f : GenerateJob → GenerateJob) (job : GenerateJob)
    (reason : CreditReason) (m : Option String) (message : String) (db : Db)
    → Reaches start db
    → Reaches start
        (transaction
          (update_job id f >> (refund_credit_if_missing id job reason m >> add_log id message))
          db).1
refund_job-Reaches id f job reason m message db h = roll_back-Leaves (Reaches _) db _ h (
    after-Leaves (Reaches _) (update_job id f db) _ (update_job-Reaches id f db h) λ _ db₁ h₁.
      after-Leaves (Reaches _) (refund_credit_if_missing id job reason m db₁) _
        (refund_credit_if_missing-Reaches id job reason m db₁ h₁)
        λ _ db₂ h₂. add_log-Reaches id message db₂ h₂)

pub enqueue-Reaches :
    {start : Db} (now id : ℕ) (job : GenerateJob) (preset : VideoGenerationPreset)
    (queue : Option String)
    → IsRun start (enqueue now id job preset queue)
unfolding enqueue mark_queued fail_enqueue
enqueue-Reaches now id job preset none db h =
    after-Leaves (Reaches _) _ _
      (roll_back-Leaves (Reaches _) db _ h (
        after-Leaves (Reaches _) (update_job id queued_job db) _
          (update_job-Reaches id queued_job db h)
          λ _ db₁ h₁. add_log-Reaches id "Job queued" db₁ h₁))
      λ _ db₂ h₂. h₂
enqueue-Reaches now id job preset (some message) db h =
    after-Leaves (Reaches _) _ _ (refund_job-Reaches id _ job _ _ _ db h) λ _ db₁ h₁. h₁

-- A request for a video, whatever the queue does.
pub create_video_job-Reaches :
    {start : Db} (env : String → Option String) (now id user_id : ℕ) (dto : CreateVideoJobDto)
    (queue : Option String)
    → IsRun start (create_video_job env now id user_id dto queue)
unfolding create_video_job
create_video_job-Reaches env now id user_id dto queue db h =
    elim (Option-cases (resolve_video_preset dto.preset_id)) [
      | inl unknown ↦ rw unknown h
      | inr (preset, found) ↦ rw found (
          after-Leaves (Reaches _) (check_input_asset user_id dto preset.workflow db) _
            (rw (check_input_asset-same user_id dto preset.workflow db) h)
            λ _ db₁ h₁.
              after-Leaves (Reaches _) (charge_and_create env now id user_id dto preset db₁) _
                (charge_and_create-Reaches env now id user_id dto preset db₁ h₁)
                λ job db₂ h₂. enqueue-Reaches now id job preset queue db₂ h₂)
    ]

-- A cancellation.
pub finish_cancel-Reaches :
    {start : Db} (now id : ℕ) (job : GenerateJob) → IsRun start (finish_cancel now id job)
unfolding finish_cancel
finish_cancel-Reaches now id job db h = refund_job-Reaches id _ job _ _ _ db h

pub cancel_job-Reaches :
    {start : Db} (now user_id id : ℕ) (removal : Removal)
    → IsRun start (cancel_job now user_id id removal)
unfolding cancel_job
cancel_job-Reaches now user_id id removal db h = elim (Option-cases (lookup id db.jobs)) [
  | inl missing ↦ rw missing h
  | inr (job, found) ↦ elim (Bool-cases (not (job.user_id == user_id))) [
    | inl foreign ↦ rw (found, foreign) h
    | inr own ↦ elim (Option-cases (refusal job.status)) [
      | inr (why, refused) ↦ rw (found, own, refused) h
      | inl open_job ↦
          rw (found, own, open_job)
            (after-Leaves (Reaches _) (when (is_running removal) (add_log id _) db) _
              (log_when-Reaches (is_running removal) id _ db h)
              λ _ db₁ h₁.
                after-Leaves (Reaches _) (finish_cancel now id job db₁) _
                  (finish_cancel-Reaches now id job db₁ h₁) λ _ db₂ h₂. h₂)
    ]
  ]
]
