-- ===== src/Jobs/Charge.antt =====
-- The steps of the transaction of `createVideoJob` (src/modules/jobs/jobs.service.ts).
pub mod Outcome
pub mod Billing
pub mod Request
pub mod Success
use neura_gen.Base.{
  ◌∷◌, List, ℕ, ◌≡◌, refl, ap, ◌∙◌, Bool, true, false, not, ◌&&◌, ◌-◌, ◌+◌, ◌⊎◌, inl, inr, Option,
  some, none, String, ℤ, pos, ◌-ℤ◌, ◌≤ℤ◌, ltb, ltb_ℤ, if◌then◌else◌, lookup, put, Bool-cases,
  Option-cases, is_some, arith, ◌≤◌, get_or,
}
use neura_gen.Store.{
  CreditTransaction, Db, User, UserRole, JobStatus, GenerateJob, UserDailyUsage, Result, ok, err,
  Action, roll_back,
}
use neura_gen.Store.Rules.{Ensures, Ensures-mono, after-Ensures, throw_if-Ensures}
use neura_gen.Credits.{decrement_wallet, create_transaction}
use neura_gen.Ledger.{balance}
use neura_gen.Jobs.Catalog.{VideoGenerationPreset, is_pro_only_preset}
use neura_gen.Jobs.Create.{
  charge_balance, CreateVideoJobDto, charge_job, charge_wallet, charge_row, apply_daily_free,
  refresh_role, insert_job, charge_and_create, new_job, resolve_effective_role, same_role, is_pro,
  is_admin, get_business_date_key, used_on, add_usage, free_credits, free_usage_row,
  creation_messages,
}

-- The free credits that a user in that role gets for a job.
abbrev pub free_share :
    (now user_id : ℕ) → UserRole → VideoGenerationPreset → List UserDailyUsage → ℕ
free_share now user_id role preset usages =
    if is_pro role && is_pro_only_preset preset.id
    then free_credits preset.credit_cost (used_on user_id (get_business_date_key now) usages)
    else 0

-- The ledger after the free credits were used, and after the charge.
abbrev pub with_free_usage :
    (now user_id : ℕ)
    → UserRole
    → CreateVideoJobDto
    → VideoGenerationPreset
    → ℕ
    → List CreditTransaction
    → List CreditTransaction
with_free_usage now user_id role dto preset free ts =
    if is_pro role && is_pro_only_preset preset.id
    then (if ltb 0 free
        then free_usage_row user_id (get_business_date_key now) dto preset free ∷ ts
        else ts)
    else ts

abbrev pub with_charge :
    (user_id : ℕ)
    → CreateVideoJobDto
    → VideoGenerationPreset
    → (charged free : ℕ) → List CreditTransaction
    → List CreditTransaction
with_charge user_id dto preset charged free ts =
    if ltb 0 charged then charge_row user_id dto preset charged free ∷ ts else ts

-- The tables after the call, in terms of those before it.
pub record IsCharged (now id user_id : ℕ) (role : UserRole) (dto : CreateVideoJobDto)
    (preset : VideoGenerationPreset) (db : Db) (job : GenerateJob) (db' : Db) : Type 0 where
  pub entitled : is_pro_only_preset preset.id ≡ true → (is_pro role ≡ true) ⊎ (is_admin role ≡ true)
  pub free : job.extra_config.free_credit_applied ≡ free_share now user_id role preset db.usages
  pub cost : job.credit_cost + job.extra_config.free_credit_applied ≡ preset.credit_cost
  pub covered : ltb 0 job.credit_cost ≡ true → pos job.credit_cost ≤ℤ balance user_id db
  pub wallets : db'.wallets ≡ (
      if ltb 0 job.credit_cost
      then put user_id (balance user_id db -ℤ pos job.credit_cost) db.wallets
      else db.wallets)
  pub usages : db'.usages ≡ (
      if is_pro role && is_pro_only_preset preset.id
      then add_usage user_id
          (get_business_date_key now)
          job.extra_config.free_credit_applied
          db.usages
      else db.usages)
  pub transactions :
      db'.transactions
      ≡ with_charge user_id dto preset job.credit_cost job.extra_config.free_credit_applied (
          with_free_usage now user_id role dto preset job.extra_config.free_credit_applied
            db.transactions)
  pub jobs : db'.jobs ≡ put id job db.jobs
  pub owner : job.user_id ≡ user_id
  pub is_new : lookup id db.jobs ≡ none
  pub status : job.status ≡ JobStatus.pending

pub record IsFree (now user_id : ℕ) (role : UserRole) (dto : CreateVideoJobDto)
    (preset : VideoGenerationPreset) (db : Db) (free : ℕ) (db' : Db) : Type 0 where
  pub share : free ≡ free_share now user_id role preset db.usages
  pub usages : db'.usages ≡ (
      if is_pro role && is_pro_only_preset preset.id
      then add_usage user_id (get_business_date_key now) free db.usages
      else db.usages)
  pub wallets : db'.wallets ≡ db.wallets
  pub transactions :
      db'.transactions ≡ with_free_usage now user_id role dto preset free db.transactions
  pub jobs : db'.jobs ≡ db.jobs

pub apply_daily_free-IsFree :
    (now user_id : ℕ) (role : UserRole) (dto : CreateVideoJobDto) (preset : VideoGenerationPreset)
    (db : Db)
    → Ensures
        (IsFree now user_id role dto preset db)
        (apply_daily_free now user_id role dto preset db)
unfolding apply_daily_free
apply_daily_free-IsFree now user_id role dto preset db =
    let n =
      free_credits preset.credit_cost (used_on user_id (get_business_date_key now) db.usages) in
    elim (Bool-cases (is_pro role && is_pro_only_preset preset.id)) [
      | inr paid ↦ rw paid (record {
        share = rw paid refl;
        usages = rw paid refl;
        wallets = refl;
        transactions = rw paid refl;
        jobs = refl;
      })
      | inl premium ↦ elim (Bool-cases (ltb 0 n)) [
        | inl left_over ↦
            rw (premium, left_over)
              (record {
                share = rw premium refl;
                usages = rw premium refl;
                wallets = refl;
                transactions = rw (premium, left_over) refl;
                jobs = refl;
              })
        | inr used_up ↦
            rw (premium, used_up)
              (record {
                share = rw premium refl;
                usages = rw premium refl;
                wallets = refl;
                transactions = rw (premium, used_up) refl;
                jobs = refl;
              })
      ]
    ]

pub record IsPaidFor (user_id : ℕ) (dto : CreateVideoJobDto) (preset : VideoGenerationPreset)
    (charged free : ℕ) (db : Db) (db' : Db) : Type 0 where
  pub covered : ltb 0 charged ≡ true → pos charged ≤ℤ balance user_id db
  pub wallets : db'.wallets ≡ (
      if ltb 0 charged
      then put user_id (balance user_id db -ℤ pos charged) db.wallets
      else db.wallets)
  pub usages : db'.usages ≡ db.usages
  pub transactions : db'.transactions ≡ with_charge user_id dto preset charged free db.transactions
  pub jobs : db'.jobs ≡ db.jobs

pub charge_wallet-IsPaidFor :
    (user_id : ℕ) (dto : CreateVideoJobDto) (preset : VideoGenerationPreset) (charged free : ℕ)
    (db : Db)
    → Ensures
        (λ _ db'. IsPaidFor user_id dto preset charged free db db')
        (charge_wallet user_id dto preset charged free db)
unfolding charge_wallet charge_balance decrement_wallet create_transaction
charge_wallet-IsPaidFor user_id dto preset charged free db = elim (Bool-cases (ltb 0 charged)) [
  | inr nothing ↦ rw nothing (record {
    covered = λ due. ground (arith, nothing, due);
    wallets = rw nothing refl;
    usages = refl;
    transactions = rw nothing refl;
    jobs = refl;
  })
  | inl due ↦ elim (Option-cases (lookup user_id db.wallets)) [
    | inl missing ↦ rw (due, missing) tt
    | inr (b, found) ↦ elim (Bool-cases (ltb_ℤ b (pos charged))) [
      | inl short ↦ rw (due, found, short) tt
      | inr enough ↦
          rw (due, found, enough, found)
            (record {
              covered = λ _. rw found (ground (arith, enough));
              wallets = rw (due, found) refl;
              usages = refl;
              transactions = rw due refl;
              jobs = refl;
            })
    ]
  ]
]

pub record IsInserted (id : ℕ) (new : GenerateJob) (db : Db) (job : GenerateJob) (db' : Db)
    : Type 0 where
  pub same : job ≡ new
  pub is_new : lookup id db.jobs ≡ none
  pub jobs : db'.jobs ≡ put id new db.jobs
  pub wallets : db'.wallets ≡ db.wallets
  pub usages : db'.usages ≡ db.usages
  pub transactions : db'.transactions ≡ db.transactions

absent : {A : Type 0} (o : Option A) → is_some o ≡ false → o ≡ none
absent none h = refl
absent (some a) h = ground (arith, h)

insert_job-IsInserted :
    (id : ℕ) (job : GenerateJob) (messages : List String) (db : Db)
    → Ensures (IsInserted id job db) (insert_job id job messages db)
unfolding insert_job
insert_job-IsInserted id job messages db = elim (Bool-cases (is_some (lookup id db.jobs))) [
  | inl taken ↦ rw taken tt
  | inr fresh ↦ rw fresh (record {
    same = refl;
    is_new = absent (lookup id db.jobs) fresh;
    jobs = refl;
    wallets = refl;
    usages = refl;
    transactions = refl;
  })
]

allowed_role :
    (premium pro admin : Bool)
    → (premium && (not pro && not admin)) ≡ false
    → premium ≡ true
    → (pro ≡ true) ⊎ (admin ≡ true)
allowed_role premium pro admin h p = ground (arith, h, p)

free_share_le :
    (now user_id : ℕ) (role : UserRole) (preset : VideoGenerationPreset)
    (usages : List UserDailyUsage)
    → preset.credit_cost
        - free_share now user_id role preset usages
        + free_share now user_id role preset usages
      ≡ preset.credit_cost
free_share_le now user_id role preset usages = ground arith

module _ (env : String → Option String) (now id user_id : ℕ) (role : UserRole)
    (dto : CreateVideoJobDto) (preset : VideoGenerationPreset) (db : Db) where
  inserted-IsCharged :
      (free : ℕ) (db₁ db₂ db₃ : Db) (job : GenerateJob)
      → (is_pro_only_preset preset.id && (not (is_pro role) && not (is_admin role))) ≡ false
      → IsFree now user_id role dto preset db free db₁
      → IsPaidFor user_id dto preset (preset.credit_cost - free) free db₁ db₂
      → IsInserted id (new_job env user_id dto preset (preset.credit_cost - free) free) db₂ job db₃
      → IsCharged now id user_id role dto preset db job db₃
  inserted-IsCharged free db₁ db₂ db₃ job allowed f p i = rw i.same (record {
    entitled = allowed_role (is_pro_only_preset preset.id) (is_pro role) (is_admin role) allowed;
    free = f.share;
    cost = rw f.share (free_share_le now user_id role preset db.usages);
    covered = λ due. rw f.wallets at (p.covered due);
    wallets = i.wallets ∙ (rw f.wallets at p.wallets);
    usages = i.usages ∙ p.usages ∙ f.usages;
    jobs =
        i.jobs
        ∙ ap (λ jobs. put id (new_job env user_id dto preset (preset.credit_cost - free) free) jobs)
            (p.jobs ∙ f.jobs);
    is_new = rw (p.jobs, f.jobs) at i.is_new;
    transactions = i.transactions ∙ (rw f.transactions at p.transactions);
    owner = refl;
    status = refl;
  })

  charge_job-IsCharged :
      Ensures
        (IsCharged now id user_id role dto preset db)
        (charge_job env now id user_id role dto preset db)
  unfolding charge_job
  charge_job-IsCharged =
      throw_if-Ensures (IsCharged now id user_id role dto preset db) _ _ _ db λ allowed.
        after-Ensures (IsFree now user_id role dto preset db) _ _ _
          (apply_daily_free-IsFree now user_id role dto preset db)
          λ free db₁ f.
            after-Ensures
              (λ _ d. IsPaidFor user_id dto preset (preset.credit_cost - free) free db₁ d) _ _ _
              (charge_wallet-IsPaidFor user_id dto preset (preset.credit_cost - free) free db₁)
              λ _ db₂ p.
                Ensures-mono _ _ _
                  (λ job db₃ i. inserted-IsCharged free db₁ db₂ db₃ job allowed f p i)
                  (insert_job-IsInserted id
                    (new_job env user_id dto preset (preset.credit_cost - free) free) _ db₂)
