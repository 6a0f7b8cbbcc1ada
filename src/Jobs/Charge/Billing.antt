-- ===== src/Jobs/Charge/Billing.antt =====
-- `createVideoJob` (src/modules/jobs/jobs.service.ts) and the wallet: the charge, and the refund when
-- the queue fails.
use neura_gen.Base.{
  ℕ, ◌≡◌, refl, sym, true, false, ◌&&◌, ==_refl, some, String, List, ltb, ℤ, pos, ◌-ℤ◌, ◌+ℤ◌,
  -ℤ-zero, lookup, update, lookup-put, Bool-cases, Option-cases, inl, inr, arith, find-skip,
}
use neura_gen.Store.{Db, UserRole, GenerateJob, CreditReason, CreditTransaction, Result, ok, err}
use neura_gen.Credits.{is_refund_of, refund_credit_if_missing}
use neura_gen.Credits.Once.{is_refunded, refund_due}
use neura_gen.Ledger.{balance}
use neura_gen.Jobs.Catalog.{VideoGenerationPreset, is_pro_only_preset}
use neura_gen.Jobs.Create.{
  CreateVideoJobDto, JobCreated, charge_row, free_usage_row, get_business_date_key, is_pro,
  fail_enqueue, update_job, add_log, failed_job,
}
use neura_gen.Jobs.Charge.{IsCharged, with_charge, with_free_usage}

-- An exception costs nothing, and a job costs what its answer says.
abbrev pub Bills : ℕ → Db → Result JobCreated × Db → Type 0
Bills u db (err e, db') = balance u db' ≡ balance u db
Bills u db (ok created, db') = balance u db' ≡ balance u db -ℤ pos created.credit_cost

pub not_due : (n : ℕ) → ltb 0 n ≡ false → n ≡ 0
not_due n h = ground arith

pub charged_balance :
    (now id user_id : ℕ) (role : UserRole) (dto : CreateVideoJobDto)
    (preset : VideoGenerationPreset) (db : Db) (job : GenerateJob) (db' : Db)
    → IsCharged now id user_id role dto preset db job db'
    → balance user_id db' ≡ balance user_id db -ℤ pos job.credit_cost
charged_balance now id user_id role dto preset db job db' c =
    elim (Bool-cases (ltb 0 job.credit_cost)) [
      | inl due ↦
          rw (c.wallets, due)
            (rw
              (
                lookup-put user_id user_id (balance user_id db -ℤ pos job.credit_cost) db.wallets,
                ==_refl user_id,
              )
              refl)
      | inr nothing ↦
          rw (c.wallets, nothing, not_due job.credit_cost nothing)
            (sym (-ℤ-zero (balance user_id db)))
    ]

module _ (now user_id id : ℕ) (role : UserRole) (dto : CreateVideoJobDto)
    (preset : VideoGenerationPreset) where
  pub charge-is_refunded :
      (charged free : ℕ) (ts : List CreditTransaction)
      → is_refunded user_id id CreditReason.refund_failed_job ts ≡ false
      → is_refunded user_id id CreditReason.refund_failed_job
          (with_charge user_id dto preset charged free ts)
        ≡ false
  charge-is_refunded charged free ts h = elim (Bool-cases (ltb 0 charged)) [
    | inl due ↦ rw due (
        find-skip (is_refund_of user_id id CreditReason.refund_failed_job)
          (charge_row user_id dto preset charged free) ts false (rw (==_refl user_id) refl) h)
    | inr nothing ↦ rw nothing h
  ]

  pub free_usage-is_refunded :
      (free : ℕ) (ts : List CreditTransaction)
      → is_refunded user_id id CreditReason.refund_failed_job ts ≡ false
      → is_refunded user_id id CreditReason.refund_failed_job
          (with_free_usage now user_id role dto preset free ts)
        ≡ false
  free_usage-is_refunded free ts h =
      elim (Bool-cases (is_pro role && is_pro_only_preset preset.id)) [
        | inr paid ↦ rw paid h
        | inl premium ↦ elim (Bool-cases (ltb 0 free)) [
          | inr nothing ↦ rw (premium, nothing) h
          | inl left_over ↦
              rw (premium, left_over)
                (find-skip (is_refund_of user_id id CreditReason.refund_failed_job)
                  (free_usage_row user_id (get_business_date_key now) dto preset free) ts false
                  (rw (==_refl user_id) refl) h)
        ]
      ]

-- The queue has refused a charged job: the charge is back in the wallet.
pub fail_enqueue_refunds :
    (now id : ℕ) (job : GenerateJob) (message : String) (db : Db) (b : ℤ)
    → lookup id db.jobs ≡ some job
    → ltb 0 job.credit_cost ≡ true
    → lookup job.user_id db.wallets ≡ some b
    → is_refunded job.user_id id CreditReason.refund_failed_job db.transactions ≡ false
    → balance job.user_id (fail_enqueue now id job message db).1 ≡ b +ℤ pos job.credit_cost
unfolding fail_enqueue update_job add_log
fail_enqueue_refunds now id job message db b stored due wallet fresh =
    rw
      (
        stored,
        refund_due id job CreditReason.refund_failed_job (some message)
            (record db { jobs = update id (failed_job now message) db.jobs }) b due wallet fresh,
        lookup-put job.user_id job.user_id (b +ℤ pos job.credit_cost) db.wallets,
        ==_refl job.user_id,
      )
      refl

-- A job that has cost nothing is not refunded.
pub fail_enqueue_free :
    (now id : ℕ) (job : GenerateJob) (message : String) (db : Db)
    → job.credit_cost ≡ 0
    → (fail_enqueue now id job message db).1.wallets ≡ db.wallets
unfolding fail_enqueue update_job add_log refund_credit_if_missing
fail_enqueue_free now id job message db free = elim (Option-cases (lookup id db.jobs)) [
  | inl missing ↦ rw missing refl
  | inr (row, stored) ↦ rw (stored, free) refl
]
