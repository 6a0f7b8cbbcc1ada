-- ===== src/Ledger/Refunds.antt =====
-- The refund helpers and the machine of the books (src/modules/jobs/jobs.service.ts,
-- src/workers/video.worker.ts).
use neura_gen.Base.{
  some, ℕ, ◌≡◌, pos, pos-nonneg, ◌≤ℤ◌, refl, Option, String, ◌+ℤ◌, inl, inr, Option-cases,
  Bool-cases, leb, is_some, find, lookup,
}
use neura_gen.Store.{Db, CreditReason, Db, GenerateJob, ◌>>◌, CreditTransaction}
use neura_gen.Store.Rules.{roll_back-Leaves}
use neura_gen.Credits.{
  pay_failed_refund, refund_failed_job, refund_credit_if_missing, increment_wallet,
  create_transaction, refund_row, is_refund_of,
}
use neura_gen.Ledger.Steps.{Reaches, IsRun, entry-Reaches}

increment-Reaches :
    {start : Db} (user : ℕ) (t : CreditTransaction)
    → t.user_id ≡ user
    → pos 0 ≤ℤ t.amount
    → IsRun start (increment_wallet user t.amount >> create_transaction t)
unfolding increment_wallet create_transaction
increment-Reaches user t owner gain db h = elim (Option-cases (lookup user db.wallets)) [
  | inl missing ↦ rw (missing, increment_wallet) h
  | inr (b, found) ↦
      rw (found, increment_wallet)
        (entry-Reaches user (b +ℤ t.amount) t db _ h owner (rw found) (inl gain) refl refl refl)
]

-- A refund.
pub refund_credit_if_missing-Reaches :
    {start : Db} (id : ℕ) (job : GenerateJob) (reason : CreditReason) (m : Option String)
    → IsRun start (refund_credit_if_missing id job reason m)
unfolding refund_credit_if_missing
refund_credit_if_missing-Reaches id job reason m db h = elim (Bool-cases (leb job.credit_cost 0)) [
  | inl nothing ↦ rw nothing h
  | inr charged ↦
      rw charged
        (elim (Bool-cases (is_some (find (is_refund_of job.user_id id reason) db.transactions))) [
          | inl done ↦ rw done h
          | inr due ↦ rw due (
              increment-Reaches job.user_id (refund_row job.user_id id job.credit_cost reason m)
                refl (pos-nonneg job.credit_cost) db h)
        ])
]

-- The worker's refund, and its transaction alone.
pub pay_failed_refund-Reaches :
    {start : Db} (id : ℕ) (job : GenerateJob) (m : String)
    → IsRun start (pay_failed_refund id job m)
unfolding pay_failed_refund
pay_failed_refund-Reaches id job m db h = roll_back-Leaves (Reaches _) db _ h (
    increment-Reaches job.user_id
      (refund_row job.user_id id job.credit_cost CreditReason.refund_failed_job (some m)) refl
      (pos-nonneg job.credit_cost) db h)

pub refund_failed_job-Reaches :
    {start : Db} (id : ℕ) (job : GenerateJob) (m : String)
    → IsRun start (refund_failed_job id job m)
unfolding refund_failed_job
refund_failed_job-Reaches id job m db h = elim (Bool-cases (leb job.credit_cost 0)) [
  | inl nothing ↦ rw nothing h
  | inr charged ↦
      elim (Bool-cases (
        is_some
          (find (is_refund_of job.user_id id CreditReason.refund_failed_job) db.transactions))) [
            | inl done ↦ rw (charged, done) h
            | inr due ↦ rw (charged, due) (pay_failed_refund-Reaches id job m db h)
          ]
]
