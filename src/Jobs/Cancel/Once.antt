-- ===== src/Jobs/Cancel/Once.antt =====
-- `cancelJob` (src/modules/jobs/jobs.service.ts): its refund, and a second call.
use neura_gen.Base.{
  ℕ, ◌≡◌, refl, true, false, not, ◌==◌, ==_refl, Option, some, none, String, ◌∷◌, ltb, leb, ℤ, pos,
  ◌+ℤ◌, lookup, update, lookup-put, lookup-update, Bool-cases, Option-cases, inl, inr,
}
use neura_gen.Store.{after, pure, Db, GenerateJob, CreditReason, Result, ok, err, Error, roll_back}
use neura_gen.Store.Rules.{Ensures, after-Ensures}
use neura_gen.Credits.{refund_credit_if_missing, increment_wallet, create_transaction}
use neura_gen.Credits.Once.{is_refunded, refund_due}
use neura_gen.Ledger.{balance}
use neura_gen.Jobs.Create.{update_job, add_log}
use neura_gen.Jobs.Cancel.{
  Removal, is_running, CancelResult, refusal, cancelled_job, finish_cancel, cancel_job,
}

roll_back-Ensures :
    {A : Type 0} (P : A → Db → Type 0) (db : Db) (r : Result A × Db)
    → Ensures P r
    → Ensures P (roll_back db r)
roll_back-Ensures P db (ok a, db') h = h
roll_back-Ensures P db (err e, db') h = tt

refund-jobs :
    (id : ℕ) (job : GenerateJob) (reason : CreditReason) (m : Option String) (db : Db)
    → Ensures (λ _ d. d.jobs ≡ db.jobs) (refund_credit_if_missing id job reason m db)
unfolding refund_credit_if_missing increment_wallet create_transaction
refund-jobs id job reason m db = elim (Bool-cases (leb job.credit_cost 0)) [
  | inl nothing ↦ rw nothing refl
  | inr charged ↦ elim (Bool-cases (is_refunded job.user_id id reason db.transactions)) [
    | inl done ↦ rw (charged, done) refl
    | inr due ↦ elim (Option-cases (lookup job.user_id db.wallets)) [
      | inl missing ↦ rw (charged, due, missing) tt
      | inr (b, found) ↦ rw (charged, due, found) refl
    ]
  ]
]

finish_cancel_stores :
    (now id : ℕ) (job row : GenerateJob) (db : Db)
    → lookup id db.jobs ≡ some row
    → Ensures (λ _ d. lookup id d.jobs ≡ some (cancelled_job now row)) (finish_cancel now id job db)
unfolding finish_cancel update_job add_log
finish_cancel_stores now id job row db stored =
    let db₁ : Db = record db { jobs = update id (cancelled_job now) db.jobs } in
    let written : lookup id db₁.jobs ≡ some (cancelled_job now row) =
      rw (lookup-update id id (cancelled_job now) db.jobs, ==_refl id, stored) refl in
    rw stored (
      roll_back-Ensures (λ _ d. lookup id d.jobs ≡ some (cancelled_job now row)) db _
        (after-Ensures (λ _ d. d.jobs ≡ db₁.jobs)
          (λ _ d. lookup id d.jobs ≡ some (cancelled_job now row))
          (refund_credit_if_missing id job CreditReason.refund_canceled_job none db₁) _
          (refund-jobs id job CreditReason.refund_canceled_job none db₁)
          λ _ db₂ kept. rw kept written))

-- The job is there, is the caller's, and is cancelled.
record IsCancelled (user_id id : ℕ) (db : Db) : Type 0 where
  job : GenerateJob
  stored : lookup id db.jobs ≡ some job
  own : not (job.user_id == user_id) ≡ false
  status : refusal job.status ≡ some "Job already canceled"

cancel_job-IsCancelled :
    (now user_id id : ℕ) (removal : Removal) (db : Db)
    → Ensures (λ _ d. IsCancelled user_id id d) (cancel_job now user_id id removal db)
unfolding cancel_job add_log
cancel_job-IsCancelled now user_id id removal db = elim (Option-cases (lookup id db.jobs)) [
  | inl missing ↦ rw missing tt
  | inr (job, found) ↦ elim (Bool-cases (not (job.user_id == user_id))) [
    | inl foreign ↦ rw (found, foreign) tt
    | inr own ↦ elim (Option-cases (refusal job.status)) [
      | inr (why, refused) ↦ rw (found, own, refused) tt
      | inl open_job ↦
          rw (found, own, open_job)
            (elim (Bool-cases (is_running removal)) [
              | inl running ↦ rw running (
                  cancelled now user_id id job _
                    (record db {
                      logs =
                          record {
                            job_id = id;
                            message =
                                "Job marked as cancelled while an active worker was still running";
                          }
                          ∷ db.logs;
                    })
                    found own)
              | inr removed ↦ rw removed (cancelled now user_id id job _ db found own)
            ])
    ]
  ]
]
  where
    cancelled :
        (now user_id id : ℕ) (job : GenerateJob) (result : CancelResult) (db : Db)
        → lookup id db.jobs ≡ some job
        → not (job.user_id == user_id) ≡ false
        → Ensures
            (λ _ d. IsCancelled user_id id d)
            (after (finish_cancel now id job db) (λ _. pure result))
    cancelled now user_id id job result db found own =
        after-Ensures (λ _ d. lookup id d.jobs ≡ some (cancelled_job now job)) _
          (finish_cancel now id job db) _ (finish_cancel_stores now id job job db found)
          λ _ d stored. record {
            job = cancelled_job now job;
            stored = stored;
            own = own;
            status = refl;
          }

-- A job is cancelled once: when a cancellation has returned, the same one again is refused and
-- changes nothing.
pub cancel_job_once :
    (now now' user_id id : ℕ) (removal removal' : Removal) (db : Db) (result : CancelResult)
    (db' : Db)
    → cancel_job now user_id id removal db ≡ (ok result, db')
    → cancel_job now' user_id id removal' db'
      ≡ (err (Error.bad_request "Job already canceled"), db')
unfolding cancel_job
cancel_job_once now now' user_id id removal removal' db result db' e =
    let c : IsCancelled user_id id db' =
      rw e at (cancel_job-IsCancelled now user_id id removal db) in
    rw (c.stored, c.own, c.status)

-- A charged job that its owner may cancel, and that was not refunded yet: the cancellation returns,
-- and the wallet has the whole charge back.
pub cancel_job_refunds :
    (now id : ℕ) (removal : Removal) (job : GenerateJob) (db : Db) (b : ℤ)
    → lookup id db.jobs ≡ some job
    → refusal job.status ≡ none
    → ltb 0 job.credit_cost ≡ true
    → lookup job.user_id db.wallets ≡ some b
    → is_refunded job.user_id id CreditReason.refund_canceled_job db.transactions ≡ false
    → ((cancel_job now job.user_id id removal db).0
        ≡ ok (record { job_id = id; refunded_credit = job.credit_cost }))
      × (balance job.user_id (cancel_job now job.user_id id removal db).1
          ≡ b +ℤ pos job.credit_cost)
unfolding cancel_job finish_cancel update_job add_log
cancel_job_refunds now id removal job db b stored open_job due wallet fresh =
    elim (Bool-cases (is_running removal)) [
      | inl running ↦
          let db₁ : Db = record db {
            jobs = update id (cancelled_job now) db.jobs;
            logs =
                record {
                  job_id = id;
                  message = "Job marked as cancelled while an active worker was still running";
                }
                ∷ db.logs;
          } in
          rw
            (
              stored,
              ==_refl job.user_id,
              open_job,
              running,
              stored,
              refund_due id job CreditReason.refund_canceled_job none db₁ b due wallet fresh,
              lookup-put job.user_id job.user_id (b +ℤ pos job.credit_cost) db.wallets,
              ==_refl job.user_id,
            )
            (refl, refl)
      | inr removed ↦
          rw
            (
              stored,
              ==_refl job.user_id,
              open_job,
              removed,
              stored,
              refund_due id job CreditReason.refund_canceled_job none
                  (record db { jobs = update id (cancelled_job now) db.jobs }) b due wallet fresh,
              lookup-put job.user_id job.user_id (b +ℤ pos job.credit_cost) db.wallets,
              ==_refl job.user_id,
            )
            (refl, refl)
    ]
