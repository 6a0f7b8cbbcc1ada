-- ===== src/System/Refunds.antt =====
-- Histories of calls and the refunds of jobs (src/modules/jobs/jobs.service.ts,
-- src/workers/video.worker.ts).
use neura_gen.Base.{ℕ, ◌≡◌, true, Option, String, List, ltb}
use neura_gen.Store.{Db, CreditReason, GenerateJob, ok}
use neura_gen.Credits.{refund_credit_if_missing, refund_failed_job}
use neura_gen.Credits.Once.{
  is_refunded, is_refunded-append, refund_credit_if_missing_marks, refund_credit_if_missing_done,
  refund_failed_job_done,
}
use neura_gen.System.{World, Call, run_all}
use neura_gen.System.Books.{run_all_appends}

-- A refund in the ledger stays there.
run_all-is_refunded :
    (w : World) (cs : List Call) (user id : ℕ) (reason : CreditReason) (db : Db)
    → is_refunded user id reason db.transactions ≡ true
    → is_refunded user id reason (run_all w cs db).transactions ≡ true
run_all-is_refunded w cs user id reason db h =
    let (newer, e) = run_all_appends w cs db in
    rw e (is_refunded-append user id reason newer db.transactions h)

-- Once a refund of a charged job has returned for a reason, the same refund after any history of
-- calls changes nothing, whatever the cost and the message are by then, if the owner is the same.
pub refund_credit_if_missing_once :
    (w : World) (cs : List Call) (id : ℕ) (job later : GenerateJob) (reason : CreditReason)
    (m m' : Option String) (db db' : Db)
    → ltb 0 job.credit_cost ≡ true
    → refund_credit_if_missing id job reason m db ≡ (ok tt, db')
    → later.user_id ≡ job.user_id
    → refund_credit_if_missing id later reason m' (run_all w cs db') ≡ (ok tt, run_all w cs db')
refund_credit_if_missing_once w cs id job later reason m m' db db' charged e owner =
    let mark : is_refunded job.user_id id reason db'.transactions ≡ true =
      rw e at (refund_credit_if_missing_marks id job reason m db charged) in
    refund_credit_if_missing_done id later reason m' (run_all w cs db')
      (rw owner (run_all-is_refunded w cs job.user_id id reason db' mark))

-- If the refund of a charged job's failure has returned, then the worker's refund of the job after
-- any history of calls changes nothing, if the owner is the same.
pub refund_failed_job_once :
    (w : World) (cs : List Call) (id : ℕ) (job later : GenerateJob) (m : Option String)
    (message : String) (db db' : Db)
    → ltb 0 job.credit_cost ≡ true
    → refund_credit_if_missing id job CreditReason.refund_failed_job m db ≡ (ok tt, db')
    → later.user_id ≡ job.user_id
    → refund_failed_job id later message (run_all w cs db') ≡ (ok tt, run_all w cs db')
refund_failed_job_once w cs id job later m message db db' charged e owner =
    let mark : is_refunded job.user_id id CreditReason.refund_failed_job db'.transactions ≡ true =
      rw e at (refund_credit_if_missing_marks id job CreditReason.refund_failed_job m db charged) in
    refund_failed_job_done id later message (run_all w cs db')
      (rw owner (run_all-is_refunded w cs job.user_id id CreditReason.refund_failed_job db' mark))
