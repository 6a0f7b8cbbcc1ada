-- ===== src/Credits.antt =====
-- Wallets and the ledger of credit transactions: the writes that the services make to both, and
-- the two refund helpers (src/modules/jobs/jobs.service.ts, src/workers/video.worker.ts).
pub mod Once
use neura_gen.Base.{
  ℕ, Bool, true, false, ◌&&◌, Option, some, ◌∷◌, String, ℤ, pos, ◌+ℤ◌, ◌-ℤ◌, ◌==◌, leb,
  if◌then◌else◌, lookup, put, find, case_option, is_some,
}
use neura_gen.Store.{
  CreditTransaction, CreditReason, TransactionMetadata, GenerateJob, Error, ok, err, Action,
  transaction, ◌>>◌,
}

-- The place of a reason in its enum.
abbrev pub reason_index : CreditReason → ℕ
reason_index CreditReason.register_bonus = 0
reason_index CreditReason.admin_topup = 1
reason_index CreditReason.test_reward = 2
reason_index CreditReason.purchase_topup = 3
reason_index CreditReason.purchase_pro_subscription = 4
reason_index CreditReason.pro_daily_free_usage = 5
reason_index CreditReason.create_image_to_video_job = 6
reason_index CreditReason.refund_failed_job = 7
reason_index CreditReason.refund_canceled_job = 8

abbrev pub same_reason : CreditReason → CreditReason → Bool
same_reason a b = reason_index a == reason_index b

-- `tx.userCredit.update`, with an increment.
unfoldable pub increment_wallet : ℕ → ℤ → Action (Unit {0})
increment_wallet user x db =
    case_option (lookup user db.wallets) (err Error.record_not_found, db)
      (λ b. (ok tt, record db { wallets = put user (b +ℤ x) db.wallets }))

-- `tx.userCredit.update`, with a decrement.
unfoldable pub decrement_wallet : ℕ → ℕ → Action (Unit {0})
decrement_wallet user n db =
    case_option (lookup user db.wallets) (err Error.record_not_found, db)
      (λ b. (ok tt, record db { wallets = put user (b -ℤ pos n) db.wallets }))

-- `tx.userCredit.upsert`: an increment, or a new wallet with that balance.
unfoldable pub upsert_wallet : ℕ → ℤ → Action (Unit {0})
upsert_wallet user x db =
    case_option (lookup user db.wallets) (ok tt, record db { wallets = put user x db.wallets })
      (λ b. (ok tt, record db { wallets = put user (b +ℤ x) db.wallets }))

-- `tx.creditTransaction.create`; the newest row comes first.
unfoldable pub create_transaction : CreditTransaction → Action (Unit {0})
create_transaction t db = (ok tt, record db { transactions = t ∷ db.transactions })

-- `metadata: { path: ['jobId'], equals: id }`
abbrev pub is_about_job : ℕ → TransactionMetadata → Bool
is_about_job id (TransactionMetadata.refund job _) = job == id
is_about_job id TransactionMetadata.empty = false
is_about_job id (TransactionMetadata.purchase _ _ _ _) = false
is_about_job id (TransactionMetadata.free_usage _ _ _ _ _) = false
is_about_job id (TransactionMetadata.charge _ _ _ _ _ _) = false
is_about_job id (TransactionMetadata.manual_topup _) = false

-- The `where` of the search for an earlier refund.
abbrev pub is_refund_of : ℕ → ℕ → CreditReason → CreditTransaction → Bool
is_refund_of user id reason t =
    (t.user_id == user) && (same_reason t.reason reason && is_about_job id t.metadata)

abbrev pub refund_row : ℕ → ℕ → ℕ → CreditReason → Option String → CreditTransaction
refund_row user id cost reason failed_message = record {
  user_id = user;
  amount = pos cost;
  reason = reason;
  metadata = TransactionMetadata.refund id failed_message;
}

-- `JobsService.refundCreditIfMissing`; the caller's transaction is around it.
unfoldable pub refund_credit_if_missing :
    (id : ℕ) → GenerateJob → CreditReason → Option String → Action (Unit {0})
refund_credit_if_missing id job reason failed_message db =
    if leb job.credit_cost 0
    then (ok tt, db)
    else if is_some (find (is_refund_of job.user_id id reason) db.transactions)
    then (ok tt, db)
    else (do
      increment_wallet job.user_id (pos job.credit_cost)
      create_transaction (refund_row job.user_id id job.credit_cost reason failed_message))
        db

-- The transaction of `VideoWorker.refundFailedJob`, which searches no more.
unfoldable pub pay_failed_refund : (id : ℕ) → GenerateJob → String → Action (Unit {0})
pay_failed_refund id job message = transaction do
  increment_wallet job.user_id (pos job.credit_cost)
  create_transaction
      (refund_row job.user_id id job.credit_cost CreditReason.refund_failed_job (some message))

-- `VideoWorker.refundFailedJob`, where nothing comes between its search and its transaction.
unfoldable pub refund_failed_job : (id : ℕ) → GenerateJob → String → Action (Unit {0})
refund_failed_job id job message db =
    if leb job.credit_cost 0
    then (ok tt, db)
    else if is_some
        (find (is_refund_of job.user_id id CreditReason.refund_failed_job) db.transactions)
    then (ok tt, db)
    else pay_failed_refund id job message db
