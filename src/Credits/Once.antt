-- ===== src/Credits/Once.antt =====
-- The search for an earlier refund in the two refund helpers (src/modules/jobs/jobs.service.ts,
-- src/workers/video.worker.ts).
use neura_gen.Base.{
  some, pos, ℤ, ◌+ℤ◌, put, ℕ, ◌≡◌, refl, Bool, true, false, ==_refl, Option, String, List, ◌∷◌,
  ◌++◌, find, find-here, find-skip, find-append, is_some, lookup, leb, ltb, Bool-cases,
  Option-cases, inl, inr, arith,
}
use neura_gen.Store.{Db, CreditReason, CreditTransaction, GenerateJob, ok}
use neura_gen.Store.Rules.{Ensures}
use neura_gen.Credits.{
  pay_failed_refund, refund_credit_if_missing, refund_failed_job, increment_wallet,
  create_transaction, is_refund_of, refund_row, same_reason, reason_index,
}

-- The ledger has the refund.
abbrev pub is_refunded : ℕ → ℕ → CreditReason → List CreditTransaction → Bool
is_refunded user id reason ts = is_some (find (is_refund_of user id reason) ts)

pub is_refunded-append :
    (user id : ℕ) (reason : CreditReason) (newer ts : List CreditTransaction)
    → is_refunded user id reason ts ≡ true
    → is_refunded user id reason (newer ++ ts) ≡ true
is_refunded-append user id reason newer ts h = find-append (is_refund_of user id reason) newer ts h

same_reason_refl : (r : CreditReason) → same_reason r r ≡ true
same_reason_refl r = ==_refl (reason_index r)

refund_row-is_refund_of :
    (user id cost : ℕ) (reason : CreditReason) (m : Option String)
    → is_refund_of user id reason (refund_row user id cost reason m) ≡ true
refund_row-is_refund_of user id cost reason m =
    rw (==_refl user, same_reason_refl reason, ==_refl id)

pub not_free : (n : ℕ) → ltb 0 n ≡ true → leb n 0 ≡ false
not_free n h = ground arith

pub refund_credit_if_missing_marks :
    (id : ℕ) (job : GenerateJob) (reason : CreditReason) (m : Option String) (db : Db)
    → ltb 0 job.credit_cost ≡ true
    → Ensures
        (λ _ db'. is_refunded job.user_id id reason db'.transactions ≡ true)
        (refund_credit_if_missing id job reason m db)
unfolding refund_credit_if_missing increment_wallet create_transaction
refund_credit_if_missing_marks id job reason m db charged =
    elim (Bool-cases (is_refunded job.user_id id reason db.transactions)) [
      | inl done ↦ rw (not_free job.credit_cost charged, done) done
      | inr due ↦ elim (Option-cases (lookup job.user_id db.wallets)) [
        | inl missing ↦ rw (not_free job.credit_cost charged, due, missing) tt
        | inr (b, found) ↦
            rw (not_free job.credit_cost charged, due, found)
              (find-here (is_refund_of job.user_id id reason)
                (refund_row job.user_id id job.credit_cost reason m) db.transactions
                (refund_row-is_refund_of job.user_id id job.credit_cost reason m))
      ]
    ]

pub refund_credit_if_missing_done :
    (id : ℕ) (job : GenerateJob) (reason : CreditReason) (m : Option String) (db : Db)
    → is_refunded job.user_id id reason db.transactions ≡ true
    → refund_credit_if_missing id job reason m db ≡ (ok tt, db)
unfolding refund_credit_if_missing
refund_credit_if_missing_done id job reason m db done = elim (Bool-cases (leb job.credit_cost 0)) [
  | inl nothing ↦ rw nothing
  | inr charged ↦ rw (charged, done)
]

pub refund_failed_job_done :
    (id : ℕ) (job : GenerateJob) (message : String) (db : Db)
    → is_refunded job.user_id id CreditReason.refund_failed_job db.transactions ≡ true
    → refund_failed_job id job message db ≡ (ok tt, db)
unfolding refund_failed_job
refund_failed_job_done id job message db done = elim (Bool-cases (leb job.credit_cost 0)) [
  | inl nothing ↦ rw nothing
  | inr charged ↦ rw (charged, done)
]

cancelled_row-other :
    (user id cost : ℕ) (m : Option String)
    → is_refund_of user id CreditReason.refund_failed_job
        (refund_row user id cost CreditReason.refund_canceled_job m)
      ≡ false
cancelled_row-other user id cost m = rw (==_refl user) refl

-- The refund of a cancellation does not count as one of a failure.
pub other_reason :
    (user id cost : ℕ) (m : Option String) (ts : List CreditTransaction)
    → is_refunded user id CreditReason.refund_failed_job ts ≡ false
    → is_refunded user id CreditReason.refund_failed_job
        (refund_row user id cost CreditReason.refund_canceled_job m ∷ ts)
      ≡ false
other_reason user id cost m ts h =
    find-skip (is_refund_of user id CreditReason.refund_failed_job)
      (refund_row user id cost CreditReason.refund_canceled_job m) ts false
      (cancelled_row-other user id cost m) h

-- The database after a refund that was due.
abbrev pub refunded : ℕ → GenerateJob → CreditReason → Option String → ℤ → Db → Db
refunded id job reason m b db = record db {
  wallets = put job.user_id (b +ℤ pos job.credit_cost) db.wallets;
  transactions = refund_row job.user_id id job.credit_cost reason m ∷ db.transactions;
}

pub refund_due :
    (id : ℕ) (job : GenerateJob) (reason : CreditReason) (m : Option String) (db : Db) (b : ℤ)
    → ltb 0 job.credit_cost ≡ true
    → lookup job.user_id db.wallets ≡ some b
    → is_refunded job.user_id id reason db.transactions ≡ false
    → refund_credit_if_missing id job reason m db ≡ (ok tt, refunded id job reason m b db)
unfolding refund_credit_if_missing increment_wallet create_transaction
refund_due id job reason m db b charged found due =
    rw (not_free job.credit_cost charged, due, found)

pub refunded-marks :
    (id : ℕ) (job : GenerateJob) (reason : CreditReason) (m : Option String) (b : ℤ) (db : Db)
    → is_refunded job.user_id id reason (refunded id job reason m b db).transactions ≡ true
refunded-marks id job reason m b db =
    find-here (is_refund_of job.user_id id reason)
      (refund_row job.user_id id job.credit_cost reason m) db.transactions
      (refund_row-is_refund_of job.user_id id job.credit_cost reason m)

-- The transaction of the worker's refund, of an owner with a wallet.
pub pay_failed_refund-pays :
    (id : ℕ) (job : GenerateJob) (m : String) (db : Db) (b : ℤ)
    → lookup job.user_id db.wallets ≡ some b
    → pay_failed_refund id job m db
      ≡ (ok tt, refunded id job CreditReason.refund_failed_job (some m) b db)
unfolding pay_failed_refund increment_wallet create_transaction
pay_failed_refund-pays id job m db b found = rw found
