-- ===== src/Jobs/Charge/Request.antt =====
-- `createVideoJob` (src/modules/jobs/jobs.service.ts) as a whole and the wallet.
use Prim.Native.String.{◌++◌ as ◌++ₛ◌}
use neura_gen.Base.{
  ℕ, ◌≡◌, refl, ap, sym, ◌∙◌, false, Option, some, none, String, ltb, pos, ◌-ℤ◌, -ℤ-+ℤ, lookup,
  lookup-put, ==_refl, Bool-cases, Option-cases, inl, inr,
}
use neura_gen.Store.{Db, UserRole, GenerateJob, CreditReason, Result, ok, err, after, throw, Error}
use neura_gen.Store.Rules.{same-cases}
use neura_gen.Credits.Once.{is_refunded}
use neura_gen.Ledger.{balance}
use neura_gen.Jobs.Catalog.{VideoGenerationPreset, resolve_video_preset}
use neura_gen.Jobs.Create.{
  CreateVideoJobDto, charge_and_create, enqueue, fail_enqueue, mark_queued, update_job, add_log,
  check_input_asset, create_video_job,
}
use neura_gen.Jobs.Charge.{IsCharged}
use neura_gen.Jobs.Charge.Outcome.{Charges, charge_and_create-Charges}
use neura_gen.Jobs.Charge.Billing.{
  Bills, charged_balance, not_due, charge-is_refunded, free_usage-is_refunded, fail_enqueue_refunds,
  fail_enqueue_free,
}
use neura_gen.Jobs.Books.{check_input_asset-same}

thrown-Bills :
    (u : ℕ) (db : Db) (r : Result (Unit {0}) × Db) (e : Error)
    → balance u r.1 ≡ balance u db
    → Bills u db (after r (λ _. throw e))
thrown-Bills u db (ok _, db') e h = h
thrown-Bills u db (err x, db') e h = h

module _ (now id user_id : ℕ) (role : UserRole) (dto : CreateVideoJobDto)
    (preset : VideoGenerationPreset) (db : Db) (job : GenerateJob) (db₁ : Db)
    (c : IsCharged now id user_id role dto preset db job db₁)
    (fresh : is_refunded user_id id CreditReason.refund_failed_job db.transactions ≡ false) where
  stored : lookup id db₁.jobs ≡ some job
  stored = rw (c.jobs, lookup-put id id job db.jobs, ==_refl id) refl

  still_fresh : is_refunded user_id id CreditReason.refund_failed_job db₁.transactions ≡ false
  still_fresh = rw c.transactions (
      charge-is_refunded now user_id id role dto preset job.credit_cost
        job.extra_config.free_credit_applied _
        (free_usage-is_refunded now user_id id role dto preset job.extra_config.free_credit_applied
          db.transactions fresh))

  given_back :
      (message : String)
      → balance user_id (fail_enqueue now id job message db₁).1 ≡ balance user_id db
  given_back message = elim (Bool-cases (ltb 0 job.credit_cost)) [
    | inl due ↦
        let wallet : lookup user_id db₁.wallets ≡ some (balance user_id db -ℤ pos job.credit_cost) =
          rw
            (
              c.wallets,
              due,
              lookup-put user_id user_id (balance user_id db -ℤ pos job.credit_cost) db.wallets,
              ==_refl user_id,
            )
            refl in
        sym (ap (λ u. balance u (fail_enqueue now id job message db₁).1) c.owner)
        ∙ (fail_enqueue_refunds now id job message db₁ (balance user_id db -ℤ pos job.credit_cost)
            stored due (rw c.owner wallet) (rw c.owner still_fresh))
        ∙ -ℤ-+ℤ (balance user_id db) (pos job.credit_cost)
    | inr nothing ↦
        rw
          (
            fail_enqueue_free now id job message db₁ (not_due job.credit_cost nothing),
            c.wallets,
            nothing,
          )
          refl
  ]

  enqueue-Bills : (queue : Option String) → Bills user_id db (enqueue now id job preset queue db₁)
  unfolding enqueue mark_queued update_job add_log
  enqueue-Bills none = rw stored (charged_balance now id user_id role dto preset db job db₁ c)
  enqueue-Bills (some message) =
      thrown-Bills user_id db (fail_enqueue now id job ("Queue enqueue failed: " ++ₛ message) db₁) _
        (given_back ("Queue enqueue failed: " ++ₛ message))

queued-Bills :
    (now id user_id : ℕ) (dto : CreateVideoJobDto) (preset : VideoGenerationPreset)
    (queue : Option String) (db : Db) (r : Result GenerateJob × Db)
    → is_refunded user_id id CreditReason.refund_failed_job db.transactions ≡ false
    → Charges now id user_id dto preset db r
    → Bills user_id db (after r (λ job. enqueue now id job preset queue))
queued-Bills now id user_id dto preset queue db (err e, db₁) fresh same = ap (balance user_id) same
queued-Bills now id user_id dto preset queue db (ok job, db₁) fresh (user, _, c) =
    enqueue-Bills now id user_id _ dto preset db job db₁ c fresh queue

-- A request for a video, whatever the queue does: if it returns, the user's wallet has paid exactly
-- the cost that the answer names, and if it throws, at any point, the wallet holds what it held.
-- The identifier drawn for the job has no refund of a failure in the ledger.
pub create_video_job-Bills :
    (env : String → Option String) (now id user_id : ℕ) (dto : CreateVideoJobDto)
    (queue : Option String) (db : Db)
    → is_refunded user_id id CreditReason.refund_failed_job db.transactions ≡ false
    → Bills user_id db (create_video_job env now id user_id dto queue db)
unfolding create_video_job
create_video_job-Bills env now id user_id dto queue db fresh =
    elim (Option-cases (resolve_video_preset dto.preset_id)) [
      | inl unknown ↦ rw unknown refl
      | inr (preset, found) ↦
          elim (same-cases db (check_input_asset user_id dto preset.workflow db)
            (check_input_asset-same user_id dto preset.workflow db)) [
              | inr (e, refused) ↦ rw (found, refused) refl
              | inl (_, accepted) ↦
                  rw (found, accepted)
                    (queued-Bills now id user_id dto preset queue db
                      (charge_and_create env now id user_id dto preset db) fresh
                      (charge_and_create-Charges env now id user_id dto preset db))
            ]
    ]
