-- ===== src/System/Races.antt =====
-- Calls that act on a row which has changed since they read it (src/workers/video.worker.ts,
-- src/modules/billing/billing.service.ts).
use neura_gen.Base.{
  ap, ℕ, ◌≡◌, refl, true, false, ◌==◌, ==_refl, Option, some, none, String, ◌∷◌, ltb, pos, ◌+ℤ◌, ℤ,
  lookup, update, lookup-put, lookup-update,
}
use neura_gen.Store.{Db, CreditReason, GenerateJob, User, PaymentOrder, PaymentOrderStatus, ok}
use neura_gen.Credits.{refund_failed_job, pay_failed_refund, increment_wallet, create_transaction}
use neura_gen.Credits.Once.{refunded, refund_due, is_refunded, not_free, other_reason}
use neura_gen.Ledger.{balance}
use neura_gen.Jobs.Create.{update_job, add_log}
use neura_gen.Jobs.Cancel.{finish_cancel, cancelled_job}
use neura_gen.Billing.Shared.{update_order, failed_row}
use neura_gen.Billing.Paid.{marked_paid, settle, is_subscription, is_pending, next_expiry}
use neura_gen.Billing.Paid.Effect.{Settles, settle-Settles, upgraded}
use neura_gen.Billing.Paid.{mark_order_paid}
use neura_gen.Billing.Paid.Marking.{Marks, mark_order_paid-Marks}
use neura_gen.Jobs.Create.{charge_balance, CreateVideoJobDto}
use neura_gen.Jobs.Catalog.{VideoGenerationPreset}
use neura_gen.Credits.{decrement_wallet}
use neura_gen.Ledger.{balance-put}
use neura_gen.Store.{Error, err}
use mathlib.Core.Path.{subst}
use neura_gen.Base.{
  sym, ◌∙◌, get_or, put, ◌-ℤ◌, ◌+◌, ltb_ℤ, if◌then◌else◌, int_laws, -ℤ_parts, arith, +ℤ-zero,
  Bool-cases, Option-cases, inl, inr,
}
use neura_gen.Billing.Momo.{MomoIpnPayload, apply_momo_ipn}

refund_failed_due :
    (id : ℕ) (job : GenerateJob) (message : String) (db : Db) (b : ℤ)
    → ltb 0 job.credit_cost ≡ true
    → lookup job.user_id db.wallets ≡ some b
    → is_refunded job.user_id id CreditReason.refund_failed_job db.transactions ≡ false
    → (refund_failed_job id job message db).1
      ≡ refunded id job CreditReason.refund_failed_job (some message) b db
unfolding refund_failed_job pay_failed_refund increment_wallet create_transaction
refund_failed_due id job message db b charged found due =
    rw (not_free job.credit_cost charged, due, found)

-- A charged job that is stored, whose owner has a wallet, and that was not refunded, is refunded
-- twice when its user cancels it while the worker's last attempt is failing: after both, the wallet
-- has grown by twice the charge.
pub cancelled_and_failed_refunds_twice :
    (now id : ℕ) (job : GenerateJob) (message : String) (db : Db) (b : ℤ)
    → lookup id db.jobs ≡ some job
    → ltb 0 job.credit_cost ≡ true
    → lookup job.user_id db.wallets ≡ some b
    → is_refunded job.user_id id CreditReason.refund_canceled_job db.transactions ≡ false
    → is_refunded job.user_id id CreditReason.refund_failed_job db.transactions ≡ false
    → balance job.user_id (refund_failed_job id job message (finish_cancel now id job db).1).1
      ≡ (b +ℤ pos job.credit_cost) +ℤ pos job.credit_cost
unfolding finish_cancel update_job add_log
cancelled_and_failed_refunds_twice now id job message db b found charged wallet first second =
    let db₁ : Db = record db { jobs = update id (cancelled_job now) db.jobs } in
    let db₂ = refunded id job CreditReason.refund_canceled_job none b db₁ in
    let db₃ : Db = record db₂ {
      logs = record { job_id = id; message = "Job canceled by user" } ∷ db.logs;
    } in
    let wallet₃ : lookup job.user_id db₃.wallets ≡ some (b +ℤ pos job.credit_cost) =
      rw
        (
          lookup-put job.user_id job.user_id (b +ℤ pos job.credit_cost) db.wallets,
          ==_refl job.user_id,
        )
        refl in
    let due₃ : is_refunded job.user_id id CreditReason.refund_failed_job db₃.transactions ≡ false =
      other_reason job.user_id id job.credit_cost none db.transactions second in
    rw
      (
        found,
        refund_due id job CreditReason.refund_canceled_job none db₁ b charged wallet first,
        refund_failed_due id job message db₃ (b +ℤ pos job.credit_cost) charged wallet₃ due₃,
        lookup-put job.user_id job.user_id (b +ℤ pos job.credit_cost +ℤ pos job.credit_cost)
            db₃.wallets,
        ==_refl job.user_id,
      )
      refl

-- The order and the owner that a call has settled.
marked_order :
    (now id : ℕ) (ref : Option String) (order : PaymentOrder) (db db' : Db) (k : ℕ)
    (row : PaymentOrder) (next : Option ℕ)
    → lookup id db.orders ≡ some order
    → mark_order_paid now id ref db ≡ (ok (marked_paid k row next), db')
    → (order.status ≡ PaymentOrderStatus.pending)
      × (user : User) × Settles now id ref order user db (marked_paid k row next) db'
marked_order now id ref order db db' k row next found e =
    let (read, user, there, pending, owner, settled) : Marks now id ref db
        (ok (marked_paid k row next), db') =
      rw e at (mark_order_paid-Marks now id ref db) in
    let same : read ≡ order = ap (λ o. get_or o read) (sym there ∙ found) in
    subst
      (λ o.
        (o.status ≡ PaymentOrderStatus.pending)
        × (user : User) × Settles now id ref o user db (marked_paid k row next) db')
      same (pending, user, settled)

not_positive : (n : ℕ) → ltb 0 n ≡ false → n ≡ 0
not_positive n h = ground (arith, h)

failed_order_refused :
    (now id : ℕ) (ref : Option String) (order : PaymentOrder) (db : Db)
    → lookup id db.orders ≡ some order
    → order.status ≡ PaymentOrderStatus.failed
    → (e : Error) × (mark_order_paid now id ref db ≡ (err e, db))
unfolding mark_order_paid
failed_order_refused now id ref order db found failed =
    elim (Option-cases (lookup order.user_id db.users)) [
      | inl missing ↦ rw (found, missing) (_, refl)
      | inr (user, owner) ↦ rw (found, owner, failed) (_, refl)
    ]

credited_balance :
    (user n : ℕ) (db db' : Db)
    → db'.wallets ≡ (if ltb 0 n then put user (balance user db +ℤ pos n) db.wallets else db.wallets)
    → balance user db' ≡ balance user db +ℤ pos n
credited_balance user n db db' e = elim (Bool-cases (ltb 0 n)) [
  | inl some_credits ↦
      rw (e, some_credits, balance-put user user (balance user db +ℤ pos n) db, ==_refl user) refl
  | inr nothing ↦ rw (e, nothing, not_positive n nothing, +ℤ-zero (balance user db)) refl
]

-- An order is marked as paid after a MoMo notification of failure has read it as pending. When the
-- notification is applied, the order is stored as failed, with the metadata that were read, while
-- its owner keeps the credits of the payment; and a later call that marks the order as paid is
-- refused and changes nothing.
pub stale_failure_overwrites :
    (sign : String → String → String) (now later again id : ℕ) (ref other : Option String)
    (p : MomoIpnPayload) (order : PaymentOrder) (db db' : Db) (k : ℕ) (row : PaymentOrder)
    (next : Option ℕ)
    → lookup id db.orders ≡ some order
    → mark_order_paid now id ref db ≡ (ok (marked_paid k row next), db')
    → (p.result_code == 0) ≡ false
    → (let after = (apply_momo_ipn sign later p id order db').1 in
        (lookup id after.orders ≡ some (failed_row "momo_ipn_failed" order.metadata row))
        × (balance order.user_id after ≡ balance order.user_id db +ℤ pos order.credit_amount)
        × ((e : Error) × (mark_order_paid again id other after ≡ (err e, after))))
unfolding apply_momo_ipn update_order
stale_failure_overwrites sign now later again id ref other p order db db' k row next found e
      failed =
    let (pending, user, (free, (same, stored, f))) =
      marked_order now id ref order db db' k row next found e in
    let here : lookup id db'.orders ≡ some row = rw f.orders stored in
    let after : Db = record db' {
      orders = update id (failed_row "momo_ipn_failed" order.metadata) db'.orders;
    } in
    let overwritten : lookup id after.orders
        ≡ some (failed_row "momo_ipn_failed" order.metadata row) =
      rw
        (
          lookup-update id id (failed_row "momo_ipn_failed" order.metadata) db'.orders,
          ==_refl id,
          here,
        )
        refl in
    rw (failed, ap is_pending pending, here)
      (
        overwritten,
        credited_balance order.user_id order.credit_amount db after f.wallets,
        failed_order_refused again id other (failed_row "momo_ipn_failed" order.metadata row) after
            overwritten refl,
      )

-- When the settlement of a PRO order has marked it as paid, the plan of its owner ends when the
-- order and the owner, as the settlement had read them, say, whatever end is stored by then: an
-- extension that another order has brought since is lost.
pub settle_counts_from_snapshot :
    (now id : ℕ) (ref : Option String) (order : PaymentOrder) (user current : User) (db db' : Db)
    (k : ℕ) (row : PaymentOrder) (next : Option ℕ)
    → is_subscription order.order_type ≡ true
    → lookup order.user_id db.users ≡ some current
    → settle now id ref order user db ≡ (ok (marked_paid k row next), db')
    → lookup order.user_id db'.users ≡ some (upgraded (next_expiry now user order) current)
settle_counts_from_snapshot now id ref order user current db db' k row next sub owner e =
    let s : Settles now id ref order user db (marked_paid k row next) db' =
      rw e at (settle-Settles now id ref order user db) in
    let (_, (_, _, f)) = s in
    rw (f.users, sub)
      (rw
        (
          lookup-update order.user_id order.user_id (upgraded (next_expiry now user order))
              db.users,
          ==_refl order.user_id,
          owner,
        )
        refl)

twice : (b : ℤ) (c d : ℕ) → b -ℤ pos c -ℤ pos d ≡ b -ℤ pos (c + d)
twice b c d = omega int_laws

overdrawn : (b : ℤ) (n : ℕ) → ltb_ℤ b (pos n) ≡ true → ltb_ℤ (b -ℤ pos n) (pos 0) ≡ true
overdrawn b n h = let parts = -ℤ_parts b (pos n) in ground (arith, h, parts)

-- Two charges of jobs whose transactions have both read the balance of one wallet, each of them
-- covered by it and the two together not: both go through, and the wallet ends in debt, at the
-- balance less both charges.
pub charges_overdraw :
    (user : ℕ) (dto dto' : CreateVideoJobDto) (preset preset' : VideoGenerationPreset)
    (charged charged' free free' : ℕ) (b : ℤ) (db : Db)
    → lookup user db.wallets ≡ some b
    → ltb_ℤ b (pos charged) ≡ false
    → ltb_ℤ b (pos charged') ≡ false
    → ltb_ℤ b (pos (charged + charged')) ≡ true
    → (let first = charge_balance user dto preset b charged free db in
        let second = charge_balance user dto' preset' b charged' free' first.1 in
        (first.0 ≡ ok tt)
        × (second.0 ≡ ok tt)
        × (balance user second.1 ≡ b -ℤ pos (charged + charged'))
        × (ltb_ℤ (balance user second.1) (pos 0) ≡ true))
unfolding charge_balance decrement_wallet create_transaction
charges_overdraw user dto dto' preset preset' c c' free free' b db wallet enough enough' short =
    let left : lookup user (put user (b -ℤ pos c) db.wallets) ≡ some (b -ℤ pos c) =
      rw (lookup-put user user (b -ℤ pos c) db.wallets, ==_refl user) refl in
    let last : lookup user (put user (b -ℤ pos c -ℤ pos c') (put user (b -ℤ pos c) db.wallets))
        ≡ some (b -ℤ pos c -ℤ pos c') =
      rw
        (
          lookup-put user user (b -ℤ pos c -ℤ pos c') (put user (b -ℤ pos c) db.wallets),
          ==_refl user,
        )
        refl in
    rw (enough, wallet, enough', left, last)
      (refl, refl, twice b c c', rw (twice b c c') (overdrawn b (c + c') short))
