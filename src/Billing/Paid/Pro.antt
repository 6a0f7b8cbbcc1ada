-- ===== src/Billing/Paid/Pro.antt =====
-- The PRO time of `markOrderPaid` (src/modules/billing/billing.service.ts) and the role of
-- `resolveEffectiveRole` (src/modules/jobs/jobs.service.ts).
use neura_gen.Base.{
  ℕ, ◌≡◌, refl, true, ◌+◌, ◌*◌, ◌<◌, Option, some, String, ltb, lt→ltb, lookup, lookup-update,
  ==_refl, or_else, max, get_or, arith,
}
use neura_gen.Store.{Db, User, UserRole, PaymentOrder, ok}
use neura_gen.Billing.Paid.{
  mark_order_paid, marked_paid, is_subscription, next_expiry, day_ms, paid_row,
}
use neura_gen.Billing.Paid.Effect.{upgraded}
use neura_gen.Billing.Paid.Marking.{Marks, mark_order_paid-Marks}
use neura_gen.Jobs.Create.{resolve_effective_role}

-- The plan is extended from its end, or from now if it has ended.
next_expiry-max :
    (now : ℕ) (user : User) (order : PaymentOrder)
    → next_expiry now user order
      ≡ max now (get_or user.pro_expires_at 0) + order.pro_duration_days * day_ms
next_expiry-max now user order = ground arith

within_plan :
    (t now : ℕ) (user : User) (order : PaymentOrder)
    → t < max now (get_or user.pro_expires_at 0) + order.pro_duration_days * day_ms
    → ltb t (next_expiry now user order) ≡ true
within_plan t now user order h = rw (next_expiry-max now user order) (lt→ltb t _ h)

-- When a PRO order is marked as paid, its owner counts as a PRO user in the creation of jobs at
-- every time before the order's days have passed since the later of now and the end of the plan
-- that the owner had.
pub mark_order_paid_grants_pro :
    (now id : ℕ) (ref : Option String) (db : Db) (k : ℕ) (row : PaymentOrder) (next : Option ℕ)
    (db' : Db) (before : User) (t : ℕ)
    → mark_order_paid now id ref db ≡ (ok (marked_paid k row next), db')
    → is_subscription row.order_type ≡ true
    → lookup row.user_id db.users ≡ some before
    → t < max now (get_or before.pro_expires_at 0) + row.pro_duration_days * day_ms
    → (after : User) × (lookup row.user_id db'.users ≡ some after)
      × (resolve_effective_role t after.role after.pro_expires_at ≡ UserRole.pro)
mark_order_paid_grants_pro now id ref db k row next db' before t e sub was early =
    let m : Marks now id ref db (ok (marked_paid k row next), db') =
      rw e at (mark_order_paid-Marks now id ref db) in
    granted m
  where
    granted :
        Marks now id ref db (ok (marked_paid k row next), db')
        → (after : User) × (lookup row.user_id db'.users ≡ some after)
          × (resolve_effective_role t after.role after.pro_expires_at ≡ UserRole.pro)
    granted (order, user, found, _, owner, (_, (_, stored, f))) =
        let taken = or_else ref order.provider_order_id in
        let image : some (paid_row now taken order) ≡ some row =
          rw (lookup-update id id (paid_row now taken) db.orders, ==_refl id, found) at stored in
        let same : paid_row now taken order ≡ row = cc in
        let read : some user ≡ some before = rw (← same, owner) at was in
        let own : user ≡ before = cc in
        let bound : t < max now (get_or user.pro_expires_at 0) + order.pro_duration_days * day_ms =
          rw own (rw (← same) at early) in
        let kind : is_subscription order.order_type ≡ true = rw (← same) at sub in
        rw (← same) (
          upgraded (next_expiry now user order) user,
          rw
              (
                f.users,
                kind,
                lookup-update order.user_id order.user_id (upgraded (next_expiry now user order))
                    db.users,
                ==_refl order.user_id,
                owner,
              )
              refl,
          rw (within_plan t now user order bound) refl,
        )
