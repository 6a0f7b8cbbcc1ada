-- ===== src/Billing/Paid/Once.antt =====
-- Calls of `markOrderPaid` (src/modules/billing/billing.service.ts) on one order, one after the other
-- and out of date.
use neura_gen.Base.{
  ap, ℕ, ◌≡◌, refl, Bool, true, false, ◌&&◌, Option, none, some, String, ==_refl, if◌then◌else◌,
  lookup, update, lookup-update, Bool-cases, inl, inr, arith, or_else, Table, truthy,
}
use neura_gen.Store.{roll_back, Db, User, PaymentOrder, PaymentOrderStatus, Result, Error, ok, err}
use neura_gen.Billing.Paid.Effect.{upgraded}
use neura_gen.Billing.Paid.{
  next_expiry, is_subscription, PaidResult, already_paid, marked_paid, settle, claim, fulfil,
  mark_order_paid, is_pending, is_paid, is_reference_used, paid_row,
}
use neura_gen.Billing.Paid.Effect.{claimed}
use neura_gen.Billing.Paid.Marking.{Marks, mark_order_paid-Marks}

claim_stale :
    (now id : ℕ) (ref : Option String) (db : Db) (row : PaymentOrder)
    → lookup id db.orders ≡ some row
    → is_pending row.status ≡ false
    → claim now id ref db ≡ (ok false, db)
unfolding claim
claim_stale now id ref db row found done = rw (found, done)

-- A settlement changes nothing if the stored order is no longer pending, whatever order and owner
-- it had read.
pub settle_stale :
    (now id : ℕ) (ref : Option String) (order : PaymentOrder) (user : User) (db : Db)
    (row : PaymentOrder)
    → lookup id db.orders ≡ some row
    → is_pending row.status ≡ false
    → (settle now id ref order user db).1 ≡ db
unfolding settle
settle_stale now id ref order user db row found done =
    elim (Bool-cases (truthy ref && is_reference_used id ref db.orders)) [
      | inl used ↦ rw used
      | inr free ↦
          rw free (rw (claim_stale now id (or_else ref order.provider_order_id) db row found done))
    ]

-- An order that was paid.
pub mark_order_paid_again :
    (now id : ℕ) (ref : Option String) (db : Db) (order : PaymentOrder) (user : User)
    → lookup id db.orders ≡ some order
    → lookup order.user_id db.users ≡ some user
    → order.status ≡ PaymentOrderStatus.paid
    → mark_order_paid now id ref db ≡ (ok (already_paid id), db)
unfolding mark_order_paid
mark_order_paid_again now id ref db order user found owner paid = rw (found, owner, paid)

-- An order that is neither pending nor paid, and whose owner is there, is never settled: the call
-- throws and the database stays as it is.
pub mark_order_paid_closed :
    (now id : ℕ) (ref : Option String) (db : Db) (order : PaymentOrder) (user : User)
    → lookup id db.orders ≡ some order
    → lookup order.user_id db.users ≡ some user
    → is_paid order.status ≡ false
    → is_pending order.status ≡ false
    → mark_order_paid now id ref db
      ≡ (err (Error.bad_request "Only pending orders can be marked as paid"), db)
unfolding mark_order_paid
mark_order_paid_closed now id ref db order user found owner paid pending =
    rw (found, owner, paid, pending)

-- The order and its owner after a settlement.
record IsPaidUp (id : ℕ) (row : PaymentOrder) (db' : Db) : Type 0 where
  owner : User
  stored : lookup id db'.orders ≡ some row
  status : row.status ≡ PaymentOrderStatus.paid
  owned : lookup row.user_id db'.users ≡ some owner

owner_kept :
    (sub : Bool) (u : ℕ) (f : User → User) (user : User) (users users' : Table User)
    → users' ≡ (if sub then update u f users else users)
    → lookup u users ≡ some user
    → lookup u users' ≡ some (if sub then f user else user)
owner_kept true u f user users users' e owner = rw (e, lookup-update u u f users, ==_refl u, owner)
owner_kept false u f user users users' e owner = rw (e, owner)

Marks-IsPaidUp :
    (now id : ℕ) (ref : Option String) (db : Db) (k : ℕ) (row : PaymentOrder) (next : Option ℕ)
    (db' : Db)
    → Marks now id ref db (ok (marked_paid k row next), db')
    → IsPaidUp id row db'
Marks-IsPaidUp now id ref db k row next db' (order, user, found, _, owner, (_, (_, stored, f))) =
    let taken = or_else ref order.provider_order_id in
    let image : some (paid_row now taken order) ≡ some row =
      rw (lookup-update id id (paid_row now taken) db.orders, ==_refl id, found) at stored in
    let same : paid_row now taken order ≡ row = cc in
    record {
      owner =
          if is_subscription order.order_type
          then upgraded (next_expiry now user order) user
          else user;
      stored = rw f.orders stored;
      status = rw (← same) refl;
      owned = rw (← same) (owner_kept _ order.user_id _ user db.users db'.users f.users owner);
    }

-- Once a call has marked an order as paid, the same call again, at any time and with any reference,
-- reports a paid order and leaves the database as it is.
pub mark_order_paid_once :
    (now now' id : ℕ) (ref ref' : Option String) (db : Db) (k : ℕ) (row : PaymentOrder)
    (next : Option ℕ) (db' : Db)
    → mark_order_paid now id ref db ≡ (ok (marked_paid k row next), db')
    → mark_order_paid now' id ref' db' ≡ (ok (already_paid id), db')
mark_order_paid_once now now' id ref ref' db k row next db' e =
    let m : Marks now id ref db (ok (marked_paid k row next), db') =
      rw e at (mark_order_paid-Marks now id ref db) in
    let p = Marks-IsPaidUp now id ref db k row next db' m in
    mark_order_paid_again now' id ref' db' row p.owner p.stored p.owned p.status

-- The call returned, and settled the order.
abbrev pub IsMarked : Result PaidResult × Db → Type 0
IsMarked (ok (marked_paid k row next), db') = Unit
IsMarked (ok (already_paid k), db') = ⊥
IsMarked (err e, db') = ⊥

roll_back-IsMarked : (db : Db) (r : Result PaidResult × Db) → IsMarked r → IsMarked (roll_back db r)
roll_back-IsMarked db (ok (marked_paid k row next), db') h = tt
roll_back-IsMarked db (ok (already_paid k), db') h = h
roll_back-IsMarked db (err e, db') h = h

fulfil-IsMarked :
    (now id : ℕ) (ref : Option String) (order : PaymentOrder) (user owner : User) (db : Db)
    (row : PaymentOrder)
    → lookup id db.orders ≡ some row
    → lookup order.user_id db.users ≡ some owner
    → IsMarked (fulfil now id ref order user db)
unfolding fulfil
fulfil-IsMarked now id ref order user owner db row stored owned = ground arith

not_used :
    (id : ℕ) (ref stored : Option String) (orders : Table PaymentOrder)
    → is_reference_used id (or_else ref stored) orders ≡ false
    → (truthy ref && is_reference_used id ref orders) ≡ false
not_used id none stored orders free = refl
not_used id (some r) stored orders free = rw free (ground arith)

-- A pending order whose owner is there is settled, if no other order has the reference that the
-- order would get.
pub mark_order_paid_settles :
    (now id : ℕ) (ref : Option String) (db : Db) (order : PaymentOrder) (user : User)
    → lookup id db.orders ≡ some order
    → lookup order.user_id db.users ≡ some user
    → order.status ≡ PaymentOrderStatus.pending
    → is_reference_used id (or_else ref order.provider_order_id) db.orders ≡ false
    → IsMarked (mark_order_paid now id ref db)
unfolding mark_order_paid settle claim
mark_order_paid_settles now id ref db order user found owner pending free =
    let taken = or_else ref order.provider_order_id in
    let stored : lookup id (claimed now id taken db).orders ≡ some (paid_row now taken order) =
      rw (lookup-update id id (paid_row now taken) db.orders, ==_refl id, found) refl in
    rw
      (
        found,
        owner,
        ap is_paid pending,
        ap is_pending pending,
        not_used id ref order.provider_order_id db.orders free,
        found,
        ap is_pending pending,
        free,
      )
      (roll_back-IsMarked db _ (
        fulfil-IsMarked now id ref order user user (claimed now id taken db)
          (paid_row now taken order) stored owner))
