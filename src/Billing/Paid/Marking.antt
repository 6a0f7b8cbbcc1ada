-- ===== src/Billing/Paid/Marking.antt =====
-- `markOrderPaid` (src/modules/billing/billing.service.ts) as a whole, by how it ends.
use neura_gen.Base.{
  not, ℕ, ◌≡◌, refl, Option, some, String, if◌then◌else◌, lookup, Option-cases, inl, inr,
}
use neura_gen.Store.{
  Db, User, PaymentOrder, PaymentOrderStatus, Result, Error, ok, err, pure, throw, roll_back,
}
use neura_gen.Store.Rules.{Ensures}
use neura_gen.Billing.Paid.{
  PaidResult, already_paid, marked_paid, settle, mark_order_paid, is_pending, is_paid,
}
use neura_gen.Billing.Paid.Effect.{Settles, settle-Settles}

-- What a call that began at `db` has done, by how it ended: an exception and a repeated call change
-- nothing, and any other call has settled an order that was pending.
abbrev pub Marks : (now id : ℕ) → Option String → Db → Result PaidResult × Db → Type 0
Marks now id ref db (err e, db') = db' ≡ db
Marks now id ref db (ok (already_paid k), db') = (k ≡ id) × (db' ≡ db)
Marks now id ref db (ok (marked_paid k row next), db') =
    (order : PaymentOrder) × (user : User) × (lookup id db.orders ≡ some order)
    × (order.status ≡ PaymentOrderStatus.pending)
    × (lookup order.user_id db.users ≡ some user)
    × Settles now id ref order user db (marked_paid k row next) db'

module _ (now id : ℕ) (ref : Option String) (db : Db) (order : PaymentOrder) (user : User)
    (found : lookup id db.orders ≡ some order)
    (owner : lookup order.user_id db.users ≡ some user) where
  settled-Marks :
      (r : Result PaidResult × Db)
      → order.status ≡ PaymentOrderStatus.pending
      → Ensures (Settles now id ref order user db) r
      → Marks now id ref db (roll_back db r)
  settled-Marks (err e, db') p h = refl
  settled-Marks (ok (already_paid k), db') p h = h
  settled-Marks (ok (marked_paid k row next), db') p h = (order, user, found, p, owner, h)

  status-Marks :
      (s : PaymentOrderStatus)
      → order.status ≡ s
      → Marks now id ref db (
          roll_back db (
            (if is_paid s
                then pure (already_paid id)
                else if not (is_pending s)
                then throw (Error.bad_request "Only pending orders can be marked as paid")
                else settle now id ref order user)
              db))
  status-Marks PaymentOrderStatus.pending e =
      settled-Marks (settle now id ref order user db) e (settle-Settles now id ref order user db)
  status-Marks PaymentOrderStatus.paid e = (refl, refl)
  status-Marks _ e = refl

-- Marking an order as paid is atomic: an exception and the answer that the order was paid already
-- go with an unchanged database, and a call that reports the payment found the order pending and
-- its owner there, no other order has the reference, and wallets, ledger, users and the order are
-- exactly what the order brings, with all else as it was.
pub mark_order_paid-Marks :
    (now id : ℕ) (ref : Option String) (db : Db)
    → Marks now id ref db (mark_order_paid now id ref db)
unfolding mark_order_paid
mark_order_paid-Marks now id ref db = elim (Option-cases (lookup id db.orders)) [
  | inl missing ↦ rw missing refl
  | inr (order, found) ↦ elim (Option-cases (lookup order.user_id db.users)) [
    | inl missing ↦ rw (found, missing) refl
    | inr (user, owner) ↦
        rw (found, owner) (status-Marks now id ref db order user found owner order.status refl)
  ]
]
