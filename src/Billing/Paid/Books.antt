-- ===== src/Billing/Paid/Books.antt =====
-- `markOrderPaid` (src/modules/billing/billing.service.ts) and the machine of the books.
use neura_gen.Base.{
  pos-nonneg, ℕ, refl, Option, String, pos, ◌+ℤ◌, ltb, Bool-cases, inl, inr, or_else,
}
use neura_gen.Store.{transaction, Db, User, PaymentOrder, Result, ok, err}
use neura_gen.Store.Rules.{Ensures-mono, rolled}
use neura_gen.Ledger.{balance}
use neura_gen.Ledger.Steps.{Reaches, IsRun, entry-Reaches, same-Reaches}
use neura_gen.Billing.Paid.{
  PaidResult, already_paid, marked_paid, settle, mark_order_paid, purchase_row,
}
use neura_gen.Billing.Paid.Effect.{IsFulfilled, Settles, settle-Settles, claimed}
use neura_gen.Billing.Paid.Marking.{Marks, mark_order_paid-Marks}

IsFulfilled-Reaches :
    {start : Db} (now id : ℕ) (ref : Option String) (order : PaymentOrder) (user : User)
    (db db' : Db)
    → IsFulfilled now id ref order user db db'
    → Reaches start db
    → Reaches start db'
IsFulfilled-Reaches now id ref order user db db' f h =
    elim (Bool-cases (ltb 0 order.credit_amount)) [
      | inl some_credit ↦
          entry-Reaches order.user_id (balance order.user_id db +ℤ pos order.credit_amount)
            (purchase_row id ref order) db db' h refl refl (inl (pos-nonneg order.credit_amount))
            (rw some_credit at f.wallets) (rw some_credit at f.transactions) f.usages
      | inr no_credit ↦
          same-Reaches db db' h (rw no_credit at f.wallets) (rw no_credit at f.transactions)
            f.usages
    ]

Marks-Reaches :
    {start : Db} (now id : ℕ) (ref : Option String) (db : Db) (r : Result PaidResult × Db)
    → Marks now id ref db r
    → Reaches start db
    → Reaches start r.1
Marks-Reaches now id ref db (err e, db') m h = rw m h
Marks-Reaches now id ref db (ok (already_paid k), db') m h = rw m.1 h
Marks-Reaches now id ref db (ok (marked_paid k row next), db')
      (order, user, _, _, _, (_, (_, _, f))) h =
    IsFulfilled-Reaches now id ref order user
      (claimed now id (or_else ref order.provider_order_id) db) db' f
      (same-Reaches db _ h refl refl refl)

pub mark_order_paid-Reaches :
    {start : Db} (now id : ℕ) (ref : Option String) → IsRun start (mark_order_paid now id ref)
mark_order_paid-Reaches now id ref db h =
    Marks-Reaches now id ref db (mark_order_paid now id ref db)
      (mark_order_paid-Marks now id ref db) h

-- The settlement of an order that was read before, in its own transaction.
pub settle-Reaches :
    {start : Db} (now id : ℕ) (ref : Option String) (order : PaymentOrder) (user : User)
    → IsRun start (transaction (settle now id ref order user))
settle-Reaches {start = start} now id ref order user db h =
    rolled (Reaches _) db (settle now id ref order user db) h (
      Ensures-mono (Settles now id ref order user db) _ _ go
        (settle-Settles now id ref order user db))
  where
    go : (r : PaidResult) (db' : Db) → Settles now id ref order user db r db' → Reaches start db'
    go (already_paid k) db' s = rw s.1 h
    go (marked_paid k row next) db' (_, (_, _, f)) =
        IsFulfilled-Reaches now id ref order user
          (claimed now id (or_else ref order.provider_order_id) db) db' f
          (same-Reaches db _ h refl refl refl)
