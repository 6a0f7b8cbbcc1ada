-- ===== src/Billing/Paid.antt =====
-- `BillingService.markOrderPaid` (src/modules/billing/billing.service.ts). The snapshot that the
-- call read first is an argument of `settle`, so that two calls can be interleaved between their
-- reads and their claims.
pub mod Effect
pub mod Marking
pub mod Once
pub mod Books
pub mod Pro
use neura_gen.Base.{
  ℕ, ◌+◌, ◌*◌, String, Bool, true, false, not, ◌&&◌, Option, none, some, pos, ◌==◌, ltb, Table,
  lookup, update, find_row, truthy, holds, or_else, get_or, is_some, case_option, if◌then◌else◌,
}
use neura_gen.Store.{
  User, UserRole, PaymentOrder, PaymentOrderStatus, PaymentOrderType, CreditTransaction,
  CreditReason, TransactionMetadata, Error, ok, err, Action, pure, throw, gets, or_throw, throw_if,
  when, transaction, ◌>>=◌, ◌>>◌,
}
use neura_gen.Credits.{upsert_wallet, create_transaction}

pub data PaidResult : Type 0 where
  already_paid : ℕ → PaidResult
  marked_paid : ℕ → PaymentOrder → (next_pro_expires_at : Option ℕ) → PaidResult

abbrev pub is_pending : PaymentOrderStatus → Bool
is_pending PaymentOrderStatus.pending = true
is_pending PaymentOrderStatus.paid = false
is_pending PaymentOrderStatus.failed = false
is_pending PaymentOrderStatus.canceled = false
is_pending PaymentOrderStatus.expired = false

abbrev pub is_paid : PaymentOrderStatus → Bool
is_paid PaymentOrderStatus.paid = true
is_paid PaymentOrderStatus.pending = false
is_paid PaymentOrderStatus.failed = false
is_paid PaymentOrderStatus.canceled = false
is_paid PaymentOrderStatus.expired = false

-- Another order than `id` has this provider's reference.
abbrev pub is_reference_used : ℕ → Option String → Table PaymentOrder → Bool
is_reference_used id none orders = false
is_reference_used id (some ref) orders =
    is_some (find_row (λ k o. holds o.provider_order_id ref && not (k == id)) orders)

abbrev pub paid_row : ℕ → Option String → PaymentOrder → PaymentOrder
paid_row now ref o = record o {
  status = PaymentOrderStatus.paid;
  paid_at = some now;
  provider_order_id = ref;
}

-- `tx.paymentOrder.updateMany({ where: { id, status: PENDING } })`: whether a row was claimed.
-- The column `providerOrderId` is unique.
unfoldable pub claim : ℕ → ℕ → Option String → Action Bool
claim now id ref db =
    case_option (lookup id db.orders) (ok false, db)
      (λ current.
        if is_pending current.status
        then if is_reference_used id ref db.orders
          then (err Error.unique_violation, db)
          else (ok true, record db { orders = update id (paid_row now ref) db.orders })
        else (ok false, db))

abbrev pub day_ms : ℕ
day_ms = 86400000

abbrev pub is_later : Option ℕ → ℕ → Bool
is_later none now = false
is_later (some t) now = ltb now t

-- The new end of the plan: from its present end if that is still to come, else from now.
abbrev pub next_expiry : ℕ → User → PaymentOrder → ℕ
next_expiry now user order =
    (if is_later user.pro_expires_at now then get_or user.pro_expires_at now else now)
    + order.pro_duration_days * day_ms

abbrev pub is_subscription : PaymentOrderType → Bool
is_subscription PaymentOrderType.pro_subscription = true
is_subscription PaymentOrderType.credit_topup = false

-- `tx.user.update`
unfoldable pub grant_pro : ℕ → ℕ → Action (Unit {0})
grant_pro user_id expiry db =
    case_option (lookup user_id db.users) (err Error.record_not_found, db)
      (λ _. (
        ok tt,
        record db {
          users =
              update user_id (λ u. record u { role = UserRole.pro; pro_expires_at = some expiry })
                db.users;
        },
      ))

abbrev pub purchase_row : ℕ → Option String → PaymentOrder → CreditTransaction
purchase_row id ref order = record {
  user_id = order.user_id;
  amount = pos order.credit_amount;
  reason =
      if is_subscription order.order_type
      then CreditReason.purchase_pro_subscription
      else CreditReason.purchase_topup;
  metadata = TransactionMetadata.purchase id order.provider ref order.package_code;
}

-- What a claimed order brings: its credits, its time as a PRO user, and the ledger entry.
unfoldable pub fulfil : ℕ → ℕ → Option String → PaymentOrder → User → Action PaidResult
unfolding upsert_wallet create_transaction grant_pro
fulfil now id ref order user = do
  when (ltb 0 order.credit_amount) (upsert_wallet order.user_id (pos order.credit_amount))
  when (is_subscription order.order_type) (grant_pro order.user_id (next_expiry now user order))
  when (ltb 0 order.credit_amount) (create_transaction (purchase_row id ref order))
  found ← gets (λ db. lookup id db.orders)
  paid_order ← or_throw (Error.not_found "Payment order not found after marking paid") found
  pure (
      marked_paid id paid_order (
        if is_subscription order.order_type
        then some (next_expiry now user order)
        else user.pro_expires_at))

-- From the check of the reference on, with the order and its owner as they were read.
unfoldable pub settle : ℕ → ℕ → Option String → PaymentOrder → User → Action PaidResult
settle now id ref order user = do
  used ← gets (λ db. truthy ref && is_reference_used id ref db.orders)
  throw_if used (Error.bad_request "providerOrderId already used by another order")
  claimed ← claim now id (or_else ref order.provider_order_id)
  if claimed then fulfil now id ref order user else pure (already_paid id)

-- The order and its owner, or the exceptions before any write. An order's owner is there by the
-- foreign key.
unfoldable pub mark_order_paid : ℕ → ℕ → Option String → Action PaidResult
mark_order_paid now id ref = transaction do
  found ← gets (λ db. lookup id db.orders)
  order ← or_throw (Error.not_found "Payment order not found") found
  owner ← gets (λ db. lookup order.user_id db.users)
  user ← or_throw Error.record_not_found owner
  if is_paid order.status
      then pure (already_paid id)
      else if not (is_pending order.status)
      then throw (Error.bad_request "Only pending orders can be marked as paid")
      else settle now id ref order user
