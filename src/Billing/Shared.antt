-- ===== src/Billing/Shared.antt =====
-- What the two payment gateways share: the signature check, the amount check, the writes to an
-- order (src/modules/billing/billing.service.ts).
use neura_gen.Base.{
  ℕ, String, Bool, true, false, not, Option, none, some, ◌=ₛ◌, ◌==◌, case_option, lookup, update,
}
use neura_gen.Store.{
  PaymentOrder, PaymentOrderStatus, OrderMetadata, PaymentProvider, Error, ok, err, Action,
}

-- `safeCompare`: texts of one length in bytes, compared in constant time.
abbrev pub safe_compare : String → String → Bool
safe_compare expected actual = expected =ₛ actual

-- `extractAmountVnd(order.metadata)`, and the test that refuses another amount.
abbrev pub extract_amount_vnd : OrderMetadata → Option ℕ
extract_amount_vnd m = m.amount_vnd

abbrev pub is_other_amount : Option ℕ → ℕ → Bool
is_other_amount none amount = false
is_other_amount (some expected) amount = not (expected == amount)

-- `prisma.paymentOrder.update({ where: { id }, data })`
unfoldable pub update_order : ℕ → (PaymentOrder → PaymentOrder) → Action (Unit {0})
update_order id f db =
    case_option (lookup id db.orders) (err Error.record_not_found, db)
      (λ _. (ok tt, record db { orders = update id f db.orders }))

-- `metadata`, as it was read with the order, in place of the stored one.
abbrev pub with_metadata : OrderMetadata → PaymentOrder → PaymentOrder
with_metadata m o = record o { metadata = m }

-- `metadata: { ...metadata, integrationStatus }`
abbrev pub with_integration : String → OrderMetadata → PaymentOrder → PaymentOrder
with_integration status m o = with_metadata (record m { integration_status = status }) o

-- `status: FAILED`, with the reason in the metadata.
abbrev pub failed_row : String → OrderMetadata → PaymentOrder → PaymentOrder
failed_row why m o = record (with_integration why m o) { status = PaymentOrderStatus.failed }

abbrev pub is_momo : PaymentProvider → Bool
is_momo PaymentProvider.momo = true
is_momo PaymentProvider.payos = false
is_momo PaymentProvider.bank_transfer = false

abbrev pub is_payos : PaymentProvider → Bool
is_payos PaymentProvider.payos = true
is_payos PaymentProvider.momo = false
is_payos PaymentProvider.bank_transfer = false
