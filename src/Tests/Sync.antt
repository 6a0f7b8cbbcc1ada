-- ===== src/Tests/Sync.antt =====
-- An order that payOS says is paid.
use neura_gen.Base.{
  ◌≡◌, refl, Option, some, none, ◌⊎◌, [], ◌∷◌, false, pos, lookup, update, put, find_row, show,
  ◌+ℤ◌,
}
use neura_gen.Store.{Db, PaymentOrder, PaymentProvider}
use neura_gen.Js.{field, end, num, str, get}
use neura_gen.Credits.{upsert_wallet, create_transaction}
use neura_gen.Ledger.{balance}
use neura_gen.Billing.Shared.{update_order}
use neura_gen.Billing.Paid.{mark_order_paid, settle, claim, fulfil, grant_pro}
use neura_gen.Billing.Payos.{get_payos_config}
use neura_gen.Billing.Orders.{with_payos_code}
use neura_gen.Billing.Sync.{
  PaymentRequestId, PayosLookup, is_paid_by_status, is_paid_by_amount, apply_payos_lookup,
  settle_payos_lookup, check_payos_lookup, request_payos_lookup, sync_payos_order_status,
}
use neura_gen.Billing.Sync.Authentic.{IsConfirmed, sync_payos_order_status_authentic}
use neura_gen.Tests.Data.{shop, js, sign, env, topup_order}

abbrev payos_order : PaymentOrder
payos_order =
    with_payos_code (some 17) none topup_order.metadata
      (record topup_order { provider = PaymentProvider.payos })

abbrev payos_shop : Db
payos_shop = record shop { orders = (7, payos_order) ∷ [] }

abbrev ask : PaymentRequestId → Option PayosLookup
ask request = some (record {
  code = "00";
  desc = "success";
  signature = none;
  lookup_data = field "status" (str "PAID") (
      field "orderCode" (num 17) (field "amount" (num 24750) (field "amountPaid" (num 24750) end)));
})

paid : balance 1 (sync_payos_order_status js sign env ask false 5 7 1 payos_shop).1 ≡ pos 150
unfolding sync_payos_order_status request_payos_lookup check_payos_lookup apply_payos_lookup
    settle_payos_lookup is_paid_by_status is_paid_by_amount get_payos_config update_order
    mark_order_paid settle claim fulfil grant_pro upsert_wallet create_transaction lookup update put
    find_row ◌+ℤ◌ get show
paid = refl

sync_payos_order_status_authentic_example :
    ((sync_payos_order_status js sign env ask false 5 7 1 payos_shop).1 ≡ payos_shop)
    ⊎ ((order : PaymentOrder) × (answer : PayosLookup) × IsConfirmed js sign env ask 1 7 payos_shop
          order answer
        × (sync_payos_order_status js sign env ask false 5 7 1 payos_shop
            ≡ apply_payos_lookup js sign 5 7 order answer.lookup_data payos_shop))
sync_payos_order_status_authentic_example =
    sync_payos_order_status_authentic js sign env ask false 5 1 7 payos_shop
