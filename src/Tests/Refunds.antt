-- ===== src/Tests/Refunds.antt =====
-- Refunds, once and twice.
use neura_gen.Billing.Paid.{mark_order_paid}
use neura_gen.Jobs.Create.{charge_balance}
use neura_gen.Jobs.Catalog.{standard_wan22_ti2v}
use neura_gen.Tests.Data.{job_dto}
use neura_gen.Store.{Error, err}
use neura_gen.Base.{
  ◌+◌, ◌-ℤ◌, ltb_ℤ, true, ◌≡◌, refl, none, some, [], ◌∷◌, pos, lookup, update, put, find_row, ◌+ℤ◌,
}
use neura_gen.Store.{Db, CreditReason, PaymentOrder, UserRole, User, ok}
use neura_gen.Credits.{
  refund_credit_if_missing, refund_failed_job, increment_wallet, create_transaction, upsert_wallet,
}
use neura_gen.Ledger.{balance}
use neura_gen.Jobs.Cancel.{finish_cancel}
use neura_gen.Billing.Shared.{failed_row}
use neura_gen.Billing.Paid.{marked_paid, settle, paid_row, next_expiry, claim, fulfil, grant_pro}
use neura_gen.Billing.Paid.Effect.{upgraded}
use neura_gen.Billing.Momo.{MomoIpnPayload, apply_momo_ipn}
use neura_gen.System.{run_all, cancel_read}
use neura_gen.System.Refunds.{refund_credit_if_missing_once}
use neura_gen.System.Races.{
  cancelled_and_failed_refunds_twice, stale_failure_overwrites, charges_overdraw,
  settle_counts_from_snapshot,
}
use neura_gen.Tests.Data.{job, studio, shop, world, sign, topup_order, pro_order, free_user}

abbrev refunded_studio : Db
refunded_studio =
    (refund_credit_if_missing 3 job CreditReason.refund_failed_job (some "lost") studio).1

first_refund :
    refund_credit_if_missing 3 job CreditReason.refund_failed_job (some "lost") studio
    ≡ (ok tt, refunded_studio)
unfolding refund_credit_if_missing increment_wallet create_transaction lookup
first_refund = refl

refund_credit_if_missing_once_example :
    refund_credit_if_missing 3 job CreditReason.refund_failed_job none
      (run_all world (cancel_read 9 3 job ∷ []) refunded_studio)
    ≡ (ok tt, run_all world (cancel_read 9 3 job ∷ []) refunded_studio)
refund_credit_if_missing_once_example =
    refund_credit_if_missing_once world (cancel_read 9 3 job ∷ []) 3 job job
      CreditReason.refund_failed_job (some "lost") none studio refunded_studio refl first_refund
      refl

job_stored : lookup 3 studio.jobs ≡ some job
unfolding lookup
job_stored = refl

wallet_stored : lookup 1 studio.wallets ≡ some (pos 100)
unfolding lookup
wallet_stored = refl

cancelled_and_failed_refunds_twice_example :
    balance 1 (refund_failed_job 3 job "lost" (finish_cancel 9 3 job studio).1).1
    ≡ (pos 100 +ℤ pos 10) +ℤ pos 10
cancelled_and_failed_refunds_twice_example =
    cancelled_and_failed_refunds_twice 9 3 job "lost" studio (pos 100) job_stored refl wallet_stored
      refl refl

abbrev failure : MomoIpnPayload
failure = record {
  order_type = "";
  amount = 24750;
  partner_code = "set";
  order_id = "7";
  extra_data = "";
  signature = "";
  trans_id = 98;
  response_time = 3;
  result_code = 1006;
  message = "";
  pay_type = "";
  request_id = "7";
  order_info = "";
}

abbrev paid_order : PaymentOrder
paid_order = paid_row 5 (some "99") topup_order

abbrev settled_shop : Db
settled_shop = (mark_order_paid 5 7 (some "99") shop).1

topup_paid :
    mark_order_paid 5 7 (some "99") shop ≡ (ok (marked_paid 7 paid_order none), settled_shop)
unfolding mark_order_paid settle claim fulfil grant_pro upsert_wallet create_transaction lookup
    update put find_row
topup_paid = refl

topup_stored : lookup 7 shop.orders ≡ some topup_order
unfolding lookup
topup_stored = refl

stale_failure_overwrites_example :
    (let after = (apply_momo_ipn sign 9 failure 7 topup_order settled_shop).1 in
      (lookup 7 after.orders ≡ some (failed_row "momo_ipn_failed" topup_order.metadata paid_order))
      × (balance 1 after ≡ balance 1 shop +ℤ pos topup_order.credit_amount)
      × ((e : Error) × (mark_order_paid 12 7 none after ≡ (err e, after))))
stale_failure_overwrites_example =
    stale_failure_overwrites sign 5 9 12 7 (some "99") none failure topup_order shop settled_shop 7
      paid_order none topup_stored topup_paid refl

shop_wallet : lookup 1 shop.wallets ≡ some (pos 100)
unfolding lookup
shop_wallet = refl

charges_overdraw_example :
    (let first = charge_balance 1 job_dto standard_wan22_ti2v (pos 100) 60 0 shop in
      let second = charge_balance 1 job_dto standard_wan22_ti2v (pos 100) 70 0 first.1 in
      (first.0 ≡ ok tt)
      × (second.0 ≡ ok tt)
      × (balance 1 second.1 ≡ pos 100 -ℤ pos (60 + 70))
      × (ltb_ℤ (balance 1 second.1) (pos 0) ≡ true))
charges_overdraw_example =
    charges_overdraw 1 job_dto job_dto standard_wan22_ti2v standard_wan22_ti2v 60 70 0 0 (pos 100)
      shop shop_wallet refl refl refl

-- The user has become a PRO user since the second settlement read him.
abbrev extended_user : User
extended_user = record { role = UserRole.pro; pro_expires_at = some 2592000005 }

abbrev extended_shop : Db
extended_shop = record shop { users = (1, extended_user) ∷ [] }

abbrev resettled_shop : Db
resettled_shop = (settle 6 8 (some "T8") pro_order free_user extended_shop).1

resettled :
    settle 6 8 (some "T8") pro_order free_user extended_shop
    ≡ (ok (marked_paid 8 (paid_row 6 (some "T8") pro_order) (some 2592000006)), resettled_shop)
unfolding settle claim fulfil grant_pro upsert_wallet create_transaction lookup update put find_row
resettled = refl

extended_stored : lookup 1 extended_shop.users ≡ some extended_user
unfolding lookup
extended_stored = refl

settle_counts_from_snapshot_example :
    lookup 1 resettled_shop.users
    ≡ some (upgraded (next_expiry 6 free_user pro_order) extended_user)
settle_counts_from_snapshot_example =
    settle_counts_from_snapshot 6 8 (some "T8") pro_order free_user extended_user extended_shop
      resettled_shop 8 (paid_row 6 (some "T8") pro_order) (some 2592000006) refl extended_stored
      resettled
