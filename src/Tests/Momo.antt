-- ===== src/Tests/Momo.antt =====
-- Notifications of MoMo.
use neura_gen.Base.{◌≡◌, refl, ℕ, some, ◌⊎◌, lookup, update, put, find_row, ◌+ℤ◌, show, pos}
use neura_gen.Store.{PaymentOrder, ok}
use neura_gen.Js.{Fields, field, end, num, str, get}
use neura_gen.Billing.Shared.{update_order}
use neura_gen.Billing.Paid.{mark_order_paid, settle, claim, fulfil, grant_pro}
use neura_gen.Credits.{upsert_wallet, create_transaction}
use neura_gen.Ledger.{balance}
use neura_gen.Billing.Momo.{
  MomoConfig, MomoIpnPayload, get_momo_config, parse_momo_ipn_payload, check_momo_ipn,
  verify_momo_ipn_signature, momo_ipn_raw_signature, apply_momo_ipn, handle_momo_ipn,
}
use neura_gen.Billing.Momo.Authentic.{IsAccepted, handle_momo_ipn_authentic}
use neura_gen.Tests.Data.{shop, js, sign, env}

-- A payment of the order 7, whose signature is right.
abbrev notification : Fields
notification = field "amount" (num 24750) (
    field "transId" (num 99) (
      field "responseTime" (num 3) (
        field "resultCode" (num 0) (
          field "signature"
            (str
              "set|accessKey=set&amount=24750&extraData=&message=&orderId=7&orderInfo=&orderType=&partnerCode=set&payType=&requestId=7&responseTime=3&resultCode=0&transId=99")
            (field "partnerCode" (str "set")
              (field "orderId" (str "7") (field "requestId" (str "7") end)))))))

accepted : balance 1 (handle_momo_ipn sign js env 5 notification shop).1 ≡ pos 150
unfolding handle_momo_ipn get_momo_config parse_momo_ipn_payload check_momo_ipn
    verify_momo_ipn_signature momo_ipn_raw_signature apply_momo_ipn update_order mark_order_paid
    settle claim fulfil grant_pro upsert_wallet create_transaction lookup update put find_row ◌+ℤ◌
    get show
accepted = refl

handle_momo_ipn_authentic_example :
    ((handle_momo_ipn sign js env 5 notification shop).1 ≡ shop)
    ⊎ ((config : MomoConfig) × (p : MomoIpnPayload) × (id : ℕ) × (order : PaymentOrder)
        × (get_momo_config env shop ≡ (ok config, shop))
        × (parse_momo_ipn_payload js notification ≡ some p)
        × IsAccepted sign config p shop id order
        × (handle_momo_ipn sign js env 5 notification shop ≡ apply_momo_ipn sign 5 p id order shop))
handle_momo_ipn_authentic_example = handle_momo_ipn_authentic sign js env 5 notification shop
