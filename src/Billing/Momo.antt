-- ===== src/Billing/Momo.antt =====
-- MoMo: the configuration, the signature and the notification handler of
-- src/modules/billing/billing.service.ts. `env` is ConfigService.get, `sign` is the HMAC of a text
-- under a key.
pub mod Authentic
use Prim.Native.String.{◌++◌}
use neura_gen.Base.{
  ℕ, String, Bool, not, ◌&&◌, ◌==◌, ◌=ₛ◌, Option, none, some, get_or, truthy, case_option, find_row,
  show, if◌then◌else◌,
}
use neura_gen.Store.{PaymentOrder, Error, Action, pure, throw, gets, ◌>>=◌, ◌>>◌}
use neura_gen.Js.{Js, Fields, get, to_number, as_string}
use neura_gen.Billing.Shared.{
  safe_compare, is_other_amount, extract_amount_vnd, update_order, with_integration, with_metadata,
  failed_row, is_momo,
}
use neura_gen.Billing.Paid.{is_pending, mark_order_paid}

pub record MomoConfig : Type 0 where
  pub endpoint : String
  pub partner_code : String
  pub access_key : String
  pub secret_key : String
  pub redirect_url : String
  pub ipn_url : String
  pub partner_name : String
  pub store_id : String
  pub request_type : String

pub record MomoIpnPayload : Type 0 where
  pub order_type : String
  pub amount : ℕ
  pub partner_code : String
  pub order_id : String
  pub extra_data : String
  pub signature : String
  pub trans_id : ℕ
  pub response_time : ℕ
  pub result_code : ℕ
  pub message : String
  pub pay_type : String
  pub request_id : String
  pub order_info : String

abbrev pub or_empty : Option String → String
or_empty o = get_or o ""

-- `getMomoConfig`; the language and the capture mode, which only the request carries, are left out.
unfoldable pub get_momo_config : (String → Option String) → Action MomoConfig
get_momo_config env =
    if truthy (env "MOMO_PARTNER_CODE")
      && (truthy (env "MOMO_ACCESS_KEY")
          && (truthy (env "MOMO_SECRET_KEY")
              && (truthy (env "MOMO_REDIRECT_URL") && truthy (env "MOMO_IPN_URL"))))
    then pure (record {
      endpoint = get_or (env "MOMO_ENDPOINT") "https://test-payment.momo.vn";
      partner_code = or_empty (env "MOMO_PARTNER_CODE");
      access_key = or_empty (env "MOMO_ACCESS_KEY");
      secret_key = or_empty (env "MOMO_SECRET_KEY");
      redirect_url = or_empty (env "MOMO_REDIRECT_URL");
      ipn_url = or_empty (env "MOMO_IPN_URL");
      partner_name = get_or (env "MOMO_PARTNER_NAME") "Neura Gen";
      store_id = get_or (env "MOMO_STORE_ID") "NeuraGen";
      request_type = get_or (env "MOMO_REQUEST_TYPE") "payWithMethod";
    })
    else throw (
        Error.bad_request
          "Missing MoMo configuration. Required: MOMO_PARTNER_CODE, MOMO_ACCESS_KEY, MOMO_SECRET_KEY, MOMO_REDIRECT_URL, MOMO_IPN_URL")

abbrev text_of : String → Fields → String
text_of key raw = or_empty (as_string (get key raw))

-- `parseMomoIpnPayload`
unfoldable pub parse_momo_ipn_payload : Js → Fields → Option MomoIpnPayload
unfolding get
parse_momo_ipn_payload js raw = case_option (to_number js (get "amount" raw)) none λ amount.
    case_option (to_number js (get "transId" raw)) none λ trans_id.
      case_option (to_number js (get "responseTime" raw)) none λ response_time.
        case_option (to_number js (get "resultCode" raw)) none λ result_code.
          if truthy (as_string (get "signature" raw))
            && (truthy (as_string (get "partnerCode" raw))
                && (truthy (as_string (get "orderId" raw))
                    && truthy (as_string (get "requestId" raw))))
          then some (record {
            order_type = text_of "orderType" raw;
            amount = amount;
            partner_code = text_of "partnerCode" raw;
            order_id = text_of "orderId" raw;
            extra_data = text_of "extraData" raw;
            signature = text_of "signature" raw;
            trans_id = trans_id;
            response_time = response_time;
            result_code = result_code;
            message = text_of "message" raw;
            pay_type = text_of "payType" raw;
            request_id = text_of "requestId" raw;
            order_info = text_of "orderInfo" raw;
          })
          else none

-- The text that MoMo signs.
unfoldable pub momo_ipn_raw_signature : MomoConfig → MomoIpnPayload → String
momo_ipn_raw_signature config p =
    "accessKey="
    ++ config.access_key
    ++ "&amount="
    ++ show p.amount
    ++ "&extraData="
    ++ p.extra_data
    ++ "&message="
    ++ p.message
    ++ "&orderId="
    ++ p.order_id
    ++ "&orderInfo="
    ++ p.order_info
    ++ "&orderType="
    ++ p.order_type
    ++ "&partnerCode="
    ++ p.partner_code
    ++ "&payType="
    ++ p.pay_type
    ++ "&requestId="
    ++ p.request_id
    ++ "&responseTime="
    ++ show p.response_time
    ++ "&resultCode="
    ++ show p.result_code
    ++ "&transId="
    ++ show p.trans_id

module _ (sign : String → String → String) where
  -- `verifyMomoIpnSignature`
  unfoldable pub verify_momo_ipn_signature : MomoIpnPayload → MomoConfig → Bool
  verify_momo_ipn_signature p config =
      safe_compare (sign (momo_ipn_raw_signature config p) config.secret_key) p.signature

  -- From the accepted notification on: the order is settled, or it fails if it is pending. The copy
  -- of the payload that each branch keeps in the metadata is left out.
  unfoldable pub apply_momo_ipn : ℕ → MomoIpnPayload → ℕ → PaymentOrder → Action (Unit {0})
  apply_momo_ipn now p id order =
      if p.result_code == 0
      then (do
        update_order id (with_integration "momo_ipn_success_received" order.metadata)
        mark_order_paid now id (some (show p.trans_id))
        pure tt)
      else if is_pending order.status
      then update_order id (failed_row "momo_ipn_failed" order.metadata)
      else update_order id (with_metadata order.metadata)

  -- `handleMomoIpn`: a payload that fails a check is ignored.
  unfoldable pub check_momo_ipn : ℕ → MomoConfig → MomoIpnPayload → Action (Unit {0})
  check_momo_ipn now config p =
      if not (p.partner_code =ₛ config.partner_code)
      then pure tt
      else if not (verify_momo_ipn_signature p config)
      then pure tt
      else do
        found ← gets (λ db. find_row (λ k _. show k =ₛ p.order_id) db.orders)
        case_option found (pure tt) λ row.
            if not (is_momo row.1.provider)
            then pure tt
            else if is_other_amount (extract_amount_vnd row.1.metadata) p.amount
            then pure tt
            else apply_momo_ipn now p row.0 row.1

  unfoldable pub handle_momo_ipn : Js → (String → Option String) → ℕ → Fields → Action (Unit {0})
  handle_momo_ipn js env now raw = do
    config ← get_momo_config env
    case_option (parse_momo_ipn_payload js raw) (pure tt) (check_momo_ipn now config)
