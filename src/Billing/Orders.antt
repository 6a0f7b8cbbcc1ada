-- ===== src/Billing/Orders.antt =====
-- `createOrder` and the requests to the gateways of src/modules/billing/billing.service.ts. What a
-- gateway answers is a function of the request, and none is a failed request; `extra` is the
-- base64 text of the order's JSON.
pub mod Codes
use Prim.Native.String.{◌++◌, slice}
use neura_gen.Base.{
  ℕ, zero, suc, ◌+◌, String, Bool, not, ◌&&◌, ◌||◌, ◌==◌, ◌=ₛ◌, Option, none, some, get_or, truthy,
  case_option, lookup, put, find_row, show, is_some, if◌then◌else◌,
}
use neura_gen.Store.{
  PaymentOrder, OrderMetadata, PaymentOrderStatus, PaymentOrderType, PaymentProvider, Error, ok,
  err, Action, pure, throw, or_throw, throw_if, ◌>>=◌, ◌>>◌,
}
use neura_gen.Js.{Js, Value, undefined, as_number, Fields, get, as_string}
use neura_gen.Billing.Catalog.{ResolvedPackage, resolve_package}
use neura_gen.Billing.Shared.{update_order, with_integration, with_metadata, failed_row}
use neura_gen.Billing.Paid.{is_subscription}
use neura_gen.Billing.Momo.{MomoConfig, get_momo_config}
use neura_gen.Billing.Payos.{
  PayosConfig, get_payos_config, has_payos_code, verify_payos_data_signature,
}

pub record CreatePaymentOrderDto : Type 0 where
  pub order_type : PaymentOrderType
  pub provider : PaymentProvider
  pub package_code : Option String

-- The row that `createOrder` inserts; the order expires after half an hour.
abbrev pub new_order : ℕ → ℕ → CreatePaymentOrderDto → ResolvedPackage → PaymentOrder
new_order now user_id dto p = record {
  user_id = user_id;
  provider = dto.provider;
  order_type = dto.order_type;
  status = PaymentOrderStatus.pending;
  package_code = p.package_code;
  amount_usd = p.amount_usd;
  credit_amount = p.credit_amount;
  pro_duration_days = p.pro_duration_days;
  provider_order_id = none;
  metadata = record {
    amount_vnd = some p.amount_vnd;
    integration_status = "created";
    payos_order_code = none;
    payment_link_id = none;
  };
  paid_at = none;
  expires_at = some (now + 1800000);
}

-- `prisma.paymentOrder.create`, with the identifier that is drawn for the row.
unfoldable pub insert_order : ℕ → PaymentOrder → Action (Unit {0})
insert_order id o db =
    if is_some (lookup id db.orders)
    then (err Error.unique_violation, db)
    else (ok tt, record db { orders = put id o db.orders })

pub record MomoCreateRequest : Type 0 where
  pub request_id : String
  pub amount : ℕ
  pub order_id : String
  pub order_info : String
  pub extra_data : String
  pub signature : String

pub record MomoCreateResponse : Type 0 where
  pub result_code : ℕ
  pub pay_url : Option String
  pub message : String

-- `buildMomoCreateRawSignature`
unfoldable pub momo_create_raw_signature : MomoConfig → ℕ → String → String → String → String
momo_create_raw_signature c amount order_id order_info extra =
    "accessKey="
    ++ c.access_key
    ++ "&amount="
    ++ show amount
    ++ "&extraData="
    ++ extra
    ++ "&ipnUrl="
    ++ c.ipn_url
    ++ "&orderId="
    ++ order_id
    ++ "&orderInfo="
    ++ order_info
    ++ "&partnerCode="
    ++ c.partner_code
    ++ "&redirectUrl="
    ++ c.redirect_url
    ++ "&requestId="
    ++ order_id
    ++ "&requestType="
    ++ c.request_type

pub record PayosCreateRequest : Type 0 where
  pub order_code : ℕ
  pub amount : ℕ
  pub description : String
  pub signature : String

pub record PayosCreateResponse : Type 0 where
  pub code : String
  pub desc : String
  pub payment_data : Fields
  pub signature : Option String

-- `buildPayosCreateRawSignature`
unfoldable pub payos_create_raw_signature : PayosConfig → ℕ → String → ℕ → String
payos_create_raw_signature c amount description order_code =
    "amount="
    ++ show amount
    ++ "&cancelUrl="
    ++ c.cancel_url
    ++ "&description="
    ++ description
    ++ "&orderCode="
    ++ show order_code
    ++ "&returnUrl="
    ++ c.return_url

-- The loop of `generatePayosOrderCode`: the first of the codes drawn, one in each attempt, that no
-- payOS order has.
unfoldable pub try_codes : (attempts : ℕ) → (draws : ℕ → ℕ) → Action ℕ
try_codes zero draws db =
    (err (Error.bad_request "Failed to generate unique payOS orderCode. Please retry."), db)
try_codes (suc attempts) draws db =
    let rest = try_codes attempts (λ k. draws (suc k)) db in
    if is_some (find_row (has_payos_code (draws 0)) db.orders) then rest else (ok (draws 0), db)

-- `generatePayosOrderCode`
unfoldable pub generate_payos_order_code : (draws : ℕ → ℕ) → Action ℕ
generate_payos_order_code draws = try_codes 5 draws

-- What `createOrder` returns: the payment link, if the provider gives one.
pub record OrderCreated : Type 0 where
  pub order_id : ℕ
  pub amount_vnd : ℕ
  pub pay_url : Option String
  pub order_code : Value

-- The order code of the answer goes into the metadata as it is; the code reads it there as a number
-- or not at all.
abbrev pub with_payos_code : Option ℕ → Option String → OrderMetadata → PaymentOrder → PaymentOrder
with_payos_code code payment_link m o =
    with_metadata
      (record m {
        integration_status = "payos_payment_link_created";
        payos_order_code = code;
        payment_link_id = payment_link;
      })
      o

module _ (js : Js) (sign : String → String → String) (env : String → Option String)
    (extra : ℕ → PaymentOrder → String)
    (momo_gateway : MomoCreateRequest → Option MomoCreateResponse)
    (payos_gateway : PayosCreateRequest → Option PayosCreateResponse) where
  -- `createMomoPayment`
  unfoldable pub create_momo_payment : ℕ → PaymentOrder → ℕ → Action MomoCreateResponse
  create_momo_payment id order amount = do
    config ← get_momo_config env
    let order_id = show id
    let order_info =
        if is_subscription order.order_type
        then "Neura Gen PRO subscription"
        else "Neura Gen credit topup " ++ order.package_code
    let raw = momo_create_raw_signature config amount order_id order_info (extra id order)
    or_throw (Error.bad_request "Failed to create MoMo payment") (
        momo_gateway (record {
          request_id = order_id;
          amount = amount;
          order_id = order_id;
          order_info = order_info;
          extra_data = extra id order;
          signature = sign raw config.secret_key;
        }))

  abbrev pub bad_create_signature : PayosConfig → PayosCreateResponse → Bool
  bad_create_signature config answer =
      truthy answer.signature
      && not (
          verify_payos_data_signature js sign answer.payment_data (get_or answer.signature "")
            config.checksum_key)

  -- The signed request of `createPayosPayment`.
  unfoldable pub request_payos : PayosConfig → ℕ → ℕ → Action PayosCreateResponse
  request_payos config order_code amount =
      let description = slice ("NEURA" ++ show order_code) 0 25 in
      let raw = payos_create_raw_signature config amount description order_code in
      or_throw (Error.bad_request "Failed to create payOS payment") (
        payos_gateway (record {
          order_code = order_code;
          amount = amount;
          description = description;
          signature = sign raw config.checksum_key;
        }))

  -- Its checks on the answer.
  unfoldable pub check_payos_created :
      PayosConfig → PayosCreateResponse → Action PayosCreateResponse
  check_payos_created config answer = do
    throw_if (not (answer.code =ₛ "00")) (Error.bad_request "payOS create payment failed")
    throw_if (not (truthy (as_string (get "checkoutUrl" answer.payment_data))))
        (Error.bad_request "payOS did not return checkoutUrl")
    throw_if (bad_create_signature config answer)
        (Error.bad_request "payOS response signature is invalid")
    pure answer

  -- `createPayosPayment`; `draws` are the codes that its clock and random numbers give.
  unfoldable pub create_payos_payment : (ℕ → ℕ) → ℕ → Action PayosCreateResponse
  create_payos_payment draws amount = do
    config ← get_payos_config env
    order_code ← generate_payos_order_code draws
    answer ← request_payos config order_code amount
    check_payos_created config answer

  -- The part of `createOrder` after the insertion, for each provider.
  unfoldable pub request_payment :
      (ℕ → ℕ) → ℕ → PaymentOrder → ℕ → PaymentProvider → Action OrderCreated
  request_payment draws id order amount PaymentProvider.bank_transfer =
      pure (record { order_id = id; amount_vnd = amount; pay_url = none; order_code = undefined })
  request_payment draws id order amount PaymentProvider.momo = do
    answer ← create_momo_payment id order amount
    if not (answer.result_code == 0) || not (truthy answer.pay_url)
        then (do
          update_order id (failed_row "momo_create_failed" order.metadata)
          throw (Error.bad_request "MoMo create payment failed"))
        else do
          update_order id (with_integration "momo_pay_url_created" order.metadata)
          pure (record {
            order_id = id;
            amount_vnd = amount;
            pay_url = answer.pay_url;
            order_code = undefined;
          })
  request_payment draws id order amount PaymentProvider.payos = do
    answer ← create_payos_payment draws amount
    let code = get "orderCode" answer.payment_data
    update_order id (
        with_payos_code (as_number code) (as_string (get "paymentLinkId" answer.payment_data))
          order.metadata)
    pure (record {
      order_id = id;
      amount_vnd = amount;
      pay_url = as_string (get "checkoutUrl" answer.payment_data);
      order_code = code;
    })

  -- `createOrder`; `id` is the identifier drawn for the row.
  unfoldable pub create_order :
      (ℕ → ℕ) → (now id user_id : ℕ) → CreatePaymentOrderDto → Action OrderCreated
  create_order draws now id user_id dto =
      case_option (resolve_package dto.order_type dto.package_code)
        (throw (Error.bad_request "Invalid billing package for this order type"))
        λ p. do
          let order = new_order now user_id dto p
          insert_order id order
          request_payment draws id order p.amount_vnd dto.provider
