-- ===== src/Billing/Sync.antt =====
-- Asking payOS about a pending order: `syncPayosOrderStatus`, `syncMyOrder` and `listMyOrders` of
-- src/modules/billing/billing.service.ts. The answer of the gateway to a request is a function of
-- the request's identifier; none is a failed request.
pub mod Authentic
use neura_gen.Base.{
  ℕ, String, Bool, true, false, not, ◌&&◌, ◌||◌, ◌==◌, ◌=ₛ◌, Option, none, some, get_or, truthy,
  List, [], ◌∷◌, ltb, leb, case_option, lookup, show, if◌then◌else◌,
}
use neura_gen.Store.{
  PaymentOrder, PaymentOrderStatus, OrderMetadata, Error, ok, err, Action, pure, throw, ◌>>=◌, ◌>>◌,
}
use neura_gen.Js.{Js, Value, Fields, get, num, as_number, to_number, string_of, upper_case_of}
use neura_gen.Billing.Shared.{extract_amount_vnd, update_order, with_integration, is_payos}
use neura_gen.Billing.Paid.{is_pending, is_paid, mark_order_paid}
use neura_gen.Billing.Payos.{get_payos_config, verify_payos_data_signature, PayosConfig}

pub record SyncResult : Type 0 where
  pub order_id : ℕ
  pub status_changed : Bool
  -- none is 'UNKNOWN'
  pub status : Option PaymentOrderStatus
  pub message : String

pub data PaymentRequestId : Type 0 where
  code : ℕ → PaymentRequestId
  link : String → PaymentRequestId

-- The body of an answer of payOS.
pub record PayosLookup : Type 0 where
  pub code : String
  pub desc : String
  pub signature : Option String
  pub lookup_data : Fields

-- `extractPayosPaymentRequestId`, and the test of its caller: the number 0 counts as missing.
abbrev pub extract_payos_payment_request_id : OrderMetadata → Option PaymentRequestId
extract_payos_payment_request_id m =
    case_option m.payos_order_code
      (if truthy m.payment_link_id then some (link (get_or m.payment_link_id "")) else none)
      (λ c. some (code c))

abbrev pub is_asked : PaymentRequestId → Bool
is_asked (code c) = not (c == 0)
is_asked (link s) = not (s =ₛ "")

-- `if (!options.silent) throw …; return …`
abbrev pub give_up : Bool → ℕ → PaymentOrderStatus → String → Action SyncResult
give_up silent id status message =
    if silent
    then pure
        (record { order_id = id; status_changed = false; status = some status; message = message })
    else throw (Error.bad_request message)

-- `expectedAmount !== null && lookupData.amount !== expectedAmount`
abbrev pub is_other_lookup_amount : Option ℕ → Value → Bool
is_other_lookup_amount none v = false
is_other_lookup_amount (some expected) (num n) = not (n == expected)
is_other_lookup_amount (some expected) _ = true

module _ (js : Js) (sign : String → String → String) where
  -- `isPaidByStatus`
  unfoldable pub is_paid_by_status : (normalized_status : String) → Bool
  is_paid_by_status s = (s =ₛ "PAID") || ((s =ₛ "SUCCESS") || (s =ₛ "COMPLETED"))

  -- `isPaidByAmount`
  unfoldable pub is_paid_by_amount : Fields → Bool
  is_paid_by_amount d = case_option (as_number (get "amountPaid" d)) false λ paid.
      case_option (to_number js (get "amount" d)) false λ amount. ltb 0 amount && leb amount paid

  abbrev pub bad_lookup_signature : PayosConfig → PayosLookup → Bool
  bad_lookup_signature config answer =
      truthy answer.signature
      && not (
          verify_payos_data_signature js sign answer.lookup_data (get_or answer.signature "")
            config.checksum_key)

  abbrev pub lookup_reference : PaymentOrder → Fields → String
  lookup_reference order d = get_or order.provider_order_id (string_of js (get "orderCode" d))

  unfoldable pub settle_payos_lookup : ℕ → ℕ → PaymentOrder → Fields → String → Action SyncResult
  settle_payos_lookup now id order d normalized_status =
      if is_paid_by_status normalized_status || is_paid_by_amount d
      then (do
        update_order id (with_integration "payos_lookup_paid_detected" order.metadata)
        mark_order_paid now id (some (lookup_reference order d))
        pure (record {
          order_id = id;
          status_changed = true;
          status = some PaymentOrderStatus.paid;
          message = "Order was marked as paid via payOS lookup";
        }))
      else do
        update_order id (with_integration "payos_lookup_pending" order.metadata)
        pure (record {
          order_id = id;
          status_changed = false;
          status = some order.status;
          message = "payOS status is unpaid";
        })

  -- From an accepted answer on.
  unfoldable pub apply_payos_lookup : ℕ → ℕ → PaymentOrder → Fields → Action SyncResult
  apply_payos_lookup now id order d =
      case_option (upper_case_of js (get "status" d))
        (throw (Error.plain "toUpperCase is not a function")) (settle_payos_lookup now id order d)

  -- The checks on an answer.
  unfoldable pub check_payos_lookup :
      Bool → ℕ → ℕ → PaymentOrder → PayosConfig → PayosLookup → Action SyncResult
  check_payos_lookup silent now id order config answer =
      if not (answer.code =ₛ "00")
      then give_up silent id order.status "payOS lookup failed"
      else if bad_lookup_signature config answer
      then give_up silent id order.status "payOS lookup signature is invalid"
      else if is_other_lookup_amount (extract_amount_vnd order.metadata)
          (get "amount" answer.lookup_data)
      then give_up silent id order.status "payOS lookup amount mismatch"
      else apply_payos_lookup now id order answer.lookup_data

  module _ (env : String → Option String) (ask : PaymentRequestId → Option PayosLookup) where
    -- A pending payOS order of the caller.
    unfoldable pub request_payos_lookup : Bool → ℕ → ℕ → PaymentOrder → Action SyncResult
    request_payos_lookup silent now id order =
        let missing =
          give_up silent id order.status
            "Cannot sync PAYOS order: missing payosOrderCode/paymentLinkId in metadata" in
        case_option (extract_payos_payment_request_id order.metadata) missing λ request.
          if not (is_asked request) then missing else do
            config ← get_payos_config env
            case_option (ask request) (throw (Error.unavailable "payOS request failed"))
                (check_payos_lookup silent now id order config)

    abbrev pub sync_result : ℕ → Option PaymentOrderStatus → String → SyncResult
    sync_result id status message = record {
      order_id = id;
      status_changed = false;
      status = status;
      message = message;
    }

    -- `syncPayosOrderStatus`
    unfoldable pub sync_payos_order_status :
        (silent : Bool) → (now id user_id : ℕ) → Action SyncResult
    sync_payos_order_status silent now id user_id db =
        case_option (lookup id db.orders)
          (if silent
            then (ok (sync_result id none "Order not found"), db)
            else (err (Error.not_found "Payment order not found"), db))
          (λ order.
            (if not (order.user_id == user_id)
                then (if silent
                    then pure (sync_result id none "Order not found")
                    else throw (Error.not_found "Payment order not found"))
                else if not (is_payos order.provider)
                then give_up silent id order.status "Order provider is not PAYOS"
                else if is_paid order.status
                then pure (sync_result id (some order.status) "Order already paid")
                else if not (is_pending order.status)
                then pure (sync_result id (some order.status) "Only pending orders can be synced")
                else request_payos_lookup silent now id order)
              db)

    -- `syncMyOrder`
    unfoldable pub sync_my_order : (now user_id id : ℕ) → Action SyncResult
    sync_my_order now user_id id = sync_payos_order_status false now id user_id

    -- The loop of `listMyOrders` over the pending payOS orders: whether a status has changed.
    unfoldable pub sync_pending : (now user_id : ℕ) → Bool → List ℕ → Action Bool
    sync_pending now user_id changed [] = pure changed
    sync_pending now user_id changed (id ∷ ids) = do
      r ← sync_payos_order_status true now id user_id
      sync_pending now user_id (changed || r.status_changed) ids
