-- ===== src/Billing/Payos.antt =====
-- payOS: the configuration, the signature and the webhook of
-- src/modules/billing/billing.service.ts. `env` is ConfigService.get, `sign` is the HMAC of a text
-- under a key.
pub mod Authentic
use Prim.Native.Nat.{Ordering}
use Prim.Native.String.{◌++◌, compare}
use neura_gen.Base.{
  ℕ, String, Bool, true, false, not, ◌&&◌, ◌==◌, ◌=ₛ◌, Option, none, some, get_or, truthy, List, [],
  ◌∷◌, case_option, find_row, show, if◌then◌else◌, map_option,
}
use neura_gen.Store.{PaymentOrder, OrderMetadata, Error, Action, pure, throw, gets, ◌>>=◌, ◌>>◌}
use neura_gen.Js.{
  Js, Value, Fields, undefined, null, num, str, end, field, get, to_number, to_text, as_string,
  as_bool, as_object,
}
use neura_gen.Billing.Shared.{
  safe_compare, is_other_amount, extract_amount_vnd, update_order, with_integration, with_metadata,
  failed_row, is_payos,
}
use neura_gen.Billing.Paid.{is_pending, mark_order_paid}

pub record PayosConfig : Type 0 where
  pub endpoint : String
  pub client_id : String
  pub api_key : String
  pub checksum_key : String
  pub return_url : String
  pub cancel_url : String
  pub webhook_url : Option String
  pub partner_code : Option String

-- `getPayosConfig`
unfoldable pub get_payos_config : (String → Option String) → Action PayosConfig
get_payos_config env =
    let return_url = get_or (env "PAYOS_RETURN_URL") "http://localhost:5173/billing/payos-return" in
    if truthy (env "PAYOS_CLIENT_ID")
      && (truthy (env "PAYOS_API_KEY") && truthy (env "PAYOS_CHECKSUM_KEY"))
    then pure (record {
      endpoint = get_or (env "PAYOS_ENDPOINT") "https://api-merchant.payos.vn";
      client_id = get_or (env "PAYOS_CLIENT_ID") "";
      api_key = get_or (env "PAYOS_API_KEY") "";
      checksum_key = get_or (env "PAYOS_CHECKSUM_KEY") "";
      return_url = return_url;
      cancel_url = get_or (env "PAYOS_CANCEL_URL") return_url;
      webhook_url = env "PAYOS_WEBHOOK_URL";
      partner_code = env "PAYOS_PARTNER_CODE";
    })
    else throw (
        Error.bad_request
          "Missing payOS configuration. Required: PAYOS_CLIENT_ID, PAYOS_API_KEY, PAYOS_CHECKSUM_KEY")

-- `stringifyPayosValue`
abbrev pub stringify_payos_value : Js → Value → String
stringify_payos_value js null = ""
stringify_payos_value js undefined = ""
stringify_payos_value js v = to_text js v

abbrev pub insert_pair : String → Value → List (String × Value) → List (String × Value)
insert_pair k v [] = (k, v) ∷ []
insert_pair k v ((j, w) ∷ rest) = elim (compare k j) [
  | Ordering.gt ↦ (j, w) ∷ insert_pair k v rest
  | _ ↦ (k, v) ∷ (j, w) ∷ rest
]

-- `Object.keys(input).sort()`, with the values.
unfoldable pub sorted_pairs : Fields → List (String × Value)
sorted_pairs end = []
sorted_pairs (field k v fs) = insert_pair k v (sorted_pairs fs)

unfoldable pub join_pairs : Js → List (String × Value) → String
join_pairs js [] = ""
join_pairs js ((k, v) ∷ []) = k ++ "=" ++ stringify_payos_value js v
join_pairs js ((k, v) ∷ p ∷ rest) =
    k ++ "=" ++ stringify_payos_value js v ++ "&" ++ join_pairs js (p ∷ rest)

-- `flattenPayosData`
unfoldable pub flatten_payos_data : Js → Fields → String
flatten_payos_data js input = join_pairs js (sorted_pairs input)

pub record PayosWebhookData : Type 0 where
  pub order_code : ℕ
  pub amount : ℕ
  pub description : String
  pub account_number : String
  pub reference : Option String
  pub payment_link_id : Option String
  -- The ten other optional texts, in the order of the source.
  pub others : List (String × Option String)

pub record PayosWebhookEnvelope : Type 0 where
  pub code : String
  pub desc : String
  pub success : Option Bool
  pub signature : String
  pub data_part : PayosWebhookData

abbrev pub other_keys : List String
other_keys =
    "transactionDateTime" ∷ "currency" ∷ "code" ∷ "desc" ∷ "counterAccountBankId"
    ∷ "counterAccountBankName" ∷ "counterAccountName" ∷ "counterAccountNumber"
    ∷ "virtualAccountName" ∷ "virtualAccountNumber" ∷ []

abbrev pub read_keys : List String → Fields → List (String × Option String)
read_keys [] fs = []
read_keys (k ∷ ks) fs = (k, as_string (get k fs)) ∷ read_keys ks fs

abbrev pub parse_payos_data : Js → Fields → Option PayosWebhookData
parse_payos_data js d = case_option (to_number js (get "orderCode" d)) none λ order_code.
    map_option
      (λ amount. record {
        order_code = order_code;
        amount = amount;
        description = get_or (as_string (get "description" d)) "";
        account_number = get_or (as_string (get "accountNumber" d)) "";
        reference = as_string (get "reference" d);
        payment_link_id = as_string (get "paymentLinkId" d);
        others = read_keys other_keys d;
      })
      (to_number js (get "amount" d))

-- `parsePayosWebhookEnvelope`
unfoldable pub parse_payos_webhook_envelope : Js → Fields → Option PayosWebhookEnvelope
unfolding get
parse_payos_webhook_envelope js raw =
    if truthy (as_string (get "code" raw))
      && (truthy (as_string (get "desc" raw)) && truthy (as_string (get "signature" raw)))
    then case_option (as_object (get "data" raw)) none (λ d.
      map_option
        (λ data_part. record {
          code = get_or (as_string (get "code" raw)) "";
          desc = get_or (as_string (get "desc" raw)) "";
          success = as_bool (get "success" raw);
          signature = get_or (as_string (get "signature" raw)) "";
          data_part = data_part;
        })
        (parse_payos_data js d))
    else none

abbrev optional_value : Option String → Value
optional_value none = undefined
optional_value (some s) = str s

abbrev other_fields : List (String × Option String) → Fields
other_fields [] = end
other_fields ((k, v) ∷ rest) = field k (optional_value v) (other_fields rest)

-- The parsed data as the object whose keys are signed: a key that was missing is there, undefined.
abbrev pub data_fields : PayosWebhookData → Fields
data_fields d = field "orderCode" (num d.order_code) (
    field "amount" (num d.amount) (
      field "description" (str d.description) (
        field "accountNumber" (str d.account_number) (
          field "reference" (optional_value d.reference)
            (field "paymentLinkId" (optional_value d.payment_link_id) (other_fields d.others))))))

-- `payload.data.reference ?? payload.data.paymentLinkId ?? String(payload.data.orderCode)`
abbrev pub payment_reference : PayosWebhookData → String
payment_reference d = get_or d.reference (get_or d.payment_link_id (show d.order_code))

abbrev pub has_order_code : ℕ → OrderMetadata → Bool
has_order_code code m = case_option m.payos_order_code false (λ c. c == code)

-- `findFirst` of a payOS order with that code in its metadata.
abbrev pub has_payos_code : ℕ → ℕ → PaymentOrder → Bool
has_payos_code code id o = is_payos o.provider && has_order_code code o.metadata

module _ (js : Js) (sign : String → String → String) where
  -- `verifyPayosDataSignature`
  unfoldable pub verify_payos_data_signature : Fields → String → String → Bool
  verify_payos_data_signature input provided checksum_key =
      safe_compare (sign (flatten_payos_data js input) checksum_key) provided

  unfoldable pub apply_payos_webhook :
      ℕ → PayosWebhookEnvelope → ℕ → PaymentOrder → Action (Unit {0})
  apply_payos_webhook now p id order =
      if (p.code =ₛ "00") && get_or p.success true
      then (do
        update_order id (with_integration "payos_webhook_success_received" order.metadata)
        mark_order_paid now id (some (payment_reference p.data_part))
        pure tt)
      else if is_pending order.status
      then update_order id (failed_row "payos_webhook_failed" order.metadata)
      else update_order id (with_metadata order.metadata)

  unfoldable pub check_payos_webhook : ℕ → PayosConfig → PayosWebhookEnvelope → Action (Unit {0})
  check_payos_webhook now config p =
      if not (verify_payos_data_signature (data_fields p.data_part) p.signature config.checksum_key)
      then pure tt
      else do
        found ← gets (λ db. find_row (has_payos_code p.data_part.order_code) db.orders)
        case_option found (pure tt) λ row.
            if is_other_amount (extract_amount_vnd row.1.metadata) p.data_part.amount
            then pure tt
            else apply_payos_webhook now p row.0 row.1

  -- `handlePayosWebhook`
  unfoldable pub handle_payos_webhook : (String → Option String) → ℕ → Fields → Action (Unit {0})
  handle_payos_webhook env now raw = do
    config ← get_payos_config env
    case_option (parse_payos_webhook_envelope js raw) (pure tt) (check_payos_webhook now config)
