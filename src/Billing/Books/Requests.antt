-- ===== src/Billing/Books/Requests.antt =====
-- Requests to the payment gateways and the machine of the books
-- (src/modules/billing/billing.service.ts).
use neura_gen.Base.{
  truthy, ℕ, zero, suc, refl, Bool, true, false, not, ◌||◌, ◌==◌, ◌=ₛ◌, Option, String, List, [],
  ◌∷◌, lookup, Bool-cases, Option-cases, inl, inr, find_row, is_some,
}
use neura_gen.Store.{Db, PaymentProvider, PaymentOrder, PaymentOrderStatus}
use neura_gen.Store.Rules.{or_throw-Leaves, after-Leaves}
use neura_gen.Js.{upper_case_of, as_string, Js, Fields, get}
use neura_gen.Ledger.Steps.{Reaches, IsRun, same-Reaches}
use neura_gen.Billing.Shared.{update_order, is_payos, extract_amount_vnd}
use neura_gen.Billing.Paid.{is_pending, is_paid}
use neura_gen.Billing.Payos.{PayosConfig, get_payos_config}
use neura_gen.Billing.Sync.{
  give_up, is_asked, settle_payos_lookup, apply_payos_lookup, check_payos_lookup,
  request_payos_lookup, sync_payos_order_status, sync_pending, is_paid_by_status, is_paid_by_amount,
  PayosLookup, PaymentRequestId, bad_lookup_signature, is_other_lookup_amount,
  extract_payos_payment_request_id,
}
use neura_gen.Billing.Catalog.{resolve_package}
use neura_gen.Billing.Orders.{
  new_order, bad_create_signature, check_payos_created, request_payos, CreatePaymentOrderDto,
  create_order, request_payment, create_payos_payment, create_momo_payment, PayosCreateResponse,
  PayosCreateRequest, MomoCreateResponse, MomoCreateRequest, try_codes, generate_payos_order_code,
  insert_order,
}
use neura_gen.Billing.Books.{
  get_momo_config-Reaches, get_momo_config, has_payos_code, update_order-Reaches,
  record_and_settle-Reaches, get_payos_config-Reaches,
}

give_up-same :
    {start : Db} (silent : Bool) (id : ℕ) (s : PaymentOrderStatus) (m : String)
    → IsRun start (give_up silent id s m)
give_up-same true id s m db h = h
give_up-same false id s m db h = h

module _ (js : Js) (sign : String → String → String) where
  settle_payos_lookup-Reaches :
      {start : Db} (now id : ℕ) (order : PaymentOrder) (d : Fields) (s : String)
      → IsRun start (settle_payos_lookup js sign now id order d s)
  unfolding settle_payos_lookup
  settle_payos_lookup-Reaches now id order d s db h =
      elim (Bool-cases (is_paid_by_status js sign s || is_paid_by_amount js sign d)) [
        | inl paid ↦ rw paid (record_and_settle-Reaches now id _ _ _ db h)
        | inr unpaid ↦ rw unpaid (
            after-Leaves (Reaches _) (update_order id _ db) _ (update_order-Reaches id _ db h)
              λ _ db₁ h₁. h₁)
      ]

  pub apply_payos_lookup-Reaches :
      {start : Db} (now id : ℕ) (order : PaymentOrder) (d : Fields)
      → IsRun start (apply_payos_lookup js sign now id order d)
  unfolding apply_payos_lookup
  apply_payos_lookup-Reaches now id order d db h =
      elim (Option-cases (upper_case_of js (get "status" d))) [
        | inl thrown ↦ rw thrown h
        | inr (s, normalized) ↦ rw normalized (settle_payos_lookup-Reaches now id order d s db h)
      ]

  check_payos_lookup-Reaches :
      {start : Db} (silent : Bool) (now id : ℕ) (order : PaymentOrder) (config : PayosConfig)
      (answer : PayosLookup)
      → IsRun start (check_payos_lookup js sign silent now id order config answer)
  unfolding check_payos_lookup
  check_payos_lookup-Reaches silent now id order config answer db h =
      elim (Bool-cases (not (answer.code =ₛ "00"))) [
        | inl failed ↦ rw failed (give_up-same silent id order.status _ db h)
        | inr fine ↦ elim (Bool-cases (bad_lookup_signature js sign config answer)) [
          | inl forged ↦ rw (fine, forged) (give_up-same silent id order.status _ db h)
          | inr signed ↦
              elim (Bool-cases (
                is_other_lookup_amount (extract_amount_vnd order.metadata)
                  (get "amount" answer.lookup_data))) [
                    | inl wrong ↦
                        rw (fine, signed, wrong) (give_up-same silent id order.status _ db h)
                    | inr right ↦
                        rw (fine, signed, right)
                          (apply_payos_lookup-Reaches now id order answer.lookup_data db h)
                  ]
        ]
      ]

  module _ (env : String → Option String) (ask : PaymentRequestId → Option PayosLookup) where
    request_payos_lookup-Reaches :
        {start : Db} (silent : Bool) (now id : ℕ) (order : PaymentOrder)
        → IsRun start (request_payos_lookup js sign env ask silent now id order)
    unfolding request_payos_lookup
    request_payos_lookup-Reaches silent now id order db h =
        elim (Option-cases (extract_payos_payment_request_id order.metadata)) [
          | inl nothing ↦ rw nothing (give_up-same silent id order.status _ db h)
          | inr (request, known) ↦ elim (Bool-cases (not (is_asked request))) [
            | inl code_zero ↦ rw (known, code_zero) (give_up-same silent id order.status _ db h)
            | inr asked ↦
                rw (known, asked)
                  (after-Leaves (Reaches _) (get_payos_config env db) _
                    (get_payos_config-Reaches env db h)
                    λ config db₁ h₁. elim (Option-cases (ask request)) [
                      | inl failed ↦ rw failed h₁
                      | inr (answer, answered) ↦
                          rw answered
                            (check_payos_lookup-Reaches silent now id order config answer db₁ h₁)
                    ])
          ]
        ]

    pub sync_payos_order_status-Reaches :
        {start : Db} (silent : Bool) (now id user_id : ℕ)
        → IsRun start (sync_payos_order_status js sign env ask silent now id user_id)
    unfolding sync_payos_order_status
    sync_payos_order_status-Reaches true now id user_id db h =
        elim (Option-cases (lookup id db.orders)) [
          | inl missing ↦ rw missing h
          | inr (order, found) ↦ elim (Bool-cases (not (order.user_id == user_id))) [
            | inl foreign ↦ rw (found, foreign) h
            | inr own ↦ elim (Bool-cases (not (is_payos order.provider))) [
              | inl other ↦ rw (found, own, other) h
              | inr payos ↦ elim (Bool-cases (is_paid order.status)) [
                | inl paid ↦ rw (found, own, payos, paid) h
                | inr unpaid ↦ elim (Bool-cases (not (is_pending order.status))) [
                  | inl closed ↦ rw (found, own, payos, unpaid, closed) h
                  | inr pending ↦
                      rw (found, own, payos, unpaid, pending)
                        (request_payos_lookup-Reaches true now id order db h)
                ]
              ]
            ]
          ]
        ]
    sync_payos_order_status-Reaches false now id user_id db h =
        elim (Option-cases (lookup id db.orders)) [
          | inl missing ↦ rw missing h
          | inr (order, found) ↦ elim (Bool-cases (not (order.user_id == user_id))) [
            | inl foreign ↦ rw (found, foreign) h
            | inr own ↦ elim (Bool-cases (not (is_payos order.provider))) [
              | inl other ↦ rw (found, own, other) h
              | inr payos ↦ elim (Bool-cases (is_paid order.status)) [
                | inl paid ↦ rw (found, own, payos, paid) h
                | inr unpaid ↦ elim (Bool-cases (not (is_pending order.status))) [
                  | inl closed ↦ rw (found, own, payos, unpaid, closed) h
                  | inr pending ↦
                      rw (found, own, payos, unpaid, pending)
                        (request_payos_lookup-Reaches false now id order db h)
                ]
              ]
            ]
          ]
        ]

    pub sync_pending-Reaches :
        {start : Db} (now user_id : ℕ) (changed : Bool) (ids : List ℕ)
        → IsRun start (sync_pending js sign env ask now user_id changed ids)
    unfolding sync_pending
    sync_pending-Reaches now user_id changed [] db h = h
    sync_pending-Reaches now user_id changed (id ∷ ids) db h =
        after-Leaves (Reaches _) (sync_payos_order_status js sign env ask true now id user_id db) _
          (sync_payos_order_status-Reaches true now id user_id db h)
          λ r db₁ h₁. sync_pending-Reaches now user_id (changed || r.status_changed) ids db₁ h₁

try_codes-Reaches :
    {start : Db} (attempts : ℕ) (draws : ℕ → ℕ) → IsRun start (try_codes attempts draws)
unfolding try_codes
try_codes-Reaches zero draws db h = h
try_codes-Reaches (suc n) draws db h =
    elim (Bool-cases (is_some (find_row (has_payos_code (draws 0)) db.orders))) [
      | inl used ↦ rw used (try_codes-Reaches n (λ k. draws (suc k)) db h)
      | inr fresh ↦ rw fresh h
    ]

generate_payos_order_code-Reaches :
    {start : Db} (draws : ℕ → ℕ) → IsRun start (generate_payos_order_code draws)
unfolding generate_payos_order_code
generate_payos_order_code-Reaches draws db h = try_codes-Reaches 5 draws db h

insert_order-Reaches : {start : Db} (id : ℕ) (o : PaymentOrder) → IsRun start (insert_order id o)
unfolding insert_order
insert_order-Reaches id o db h = elim (Bool-cases (is_some (lookup id db.orders))) [
  | inl taken ↦ rw taken h
  | inr free ↦ rw free (same-Reaches db _ h refl refl refl)
]

module _ (js : Js) (sign : String → String → String) (env : String → Option String)
    (extra : ℕ → PaymentOrder → String)
    (momo_gateway : MomoCreateRequest → Option MomoCreateResponse)
    (payos_gateway : PayosCreateRequest → Option PayosCreateResponse) where
  create_momo_payment-Reaches :
      {start : Db} (id : ℕ) (order : PaymentOrder) (amount : ℕ)
      → IsRun start
          (create_momo_payment js sign env extra momo_gateway payos_gateway id order amount)
  unfolding create_momo_payment
  create_momo_payment-Reaches id order amount db h =
      after-Leaves (Reaches _) (get_momo_config env db) _ (get_momo_config-Reaches env db h)
        λ config db₁ h₁. or_throw-Leaves (Reaches _) _ _ db₁ h₁

  request_payos-Reaches :
      {start : Db} (config : PayosConfig) (code amount : ℕ)
      → IsRun start (request_payos js sign env extra momo_gateway payos_gateway config code amount)
  unfolding request_payos
  request_payos-Reaches config code amount db h = or_throw-Leaves (Reaches _) _ _ db h

  check_payos_created-Reaches :
      {start : Db} (config : PayosConfig) (answer : PayosCreateResponse)
      → IsRun start (check_payos_created js sign env extra momo_gateway payos_gateway config answer)
  unfolding check_payos_created
  check_payos_created-Reaches config answer db h = elim (Bool-cases (not (answer.code =ₛ "00"))) [
    | inl failed ↦ rw failed h
    | inr fine ↦
        elim (Bool-cases (not (truthy (as_string (get "checkoutUrl" answer.payment_data))))) [
          | inl bare ↦ rw (fine, bare) h
          | inr linked ↦
              elim (Bool-cases
                (bad_create_signature js sign env extra momo_gateway payos_gateway config answer)) [
                  | inl forged ↦ rw (fine, linked, forged) h
                  | inr signed ↦ rw (fine, linked, signed) h
                ]
        ]
  ]

  create_payos_payment-Reaches :
      {start : Db} (draws : ℕ → ℕ) (amount : ℕ)
      → IsRun start (create_payos_payment js sign env extra momo_gateway payos_gateway draws amount)
  unfolding create_payos_payment
  create_payos_payment-Reaches draws amount db h =
      after-Leaves (Reaches _) (get_payos_config env db) _ (get_payos_config-Reaches env db h)
        λ config db₁ h₁.
          after-Leaves (Reaches _) (generate_payos_order_code draws db₁) _
            (generate_payos_order_code-Reaches draws db₁ h₁)
            λ code db₂ h₂.
              after-Leaves (Reaches _)
                (request_payos js sign env extra momo_gateway payos_gateway config code amount db₂)
                _ (request_payos-Reaches config code amount db₂ h₂)
                λ answer db₃ h₃. check_payos_created-Reaches config answer db₃ h₃

  request_payment-Reaches :
      {start : Db} (draws : ℕ → ℕ) (id : ℕ) (order : PaymentOrder) (amount : ℕ)
      (provider : PaymentProvider)
      → IsRun start (
          request_payment js sign env extra momo_gateway payos_gateway draws id order amount
            provider)
  unfolding request_payment
  request_payment-Reaches draws id order amount PaymentProvider.bank_transfer db h = h
  request_payment-Reaches draws id order amount PaymentProvider.momo db h =
      after-Leaves (Reaches _)
        (create_momo_payment js sign env extra momo_gateway payos_gateway id order amount db) _
        (create_momo_payment-Reaches id order amount db h)
        λ answer db₁ h₁.
          elim (Bool-cases (not (answer.result_code == 0) || not (truthy answer.pay_url))) [
            | inl refused ↦ rw refused (
                after-Leaves (Reaches _) (update_order id _ db₁) _
                  (update_order-Reaches id _ db₁ h₁) λ _ db₂ h₂. h₂)
            | inr given ↦ rw given (
                after-Leaves (Reaches _) (update_order id _ db₁) _
                  (update_order-Reaches id _ db₁ h₁) λ _ db₂ h₂. h₂)
          ]
  request_payment-Reaches draws id order amount PaymentProvider.payos db h =
      after-Leaves (Reaches _)
        (create_payos_payment js sign env extra momo_gateway payos_gateway draws amount db) _
        (create_payos_payment-Reaches draws amount db h)
        λ answer db₁ h₁.
          after-Leaves (Reaches _) (update_order id _ db₁) _ (update_order-Reaches id _ db₁ h₁)
            λ _ db₂ h₂. h₂

  pub create_order-Reaches :
      {start : Db} (draws : ℕ → ℕ) (now id user_id : ℕ) (dto : CreatePaymentOrderDto)
      → IsRun start
          (create_order js sign env extra momo_gateway payos_gateway draws now id user_id dto)
  unfolding create_order
  create_order-Reaches draws now id user_id dto db h =
      elim (Option-cases (resolve_package dto.order_type dto.package_code)) [
        | inl unknown ↦ rw unknown h
        | inr (p, resolved) ↦ rw resolved (
            after-Leaves (Reaches _) (insert_order id (new_order now user_id dto p) db) _
              (insert_order-Reaches id (new_order now user_id dto p) db h)
              λ _ db₁ h₁.
                request_payment-Reaches draws id (new_order now user_id dto p) p.amount_vnd
                  dto.provider db₁ h₁)
      ]
