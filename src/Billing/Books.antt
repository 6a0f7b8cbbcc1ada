-- ===== src/Billing/Books.antt =====
-- Orders, notifications and the machine of the books (src/modules/billing/billing.service.ts).
pub mod Requests
use neura_gen.Base.{
  show, truthy, ℕ, refl, true, not, ◌&&◌, ◌==◌, ◌=ₛ◌, Option, String, lookup, Bool-cases,
  Option-cases, inl, inr, find_row, get_or,
}
use neura_gen.Store.{Db, PaymentOrder, ◌>>◌, pure}
use neura_gen.Store.Rules.{after-Leaves}
use neura_gen.Js.{Js, Fields}
use neura_gen.Ledger.Steps.{Reaches, IsRun, same-Reaches}
use neura_gen.Billing.Shared.{update_order, is_momo, is_other_amount, extract_amount_vnd}
use neura_gen.Billing.Paid.{is_pending, mark_order_paid}
use neura_gen.Billing.Paid.Books.{mark_order_paid-Reaches}
use neura_gen.Billing.Momo.{
  MomoConfig, MomoIpnPayload, get_momo_config, parse_momo_ipn_payload, check_momo_ipn,
  apply_momo_ipn, handle_momo_ipn, verify_momo_ipn_signature,
}
use neura_gen.Billing.Payos.{
  PayosConfig, PayosWebhookEnvelope, get_payos_config, parse_payos_webhook_envelope,
  check_payos_webhook, apply_payos_webhook, handle_payos_webhook, verify_payos_data_signature,
  data_fields, has_payos_code,
}

pub update_order-Reaches :
    {start : Db} (id : ℕ) (f : PaymentOrder → PaymentOrder) → IsRun start (update_order id f)
unfolding update_order
update_order-Reaches id f db h = elim (Option-cases (lookup id db.orders)) [
  | inl missing ↦ rw missing h
  | inr (o, found) ↦ rw found (same-Reaches db _ h refl refl refl)
]

-- A write to an order, and its settlement.
pub record_and_settle-Reaches :
    {start : Db} {A : Type 0} (now id : ℕ) (f : PaymentOrder → PaymentOrder) (ref : Option String)
    (a : A)
    → IsRun start (update_order id f >> (mark_order_paid now id ref >> pure a))
record_and_settle-Reaches now id f ref a db h =
    after-Leaves (Reaches _) (update_order id f db) _ (update_order-Reaches id f db h) λ _ db₁ h₁.
      after-Leaves (Reaches _) (mark_order_paid now id ref db₁) _
        (mark_order_paid-Reaches now id ref db₁ h₁) λ _ db₂ h₂. h₂

pub get_momo_config-Reaches :
    {start : Db} (env : String → Option String) → IsRun start (get_momo_config env)
unfolding get_momo_config
get_momo_config-Reaches env db h =
    elim (Bool-cases (
      truthy (env "MOMO_PARTNER_CODE")
      && (truthy (env "MOMO_ACCESS_KEY")
          && (truthy (env "MOMO_SECRET_KEY")
              && (truthy (env "MOMO_REDIRECT_URL") && truthy (env "MOMO_IPN_URL")))))) [
                | inl e ↦ rw e h
                | inr e ↦ rw e h
              ]

pub get_payos_config-Reaches :
    {start : Db} (env : String → Option String) → IsRun start (get_payos_config env)
unfolding get_payos_config
get_payos_config-Reaches env db h =
    elim (Bool-cases (
      truthy (env "PAYOS_CLIENT_ID")
      && (truthy (env "PAYOS_API_KEY") && truthy (env "PAYOS_CHECKSUM_KEY")))) [
        | inl e ↦ rw e h
        | inr e ↦ rw e h
      ]

module _ (sign : String → String → String) where
  pub apply_momo_ipn-Reaches :
      {start : Db} (now : ℕ) (p : MomoIpnPayload) (id : ℕ) (order : PaymentOrder)
      → IsRun start (apply_momo_ipn sign now p id order)
  unfolding apply_momo_ipn
  apply_momo_ipn-Reaches now p id order db h = elim (Bool-cases (p.result_code == 0)) [
    | inl success ↦ rw success (record_and_settle-Reaches now id _ _ tt db h)
    | inr failure ↦ elim (Bool-cases (is_pending order.status)) [
      | inl waiting ↦ rw (failure, waiting) (update_order-Reaches id _ db h)
      | inr closed ↦ rw (failure, closed) (update_order-Reaches id _ db h)
    ]
  ]

  check_momo_ipn-Reaches :
      {start : Db} (now : ℕ) (config : MomoConfig) (p : MomoIpnPayload)
      → IsRun start (check_momo_ipn sign now config p)
  unfolding check_momo_ipn
  check_momo_ipn-Reaches now config p db h =
      elim (Bool-cases (not (p.partner_code =ₛ config.partner_code))) [
        | inl foreign ↦ rw foreign h
        | inr own ↦ elim (Bool-cases (not (verify_momo_ipn_signature sign p config))) [
          | inl forged ↦ rw (own, forged) h
          | inr signed ↦ elim (Option-cases (find_row (λ k _. show k =ₛ p.order_id) db.orders)) [
            | inl unknown ↦ rw (own, signed, unknown) h
            | inr ((id, order), found) ↦ elim (Bool-cases (not (is_momo order.provider))) [
              | inl other ↦ rw (own, signed, found, other) h
              | inr momo ↦
                  elim (Bool-cases (is_other_amount (extract_amount_vnd order.metadata) p.amount)) [
                    | inl wrong ↦ rw (own, signed, found, momo, wrong) h
                    | inr right ↦
                        rw (own, signed, found, momo, right)
                          (apply_momo_ipn-Reaches now p id order db h)
                  ]
            ]
          ]
        ]
      ]

  pub handle_momo_ipn-Reaches :
      {start : Db} (js : Js) (env : String → Option String) (now : ℕ) (raw : Fields)
      → IsRun start (handle_momo_ipn sign js env now raw)
  unfolding handle_momo_ipn
  handle_momo_ipn-Reaches js env now raw db h =
      after-Leaves (Reaches _) (get_momo_config env db) _ (get_momo_config-Reaches env db h)
        λ config db₁ h₁. elim (Option-cases (parse_momo_ipn_payload js raw)) [
          | inl malformed ↦ rw malformed h₁
          | inr (p, parsed) ↦ rw parsed (check_momo_ipn-Reaches now config p db₁ h₁)
        ]

module _ (js : Js) (sign : String → String → String) where
  pub apply_payos_webhook-Reaches :
      {start : Db} (now : ℕ) (p : PayosWebhookEnvelope) (id : ℕ) (order : PaymentOrder)
      → IsRun start (apply_payos_webhook js sign now p id order)
  unfolding apply_payos_webhook
  apply_payos_webhook-Reaches now p id order db h =
      elim (Bool-cases ((p.code =ₛ "00") && get_or p.success true)) [
        | inl success ↦ rw success (record_and_settle-Reaches now id _ _ tt db h)
        | inr failure ↦ elim (Bool-cases (is_pending order.status)) [
          | inl waiting ↦ rw (failure, waiting) (update_order-Reaches id _ db h)
          | inr closed ↦ rw (failure, closed) (update_order-Reaches id _ db h)
        ]
      ]

  check_payos_webhook-Reaches :
      {start : Db} (now : ℕ) (config : PayosConfig) (p : PayosWebhookEnvelope)
      → IsRun start (check_payos_webhook js sign now config p)
  unfolding check_payos_webhook
  check_payos_webhook-Reaches now config p db h =
      elim (Bool-cases (
        not (
          verify_payos_data_signature js sign (data_fields p.data_part) p.signature
            config.checksum_key))) [
              | inl forged ↦ rw forged h
              | inr signed ↦
                  elim (Option-cases (find_row (has_payos_code p.data_part.order_code) db.orders)) [
                    | inl unknown ↦ rw (signed, unknown) h
                    | inr ((id, order), found) ↦
                        elim (Bool-cases (
                          is_other_amount (extract_amount_vnd order.metadata) p.data_part.amount)) [
                            | inl wrong ↦ rw (signed, found, wrong) h
                            | inr right ↦
                                rw (signed, found, right)
                                  (apply_payos_webhook-Reaches now p id order db h)
                          ]
                  ]
            ]

  pub handle_payos_webhook-Reaches :
      {start : Db} (env : String → Option String) (now : ℕ) (raw : Fields)
      → IsRun start (handle_payos_webhook js sign env now raw)
  unfolding handle_payos_webhook
  handle_payos_webhook-Reaches env now raw db h =
      after-Leaves (Reaches _) (get_payos_config env db) _ (get_payos_config-Reaches env db h)
        λ config db₁ h₁. elim (Option-cases (parse_payos_webhook_envelope js raw)) [
          | inl malformed ↦ rw malformed h₁
          | inr (p, parsed) ↦ rw parsed (check_payos_webhook-Reaches now config p db₁ h₁)
        ]
