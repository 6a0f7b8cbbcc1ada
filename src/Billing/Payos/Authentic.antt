-- ===== src/Billing/Payos/Authentic.antt =====
-- The checks of `handlePayosWebhook` (src/modules/billing/billing.service.ts).
use neura_gen.Base.{
  ℕ, ◌≡◌, refl, sym, false, not, ◌&&◌, ◌=ₛ◌, =ₛ_iff, Option, some, String, inl, inr, ◌⊎◌, find_row,
  Bool-cases, Option-cases, truthy, arith,
}
use neura_gen.Store.{Db, PaymentOrder, ok}
use neura_gen.Store.Rules.{same-cases}
use neura_gen.Js.{Js, Fields}
use neura_gen.Billing.Shared.{is_other_amount, extract_amount_vnd}
use neura_gen.Billing.Payos.{
  PayosConfig, PayosWebhookEnvelope, get_payos_config, parse_payos_webhook_envelope,
  verify_payos_data_signature, flatten_payos_data, data_fields, has_payos_code, check_payos_webhook,
  apply_payos_webhook, handle_payos_webhook,
}

-- The webhook passed every check of `config`, and is about that order.
pub record IsAccepted (js : Js) (sign : String → String → String) (config : PayosConfig)
    (p : PayosWebhookEnvelope) (db : Db) (id : ℕ) (order : PaymentOrder) : Type 0 where
  pub signed :
      p.signature ≡ sign (flatten_payos_data js (data_fields p.data_part)) config.checksum_key
  pub found : find_row (has_payos_code p.data_part.order_code) db.orders ≡ some (id, order)
  pub amount : is_other_amount (extract_amount_vnd order.metadata) p.data_part.amount ≡ false

pub get_payos_config-same :
    (env : String → Option String) (db : Db) → (get_payos_config env db).1 ≡ db
unfolding get_payos_config
get_payos_config-same env db =
    elim (Bool-cases (
      truthy (env "PAYOS_CLIENT_ID")
      && (truthy (env "PAYOS_API_KEY") && truthy (env "PAYOS_CHECKSUM_KEY")))) [
        | inl e ↦ rw e refl
        | inr e ↦ rw e refl
      ]

module _ (js : Js) (sign : String → String → String) where
  verified :
      (config : PayosConfig) (p : PayosWebhookEnvelope)
      → not (
          verify_payos_data_signature js sign
            (data_fields p.data_part)
            p.signature
            config.checksum_key)
        ≡ false
      → p.signature ≡ sign (flatten_payos_data js (data_fields p.data_part)) config.checksum_key
  unfolding verify_payos_data_signature
  verified config p h =
      elim (Bool-cases (
        sign (flatten_payos_data js (data_fields p.data_part)) config.checksum_key
        =ₛ p.signature)) [
          | inl same ↦ sym (
              (=ₛ_iff (sign (flatten_payos_data js (data_fields p.data_part)) config.checksum_key)
                  p.signature).0
                same)
          | inr other ↦ ground (arith, h, other)
        ]

  check_payos_webhook-cases :
      (now : ℕ) (config : PayosConfig) (p : PayosWebhookEnvelope) (db : Db)
      → (check_payos_webhook js sign now config p db ≡ (ok tt, db))
        ⊎ ((id : ℕ) × (order : PaymentOrder) × IsAccepted js sign config p db id order
            × (check_payos_webhook js sign now config p db
                ≡ apply_payos_webhook js sign now p id order db))
  unfolding check_payos_webhook
  check_payos_webhook-cases now config p db =
      elim (Bool-cases (
        not (
          verify_payos_data_signature js sign (data_fields p.data_part) p.signature
            config.checksum_key))) [
              | inl forged ↦ inl (rw forged)
              | inr signed ↦
                  elim (Option-cases (find_row (has_payos_code p.data_part.order_code) db.orders)) [
                    | inl unknown ↦ inl (rw (signed, unknown))
                    | inr ((id, order), found) ↦
                        elim (Bool-cases (
                          is_other_amount (extract_amount_vnd order.metadata) p.data_part.amount)) [
                            | inl wrong ↦ inl (rw (signed, found, wrong))
                            | inr right ↦ inr (
                              id,
                              order,
                              record {
                                signed = verified config p signed;
                                found = found;
                                amount = right;
                              },
                              rw (signed, found, right),
                            )
                          ]
                  ]
            ]

  -- A payOS webhook either changes nothing, or it was parsed, its signature is that of its data
  -- under the checksum key, the order that it is about is the first payOS order with its code, its
  -- amount is not another one than the order's, and the outcome is that of applying it to this
  -- order.
  pub handle_payos_webhook_authentic :
      (env : String → Option String) (now : ℕ) (raw : Fields) (db : Db)
      → ((handle_payos_webhook js sign env now raw db).1 ≡ db)
        ⊎ ((config : PayosConfig) × (p : PayosWebhookEnvelope) × (id : ℕ) × (order : PaymentOrder)
            × (get_payos_config env db ≡ (ok config, db))
            × (parse_payos_webhook_envelope js raw ≡ some p)
            × IsAccepted js sign config p db id order
            × (handle_payos_webhook js sign env now raw db
                ≡ apply_payos_webhook js sign now p id order db))
  unfolding handle_payos_webhook
  handle_payos_webhook_authentic env now raw db =
      elim (same-cases db (get_payos_config env db) (get_payos_config-same env db)) [
        | inr (e, missing) ↦ inl (rw missing)
        | inl (config, ready) ↦ elim (Option-cases (parse_payos_webhook_envelope js raw)) [
          | inl malformed ↦ inl (rw (ready, malformed))
          | inr (p, parsed) ↦ elim (check_payos_webhook-cases now config p db) [
            | inl ignored ↦ inl (rw (ready, parsed, ignored))
            | inr (id, order, accepted, applied) ↦
                inr (config, p, id, order, ready, parsed, accepted, rw (ready, parsed) applied)
          ]
        ]
      ]
