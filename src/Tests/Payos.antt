-- ===== src/Tests/Payos.antt =====
-- Webhooks of payOS.
use neura_gen.Base.{◌≡◌, ℕ, some, ◌⊎◌}
use neura_gen.Store.{PaymentOrder, ok}
use neura_gen.Js.{Fields, field, end, num, str, obj}
use neura_gen.Billing.Payos.{
  PayosConfig, PayosWebhookEnvelope, get_payos_config, parse_payos_webhook_envelope,
  apply_payos_webhook, handle_payos_webhook,
}
use neura_gen.Billing.Payos.Authentic.{IsAccepted, handle_payos_webhook_authentic}
use neura_gen.Tests.Data.{shop, js, sign, env}

abbrev webhook : Fields
webhook = field "code" (str "00") (
    field "desc" (str "success") (
      field "signature" (str "forged")
        (field "data" (obj (field "orderCode" (num 17) (field "amount" (num 24750) end))) end)))

handle_payos_webhook_authentic_example :
    ((handle_payos_webhook js sign env 5 webhook shop).1 ≡ shop)
    ⊎ ((config : PayosConfig) × (p : PayosWebhookEnvelope) × (id : ℕ) × (order : PaymentOrder)
        × (get_payos_config env shop ≡ (ok config, shop))
        × (parse_payos_webhook_envelope js webhook ≡ some p)
        × IsAccepted js sign config p shop id order
        × (handle_payos_webhook js sign env 5 webhook shop
            ≡ apply_payos_webhook js sign 5 p id order shop))
handle_payos_webhook_authentic_example = handle_payos_webhook_authentic js sign env 5 webhook shop
