-- ===== src/Tests/Codes.antt =====
-- Order codes of payOS.
use neura_gen.Base.{◌+◌}
use neura_gen.Billing.Orders.{generate_payos_order_code}
use neura_gen.Billing.Orders.Codes.{Draws, generate_payos_order_code-Draws}
use neura_gen.Tests.Data.{shop}

generate_payos_order_code-Draws_example :
    Draws 5 (λ k. k + 17) shop (generate_payos_order_code (λ k. k + 17) shop)
generate_payos_order_code-Draws_example = generate_payos_order_code-Draws (λ k. k + 17) shop
