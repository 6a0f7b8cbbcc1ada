-- ===== src/Billing/Momo/Authentic.antt =====
-- The checks of `handleMomoIpn` (src/modules/billing/billing.service.ts).
use neura_gen.Base.{
  ℕ, ◌≡◌, refl, sym, Bool, true, false, not, ◌=ₛ◌, =ₛ_iff, Option, some, String, inl, inr, ◌⊎◌,
  find_row, show, Bool-cases, Option-cases, ◌&&◌, truthy, arith,
}
use neura_gen.Store.{Db, PaymentOrder, PaymentProvider, ok}
use neura_gen.Store.Rules.{same-cases}
use neura_gen.Js.{Js, Fields}
use neura_gen.Billing.Shared.{is_momo, is_other_amount, extract_amount_vnd}
use neura_gen.Billing.Momo.{
  MomoConfig, MomoIpnPayload, get_momo_config, parse_momo_ipn_payload, momo_ipn_raw_signature,
  verify_momo_ipn_signature, check_momo_ipn, apply_momo_ipn, handle_momo_ipn,
}

-- The notification passed every check of `config`, and is about that order.
pub record IsAccepted (sign : String → String → String) (config : MomoConfig) (p : MomoIpnPayload)
    (db : Db) (id : ℕ) (order : PaymentOrder) : Type 0 where
  pub partner : p.partner_code ≡ config.partner_code
  pub signed : p.signature ≡ sign (momo_ipn_raw_signature config p) config.secret_key
  pub found : find_row (λ k _. show k =ₛ p.order_id) db.orders ≡ some (id, order)
  pub provider : order.provider ≡ PaymentProvider.momo
  pub amount : is_other_amount (extract_amount_vnd order.metadata) p.amount ≡ false

is_momo_eq : (p : PaymentProvider) → not (is_momo p) ≡ false → p ≡ PaymentProvider.momo
is_momo_eq p h = ground arith

true_of_not : (b : Bool) → not b ≡ false → b ≡ true
true_of_not b h = ground arith

get_momo_config-same : (env : String → Option String) (db : Db) → (get_momo_config env db).1 ≡ db
unfolding get_momo_config
get_momo_config-same env db =
    elim (Bool-cases (
      truthy (env "MOMO_PARTNER_CODE")
      && (truthy (env "MOMO_ACCESS_KEY")
          && (truthy (env "MOMO_SECRET_KEY")
              && (truthy (env "MOMO_REDIRECT_URL") && truthy (env "MOMO_IPN_URL")))))) [
                | inl e ↦ rw e refl
                | inr e ↦ rw e refl
              ]

module _ (sign : String → String → String) where
  verified :
      (config : MomoConfig) (p : MomoIpnPayload)
      → verify_momo_ipn_signature sign p config ≡ true
      → p.signature ≡ sign (momo_ipn_raw_signature config p) config.secret_key
  unfolding verify_momo_ipn_signature
  verified config p h =
      sym ((=ₛ_iff (sign (momo_ipn_raw_signature config p) config.secret_key) p.signature).0 h)

  check_momo_ipn-cases :
      (now : ℕ) (config : MomoConfig) (p : MomoIpnPayload) (db : Db)
      → (check_momo_ipn sign now config p db ≡ (ok tt, db))
        ⊎ ((id : ℕ) × (order : PaymentOrder) × IsAccepted sign config p db id order
            × (check_momo_ipn sign now config p db ≡ apply_momo_ipn sign now p id order db))
  unfolding check_momo_ipn
  check_momo_ipn-cases now config p db =
      elim (Bool-cases (not (p.partner_code =ₛ config.partner_code))) [
        | inl foreign ↦ inl (rw foreign)
        | inr own ↦ elim (Bool-cases (not (verify_momo_ipn_signature sign p config))) [
          | inl forged ↦ inl (rw (own, forged))
          | inr signed ↦ elim (Option-cases (find_row (λ k _. show k =ₛ p.order_id) db.orders)) [
            | inl unknown ↦ inl (rw (own, signed, unknown))
            | inr ((id, order), found) ↦ elim (Bool-cases (not (is_momo order.provider))) [
              | inl other ↦ inl (rw (own, signed, found, other))
              | inr momo ↦
                  elim (Bool-cases (is_other_amount (extract_amount_vnd order.metadata) p.amount)) [
                    | inl wrong ↦ inl (rw (own, signed, found, momo, wrong))
                    | inr right ↦ inr (
                      id,
                      order,
                      record {
                        partner = (=ₛ_iff p.partner_code config.partner_code).0 (true_of_not _ own);
                        signed = verified config p (true_of_not _ signed);
                        found = found;
                        provider = is_momo_eq order.provider momo;
                        amount = right;
                      },
                      rw (own, signed, found, momo, right),
                    )
                  ]
            ]
          ]
        ]
      ]

-- A MoMo notification either changes nothing, or it was parsed, it names the configured partner,
-- its signature is that of its text under the secret key, it is about a MoMo order, its amount is
-- not another one than the order's, and the outcome is that of applying it to this order.
pub handle_momo_ipn_authentic :
    (sign : String → String → String) (js : Js) (env : String → Option String) (now : ℕ)
    (raw : Fields) (db : Db)
    → ((handle_momo_ipn sign js env now raw db).1 ≡ db)
      ⊎ ((config : MomoConfig) × (p : MomoIpnPayload) × (id : ℕ) × (order : PaymentOrder)
          × (get_momo_config env db ≡ (ok config, db))
          × (parse_momo_ipn_payload js raw ≡ some p)
          × IsAccepted sign config p db id order
          × (handle_momo_ipn sign js env now raw db ≡ apply_momo_ipn sign now p id order db))
unfolding handle_momo_ipn
handle_momo_ipn_authentic sign js env now raw db =
    elim (same-cases db (get_momo_config env db) (get_momo_config-same env db)) [
      | inr (e, missing) ↦ inl (rw missing)
      | inl (config, ready) ↦ elim (Option-cases (parse_momo_ipn_payload js raw)) [
        | inl malformed ↦ inl (rw (ready, malformed))
        | inr (p, parsed) ↦ elim (check_momo_ipn-cases sign now config p db) [
          | inl ignored ↦ inl (rw (ready, parsed, ignored))
          | inr (id, order, accepted, applied) ↦
              inr (config, p, id, order, ready, parsed, accepted, rw (ready, parsed) applied)
        ]
      ]
    ]
