-- ===== src/Billing/Sync/Authentic.antt =====
-- The checks of `syncPayosOrderStatus` (src/modules/billing/billing.service.ts).
use neura_gen.Base.{
  ℕ, ◌≡◌, refl, Bool, true, false, not, ◌==◌, ◌=ₛ◌, Option, some, String, ◌⊎◌, inl, inr, lookup,
  Bool-cases, Option-cases,
}
use neura_gen.Store.{Db, PaymentOrder, PaymentOrderStatus, ok}
use neura_gen.Store.Rules.{same-cases}
use neura_gen.Js.{Js, get}
use neura_gen.Billing.Shared.{extract_amount_vnd, is_payos}
use neura_gen.Billing.Paid.{is_pending, is_paid}
use neura_gen.Billing.Payos.{PayosConfig, get_payos_config}
use neura_gen.Billing.Payos.Authentic.{get_payos_config-same}
use neura_gen.Billing.Sync.{
  PaymentRequestId, PayosLookup, give_up, extract_payos_payment_request_id, is_asked,
  bad_lookup_signature, is_other_lookup_amount, apply_payos_lookup, check_payos_lookup,
  request_payos_lookup, sync_payos_order_status,
}

give_up_same :
    (silent : Bool) (id : ℕ) (s : PaymentOrderStatus) (m : String) (db : Db)
    → (give_up silent id s m db).1 ≡ db
give_up_same true id s m db = refl
give_up_same false id s m db = refl

-- The order and the answer of payOS passed every check.
pub record IsConfirmed (js : Js) (sign : String → String → String) (env : String → Option String)
    (ask : PaymentRequestId → Option PayosLookup) (user_id id : ℕ) (db : Db) (order : PaymentOrder)
    (answer : PayosLookup) : Type 0 where
  pub found : lookup id db.orders ≡ some order
  pub own : not (order.user_id == user_id) ≡ false
  pub provider : not (is_payos order.provider) ≡ false
  pub pending : not (is_pending order.status) ≡ false
  pub request : PaymentRequestId
  pub identified : extract_payos_payment_request_id order.metadata ≡ some request
  pub asked : not (is_asked request) ≡ false
  pub answered : ask request ≡ some answer
  pub config : PayosConfig
  pub configured : get_payos_config env db ≡ (ok config, db)
  pub accepted : not (answer.code =ₛ "00") ≡ false
  pub signed : bad_lookup_signature js sign config answer ≡ false
  pub amount :
      is_other_lookup_amount (extract_amount_vnd order.metadata) (get "amount" answer.lookup_data)
      ≡ false

module _ (js : Js) (sign : String → String → String) (env : String → Option String)
    (ask : PaymentRequestId → Option PayosLookup) (silent : Bool) (now user_id id : ℕ)
    (db : Db) where
  -- From an answer on.
  answer-cases :
      (order : PaymentOrder) (request : PaymentRequestId) (config : PayosConfig)
      (answer : PayosLookup)
      → lookup id db.orders ≡ some order
      → not (order.user_id == user_id) ≡ false
      → not (is_payos order.provider) ≡ false
      → not (is_pending order.status) ≡ false
      → extract_payos_payment_request_id order.metadata ≡ some request
      → not (is_asked request) ≡ false
      → ask request ≡ some answer
      → get_payos_config env db ≡ (ok config, db)
      → ((check_payos_lookup js sign silent now id order config answer db).1 ≡ db)
        ⊎ (IsConfirmed js sign env ask user_id id db order answer
            × (check_payos_lookup js sign silent now id order config answer db
                ≡ apply_payos_lookup js sign now id order answer.lookup_data db))
  unfolding check_payos_lookup
  answer-cases order request config answer found own payos pending identified asked answered ready =
      elim (Bool-cases (not (answer.code =ₛ "00"))) [
        | inl failed ↦ inl (rw failed (give_up_same silent id order.status _ db))
        | inr fine ↦ elim (Bool-cases (bad_lookup_signature js sign config answer)) [
          | inl forged ↦ inl (rw (fine, forged) (give_up_same silent id order.status _ db))
          | inr signed ↦
              elim (Bool-cases (
                is_other_lookup_amount (extract_amount_vnd order.metadata)
                  (get "amount" answer.lookup_data))) [
                    | inl wrong ↦
                        inl (rw (fine, signed, wrong) (give_up_same silent id order.status _ db))
                    | inr right ↦ inr (
                      record {
                        found = found;
                        own = own;
                        provider = payos;
                        pending = pending;
                        request = request;
                        identified = identified;
                        asked = asked;
                        answered = answered;
                        config = config;
                        configured = ready;
                        accepted = fine;
                        signed = signed;
                        amount = right;
                      },
                      rw (fine, signed, right),
                    )
                  ]
        ]
      ]

  request-cases :
      (order : PaymentOrder)
      → lookup id db.orders ≡ some order
      → not (order.user_id == user_id) ≡ false
      → not (is_payos order.provider) ≡ false
      → not (is_pending order.status) ≡ false
      → ((request_payos_lookup js sign env ask silent now id order db).1 ≡ db)
        ⊎ ((answer : PayosLookup) × IsConfirmed js sign env ask user_id id db order answer
            × (request_payos_lookup js sign env ask silent now id order db
                ≡ apply_payos_lookup js sign now id order answer.lookup_data db))
  unfolding request_payos_lookup
  request-cases order found own payos pending =
      elim (Option-cases (extract_payos_payment_request_id order.metadata)) [
        | inl unknown ↦ inl (rw unknown (give_up_same silent id order.status _ db))
        | inr (request, identified) ↦ elim (Bool-cases (not (is_asked request))) [
          | inl nothing ↦ inl (rw (identified, nothing) (give_up_same silent id order.status _ db))
          | inr asked ↦
              elim (same-cases db (get_payos_config env db) (get_payos_config-same env db)) [
                | inr (e, missing) ↦ inl (rw (identified, asked, missing) refl)
                | inl (config, ready) ↦ elim (Option-cases (ask request)) [
                  | inl silence ↦ inl (rw (identified, asked, ready, silence) refl)
                  | inr (answer, answered) ↦
                      elim (answer-cases order request config answer found own payos pending
                        identified asked answered ready) [
                          | inl refused ↦ inl (rw (identified, asked, ready, answered) refused)
                          | inr (confirmed, applied) ↦
                              inr
                                (answer, confirmed, rw (identified, asked, ready, answered) applied)
                        ]
                ]
              ]
        ]
      ]

  -- A request to synchronise an order, silent or not, either changes nothing, or the order is a
  -- pending payOS order of the caller, payOS was asked about it, by a number other than 0 or by a
  -- link, and answered with success, a signature that came with the answer is right, the amount is
  -- not another one than the order's, and the outcome is that of applying the answer.
  pub sync_payos_order_status_authentic :
      ((sync_payos_order_status js sign env ask silent now id user_id db).1 ≡ db)
      ⊎ ((order : PaymentOrder) × (answer : PayosLookup) × IsConfirmed js sign env ask user_id id db
            order answer
          × (sync_payos_order_status js sign env ask silent now id user_id db
              ≡ apply_payos_lookup js sign now id order answer.lookup_data db))
  unfolding sync_payos_order_status
  sync_payos_order_status_authentic = elim (Option-cases (lookup id db.orders)) [
    | inl missing ↦ elim (Bool-cases silent) [
      | inl quiet ↦ inl (rw (missing, quiet) refl)
      | inr loud ↦ inl (rw (missing, loud) refl)
    ]
    | inr (order, found) ↦ elim (Bool-cases (not (order.user_id == user_id))) [
      | inl foreign ↦ elim (Bool-cases silent) [
        | inl quiet ↦ inl (rw (found, foreign, quiet) refl)
        | inr loud ↦ inl (rw (found, foreign, loud) refl)
      ]
      | inr own ↦ elim (Bool-cases (not (is_payos order.provider))) [
        | inl other ↦ inl (rw (found, own, other) (give_up_same silent id order.status _ db))
        | inr payos ↦ elim (Bool-cases (is_paid order.status)) [
          | inl paid ↦ inl (rw (found, own, payos, paid) refl)
          | inr unpaid ↦ elim (Bool-cases (not (is_pending order.status))) [
            | inl closed ↦ inl (rw (found, own, payos, unpaid, closed) refl)
            | inr pending ↦ elim (request-cases order found own payos pending) [
              | inl ignored ↦ inl (rw (found, own, payos, unpaid, pending) ignored)
              | inr (answer, confirmed, applied) ↦
                  inr (order, answer, confirmed, rw (found, own, payos, unpaid, pending) applied)
            ]
          ]
        ]
      ]
    ]
  ]
