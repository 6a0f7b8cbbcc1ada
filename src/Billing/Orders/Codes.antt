-- ===== src/Billing/Orders/Codes.antt =====
-- `generatePayosOrderCode` (src/modules/billing/billing.service.ts).
use neura_gen.Base.{
  ℕ, zero, suc, ◌<◌, ◌≡◌, refl, true, none, inl, inr, Option-cases, is_some, find_row, arith,
}
use neura_gen.Store.{Db, ok, err, Result}
use neura_gen.Billing.Payos.{has_payos_code}
use neura_gen.Billing.Orders.{try_codes, generate_payos_order_code}

-- No payOS order has the code.
abbrev pub IsUnused : ℕ → Db → Type 0
IsUnused code db = find_row (has_payos_code code) db.orders ≡ none

-- What a call did: it gave out the code that was drawn at an attempt and that no order had, or each
-- code drawn was some order's.
abbrev pub Draws : (attempts : ℕ) → (draws : ℕ → ℕ) → Db → Result ℕ × Db → Type 0
Draws attempts draws db (ok code, db') =
    (db' ≡ db) × IsUnused code db × (k : ℕ) × (k < attempts) × (code ≡ draws k)
Draws attempts draws db (err e, db') =
    (db' ≡ db)
    × ((k : ℕ) → k < attempts → is_some (find_row (has_payos_code (draws k)) db.orders) ≡ true)

later-Draws :
    (n : ℕ) (draws : ℕ → ℕ) (db : Db) (r : Result ℕ × Db)
    → is_some (find_row (has_payos_code (draws 0)) db.orders) ≡ true
    → Draws n (λ k. draws (suc k)) db r
    → Draws (suc n) draws db r
later-Draws n draws db (ok code, db') used (same, unused, k, lt, drawn) =
    (same, unused, suc k, omega (arith, lt), drawn)
later-Draws n draws db (err e, db') used (same, all) = (same, go)
  where
    go : (k : ℕ) → k < suc n → is_some (find_row (has_payos_code (draws k)) db.orders) ≡ true
    go zero lt = used
    go (suc k) lt = all k (omega (arith, lt))

try_codes-Draws :
    (attempts : ℕ) (draws : ℕ → ℕ) (db : Db) → Draws attempts draws db (try_codes attempts draws db)
unfolding try_codes
try_codes-Draws zero draws db = (refl, λ k lt. ground (arith, lt))
try_codes-Draws (suc n) draws db =
    elim (Option-cases (find_row (has_payos_code (draws 0)) db.orders)) [
      | inl unused ↦ rw unused (refl, unused, 0, omega arith, refl)
      | inr (row, used) ↦ rw used (
          later-Draws n draws db (try_codes n (λ k. draws (suc k)) db) (rw used refl)
            (try_codes-Draws n (λ k. draws (suc k)) db))
    ]

-- The generation of an order code writes nothing. A code that it gives out is one of the five
-- drawn, and no payOS order has it; it gives none out only if each of the five is some payOS
-- order's.
pub generate_payos_order_code-Draws :
    (draws : ℕ → ℕ) (db : Db) → Draws 5 draws db (generate_payos_order_code draws db)
unfolding generate_payos_order_code
generate_payos_order_code-Draws draws db = try_codes-Draws 5 draws db
