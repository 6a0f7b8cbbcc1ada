-- ===== src/Billing/Paid/Effect.antt =====
-- What the transaction of `markOrderPaid` (src/modules/billing/billing.service.ts) writes.
use neura_gen.Base.{
  ◌&&◌, truthy, truthy, ℕ, ◌≡◌, refl, Bool, true, false, Option, some, String, ◌∷◌, pos, ◌+ℤ◌, ltb,
  if◌then◌else◌, lookup, put, update, Bool-cases, Option-cases, inl, inr, arith, or_else, zero-+ℤ,
}
use neura_gen.Store.{ok, Error, err, pure, PaymentOrderStatus, Db, User, UserRole, PaymentOrder}
use neura_gen.Store.Rules.{Ensures, Ensures-mono, after-Ensures}
use neura_gen.Ledger.{balance}
use neura_gen.Billing.Paid.{
  PaidResult, already_paid, marked_paid, fulfil, settle, claim, purchase_row, paid_row, next_expiry,
  is_subscription, is_pending, is_reference_used,
}

abbrev pub upgraded : ℕ → User → User
upgraded expiry u = record u { role = UserRole.pro; pro_expires_at = some expiry }

-- The tables after the call, in terms of those before it.
pub record IsFulfilled (now id : ℕ) (ref : Option String) (order : PaymentOrder) (user : User)
    (db db' : Db) : Type 0 where
  pub wallets : db'.wallets ≡ (
      if ltb 0 order.credit_amount
      then put order.user_id (balance order.user_id db +ℤ pos order.credit_amount) db.wallets
      else db.wallets)
  pub transactions : db'.transactions ≡ (
      if ltb 0 order.credit_amount
      then purchase_row id ref order ∷ db.transactions
      else db.transactions)
  pub users : db'.users ≡ (
      if is_subscription order.order_type
      then update order.user_id (upgraded (next_expiry now user order)) db.users
      else db.users)
  pub orders : db'.orders ≡ db.orders
  pub jobs : db'.jobs ≡ db.jobs
  pub usages : db'.usages ≡ db.usages
  pub assets : db'.assets ≡ db.assets
  pub logs : db'.logs ≡ db.logs

-- What `fulfil` has done when it returns.
abbrev pub Fulfils :
    (now id : ℕ) → Option String → PaymentOrder → User → Db → PaidResult → Db → Type 0
Fulfils now id ref order user db (already_paid k) db' = ⊥
Fulfils now id ref order user db (marked_paid k row next) db' =
    (k ≡ id) × (lookup id db.orders ≡ some row) × IsFulfilled now id ref order user db db'

pub fulfil-Fulfils :
    (now id : ℕ) (ref : Option String) (order : PaymentOrder) (user : User) (db : Db)
    → Ensures (Fulfils now id ref order user db) (fulfil now id ref order user db)
unfolding fulfil
fulfil-Fulfils now id ref order user db = ground (arith, zero-+ℤ (pos order.credit_amount))

-- The database once the order is claimed.
abbrev pub claimed : ℕ → ℕ → Option String → Db → Db
claimed now id ref db = record db { orders = update id (paid_row now ref) db.orders }

abbrev pub Claims : (now id : ℕ) → Option String → Db → Bool → Db → Type 0
Claims now id ref db false db' = db' ≡ db
Claims now id ref db true db' =
    (db' ≡ claimed now id ref db)
    × (is_reference_used id ref db.orders ≡ false)
    × (row : PaymentOrder) × (lookup id db.orders ≡ some row)
    × (row.status ≡ PaymentOrderStatus.pending)

pub claim-Claims :
    (now id : ℕ) (ref : Option String) (db : Db)
    → Ensures (Claims now id ref db) (claim now id ref db)
unfolding claim
claim-Claims now id ref db = elim (Option-cases (lookup id db.orders)) [
  | inl missing ↦ rw missing refl
  | inr (row, found) ↦ rw found (go row found row.status refl)
]
  where
    go :
        (row : PaymentOrder)
        → lookup id db.orders ≡ some row
        → (s : PaymentOrderStatus) → row.status ≡ s
        → Ensures (Claims now id ref db) (
            if is_pending s
            then if is_reference_used id ref db.orders
              then (err Error.unique_violation, db)
              else (ok true, claimed now id ref db)
            else (ok false, db))
    go row found PaymentOrderStatus.pending e =
        elim (Bool-cases (is_reference_used id ref db.orders)) [
          | inl used ↦ rw used tt
          | inr free ↦ rw free (refl, free, row, found, e)
        ]
    go row found _ e = refl

-- What `settle` has done when it returns: nothing, if it claimed no row, or the whole order.
abbrev pub Settles :
    (now id : ℕ) → Option String → PaymentOrder → User → Db → PaidResult → Db → Type 0
Settles now id ref order user db (already_paid k) db' = (k ≡ id) × (db' ≡ db)
Settles now id ref order user db (marked_paid k row next) db' =
    let taken = or_else ref order.provider_order_id in
    (is_reference_used id taken db.orders ≡ false)
    × Fulfils now id ref order user (claimed now id taken db) (marked_paid k row next) db'

pub settle-Settles :
    (now id : ℕ) (ref : Option String) (order : PaymentOrder) (user : User) (db : Db)
    → Ensures (Settles now id ref order user db) (settle now id ref order user db)
unfolding settle
settle-Settles now id ref order user db =
    elim (Bool-cases (truthy ref && is_reference_used id ref db.orders)) [
      | inl used ↦ rw used tt
      | inr free ↦ rw free (
          after-Ensures (Claims now id taken db) (Settles now id ref order user db)
            (claim now id taken db)
            (λ b. if b then fulfil now id ref order user else pure (already_paid id))
            (claim-Claims now id taken db) go)
    ]
  where
    taken : Option String
    taken = or_else ref order.provider_order_id

    lift :
        (r : PaidResult) (db' : Db)
        → is_reference_used id taken db.orders ≡ false
        → Fulfils now id ref order user (claimed now id taken db) r db'
        → Settles now id ref order user db r db'
    lift (already_paid k) db' free h = absurd h
    lift (marked_paid k row next) db' free h = (free, h)

    go :
        (b : Bool) (db' : Db)
        → Claims now id taken db b db'
        → Ensures
            (Settles now id ref order user db)
            ((if b then fulfil now id ref order user else pure (already_paid id)) db')
    go false db' h = (refl, h)
    go true db' (e, free, _, _, _) = rw e (
        Ensures-mono _ _ _ (λ r db''. lift r db'' free)
          (fulfil-Fulfils now id ref order user (claimed now id taken db)))
