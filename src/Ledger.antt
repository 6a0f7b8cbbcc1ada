-- ===== src/Ledger.antt =====
-- The books of the system: every wallet against the sum of its owner's credit transactions.
pub mod Refunds
pub mod Steps
pub mod Invariants
use neura_gen.Base.{
  ◌∙◌, sym, inl, inr, Bool-cases, +ℤ-zero, ℕ, ◌≡◌, refl, Option, none, some, List, [], ◌∷◌, ℤ, pos,
  ◌+ℤ◌, ◌-ℤ◌, zero-+ℤ, ◌==◌, arith, if◌then◌else◌, lookup, put, lookup-put, get_or,
}
use neura_gen.Store.{Db, CreditTransaction, Action}

-- The balance of a user; a user with no wallet has none.
abbrev pub balance : ℕ → Db → ℤ
balance u db = get_or (lookup u db.wallets) (pos 0)

-- The sum of a user's transactions.
abbrev pub ledger_sum : ℕ → List CreditTransaction → ℤ
ledger_sum u [] = pos 0
ledger_sum u (t ∷ ts) = if t.user_id == u then ledger_sum u ts +ℤ t.amount else ledger_sum u ts

-- Every wallet holds the sum of its owner's transactions.
pub record IsBalanced (db : Db) : Type 0 where
  pub books : (u : ℕ) → balance u db ≡ ledger_sum u db.transactions

-- The balance of a user after a write to one wallet.
pub balance-put :
    (u user : ℕ) (x : ℤ) (db : Db)
    → get_or (lookup u (put user x db.wallets)) (pos 0) ≡ (if u == user then x else balance u db)
balance-put u user x db = rw (lookup-put u user x db.wallets) (ground arith)

-- One entry posted to both books.
pub entry-IsBalanced :
    (user : ℕ) (x : ℤ) (t : CreditTransaction) (db db' : Db)
    → IsBalanced db
    → t.user_id ≡ user
    → x ≡ balance user db +ℤ t.amount
    → db'.wallets ≡ put user x db.wallets
    → db'.transactions ≡ t ∷ db.transactions
    → IsBalanced db'
entry-IsBalanced user x t db db' h owner amount wallets transactions = record {
  books = λ u.
      rw (wallets, transactions)
        (rw (balance-put u user x db) (ground (arith, h.books u, h.books user, owner, amount)));
}

-- What leaves both books alone keeps them balanced.
pub same-IsBalanced :
    (db db' : Db)
    → IsBalanced db
    → db'.wallets ≡ db.wallets
    → db'.transactions ≡ db.transactions
    → IsBalanced db'
same-IsBalanced db db' h wallets transactions = record {
  books = λ u. rw (wallets, transactions) (h.books u);
}

-- A transaction of nothing.
pub zero-IsBalanced :
    (user : ℕ) (t : CreditTransaction) (db db' : Db)
    → IsBalanced db
    → t.amount ≡ pos 0
    → db'.wallets ≡ db.wallets
    → db'.transactions ≡ t ∷ db.transactions
    → IsBalanced db'
zero-IsBalanced user t db db' h amount wallets transactions = record {
  books = λ u. elim (Bool-cases (t.user_id == u)) [
    | inl own ↦
        rw (wallets, transactions, amount, own)
          (h.books u ∙ sym (+ℤ-zero (ledger_sum u db.transactions)))
    | inr other ↦ rw (wallets, transactions, other) (h.books u)
  ];
}
