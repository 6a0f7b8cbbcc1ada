-- ===== src/Ledger/Steps.antt =====
-- An abstract machine of the books: wallets, ledger and free quotas, with three kinds of steps. Its
-- operations stand for those of the services of src/modules that write credits.
use neura_gen.Base.{ℕ, ◌≡◌, ◌∷◌, ◌⊎◌, ◌≤◌, ◌+◌, ℤ, pos, ◌+ℤ◌, ◌≤ℤ◌, put, if◌then◌else◌, ltb}
use neura_gen.Store.{Db, CreditTransaction, Action}
use neura_gen.Ledger.{balance}
use neura_gen.Jobs.Catalog.{pro_daily_free_premium_credits}
use neura_gen.Jobs.Create.{used_on, add_usage}

-- What leaves wallets, ledger and quotas alone.
pub record IsSameBooks (db db' : Db) : Type 0 where
  pub wallets : db'.wallets ≡ db.wallets
  pub transactions : db'.transactions ≡ db.transactions
  pub usages : db'.usages ≡ db.usages

-- An entry posted to a wallet and to the ledger; a charge is covered by the wallet.
pub record IsPosted (user : ℕ) (x : ℤ) (t : CreditTransaction) (db db' : Db) : Type 0 where
  pub owner : t.user_id ≡ user
  pub sum : x ≡ balance user db +ℤ t.amount
  pub funded : (pos 0 ≤ℤ t.amount) ⊎ (pos 0 ≤ℤ x)
  pub wallets : db'.wallets ≡ put user x db.wallets
  pub transactions : db'.transactions ≡ t ∷ db.transactions
  pub usages : db'.usages ≡ db.usages

-- Free credits of a day used up, with an entry of nothing.
pub record IsFreeUse (user day n : ℕ) (t : CreditTransaction) (db db' : Db) : Type 0 where
  pub amount : t.amount ≡ pos 0
  pub quota : (n ≡ 0) ⊎ (used_on user day db.usages + n ≤ pro_daily_free_premium_credits)
  pub wallets : db'.wallets ≡ db.wallets
  pub transactions : db'.transactions ≡ (if ltb 0 n then t ∷ db.transactions else db.transactions)
  pub usages : db'.usages ≡ add_usage user day n db.usages

-- The states that the machine reaches from `start`.
pub data Reaches (start : Db) : Db → Type 0 where
  here : Reaches start start
  leave : {db : Db} (db' : Db) → Reaches start db → IsSameBooks db db' → Reaches start db'
  post :
      {db : Db} (db' : Db) (user : ℕ) (x : ℤ) (t : CreditTransaction)
      → Reaches start db
      → IsPosted user x t db db'
      → Reaches start db'
  use_free :
      {db : Db} (db' : Db) (user day n : ℕ) (t : CreditTransaction)
      → Reaches start db
      → IsFreeUse user day n t db db'
      → Reaches start db'

-- An operation that is a run of the machine, also when it throws.
abbrev pub IsRun {ℓ} : {A : Type ℓ} → Db → Action A → Type 0
IsRun start m = (db : Db) → Reaches start db → Reaches start (m db).1

pub entry-Reaches :
    {start : Db} (user : ℕ) (x : ℤ) (t : CreditTransaction) (db db' : Db)
    → Reaches start db
    → t.user_id ≡ user
    → x ≡ balance user db +ℤ t.amount
    → (pos 0 ≤ℤ t.amount) ⊎ (pos 0 ≤ℤ x)
    → db'.wallets ≡ put user x db.wallets
    → db'.transactions ≡ t ∷ db.transactions
    → db'.usages ≡ db.usages
    → Reaches start db'
entry-Reaches user x t db db' h o s f w e u =
    post db' user x t h
      (record { owner = o; sum = s; funded = f; wallets = w; transactions = e; usages = u })

pub same-Reaches :
    {start : Db} (db db' : Db)
    → Reaches start db
    → db'.wallets ≡ db.wallets
    → db'.transactions ≡ db.transactions
    → db'.usages ≡ db.usages
    → Reaches start db'
same-Reaches db db' h w e u = leave db' h (record { wallets = w; transactions = e; usages = u })

pub free-Reaches :
    {start : Db} (user day n : ℕ) (t : CreditTransaction) (db db' : Db)
    → Reaches start db
    → t.amount ≡ pos 0
    → (n ≡ 0) ⊎ (used_on user day db.usages + n ≤ pro_daily_free_premium_credits)
    → db'.wallets ≡ db.wallets
    → db'.transactions ≡ (if ltb 0 n then t ∷ db.transactions else db.transactions)
    → db'.usages ≡ add_usage user day n db.usages
    → Reaches start db'
free-Reaches user day n t db db' h a q w e u =
    use_free db' user day n t h
      (record { amount = a; quota = q; wallets = w; transactions = e; usages = u })
