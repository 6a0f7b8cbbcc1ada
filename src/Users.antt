-- ===== src/Users.antt =====
-- Accounts: the test top-up and the removal (src/modules/users/users.service.ts), and the account that
-- src/modules/auth/auth.service.ts creates with its bonus.
pub mod Books
use neura_gen.Base.{
  ◌∷◌, ℕ, String, Option, none, some, lookup, put, is_some, ℤ, pos, if◌then◌else◌, Table, Bool,
  false, filterb, ◌==◌, ◌&&◌, not, case_option, delete_row,
}
use neura_gen.Store.{
  Db, GenerateJob, Asset, User, UserRole, CreditTransaction, CreditReason, TransactionMetadata,
  Error, Result, ok, err, Action, pure, throw, gets, or_throw, transaction, ◌>>=◌, ◌>>◌, after,
  roll_back,
}
use neura_gen.Credits.{upsert_wallet, create_transaction}

abbrev pub topup_row : ℕ → ℕ → Option String → CreditTransaction
topup_row user_id amount note = record {
  user_id = user_id;
  amount = pos amount;
  reason = CreditReason.test_reward;
  metadata = TransactionMetadata.manual_topup note;
}

-- `topUpMyCredits`
unfoldable pub top_up_my_credits : (user_id amount : ℕ) → Option String → Action (Option ℤ)
top_up_my_credits user_id amount note = transaction do
  found ← gets (λ db. lookup user_id db.users)
  or_throw (Error.not_found "User not found") found
  upsert_wallet user_id (pos amount)
  create_transaction (topup_row user_id amount note)
  gets (λ db. lookup user_id db.wallets)

abbrev pub bonus_row : ℕ → CreditTransaction
bonus_row user_id = record {
  user_id = user_id;
  amount = pos 100;
  reason = CreditReason.register_bonus;
  metadata = TransactionMetadata.empty;
}

-- The nested `user.create` of `register` and `registerWithGoogle`, of the columns that are
-- modelled; `id` is the identifier drawn for the row.
unfoldable pub create_account : ℕ → Action (Unit {0})
create_account id db =
    if is_some (lookup id db.users)
    then (err Error.unique_violation, db)
    else if is_some (lookup id db.wallets)
    then (err Error.unique_violation, db)
    else (
      ok tt,
      record db {
        users = put id (record { role = UserRole.free; pro_expires_at = none }) db.users;
        wallets = put id (pos 100) db.wallets;
        transactions = bonus_row id ∷ db.transactions;
      },
    )

-- The jobs of a user, which go with the user.
abbrev pub jobs_of : ℕ → Table GenerateJob → Table GenerateJob
jobs_of id t = filterb (λ r. r.1.user_id == id) t

abbrev pub is_job_asset : Table GenerateJob → Asset → Bool
is_job_asset jobs a = case_option a.job_id false (λ j. is_some (lookup j jobs))

-- `UsersService.remove`; the foreign keys cascade to what belongs to the user or to a job of theirs.
unfoldable pub remove_user : ℕ → Action (Unit {0})
remove_user id db =
    let gone = jobs_of id db.jobs in
    if is_some (lookup id db.users)
    then (
      ok tt,
      record {
        users = delete_row id db.users;
        wallets = delete_row id db.wallets;
        transactions = filterb (λ t. not (t.user_id == id)) db.transactions;
        usages = filterb (λ u. not (u.user_id == id)) db.usages;
        orders = filterb (λ r. not (r.1.user_id == id)) db.orders;
        jobs = filterb (λ r. not (r.1.user_id == id)) db.jobs;
        assets = filterb (λ r. not (r.1.user_id == id) && not (is_job_asset gone r.1)) db.assets;
        logs = filterb (λ l. not (is_some (lookup l.job_id gone))) db.logs;
      },
    )
    else (err Error.record_not_found, db)
