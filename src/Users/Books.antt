-- ===== src/Users/Books.antt =====
-- The account operations and the machine of the books (src/modules/users/users.service.ts,
-- src/modules/auth/auth.service.ts).
use neura_gen.Base.{
  ℕ, refl, Option, String, pos, pos-nonneg, ◌+ℤ◌, zero-+ℤ, lookup, Bool-cases, Option-cases, inl,
  inr, is_some,
}
use neura_gen.Credits.{upsert_wallet, create_transaction}
use neura_gen.Ledger.Steps.{IsRun, entry-Reaches}
use neura_gen.Users.{Db, top_up_my_credits, create_account, topup_row, bonus_row}

pub top_up_my_credits-Reaches :
    {start : Db} (user_id amount : ℕ) (note : Option String)
    → IsRun start (top_up_my_credits user_id amount note)
unfolding top_up_my_credits upsert_wallet create_transaction
top_up_my_credits-Reaches user_id amount note db h = elim (Option-cases (lookup user_id db.users)) [
  | inl missing ↦ rw missing h
  | inr (user, found) ↦ elim (Option-cases (lookup user_id db.wallets)) [
    | inl fresh ↦
        rw (found, fresh)
          (entry-Reaches user_id (pos amount) (topup_row user_id amount note) db _ h refl
            (rw (fresh, zero-+ℤ (pos amount)) refl) (inl (pos-nonneg amount)) refl refl refl)
    | inr (b, old) ↦
        rw (found, old)
          (entry-Reaches user_id (b +ℤ pos amount) (topup_row user_id amount note) db _ h refl
            (rw old refl) (inl (pos-nonneg amount)) refl refl refl)
  ]
]

pub create_account-Reaches : {start : Db} (id : ℕ) → IsRun start (create_account id)
unfolding create_account
create_account-Reaches id db h = elim (Bool-cases (is_some (lookup id db.users))) [
  | inl taken ↦ rw taken h
  | inr free ↦ elim (Option-cases (lookup id db.wallets)) [
    | inr (b, old) ↦ rw (free, old) h
    | inl fresh ↦
        rw (free, fresh)
          (entry-Reaches id (pos 100) (bonus_row id) db _ h refl
            (rw (fresh, zero-+ℤ (pos 100)) refl) (inl (pos-nonneg 100)) refl refl refl)
  ]
]
