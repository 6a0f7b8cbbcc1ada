-- ===== src/Auth/Passwords/Resets.antt =====
-- The way of a reset token (src/modules/auth/auth.service.ts): asked for, used, and used again.
use neura_gen.Auth.Sessions.{revoke_all}
use neura_gen.Auth.Passwords.{
  generic_message, normalize_email, refuse_if, used, get_reset_token_ttl, find_by_email, require,
  set_password, new_reset_token, forgot_password, reset_password, revoke_all, create_reset_token,
  PasswordResetToken, hash_token, find_reset_token, delete_reset_tokens,
}
use neura_gen.Auth.Tokens.{Libraries}
use neura_gen.Auth.Store.{require, refuse_if, Account, AuthDb}
use neura_gen.Base.{==_refl, =ₛ_iff, lookup-update, find_row}
use neura_gen.Store.{Error, ok, err}
use neura_gen.Base.{
  ℕ, ◌+◌, ◌<◌, ◌≡◌, ◌∷◌, ◌=ₛ◌, arith, refl, none, some, String, Bool, true, false, [], leb, Table,
  lookup, update, put,
}

find_row-put {ℓ} :
    {V : Type ℓ} (p : ℕ → V → Bool) (k : ℕ) (v : V) (t : Table V)
    → find_row p t ≡ none
    → lookup k t ≡ none
    → p k v ≡ true
    → find_row p (put k v t) ≡ some (k, v)
unfolding find_row lookup put
find_row-put p k v [] h e f = rw f refl
find_row-put p k v ((j, w) ∷ t) h e f = ground (arith, find_row-put p k v t)

update-put {ℓ} :
    {V : Type ℓ} (k : ℕ) (v : V) (f : V → V) (t : Table V) → update k f (put k v t) ≡ put k (f v) t
unfolding update put
update-put k v f [] = ground arith
update-put k v f ((j, w) ∷ t) = ground (arith, update-put k v f t)

-- The tables without the reset tokens of the user.
abbrev pub IsNew : Libraries → (id user : ℕ) → String → AuthDb → Type 0
IsNew l id user raw db =
    (let rest = (delete_reset_tokens user db).reset_tokens in
      (find_reset_token (hash_token l raw) rest ≡ none) × (lookup id rest ≡ none))

module _ (l : Libraries) (asked id user : ℕ) (raw : String) (a : Account) where
  abbrev token : PasswordResetToken
  token = new_reset_token user (asked + get_reset_token_ttl l) (hash_token l raw)

  -- The tables after the mail has been asked for.
  abbrev pub with_token : AuthDb → AuthDb
  with_token db = create_reset_token l asked id user raw db

  -- The tables after the new password.
  abbrev pub with_password : (now salt : ℕ) → String → AuthDb → AuthDb
  with_password now salt new db =
      let changed = revoke_all now user (set_password user (l.bcrypt_hash salt new) db) in
      record changed { reset_tokens = update id (used now) changed.reset_tokens }

  reset_password_returns :
      (now salt : ℕ) (new : String) (db : AuthDb)
      → find_reset_token (hash_token l raw) db.reset_tokens ≡ some (id, token)
      → now < asked + get_reset_token_ttl l
      → lookup user db.accounts ≡ some a
      → l.bcrypt_compare new a.password ≡ false
      → reset_password l now salt raw new db ≡ (ok tt, with_password now salt new db)
  unfolding reset_password require refuse_if
  reset_password_returns now salt new db found early owner other =
      let unspent : leb (asked + get_reset_token_ttl l) now ≡ false = ground arith in
      rw (found, unspent, owner, other) refl

  reset_password_refused :
      (then_used now salt : ℕ) (new : String) (db : AuthDb)
      → find_reset_token (hash_token l raw) db.reset_tokens ≡ some (id, used then_used token)
      → reset_password l now salt raw new db
        ≡ (err (Error.forbidden "Reset token is invalid or expired"), db)
  unfolding reset_password require refuse_if
  reset_password_refused then_used now salt new db found = rw found refl

  matches :
      (t : PasswordResetToken)
      → t.token_hash ≡ hash_token l raw
      → (t.token_hash =ₛ hash_token l raw) ≡ true
  matches t e = (=ₛ_iff t.token_hash (hash_token l raw)).1 e

  with_token-stores :
      (db : AuthDb)
      → IsNew l id user raw db
      → find_reset_token (hash_token l raw) (with_token db).reset_tokens ≡ some (id, token)
  unfolding find_reset_token create_reset_token
  with_token-stores db (new_hash, new_id) =
      find_row-put (λ _ r. r.token_hash =ₛ hash_token l raw) id token
        (delete_reset_tokens user db).reset_tokens new_hash new_id (matches token refl)

  with_token-accounts : (db : AuthDb) → (with_token db).accounts ≡ db.accounts
  unfolding create_reset_token delete_reset_tokens
  with_token-accounts db = refl

  with_password-spends :
      (now salt : ℕ) (new : String) (db : AuthDb)
      → IsNew l id user raw db
      → find_reset_token
          (hash_token l raw)
          (with_password now salt new (with_token db)).reset_tokens
        ≡ some (id, used now token)
  unfolding find_reset_token create_reset_token revoke_all set_password
  with_password-spends now salt new db (new_hash, new_id) =
      let rest = (delete_reset_tokens user db).reset_tokens in
      rw (update-put id token (used now) rest) (
        find_row-put (λ _ r. r.token_hash =ₛ hash_token l raw) id (used now token) rest new_hash
          new_id (matches (used now token) refl))

  with_password-sets :
      (now salt : ℕ) (new : String) (db : AuthDb)
      → lookup user db.accounts ≡ some a
      → lookup user (with_password now salt new db).accounts
        ≡ some (record a { password = l.bcrypt_hash salt new })
  unfolding revoke_all set_password
  with_password-sets now salt new db e =
      rw
        (
          lookup-update user user (λ b. record b { password = l.bcrypt_hash salt new }) db.accounts,
          ==_refl user,
          e,
        )
        refl

  -- For an account that is found by its email, a reset token with a new hash and identifier that
  -- the mail brings sets a password that differs from the current one before its end, and after
  -- that no reset with this token is accepted: the second one throws and changes nothing.
  pub forgot-reset :
      (now again salt salt₂ : ℕ) (email new newer : String) (db : AuthDb)
      → find_by_email (normalize_email l email) db.accounts ≡ some (user, a)
      → lookup user db.accounts ≡ some a
      → IsNew l id user raw db
      → l.bcrypt_compare new a.password ≡ false
      → now < asked + get_reset_token_ttl l
      → (let mailed = forgot_password l asked id raw email db in
          let done = reset_password l now salt raw new mailed.1 in
          (mailed.0 ≡ ok generic_message)
          × (done.0 ≡ ok tt)
          × (lookup user done.1.accounts ≡ some (record a { password = l.bcrypt_hash salt new }))
          × (reset_password l again salt₂ raw newer done.1
              ≡ (err (Error.forbidden "Reset token is invalid or expired"), done.1)))
  unfolding forgot_password
  forgot-reset now again salt salt₂ email new newer db found owner is_new other early =
      let start = with_token db in
      let owner₁ : lookup user start.accounts ≡ some a = rw (with_token-accounts db) owner in
      let step =
        reset_password_returns now salt new start (with_token-stores db is_new) early owner₁
          other in
      rw (found, step)
        (
          refl,
          refl,
          with_password-sets now salt new start owner₁,
          reset_password_refused now again salt₂ newer (with_password now salt new start)
              (with_password-spends now salt new db is_new),
        )
