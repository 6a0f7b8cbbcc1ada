-- ===== src/Auth/Passwords.antt =====
-- Passwords (src/modules/auth/auth.service.ts). The random token of a reset is an argument.
pub mod Resets
use neura_gen.Auth.Store.{
  write, refuse_if, give, require, query, AuthAction, delete_many, PasswordResetToken, AuthDb,
  ◌>>=◌, ◌>>◌,
}
use neura_gen.Auth.Tokens.{Libraries, normalize_email, hash_token, get_reset_token_ttl}
use neura_gen.Auth.Sessions.{revoke_all, find_by_email}
use neura_gen.Store.{UserRole, Error, ok, err}
use neura_gen.Base.{
  find_row, holds, ℕ, ◌+◌, ◌-◌, ◌*◌, ◌/◌, ◌<◌, ◌≤◌, ◌≡◌, suc, zero, not, ◌||◌, ◌&&◌, ◌∷◌, ◌++◌,
  ◌==◌, ◌=ₛ◌, if◌then◌else◌, arith, refl, sym, ap, ◌∙◌, none, some, inl, inr, Option, Option-cases,
  Bool-cases, String, Bool, true, false, List, [], All, length, is_some, case_option, get_or, ltb,
  leb, map_option, Table, lookup, update, put, filterb, find,
}

-- `user.update` of the password.
unfoldable pub set_password : ℕ → String → AuthDb → AuthDb
set_password user_id hashed db = record db {
  accounts = update user_id (λ a. record a { password = hashed }) db.accounts;
}

abbrev pub is_reset_of : ℕ → PasswordResetToken → Bool
is_reset_of user_id t = t.user_id == user_id

unfoldable pub delete_reset_tokens : ℕ → AuthDb → AuthDb
delete_reset_tokens user_id db = record db {
  reset_tokens = delete_many (is_reset_of user_id) db.reset_tokens;
}

-- `changePassword`
unfoldable pub change_password :
    Libraries
    → (now salt user_id : ℕ) → (old_password new_password : String) → AuthAction (Unit {0})
change_password l now salt user_id old_password new_password = do
  found ← query (λ db. lookup user_id db.accounts)
  user ← require (Error.forbidden "User not found") found
  refuse_if (not (l.bcrypt_compare old_password user.password))
      (Error.forbidden "Old password is incorrect")
  refuse_if (l.bcrypt_compare new_password user.password)
      (Error.bad_request "New password must be different from old password")
  write (λ db.
      delete_reset_tokens user_id
        (revoke_all now user_id (set_password user_id (l.bcrypt_hash salt new_password) db)))

abbrev pub new_reset_token : (user_id expires_at : ℕ) → String → PasswordResetToken
new_reset_token user_id expires_at hash = record {
  user_id = user_id;
  token_hash = hash;
  expires_at = expires_at;
  used_at = none;
}

abbrev pub generic_message : String
generic_message = "If this email exists in our system, a password reset link has been sent."

unfoldable pub create_reset_token : Libraries → (now id user_id : ℕ) → String → AuthDb → AuthDb
create_reset_token l now id user_id raw db =
    let rest = delete_reset_tokens user_id db in
    record rest {
      reset_tokens =
          put id (new_reset_token user_id (now + get_reset_token_ttl l) (hash_token l raw))
            rest.reset_tokens;
    }

-- `forgotPassword`; `raw` is the token that the mail brings.
unfoldable pub forgot_password : Libraries → (now id : ℕ) → (raw email : String) → AuthAction String
forgot_password l now id raw email = do
  found ← query (λ db. find_by_email (normalize_email l email) db.accounts)
  case_option found (give generic_message)
      λ user. do write (create_reset_token l now id user.0 raw); give generic_message

unfoldable pub find_reset_token :
    String → Table PasswordResetToken → Option (ℕ × PasswordResetToken)
find_reset_token hash t = find_row (λ _ r. r.token_hash =ₛ hash) t

abbrev pub is_spent : (now : ℕ) → PasswordResetToken → Bool
is_spent now r = is_some r.used_at || leb r.expires_at now

abbrev pub used : (now : ℕ) → PasswordResetToken → PasswordResetToken
used now r = record r { used_at = some now }

-- `resetPassword`; the owner of a token is there, by its foreign key.
unfoldable pub reset_password :
    Libraries → (now salt : ℕ) → (raw new_password : String) → AuthAction (Unit {0})
reset_password l now salt raw new_password = do
  found ← query (λ db. find_reset_token (hash_token l raw) db.reset_tokens)
  token ← require (Error.forbidden "Reset token is invalid or expired") found
  refuse_if (is_spent now token.1) (Error.forbidden "Reset token is invalid or expired")
  owner ← query (λ db. lookup token.1.user_id db.accounts)
  user ← require Error.record_not_found owner
  refuse_if (l.bcrypt_compare new_password user.password)
      (Error.bad_request "New password must be different from current password")
  write (λ db.
      let changed =
        revoke_all now token.1.user_id
          (set_password token.1.user_id (l.bcrypt_hash salt new_password) db) in
      record changed { reset_tokens = update token.0 (used now) changed.reset_tokens })
