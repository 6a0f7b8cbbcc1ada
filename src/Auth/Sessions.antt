-- ===== src/Auth/Sessions.antt =====
-- Login, refresh and logout (src/modules/auth/auth.service.ts). The identifiers and salts that a
-- call draws are arguments; mails are left out.
pub mod Ended
pub mod Rotation
use neura_gen.Auth.Store.{
  require, give, update_many, refuse_if, query, write, AuthAction, AuthDb, RefreshSession, Account,
  ◌>>=◌, ◌>>◌,
}
use neura_gen.Auth.Tokens.{
  TokenPair, Libraries, normalize_email, compute_expiry_date, generate_tokens, verify_refresh_token,
}
use neura_gen.Users.{create_account}
use neura_gen.Store.{Db, Result, UserRole, Error, ok, err}
use neura_gen.Base.{
  find_row, holds, ℕ, ◌+◌, ◌-◌, ◌*◌, ◌/◌, ◌<◌, ◌≤◌, ◌≡◌, suc, zero, not, ◌||◌, ◌&&◌, ◌∷◌, ◌++◌,
  ◌==◌, ◌=ₛ◌, if◌then◌else◌, arith, refl, sym, ap, ◌∙◌, none, some, inl, inr, Option, Option-cases,
  Bool-cases, String, Bool, true, false, List, [], All, length, is_some, case_option, get_or, ltb,
  leb, map_option, Table, lookup, update, put, filterb, find,
}

pub record AuthResponseDto : Type 0 where
  pub user_id : ℕ
  pub username : String
  pub email : String
  pub access_token : String
  pub refresh_token : String

abbrev pub auth_response : ℕ → Account → TokenPair → AuthResponseDto
auth_response user_id a tokens = record {
  user_id = user_id;
  username = a.username;
  email = a.email;
  access_token = tokens.access_token;
  refresh_token = tokens.refresh_token;
}

abbrev pub new_session : (user_id expires_at : ℕ) → String → RefreshSession
new_session user_id expires_at hashed = record {
  user_id = user_id;
  hashed_token = hashed;
  expires_at = expires_at;
  last_used_at = none;
  revoked_at = none;
}

-- `issueTokenPair`
unfoldable pub issue_token_pair :
    Libraries → (now session_id salt user_id : ℕ) → Account → AuthAction AuthResponseDto
issue_token_pair l now session_id salt user_id a = do
  expires_at ← compute_expiry_date l now
  write (λ db. record db {
    sessions =
        put session_id
          (new_session user_id expires_at
            (l.bcrypt_hash salt (generate_tokens l now user_id a session_id).refresh_token))
          db.sessions;
  })
  give (auth_response user_id a (generate_tokens l now user_id a session_id))

-- `user.findUnique` by email, and by Google identifier.
unfoldable pub find_by_email : String → Table Account → Option (ℕ × Account)
find_by_email email t = find_row (λ _ a. a.email =ₛ email) t

unfoldable pub find_by_google_id : String → Table Account → Option (ℕ × Account)
find_by_google_id google_id t = find_row (λ _ a. holds a.google_id google_id) t

abbrev pub with_books : ℕ → Account → AuthDb → Result (Unit {0}) × Db → Result (Unit {0}) × AuthDb
with_books id a db (ok x, books) =
    (ok tt, record db { accounts = put id a db.accounts; books = books })
with_books id a db (err e, books) = (err e, db)

-- `user.create`, with the wallet and the ledger entry of Users.
unfoldable pub create_user : ℕ → Account → AuthAction (Unit {0})
create_user id a db = with_books id a db (create_account id db.books)

-- `register`
unfoldable pub register :
    Libraries
    → (now user_id session_id salt token_salt : ℕ) → (email password : String)
    → AuthAction AuthResponseDto
register l now user_id session_id salt token_salt email password =
    let normalized = normalize_email l email in
    let account : Account = record {
      email = normalized;
      google_id = none;
      password = l.bcrypt_hash salt password;
      username = l.split_at_sign normalized;
      role = UserRole.free;
    } in
    do
      existing ← query (λ db. find_by_email normalized db.accounts)
      refuse_if (is_some existing) (Error.conflict "Email already exists")
      create_user user_id account
      issue_token_pair l now session_id token_salt user_id account

-- `login`
unfoldable pub login :
    Libraries → (now session_id salt : ℕ) → (email password : String) → AuthAction AuthResponseDto
login l now session_id salt email password = do
  found ← query (λ db. find_by_email (normalize_email l email) db.accounts)
  user ← require (Error.unauthorized "Invalid credentials") found
  refuse_if (not (l.bcrypt_compare password user.1.password))
      (Error.unauthorized "Invalid credentials")
  issue_token_pair l now session_id salt user.0 user.1

abbrev pub is_revoked : RefreshSession → Bool
is_revoked s = is_some s.revoked_at

abbrev pub rotated : (expires_at now : ℕ) → String → RefreshSession → RefreshSession
rotated expires_at now hashed s = record s {
  hashed_token = hashed;
  expires_at = expires_at;
  last_used_at = some now;
}

-- `refreshTokens`, after the token has been verified.
unfoldable pub refresh_session :
    Libraries → (now salt sid sub : ℕ) → (token : String) → AuthAction AuthResponseDto
refresh_session l now salt sid sub token = do
  found ← query (λ db. lookup sid db.sessions)
  session ← require (Error.unauthorized "Refresh session not found") found
  owner ← query (λ db. lookup session.user_id db.accounts)
  user ← require (Error.unauthorized "Refresh session not found") owner
  refuse_if (is_revoked session) (Error.unauthorized "Refresh session has been revoked")
  refuse_if (leb session.expires_at now) (Error.unauthorized "Refresh token has expired")
  refuse_if (not (session.user_id == sub))
      (Error.unauthorized "Refresh token does not match session owner")
  refuse_if (not (l.bcrypt_compare token session.hashed_token))
      (Error.unauthorized "Invalid refresh token")
  expires_at ← compute_expiry_date l now
  write (λ db. record db {
    sessions =
        update sid
          (rotated expires_at now
            (l.bcrypt_hash salt (generate_tokens l now session.user_id user sid).refresh_token))
          db.sessions;
  })
  give (auth_response session.user_id user (generate_tokens l now session.user_id user sid))

-- `refreshTokens`
unfoldable pub refresh_tokens :
    Libraries → (now salt : ℕ) → (token : String) → AuthAction AuthResponseDto
refresh_tokens l now salt token = do
  subject ← verify_refresh_token l now token
  refresh_session l now salt subject.0 subject.1 token

abbrev pub revoked : (now : ℕ) → RefreshSession → RefreshSession
revoked now s = record s { revoked_at = some now }

-- `logout`
unfoldable pub logout : Libraries → (now user_id : ℕ) → (token : String) → AuthAction (Unit {0})
logout l now user_id token = do
  subject ← verify_refresh_token l now token
  refuse_if (not (subject.1 == user_id))
      (Error.forbidden "Refresh token does not belong to current user")
  found ← query (λ db. lookup subject.0 db.sessions)
  session ← require (Error.unauthorized "Refresh session not found") found
  refuse_if (not (session.user_id == user_id)) (Error.unauthorized "Refresh session not found")
  write (λ db. record db { sessions = update subject.0 (revoked now) db.sessions })

-- `where: { userId, revokedAt: null }`
abbrev pub is_open_of : ℕ → RefreshSession → Bool
is_open_of user_id s = (s.user_id == user_id) && not (is_revoked s)

-- `refreshSession.updateMany` of the three calls that end all sessions of a user.
unfoldable pub revoke_all : (now user_id : ℕ) → AuthDb → AuthDb
revoke_all now user_id db = record db {
  sessions = update_many (is_open_of user_id) (revoked now) db.sessions;
}

-- `logoutAll`
unfoldable pub logout_all : (now user_id : ℕ) → AuthAction (Unit {0})
logout_all now user_id = write (revoke_all now user_id)
