-- ===== src/Auth/History/Ended.antt =====
-- Sessions that have been ended (src/modules/auth/auth.service.ts).
use neura_gen.Auth.Google.{
  link_google_account, GoogleProfilePayload, link_new, login_with_google, register_with_google,
}
use neura_gen.Auth.Passwords.{
  reset_password, forgot_password, change_password, set_password, create_reset_token,
  delete_reset_tokens,
}
use neura_gen.Auth.Sessions.Ended.{
  IsEnded, Ended, issue_token_pair-Ended, create_user-Ended, register-Ended, login-Ended,
  refresh_tokens-Ended, logout-Ended, revoke_all-Ended,
}
use neura_gen.Auth.Store.Rules.{
  case_option-Keeps, if-Keeps, Keeps-after, refuse_if-Keeps, require-Keeps, proceed-Keeps, Keeps,
}
use neura_gen.Auth.Sessions.{find_by_google_id, find_by_email, logout_all}
use neura_gen.Auth.Tokens.{normalize_email}
use neura_gen.Auth.History.{
  logout_all, run_all, run, link_google_account, login_with_google, register_with_google,
  reset_password, forgot_password, change_password, Libraries, AuthDb, AuthCall, sign_up, sign_in,
  google_sign_up, google_sign_in, link, refresh, sign_out, sign_out_all, change, forgot, reset,
}
use neura_gen.Base.{truthy, holds, ℕ, ◌≡◌, ◌∷◌, ◌==◌, String, false, List, [], All}

-- A call draws no identifier of a session, or another one.
abbrev pub DrawsOther : ℕ → AuthCall → Type 0
DrawsOther sid (sign_up now user drawn salt token_salt email password) = (sid == drawn) ≡ false
DrawsOther sid (sign_in now drawn salt email password) = (sid == drawn) ≡ false
DrawsOther sid (google_sign_up now user drawn salt token_salt random profile) =
    (sid == drawn) ≡ false
DrawsOther sid (google_sign_in now user drawn salt token_salt random profile) =
    (sid == drawn) ≡ false
DrawsOther sid (link user profile) = Unit
DrawsOther sid (refresh now salt token) = Unit
DrawsOther sid (sign_out now user token) = Unit
DrawsOther sid (sign_out_all now user) = Unit
DrawsOther sid (change now salt user old new) = Unit
DrawsOther sid (forgot now id raw email) = Unit
DrawsOther sid (reset now salt raw new) = Unit

module _ (sid : ℕ) where
  change_password-Ended :
      (l : Libraries) (now salt user : ℕ) (old new : String) (db : AuthDb)
      → (Ended sid) db
      → Keeps (Ended sid) (change_password l now salt user old new db)
  unfolding change_password delete_reset_tokens set_password
  change_password-Ended l now salt user old new db h =
      proceed-Keeps (Ended sid) _ _ (require-Keeps (Ended sid) _ _ db h) λ a db₁ h₁.
        proceed-Keeps (Ended sid) _ _ (refuse_if-Keeps (Ended sid) _ _ db₁ h₁) λ _ db₂ h₂.
          proceed-Keeps (Ended sid) _ _ (refuse_if-Keeps (Ended sid) _ _ db₂ h₂) λ _ db₃ h₃.
            revoke_all-Ended sid now user (set_password user (l.bcrypt_hash salt new) db₃) h₃

  forgot_password-Ended :
      (l : Libraries) (now id : ℕ) (raw email : String) (db : AuthDb)
      → (Ended sid) db
      → Keeps (Ended sid) (forgot_password l now id raw email db)
  unfolding forgot_password create_reset_token delete_reset_tokens
  forgot_password-Ended l now id raw email db h =
      case_option-Keeps (Ended sid) (find_by_email (normalize_email l email) db.accounts) _ _ db h
        λ user. h

  reset_password-Ended :
      (l : Libraries) (now salt : ℕ) (raw new : String) (db : AuthDb)
      → (Ended sid) db
      → Keeps (Ended sid) (reset_password l now salt raw new db)
  unfolding reset_password set_password
  reset_password-Ended l now salt raw new db h =
      proceed-Keeps (Ended sid) _ _ (require-Keeps (Ended sid) _ _ db h) λ token db₁ h₁.
        proceed-Keeps (Ended sid) _ _ (refuse_if-Keeps (Ended sid) _ _ db₁ h₁) λ _ db₂ h₂.
          proceed-Keeps (Ended sid) _ _ (require-Keeps (Ended sid) _ _ db₂ h₂) λ user db₃ h₃.
            proceed-Keeps (Ended sid) _ _ (refuse_if-Keeps (Ended sid) _ _ db₃ h₃) λ _ db₄ h₄.
              revoke_all-Ended sid now token.1.user_id
                (set_password token.1.user_id (l.bcrypt_hash salt new) db₄) h₄

  register_with_google-Ended :
      (l : Libraries) (now user drawn salt token_salt : ℕ) (random : String)
      (profile : GoogleProfilePayload) (db : AuthDb)
      → (sid == drawn) ≡ false
      → (Ended sid) db
      → Keeps (Ended sid) (register_with_google l now user drawn salt token_salt random profile db)
  unfolding register_with_google
  register_with_google-Ended l now user drawn salt token_salt random profile db other h =
      proceed-Keeps (Ended sid) _ _ (refuse_if-Keeps (Ended sid) _ _ db h) λ _ db₁ h₁.
        proceed-Keeps (Ended sid) _ _ (refuse_if-Keeps (Ended sid) _ _ db₁ h₁) λ _ db₂ h₂.
          proceed-Keeps (Ended sid) _ _ (create_user-Ended sid user _ db₂ h₂)
            λ _ db₃ h₃. issue_token_pair-Ended sid l now drawn token_salt user _ db₃ other h₃

  login_with_google-Ended :
      (l : Libraries) (now user drawn salt token_salt : ℕ) (random : String)
      (profile : GoogleProfilePayload) (db : AuthDb)
      → (sid == drawn) ≡ false
      → (Ended sid) db
      → Keeps (Ended sid) (login_with_google l now user drawn salt token_salt random profile db)
  unfolding login_with_google
  login_with_google-Ended l now user drawn salt token_salt random profile db other h =
      case_option-Keeps (Ended sid) (find_by_google_id profile.google_id db.accounts) _ _ db
        (proceed-Keeps (Ended sid) _ _ (refuse_if-Keeps (Ended sid) _ _ db h) λ _ db₁ h₁.
          register_with_google-Ended l now user drawn salt token_salt random profile db₁ other h₁)
        λ found. issue_token_pair-Ended sid l now drawn token_salt found.0 found.1 db other h

  link_google_account-Ended :
      (l : Libraries) (user : ℕ) (profile : GoogleProfilePayload) (db : AuthDb)
      → (Ended sid) db
      → Keeps (Ended sid) (link_google_account l user profile db)
  unfolding link_google_account link_new
  link_google_account-Ended l user profile db h =
      proceed-Keeps (Ended sid) _ _ (require-Keeps (Ended sid) _ _ db h) λ current db₁ h₁.
        if-Keeps (Ended sid) (truthy current.google_id) _ _ db₁
          (if-Keeps (Ended sid) (holds current.google_id profile.google_id) _ _ db₁ h₁ h₁)
          (proceed-Keeps (Ended sid) _ _ (refuse_if-Keeps (Ended sid) _ _ db₁ h₁) λ _ db₂ h₂.
            proceed-Keeps (Ended sid) _ _ (refuse_if-Keeps (Ended sid) _ _ db₂ h₂) λ _ db₃ h₃. h₃)

  run-Ended :
      (l : Libraries) (c : AuthCall) (db : AuthDb)
      → DrawsOther sid c
      → (Ended sid) db
      → Ended sid (run l c db)
  unfolding run logout_all
  run-Ended l (sign_up now user drawn salt token_salt email password) db o h =
      Keeps-after (Ended sid) _
        (register-Ended sid l now user drawn salt token_salt email password db o h)
  run-Ended l (sign_in now drawn salt email password) db o h =
      Keeps-after (Ended sid) _ (login-Ended sid l now drawn salt email password db o h)
  run-Ended l (google_sign_up now user drawn salt token_salt random profile) db o h =
      Keeps-after (Ended sid) _
        (register_with_google-Ended l now user drawn salt token_salt random profile db o h)
  run-Ended l (google_sign_in now user drawn salt token_salt random profile) db o h =
      Keeps-after (Ended sid) _
        (login_with_google-Ended l now user drawn salt token_salt random profile db o h)
  run-Ended l (link user profile) db o h =
      Keeps-after (Ended sid) _ (link_google_account-Ended l user profile db h)
  run-Ended l (refresh now salt token) db o h =
      Keeps-after (Ended sid) _ (refresh_tokens-Ended sid l now salt token db h)
  run-Ended l (sign_out now user token) db o h =
      Keeps-after (Ended sid) _ (logout-Ended sid l now user token db h)
  run-Ended l (sign_out_all now user) db o h = revoke_all-Ended sid now user db h
  run-Ended l (change now salt user old new) db o h =
      Keeps-after (Ended sid) _ (change_password-Ended l now salt user old new db h)
  run-Ended l (forgot now id raw email) db o h =
      Keeps-after (Ended sid) _ (forgot_password-Ended l now id raw email db h)
  run-Ended l (reset now salt raw new) db o h =
      Keeps-after (Ended sid) _ (reset_password-Ended l now salt raw new db h)

  pub run_all-Ended :
      (l : Libraries) (cs : List AuthCall) (db : AuthDb)
      → All (DrawsOther sid) cs
      → IsEnded sid db.sessions
      → IsEnded sid (run_all l cs db).sessions
  unfolding run_all
  run_all-Ended l [] db o h = h
  run_all-Ended l (c ∷ cs) db (o, os) h = run_all-Ended l cs (run l c db) os (run-Ended l c db o h)
