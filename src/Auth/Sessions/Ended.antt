-- ===== src/Auth/Sessions/Ended.antt =====
-- Calls of src/modules/auth/auth.service.ts on sessions keep ended sessions ended.
use neura_gen.Users.{create_account}
use neura_gen.Auth.Store.Rules.{
  refuse_if-Keeps, require-Keeps, lookup-update_many, proceed-Keeps, Keeps,
}
use neura_gen.Auth.Sessions.{
  with_books, logout, refresh_tokens, login, register, revoke_all, revoked, is_open_of,
  refresh_session, is_revoked, create_user, issue_token_pair,
}
use neura_gen.Auth.Tokens.{verify_refresh_token, compute_expiry_date}
use neura_gen.Auth.Store.{Account, update_many, RefreshSession}
use neura_gen.Base.{lookup-update, lookup-put}
use neura_gen.Store.{Db, Result, ok, err}
use neura_gen.Auth.Tokens.{Libraries}
use neura_gen.Auth.Store.{AuthDb}
use neura_gen.Base.{
  ℕ, ◌≡◌, ◌==◌, refl, some, inl, inr, Bool-cases, String, true, false, Table, lookup, update, put,
}

-- The session is there and has been ended.
abbrev pub IsEnded : ℕ → Table RefreshSession → Type 0
IsEnded sid t = (s : RefreshSession) × (lookup sid t ≡ some s) × (is_revoked s ≡ true)

module _ (sid : ℕ) where
  abbrev pub Ended : AuthDb → Type 0
  Ended db = IsEnded sid db.sessions

  put-IsEnded :
      (k : ℕ) (s : RefreshSession) (t : Table RefreshSession)
      → (sid == k) ≡ false
      → IsEnded sid t
      → IsEnded sid (put k s t)
  put-IsEnded k s t other (r, e, h) = (r, rw (lookup-put sid k s t, other) e, h)

  update-IsEnded :
      (k : ℕ) (f : RefreshSession → RefreshSession) (t : Table RefreshSession)
      → ((s : RefreshSession) → is_revoked s ≡ true → is_revoked (f s) ≡ true)
      → IsEnded sid t
      → IsEnded sid (update k f t)
  update-IsEnded k f t keep (r, e, h) = elim (Bool-cases (sid == k)) [
    | inl here ↦ (f r, rw (lookup-update sid k f t, here, e) refl, keep r h)
    | inr there ↦ (r, rw (lookup-update sid k f t, there) e, h)
  ]

  pub update_many-IsEnded :
      (now user : ℕ) (t : Table RefreshSession)
      → IsEnded sid t
      → IsEnded sid (update_many (is_open_of user) (revoked now) t)
  update_many-IsEnded now user t (r, e, h) = elim (Bool-cases (is_open_of user r)) [
    | inl live ↦ (
      revoked now r,
      rw (lookup-update_many (is_open_of user) (revoked now) sid t, e, live) refl,
      refl,
    )
    | inr past ↦ (r, rw (lookup-update_many (is_open_of user) (revoked now) sid t, e, past) refl, h)
  ]

  compute_expiry_date-Ended :
      (l : Libraries) (now : ℕ) (db : AuthDb)
      → Ended db
      → Keeps Ended (compute_expiry_date l now db)
  unfolding compute_expiry_date
  compute_expiry_date-Ended l now db h =
      proceed-Keeps Ended _ _ (require-Keeps Ended _ (l.config "JWT_REFRESH_EXPIRES_IN") db h)
        λ _ db₁ h₁. proceed-Keeps Ended _ _ (require-Keeps Ended _ _ db₁ h₁) λ _ db₂ h₂. h₂

  pub issue_token_pair-Ended :
      (l : Libraries) (now drawn salt user : ℕ) (a : Account) (db : AuthDb)
      → (sid == drawn) ≡ false
      → Ended db
      → Keeps Ended (issue_token_pair l now drawn salt user a db)
  unfolding issue_token_pair
  issue_token_pair-Ended l now drawn salt user a db other h =
      proceed-Keeps Ended _ _ (compute_expiry_date-Ended l now db h)
        λ t db₁ h₁. put-IsEnded drawn _ db₁.sessions other h₁

  with_books-Ended :
      (id : ℕ) (a : Account) (db : AuthDb) (r : Result (Unit {0}) × Db)
      → Ended db
      → Keeps Ended (with_books id a db r)
  with_books-Ended id a db (ok x, books) h = h
  with_books-Ended id a db (err e, books) h = h

  pub create_user-Ended :
      (id : ℕ) (a : Account) (db : AuthDb) → Ended db → Keeps Ended (create_user id a db)
  unfolding create_user
  create_user-Ended id a db h = with_books-Ended id a db (create_account id db.books) h

  pub register-Ended :
      (l : Libraries) (now user drawn salt token_salt : ℕ) (email password : String) (db : AuthDb)
      → (sid == drawn) ≡ false
      → Ended db
      → Keeps Ended (register l now user drawn salt token_salt email password db)
  unfolding register
  register-Ended l now user drawn salt token_salt email password db other h =
      proceed-Keeps Ended _ _ (refuse_if-Keeps Ended _ _ db h) λ _ db₁ h₁.
        proceed-Keeps Ended _ _ (create_user-Ended user _ db₁ h₁)
          λ _ db₂ h₂. issue_token_pair-Ended l now drawn token_salt user _ db₂ other h₂

  pub login-Ended :
      (l : Libraries) (now drawn salt : ℕ) (email password : String) (db : AuthDb)
      → (sid == drawn) ≡ false
      → Ended db
      → Keeps Ended (login l now drawn salt email password db)
  unfolding login
  login-Ended l now drawn salt email password db other h =
      proceed-Keeps Ended _ _ (require-Keeps Ended _ _ db h) λ user db₁ h₁.
        proceed-Keeps Ended _ _ (refuse_if-Keeps Ended _ _ db₁ h₁)
          λ _ db₂ h₂. issue_token_pair-Ended l now drawn salt user.0 user.1 db₂ other h₂

  pub refresh_tokens-Ended :
      (l : Libraries) (now salt : ℕ) (token : String) (db : AuthDb)
      → Ended db
      → Keeps Ended (refresh_tokens l now salt token db)
  unfolding refresh_tokens refresh_session verify_refresh_token
  refresh_tokens-Ended l now salt token db h =
      proceed-Keeps Ended _ _ (require-Keeps Ended _ _ db h) λ subject db₁ h₁.
        proceed-Keeps Ended _ _ (require-Keeps Ended _ _ db₁ h₁) λ session db₂ h₂.
          proceed-Keeps Ended _ _ (require-Keeps Ended _ _ db₂ h₂) λ user db₃ h₃.
            proceed-Keeps Ended _ _ (refuse_if-Keeps Ended _ _ db₃ h₃) λ _ db₄ h₄.
              proceed-Keeps Ended _ _ (refuse_if-Keeps Ended _ _ db₄ h₄) λ _ db₅ h₅.
                proceed-Keeps Ended _ _ (refuse_if-Keeps Ended _ _ db₅ h₅) λ _ db₆ h₆.
                  proceed-Keeps Ended _ _ (refuse_if-Keeps Ended _ _ db₆ h₆) λ _ db₇ h₇.
                    proceed-Keeps Ended _ _ (compute_expiry_date-Ended l now db₇ h₇)
                      λ t db₈ h₈. update-IsEnded subject.0 _ db₈.sessions (λ s e. e) h₈

  pub logout-Ended :
      (l : Libraries) (now user : ℕ) (token : String) (db : AuthDb)
      → Ended db
      → Keeps Ended (logout l now user token db)
  unfolding logout verify_refresh_token
  logout-Ended l now user token db h =
      proceed-Keeps Ended _ _ (require-Keeps Ended _ _ db h) λ subject db₁ h₁.
        proceed-Keeps Ended _ _ (refuse_if-Keeps Ended _ _ db₁ h₁) λ _ db₂ h₂.
          proceed-Keeps Ended _ _ (require-Keeps Ended _ _ db₂ h₂) λ session db₃ h₃.
            proceed-Keeps Ended _ _ (refuse_if-Keeps Ended _ _ db₃ h₃)
              λ _ db₄ h₄. update-IsEnded subject.0 (revoked now) db₄.sessions (λ s e. refl) h₄

  pub revoke_all-Ended : (now user : ℕ) (db : AuthDb) → Ended db → Ended (revoke_all now user db)
  unfolding revoke_all
  revoke_all-Ended now user db h = update_many-IsEnded now user db.sessions h
