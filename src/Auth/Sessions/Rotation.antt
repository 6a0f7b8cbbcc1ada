-- ===== src/Auth/Sessions/Rotation.antt =====
-- Refresh tokens of src/modules/auth/auth.service.ts: what a session accepts after a login and after
-- a rotation.
use neura_gen.Auth.Sessions.{
  new_session, normalize_email, find_by_email, issue_token_pair, verify_refresh_token, login,
  refresh_tokens, auth_response, is_revoked, RefreshSession, generate_tokens, refuse_if, rotated,
  AuthDb, require, refresh_session,
}
use neura_gen.Auth.Tokens.{
  verify_refresh_token, session_of, generate_tokens, unit_ms, compute_expiry_date,
  RefreshTokenPayload, TimeUnit, Libraries,
}
use Prim.Native.String.{slice}
use neura_gen.Auth.Store.{refuse_if, require, Account}
use neura_gen.Base.{==_refl, lookup-update, lookup-put}
use neura_gen.Store.{ok}
use neura_gen.Base.{
  ℕ, ◌+◌, ◌*◌, ◌<◌, ◌≡◌, ◌==◌, arith, refl, sym, ap, ◌∙◌, some, String, true, false, leb, lookup,
  update, put,
}

-- JWT_REFRESH_EXPIRES_IN is a duration, of so many milliseconds.
abbrev pub Lasts : Libraries → ℕ → Type 0
Lasts l ms =
    (text : String) × (n : ℕ) × (u : TimeUnit) × (l.config "JWT_REFRESH_EXPIRES_IN" ≡ some text)
    × (l.match_duration (l.trim_lower_case text) ≡ some (n, u))
    × (n * unit_ms u ≡ ms)

-- bcrypt: a password fits its own hash.
abbrev pub Fits : Libraries → Type 0
Fits l = (salt : ℕ) (p : String) → l.bcrypt_compare p (l.bcrypt_hash salt p) ≡ true

-- bcrypt reads the first 72 bytes of a password.
abbrev pub first_bytes : String → String
first_bytes p = slice p 0 72

abbrev pub Truncates : Libraries → Type 0
Truncates l =
    (salt : ℕ) (p q : String)
    → first_bytes p ≡ first_bytes q
    → l.bcrypt_compare p (l.bcrypt_hash salt q) ≡ true

-- The first 72 characters of a JSON Web Token are its header and the start of its subject.
abbrev pub StartsWithSubject : Libraries → Type 0
StartsWithSubject l =
    (p q : RefreshTokenPayload) (t u : ℕ)
    → p.sub ≡ q.sub
    → first_bytes (l.sign_refresh p t) ≡ first_bytes (l.sign_refresh q u)

abbrev pub refresh_payload : (user sid : ℕ) → Account → RefreshTokenPayload
refresh_payload user sid a = record {
  sub = user;
  email = a.email;
  username = a.username;
  role = a.role;
  sid = some sid;
  token_type = "refresh";
}

module _ (l : Libraries) (ms : ℕ) (lasts : Lasts l ms) where
  compute_expiry_date_lem :
      (now : ℕ) (db : AuthDb) → compute_expiry_date l now db ≡ (ok (now + ms), db)
  unfolding compute_expiry_date require
  compute_expiry_date_lem now db = let (text, n, u, c, m, e) = lasts in rw (c, m, e) refl

  -- The session after a rotation.
  abbrev pub after_refresh : (now salt sid user : ℕ) → Account → AuthDb → AuthDb
  after_refresh now salt sid user a db = record db {
    sessions =
        update sid
          (rotated (now + ms) now
            (l.bcrypt_hash salt (generate_tokens l now user a sid).refresh_token))
          db.sessions;
  }

  pub refresh_session_returns :
      (now salt sid sub : ℕ) (token : String) (s : RefreshSession) (a : Account) (db : AuthDb)
      → lookup sid db.sessions ≡ some s
      → lookup s.user_id db.accounts ≡ some a
      → is_revoked s ≡ false
      → leb s.expires_at now ≡ false
      → (s.user_id == sub) ≡ true
      → l.bcrypt_compare token s.hashed_token ≡ true
      → refresh_session l now salt sid sub token db ≡ (
        ok (auth_response s.user_id a (generate_tokens l now s.user_id a sid)),
        after_refresh now salt sid s.user_id a db,
      )
  unfolding refresh_session require refuse_if
  refresh_session_returns now salt sid sub token s a db there owner live early own fits =
      rw (there, owner, live, early, own, fits, compute_expiry_date_lem now db) refl

  -- The same for a token that JWT accepts for the session of its owner.
  refresh_tokens_returns :
      (now salt sid : ℕ) (token : String) (p : RefreshTokenPayload) (s : RefreshSession)
      (a : Account) (db : AuthDb)
      → l.verify_refresh token now ≡ some p
      → session_of p ≡ some (sid, s.user_id)
      → lookup sid db.sessions ≡ some s
      → lookup s.user_id db.accounts ≡ some a
      → is_revoked s ≡ false
      → now < s.expires_at
      → l.bcrypt_compare token s.hashed_token ≡ true
      → refresh_tokens l now salt token db ≡ (
        ok (auth_response s.user_id a (generate_tokens l now s.user_id a sid)),
        after_refresh now salt sid s.user_id a db,
      )
  unfolding refresh_tokens verify_refresh_token require
  refresh_tokens_returns now salt sid token p s a db v q there owner live early fits =
      rw (v, q)
        (refresh_session_returns now salt sid s.user_id token s a db there owner live (ground arith)
          (==_refl s.user_id) fits)

  after_refresh-session :
      (now salt sid user : ℕ) (a : Account) (s : RefreshSession) (db : AuthDb)
      → lookup sid db.sessions ≡ some s
      → lookup sid (after_refresh now salt sid user a db).sessions
        ≡ some (
            rotated
              (now + ms)
              now
              (l.bcrypt_hash salt (generate_tokens l now user a sid).refresh_token)
              s)
  after_refresh-session now salt sid user a s db there =
      rw
        (
          lookup-update sid sid
              (rotated (now + ms) now
                (l.bcrypt_hash salt (generate_tokens l now user a sid).refresh_token))
              db.sessions,
          ==_refl sid,
          there,
        )
        refl

  -- The session holds the hash of some refresh token of its owner.
  abbrev pub HoldsToken : RefreshSession → Type 0
  HoldsToken s =
      (salt : ℕ) × (q : RefreshTokenPayload) × (t : ℕ) × (q.sub ≡ s.user_id)
      × (s.hashed_token ≡ l.bcrypt_hash salt (l.sign_refresh q t))

  -- bcrypt reads the first 72 bytes, and the first 72 characters of a JSON Web Token do not go
  -- beyond its header and subject. Then a refresh token of a session that is open, whose owner is
  -- there, and that holds some refresh token of its owner, is exchanged, and after that exchange it
  -- is exchanged again before the new end, if JWT accepts it both times.
  pub rotated_token_accepted :
      (p : RefreshTokenPayload) (signed now later salt salt₂ sid : ℕ) (s : RefreshSession)
      (a : Account) (db : AuthDb)
      → Truncates l
      → StartsWithSubject l
      → l.verify_refresh (l.sign_refresh p signed) now ≡ some p
      → l.verify_refresh (l.sign_refresh p signed) later ≡ some p
      → session_of p ≡ some (sid, s.user_id)
      → p.sub ≡ s.user_id
      → lookup sid db.sessions ≡ some s
      → lookup s.user_id db.accounts ≡ some a
      → is_revoked s ≡ false
      → now < s.expires_at
      → later < now + ms
      → HoldsToken s
      → (let token = l.sign_refresh p signed in
          let once = refresh_tokens l now salt token db in
          (once.0 ≡ ok (auth_response s.user_id a (generate_tokens l now s.user_id a sid)))
          × ((refresh_tokens l later salt₂ token once.1).0
              ≡ ok (auth_response s.user_id a (generate_tokens l later s.user_id a sid))))
  unfolding generate_tokens
  rotated_token_accepted p signed now later salt salt₂ sid s a db cut starts v₁ v₂ q own there owner
        live early soon (salt₀, r, t, is_own, hashed) =
      let token = l.sign_refresh p signed in
      let fits : l.bcrypt_compare token s.hashed_token ≡ true =
        rw hashed (cut salt₀ token (l.sign_refresh r t) (starts p r signed t (own ∙ sym is_own))) in
      let first =
        refresh_tokens_returns now salt sid token p s a db v₁ q there owner live early fits in
      let next =
        rotated (now + ms) now
          (l.bcrypt_hash salt (generate_tokens l now s.user_id a sid).refresh_token) s in
      let second =
        refresh_tokens_returns later salt₂ sid token p next a
          (after_refresh now salt sid s.user_id a db) v₂ q
          (after_refresh-session now salt sid s.user_id a s db there) owner live soon
          (cut salt token (generate_tokens l now s.user_id a sid).refresh_token
            (starts p _ signed now own)) in
      rw first (refl, ap (λ x. x.0) second)

  -- A login with the right password returns tokens, and the refresh with its refresh token returns
  -- new ones for the same user and session before the end of the session, if JWT reads in the token
  -- what the login had signed, and a password fits its own hash.
  pub login-refresh :
      (now later sid salt salt₂ user : ℕ) (email password : String) (a : Account) (db : AuthDb)
      → Fits l
      → l.verify_refresh (generate_tokens l now user a sid).refresh_token later
        ≡ some (refresh_payload user sid a)
      → find_by_email (normalize_email l email) db.accounts ≡ some (user, a)
      → lookup user db.accounts ≡ some a
      → l.bcrypt_compare password a.password ≡ true
      → later < now + ms
      → (let entered = login l now sid salt email password db in
          (entered.0 ≡ ok (auth_response user a (generate_tokens l now user a sid)))
          × ((refresh_tokens l later salt₂
                (generate_tokens l now user a sid).refresh_token
                entered.1).0
              ≡ ok (auth_response user a (generate_tokens l later user a sid))))
  unfolding login issue_token_pair require refuse_if generate_tokens
  login-refresh now later sid salt salt₂ user email password a db fits verifies found there right
        soon =
      let tokens = generate_tokens l now user a sid in
      let s = new_session user (now + ms) (l.bcrypt_hash salt tokens.refresh_token) in
      let entered = record db { sessions = put sid s db.sessions } in
      let again =
        refresh_tokens_returns later salt₂ sid tokens.refresh_token _ s a entered verifies refl
          (rw (lookup-put sid sid s db.sessions, ==_refl sid) refl) there refl soon
          (fits salt tokens.refresh_token) in
      rw (found, right, compute_expiry_date_lem now db) (refl, ap (λ x. x.0) again)
