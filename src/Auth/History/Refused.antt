-- ===== src/Auth/History/Refused.antt =====
-- What ends a session, and the refresh of a session that has been ended
-- (src/modules/auth/auth.service.ts).
use mathlib.Core.Path.{subst}
use neura_gen.Auth.Store.Rules.{
  is_ok, returned, refuse_if-holds, require-holds, proceed-Gives, Gives, lookup-update_many,
}
use neura_gen.Auth.Passwords.{
  reset_password, change_password, find_reset_token, set_password, delete_reset_tokens,
}
use neura_gen.Auth.History.Ended.{run_all-Ended, DrawsOther}
use neura_gen.Auth.Sessions.Ended.{update_many-IsEnded, IsEnded}
use neura_gen.Auth.Sessions.{
  logout_all, logout, refresh_tokens, is_revoked, revoked, revoke_all, is_open_of, refresh_session,
}
use neura_gen.Auth.Tokens.{hash_token, verify_refresh_token, session_of, RefreshTokenPayload}
use neura_gen.Auth.Store.{
  proceed, AuthAction, refuse_if, require, update_many, PasswordResetToken, RefreshSession,
}
use neura_gen.Base.{==_refl, lookup-update}
use neura_gen.Store.{Error, Result, ok, err}
use neura_gen.Auth.History.{
  logout_all, run_all, run, logout, reset_password, AuthCall, change_password, AuthDb,
  refresh_tokens, Libraries, sign_up, sign_in, google_sign_up, google_sign_in, link, refresh,
  sign_out, sign_out_all, change, forgot, reset,
}
use neura_gen.Base.{
  ℕ, ◌≡◌, ◌∷◌, refl, sym, ap, ◌∙◌, none, some, inl, inr, Option, Option-cases, Bool-cases, String,
  Bool, false, List, All, case_option, get_or, Table, lookup, update,
}

-- A token that JWT accepts as a refresh token of the session.
abbrev pub IsTokenOf : Libraries → (now : ℕ) → String → (sid sub : ℕ) → Type 0
IsTokenOf l now token sid sub =
    (p : RefreshTokenPayload) × (l.verify_refresh token now ≡ some p)
    × (session_of p ≡ some (sid, sub))

token_session :
    (l : Libraries) (now : ℕ) (token : String) (sid sub : ℕ)
    → IsTokenOf l now token sid sub
    → case_option (l.verify_refresh token now) none session_of ≡ some (sid, sub)
token_session l now token sid sub (p, v, q) = rw v q

refresh_ended :
    (l : Libraries) (now salt : ℕ) (token : String) (sid sub : ℕ) (db : AuthDb)
    → IsTokenOf l now token sid sub
    → IsEnded sid db.sessions
    → (e : Error) × (refresh_tokens l now salt token db ≡ (err e, db))
unfolding refresh_tokens refresh_session verify_refresh_token require refuse_if
refresh_ended l now salt token sid sub db (p, v, q) (s, there, gone) =
    elim (Option-cases (lookup s.user_id db.accounts)) [
      | inl e ↦ rw (v, q, there, e) (_, refl)
      | inr (a, e) ↦ rw (v, q, there, e, gone) (_, refl)
    ]

-- The call returns and ends the session `sid` of `user`.
abbrev pub Ends : Libraries → (sid user : ℕ) → AuthDb → AuthCall → Type 0
Ends l sid user db (sign_out_all now u) = u ≡ user
Ends l sid user db (change now salt u old new) =
    (u ≡ user) × ((change_password l now salt u old new db).0 ≡ ok tt)
Ends l sid user db (reset now salt raw new) =
    (id : ℕ) × (t : PasswordResetToken) × (find_reset_token (hash_token l raw) db.reset_tokens
      ≡ some (id, t))
    × (t.user_id ≡ user)
    × ((reset_password l now salt raw new db).0 ≡ ok tt)
Ends l sid user db (sign_out now u token) =
    (sub : ℕ) × IsTokenOf l now token sid sub × ((logout l now u token db).0 ≡ ok tt)
Ends l sid user db (sign_up now u drawn salt token_salt email password) = ⊥
Ends l sid user db (sign_in now drawn salt email password) = ⊥
Ends l sid user db (google_sign_up now u drawn salt token_salt random profile) = ⊥
Ends l sid user db (google_sign_in now u drawn salt token_salt random profile) = ⊥
Ends l sid user db (link u profile) = ⊥
Ends l sid user db (refresh now salt token) = ⊥
Ends l sid user db (forgot now id raw email) = ⊥

-- All sessions of the user are ended, of a session that is one of them.
revoke_all-IsEnded :
    (now sid user : ℕ) (s : RefreshSession) (t : Table RefreshSession)
    → lookup sid t ≡ some s
    → s.user_id ≡ user
    → IsEnded sid (update_many (is_open_of user) (revoked now) t)
revoke_all-IsEnded now sid user s t e own = elim (Bool-cases (is_revoked s)) [
  | inl past ↦ update_many-IsEnded sid now user t (s, e, past)
  | inr live ↦ (
    revoked now s,
    rw (lookup-update_many (is_open_of user) (revoked now) sid t, e, own, ==_refl user, live) refl,
    refl,
  )
]

module _ (sid user : ℕ) (s : RefreshSession) (start : AuthDb)
    (e : lookup sid start.sessions ≡ some s) (own : s.user_id ≡ user) where
  abbrev Unchanged : AuthDb → Type 0
  Unchanged db = db.sessions ≡ start.sessions

  abbrev EndedAfter {ℓ} : {A : Type ℓ} → Result A × AuthDb → Type 0
  EndedAfter r = Gives (λ _ db. IsEnded sid db.sessions) r

  require_rule {ℓ κ} :
      {A : Type ℓ} {B : Type κ} (x : Error) (o : Option A) (f : A → AuthAction B) (db : AuthDb)
      → Unchanged db
      → ((a : A) (d : AuthDb) → o ≡ some a → Unchanged d → EndedAfter (f a d))
      → EndedAfter (proceed (require x o db) f)
  require_rule x o f db h k =
      proceed-Gives (λ a d. (o ≡ some a) × Unchanged d) _ (require x o db) f
        (require-holds Unchanged x o db h) (λ a d (q, u). k a d q u)

  refuse_rule {κ} :
      {B : Type κ} (b : Bool) (x : Error) (f : Unit {0} → AuthAction B) (db : AuthDb)
      → Unchanged db
      → ((d : AuthDb) → Unchanged d → EndedAfter (f tt d))
      → EndedAfter (proceed (refuse_if b x db) f)
  refuse_rule b x f db h k =
      proceed-Gives (λ _ d. (b ≡ false) × Unchanged d) _ (refuse_if b x db) f
        (refuse_if-holds Unchanged b x db h) (λ _ d (q, u). k d u)

  revoke_all-ends :
      (now : ℕ) (db : AuthDb) → Unchanged db → IsEnded sid (revoke_all now user db).sessions
  unfolding revoke_all
  revoke_all-ends now db u =
      subst (λ t. IsEnded sid (update_many (is_open_of user) (revoked now) t)) (sym u)
        (revoke_all-IsEnded now sid user s start.sessions e own)

  change_password-ends :
      (l : Libraries) (now salt : ℕ) (old new : String)
      → EndedAfter (change_password l now salt user old new start)
  unfolding change_password delete_reset_tokens set_password
  change_password-ends l now salt old new = require_rule _ _ _ start refl λ a db₁ q h₁.
      refuse_rule _ _ _ db₁ h₁ λ db₂ h₂.
        refuse_rule _ _ _ db₂ h₂
          λ db₃ h₃. revoke_all-ends now (set_password user (l.bcrypt_hash salt new) db₃) h₃

  reset_password-ends :
      (l : Libraries) (now salt : ℕ) (raw new : String) (id : ℕ) (t : PasswordResetToken)
      → find_reset_token (hash_token l raw) start.reset_tokens ≡ some (id, t)
      → t.user_id ≡ user
      → EndedAfter (reset_password l now salt raw new start)
  unfolding reset_password set_password
  reset_password-ends l now salt raw new id t found is_own =
      require_rule {A = ℕ × PasswordResetToken} _ _ _ start refl λ token db₁ q h₁.
        refuse_rule _ _ _ db₁ h₁ λ db₂ h₂. require_rule _ _ _ db₂ h₂ λ a db₃ _ h₃.
          refuse_rule _ _ _ db₃ h₃ λ db₄ h₄.
            let same = ap (λ o. (get_or o token).1.user_id) (sym q ∙ found) ∙ is_own in
            subst
              (λ u.
                IsEnded sid
                  (revoke_all now u (set_password u (l.bcrypt_hash salt new) db₄)).sessions)
              (sym same) (revoke_all-ends now (set_password user (l.bcrypt_hash salt new) db₄) h₄)

  logout-ends :
      (l : Libraries) (now u : ℕ) (token : String) (sub : ℕ)
      → IsTokenOf l now token sid sub
      → EndedAfter (logout l now u token start)
  unfolding logout verify_refresh_token
  logout-ends l now u token sub (p, v, q) =
      require_rule {A = ℕ × ℕ} _ _ _ start refl λ subject db₁ r h₁.
        refuse_rule _ _ _ db₁ h₁ λ db₂ h₂. require_rule _ _ _ db₂ h₂ λ session db₃ _ h₃.
          refuse_rule _ _ _ db₃ h₃ λ db₄ h₄.
            let same =
              ap (λ o. (get_or o subject).0)
                (sym r ∙ token_session l now token sid sub (p, v, q)) in
            subst (λ k. IsEnded sid (update k (revoked now) db₄.sessions)) (sym same)
              (subst (λ t. IsEnded sid (update sid (revoked now) t)) (sym h₄)
                (
                  revoked now s,
                  rw (lookup-update sid sid (revoked now) start.sessions, ==_refl sid, e) refl,
                  refl,
                ))

  run-Ends :
      (l : Libraries) (c : AuthCall)
      → Ends l sid user start c
      → IsEnded sid (run l c start).sessions
  unfolding run logout_all
  run-Ends l (sign_out_all now u) h =
      subst (λ v. IsEnded sid (revoke_all now v start).sessions) (sym h)
        (revoke_all-ends now start refl)
  run-Ends l (change now salt u old new) (h, k) =
      subst
        (λ v.
          (change_password l now salt v old new start).0 ≡ ok tt
          → IsEnded sid (change_password l now salt v old new start).1.sessions)
        (sym h)
        (λ r.
          returned (λ db. IsEnded sid db.sessions) (change_password l now salt user old new start)
            (ap is_ok r) (change_password-ends l now salt old new))
        k
  run-Ends l (reset now salt raw new) (id, t, found, is_own, k) =
      returned (λ db. IsEnded sid db.sessions) (reset_password l now salt raw new start)
        (ap is_ok k) (reset_password-ends l now salt raw new id t found is_own)
  run-Ends l (sign_out now u token) (sub, t, k) =
      returned (λ db. IsEnded sid db.sessions) (logout l now u token start) (ap is_ok k)
        (logout-ends l now u token sub t)
  run-Ends l (sign_up now u drawn salt token_salt email password) h = elim h [ ]
  run-Ends l (sign_in now drawn salt email password) h = elim h [ ]
  run-Ends l (google_sign_up now u drawn salt token_salt random profile) h = elim h [ ]
  run-Ends l (google_sign_in now u drawn salt token_salt random profile) h = elim h [ ]
  run-Ends l (link u profile) h = elim h [ ]
  run-Ends l (refresh now salt token) h = elim h [ ]
  run-Ends l (forgot now id raw email) h = elim h [ ]

-- A session that a call has ended stays ended: after a logout from all devices, a change or a reset
-- of the password that returned, of the session's owner, or a logout with a token of the session,
-- and after any history of calls that draw other session identifiers, the refresh with a token of
-- the session is refused and changes nothing.
pub ended_session_refused :
    (l : Libraries) (sid user : ℕ) (s : RefreshSession) (start : AuthDb) (c : AuthCall)
    (cs : List AuthCall) (now salt sub : ℕ) (token : String)
    → lookup sid start.sessions ≡ some s
    → s.user_id ≡ user
    → Ends l sid user start c
    → All (DrawsOther sid) cs
    → IsTokenOf l now token sid sub
    → (let after = run_all l (c ∷ cs) start in
        (e : Error) × (refresh_tokens l now salt token after ≡ (err e, after)))
unfolding run_all
ended_session_refused l sid user s start c cs now salt sub token e own ends draws is_token =
    refresh_ended l now salt token sid sub (run_all l (c ∷ cs) start) is_token
      (run_all-Ended sid l cs (run l c start) draws (run-Ends sid user s start e own l c ends))
