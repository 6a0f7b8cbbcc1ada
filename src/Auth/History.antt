-- ===== src/Auth/History.antt =====
-- Histories of the calls of src/modules/auth/auth.service.ts. What a call draws is part of it.
pub mod Ended
pub mod Refused
use neura_gen.Auth.Passwords.{reset_password, forgot_password, change_password}
use neura_gen.Auth.Tokens.{Libraries}
use neura_gen.Auth.Google.{
  link_google_account, login_with_google, register_with_google, GoogleProfilePayload,
}
use neura_gen.Auth.Store.{AuthDb, ◌>>=◌, ◌>>◌}
use neura_gen.Auth.Sessions.{register, login, refresh_tokens, logout, logout_all}
use neura_gen.Base.{
  ℕ, ◌+◌, ◌-◌, ◌*◌, ◌/◌, ◌<◌, ◌≤◌, ◌≡◌, suc, zero, not, ◌||◌, ◌&&◌, ◌∷◌, ◌++◌, ◌==◌, ◌=ₛ◌,
  if◌then◌else◌, arith, refl, sym, ap, ◌∙◌, none, some, inl, inr, Option, Option-cases, Bool-cases,
  String, Bool, true, false, List, [], All, length, is_some, case_option, get_or, ltb, leb,
  map_option, Table, lookup, update, put, filterb, find,
}

pub data AuthCall : Type 0 where
  sign_up : (now user_id session_id salt token_salt : ℕ) → (email password : String) → AuthCall
  sign_in : (now session_id salt : ℕ) → (email password : String) → AuthCall
  google_sign_up :
      (now user_id session_id salt token_salt : ℕ)
      → (random_password : String) → GoogleProfilePayload
      → AuthCall
  google_sign_in :
      (now user_id session_id salt token_salt : ℕ)
      → (random_password : String) → GoogleProfilePayload
      → AuthCall
  link : (user_id : ℕ) → GoogleProfilePayload → AuthCall
  refresh : (now salt : ℕ) → (token : String) → AuthCall
  sign_out : (now user_id : ℕ) → (token : String) → AuthCall
  sign_out_all : (now user_id : ℕ) → AuthCall
  change : (now salt user_id : ℕ) → (old_password new_password : String) → AuthCall
  forgot : (now id : ℕ) → (raw email : String) → AuthCall
  reset : (now salt : ℕ) → (raw new_password : String) → AuthCall

-- The tables after a call, returned or thrown.
unfoldable pub run : Libraries → AuthCall → AuthDb → AuthDb
run l (sign_up now user sid salt token_salt email password) db =
    (register l now user sid salt token_salt email password db).1
run l (sign_in now sid salt email password) db = (login l now sid salt email password db).1
run l (google_sign_up now user sid salt token_salt random profile) db =
    (register_with_google l now user sid salt token_salt random profile db).1
run l (google_sign_in now user sid salt token_salt random profile) db =
    (login_with_google l now user sid salt token_salt random profile db).1
run l (link user profile) db = (link_google_account l user profile db).1
run l (refresh now salt token) db = (refresh_tokens l now salt token db).1
run l (sign_out now user token) db = (logout l now user token db).1
run l (sign_out_all now user) db = (logout_all now user db).1
run l (change now salt user old new) db = (change_password l now salt user old new db).1
run l (forgot now id raw email) db = (forgot_password l now id raw email db).1
run l (reset now salt raw new) db = (reset_password l now salt raw new db).1

unfoldable pub run_all : Libraries → List AuthCall → AuthDb → AuthDb
run_all l [] db = db
run_all l (c ∷ cs) db = run_all l cs (run l c db)
