-- ===== src/Tests/Auth.antt =====
-- Accounts, sessions and passwords.
use neura_gen.Auth.Passwords.Resets.{forgot-reset}
use neura_gen.Auth.History.Refused.{ended_session_refused}
use neura_gen.Auth.Codes.{
  exchange-create, exchange_google_auth_code, create_google_auth_code, get_google_auth_code_ttl,
  get_code,
}
use neura_gen.Auth.Sessions.{login, auth_response, new_session, find_by_email, refresh_tokens}
use neura_gen.Auth.Passwords.{
  generic_message, reset_password, forgot_password, find_reset_token, delete_reset_tokens,
  change_password,
}
use neura_gen.Auth.Sessions.Rotation.{login-refresh, rotated_token_accepted, refresh_payload, Lasts}
use neura_gen.Auth.Store.{delete_many, refuse_if, require, Account, AuthDb, RefreshSession}
use Prim.Native.String.{slice}
use neura_gen.Base.{=ₛ_iff, find_row}
use neura_gen.Auth.Tokens.{get_reset_token_ttl, generate_tokens, TimeUnit, Libraries}
use neura_gen.Auth.History.{run_all, change, sign_in}
use neura_gen.Store.{Error, UserRole, ok, err}
use neura_gen.System.{empty_db}
use neura_gen.Base.{
  ◌≡◌, ◌∷◌, ◌=ₛ◌, if◌then◌else◌, arith, refl, none, some, Option, String, [], lookup,
}

abbrev config : String → Option String
config key = if key =ₛ "JWT_REFRESH_EXPIRES_IN" then some "7d" else none

abbrev alice : Account
alice = record {
  email = "alice@example.org";
  google_id = none;
  password = "secret";
  username = "alice";
  role = UserRole.free;
}

-- Bcrypt reads 72 bytes; the tokens of the test are all the same.
abbrev libraries : Libraries
libraries = record {
  sign_access = λ p t. "access";
  sign_refresh = λ p t. "refresh";
  verify_refresh = λ t now. some (refresh_payload 1 5 alice);
  bcrypt_hash = λ salt p. slice p 0 72;
  bcrypt_compare = λ p h. slice p 0 72 =ₛ h;
  sha256 = λ s. s;
  trim_lower_case = λ s. s;
  split_at_sign = λ s. s;
  match_duration = λ s. some (7, TimeUnit.day);
  number = λ s. none;
  config = config;
}

abbrev session : RefreshSession
session = new_session 1 1000 "refresh"

abbrev site : AuthDb
site = record {
  accounts = (1, alice) ∷ [];
  sessions = (5, session) ∷ [];
  reset_tokens = [];
  books = empty_db;
}

lasts : Lasts libraries 604800000
lasts = ("7d", 7, TimeUnit.day, refl, refl, refl)

changed : (change_password libraries 10 2 1 "secret" "sesame" site).0 ≡ ok tt
unfolding change_password require refuse_if lookup
changed = refl

ended_session_refused_example :
    (let after =
        run_all libraries
          (change 10 2 1 "secret" "sesame" ∷ sign_in 20 6 3 "alice@example.org" "sesame" ∷ [])
          site in
      (e : Error) × (refresh_tokens libraries 30 4 "refresh" after ≡ (err e, after)))
unfolding lookup
ended_session_refused_example =
    ended_session_refused libraries 5 1 session site (change 10 2 1 "secret" "sesame")
      (sign_in 20 6 3 "alice@example.org" "sesame" ∷ []) 30 4 1 "refresh" refl refl (refl, changed)
      (refl, tt) (refresh_payload 1 5 alice, refl, refl)

rotated_token_accepted_example :
    (let once = refresh_tokens libraries 10 2 "refresh" site in
      (once.0 ≡ ok (auth_response 1 alice (generate_tokens libraries 10 1 alice 5)))
      × ((refresh_tokens libraries 20 3 "refresh" once.1).0
          ≡ ok (auth_response 1 alice (generate_tokens libraries 20 1 alice 5))))
unfolding lookup
rotated_token_accepted_example =
    rotated_token_accepted libraries 604800000 lasts (refresh_payload 1 5 alice) 0 10 20 2 3 5
      session alice site (λ salt p q e. (=ₛ_iff (slice p 0 72) (slice q 0 72)).1 e)
      (λ p q t u e. refl) refl refl refl refl refl refl refl (omega arith) (omega arith)
      (2, refresh_payload 1 5 alice, 0, refl, refl)

login-refresh_example :
    (let entered = login libraries 10 5 2 "alice@example.org" "secret" site in
      (entered.0 ≡ ok (auth_response 1 alice (generate_tokens libraries 10 1 alice 5)))
      × ((refresh_tokens libraries 20 3
            (generate_tokens libraries 10 1 alice 5).refresh_token
            entered.1).0
          ≡ ok (auth_response 1 alice (generate_tokens libraries 20 1 alice 5))))
unfolding lookup find_by_email find_row
login-refresh_example =
    login-refresh libraries 604800000 lasts 10 20 5 2 3 1 "alice@example.org" "secret" alice site
      (λ salt p. (=ₛ_iff (slice p 0 72) (slice p 0 72)).1 refl) refl refl refl refl (omega arith)

forgot-reset_example :
    (let mailed = forgot_password libraries 10 7 "raw" "alice@example.org" site in
      let done = reset_password libraries 20 2 "raw" "sesame" mailed.1 in
      (mailed.0 ≡ ok generic_message)
      × (done.0 ≡ ok tt)
      × (lookup 1 done.1.accounts ≡ some (record alice { password = "sesame" }))
      × (reset_password libraries 30 3 "raw" "other" done.1
          ≡ (err (Error.forbidden "Reset token is invalid or expired"), done.1)))
unfolding lookup find_by_email find_row delete_reset_tokens find_reset_token delete_many
    get_reset_token_ttl
forgot-reset_example =
    forgot-reset libraries 10 7 1 "raw" alice 20 30 2 3 "alice@example.org" "sesame" "other" site
      refl refl (refl, refl) refl (omega arith)

exchange-create_example :
    (let response = auth_response 1 alice (generate_tokens libraries 10 1 alice 5) in
      let made = create_google_auth_code libraries 10 "code" response [] in
      let taken = exchange_google_auth_code libraries 20 "code" made.1 in
      (made.0 ≡ ok "code")
      × (taken.0 ≡ ok response)
      × (exchange_google_auth_code libraries 30 "code" taken.1
          ≡ (err (Error.unauthorized "Auth code is invalid or expired"), taken.1)))
unfolding get_code generate_tokens get_google_auth_code_ttl
exchange-create_example =
    exchange-create libraries 10 20 30 "code"
      (auth_response 1 alice (generate_tokens libraries 10 1 alice 5)) [] refl refl (omega arith)
