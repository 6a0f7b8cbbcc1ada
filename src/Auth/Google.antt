-- ===== src/Auth/Google.antt =====
-- Google accounts (src/modules/auth/auth.service.ts): login, registration and linking of a profile
-- that Google has vouched for, and the redirect addresses.
use neura_gen.Auth.Store.{
  fail_with, give, write, require, refuse_if, query, AuthAction, Account, ◌>>=◌, ◌>>◌,
}
use neura_gen.Auth.Tokens.{Libraries, normalize_email}
use neura_gen.Auth.Sessions.{
  AuthResponseDto, create_user, issue_token_pair, find_by_email, find_by_google_id,
}
use neura_gen.Store.{UserRole, Error}
use text.Mathlib.Text.{starts_with}
use neura_gen.Base.{
  holds, truthy, ℕ, not, ◌||◌, ◌∷◌, ◌==◌, ◌=ₛ◌, if◌then◌else◌, none, some, Option, String, Bool,
  false, List, [], is_some, case_option, lookup, update,
}

pub record GoogleProfilePayload : Type 0 where
  pub google_id : String
  pub email : String
  pub username : String
  pub avatar_url : Option String

abbrev pub google_account :
    Libraries → (salt : ℕ) → (random_password : String) → GoogleProfilePayload → Account
google_account l salt random_password profile = record {
  email = normalize_email l profile.email;
  google_id = some profile.google_id;
  password = l.bcrypt_hash salt random_password;
  username = profile.username;
  role = UserRole.free;
}

-- `registerWithGoogle`
unfoldable pub register_with_google :
    Libraries
    → (now user_id session_id salt token_salt : ℕ) → (random_password : String)
    → GoogleProfilePayload
    → AuthAction AuthResponseDto
register_with_google l now user_id session_id salt token_salt random_password profile = do
  known ← query (λ db. find_by_google_id profile.google_id db.accounts)
  refuse_if (is_some known) (Error.conflict "Google account already exists")
  existing ← query (λ db. find_by_email (normalize_email l profile.email) db.accounts)
  refuse_if (is_some existing) (Error.conflict "Email already exists")
  create_user user_id (google_account l salt random_password profile)
  issue_token_pair l now session_id token_salt user_id
      (google_account l salt random_password profile)

-- `loginWithGoogle`
unfoldable pub login_with_google :
    Libraries
    → (now user_id session_id salt token_salt : ℕ) → (random_password : String)
    → GoogleProfilePayload
    → AuthAction AuthResponseDto
login_with_google l now user_id session_id salt token_salt random_password profile = do
  known ← query (λ db. find_by_google_id profile.google_id db.accounts)
  case_option known
      (do
        existing ← query (λ db. find_by_email (normalize_email l profile.email) db.accounts)
        refuse_if (is_some existing) (
            Error.unauthorized
              "Google account is not linked. Please login with password and link Google first.")
        register_with_google l now user_id session_id salt token_salt random_password profile)
      (λ user. issue_token_pair l now session_id token_salt user.0 user.1)

-- `linkGoogleAccount`, without the avatar; the result is the message.
unfoldable pub link_new :
    Libraries → (user_id : ℕ) → Account → GoogleProfilePayload → AuthAction String
link_new l user_id current profile = do
  other ← query (λ db. find_by_google_id profile.google_id db.accounts)
  refuse_if (case_option other false (λ o. not (o.0 == user_id)))
      (Error.conflict "This Google account is already linked to another user")
  refuse_if (not (normalize_email l profile.email =ₛ current.email))
      (Error.bad_request "Google email does not match current account email")
  write (λ db. record db {
    accounts = update user_id (λ a. record a { google_id = some profile.google_id }) db.accounts;
  })
  give "Google account linked successfully"

unfoldable pub link_google_account :
    Libraries → (user_id : ℕ) → GoogleProfilePayload → AuthAction String
link_google_account l user_id profile = do
  found ← query (λ db. lookup user_id db.accounts)
  current ← require (Error.unauthorized "User not found") found
  if truthy current.google_id
      then (if holds current.google_id profile.google_id
          then give "Google account already linked"
          else fail_with
              (Error.conflict "This account is already linked with another Google account"))
      else link_new l user_id current profile

-- `getAllowedRedirectUris`, from the trimmed texts of the configuration, and `sanitizeRedirectUri` of
-- a trimmed address.
abbrev pub allowed_redirect_uris :
    (frontend_url : Option String) → (extra : List String) → List String
allowed_redirect_uris frontend_url extra =
    if truthy frontend_url then case_option frontend_url extra (λ u. u ∷ extra) else extra

unfoldable pub some_prefix : String → List String → Bool
some_prefix uri [] = false
some_prefix uri (a ∷ others) = starts_with uri a || some_prefix uri others

unfoldable pub sanitize_redirect_uri : List String → Option String → Option String
sanitize_redirect_uri allowlist none = none
sanitize_redirect_uri allowlist (some uri) =
    if uri =ₛ "" then none else if some_prefix uri allowlist then some uri else none
