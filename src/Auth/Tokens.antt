-- ===== src/Auth/Tokens.antt =====
-- Tokens and times of src/modules/auth/auth.service.ts. The functions of the libraries are
-- parameters: JWT (`signAsync`, `verifyAsync`), bcrypt (src/utils/hash.ts), SHA-256, the text
-- functions of the language, and the configuration.
use neura_gen.Store.{UserRole, Error}
use neura_gen.Auth.Store.{give, require, Account, AuthAction, ◌>>=◌}
use neura_gen.Worker.Breaker.{Finite, negative, quotient}
use neura_gen.Base.{ltb}
use neura_gen.Base.{
  ℕ, ◌+◌, ◌*◌, ◌/◌, suc, ◌=ₛ◌, if◌then◌else◌, none, some, Option, String, Bool, case_option, get_or,
  ltb,
}

pub record RefreshTokenPayload : Type 0 where
  pub sub : ℕ
  pub email : String
  pub username : String
  pub role : UserRole
  pub sid : Option ℕ
  pub token_type : String

pub record JwtPayload : Type 0 where
  pub sub : ℕ
  pub email : String
  pub username : String
  pub role : UserRole
  pub sid : Option ℕ

pub data TimeUnit : Type 0 where
  second minute hour day : TimeUnit

-- A signature has its time; a hash of a password its salt.
pub record Libraries : Type 0 where
  pub sign_access : JwtPayload → (now : ℕ) → String
  pub sign_refresh : RefreshTokenPayload → (now : ℕ) → String
  pub verify_refresh : String → (now : ℕ) → Option RefreshTokenPayload
  pub bcrypt_hash : (salt : ℕ) → String → String
  pub bcrypt_compare : String → String → Bool
  pub sha256 : String → String
  pub trim_lower_case : String → String
  pub split_at_sign : String → String
  pub match_duration : String → Option (ℕ × TimeUnit)
  pub number : String → Option Finite
  pub config : String → Option String

-- `hashToken`, `normalizeEmail`
abbrev pub hash_token : Libraries → String → String
hash_token l raw = l.sha256 raw

abbrev pub normalize_email : Libraries → String → String
normalize_email l email = l.trim_lower_case email

abbrev pub unit_ms : TimeUnit → ℕ
unit_ms TimeUnit.second = 1000
unit_ms TimeUnit.minute = 60000
unit_ms TimeUnit.hour = 3600000
unit_ms TimeUnit.day = 86400000

-- `computeExpiryDate(configService.getOrThrow('JWT_REFRESH_EXPIRES_IN'))`
unfoldable pub compute_expiry_date : Libraries → ℕ → AuthAction ℕ
compute_expiry_date l now = do
  expires_in ← require (Error.plain "Missing configuration") (l.config "JWT_REFRESH_EXPIRES_IN")
  matched ←
      require (Error.plain "Unsupported expiresIn format")
        (l.match_duration (l.trim_lower_case expires_in))
  give (now + matched.0 * unit_ms matched.1)

-- `getResetTokenTtlMinutes`, in milliseconds.
abbrev pub ttl_of : Option Finite → ℕ
ttl_of none = 900000
ttl_of (some negative) = 900000
ttl_of (some (quotient n d)) = if ltb 0 n then n * 60000 / suc d else 900000

unfoldable pub get_reset_token_ttl : Libraries → ℕ
get_reset_token_ttl l =
    ttl_of (l.number (get_or (l.config "PASSWORD_RESET_TOKEN_TTL_MINUTES") "15"))

pub record TokenPair : Type 0 where
  pub access_token : String
  pub refresh_token : String

-- `generateTokens`
unfoldable pub generate_tokens :
    Libraries → (now user_id : ℕ) → Account → (session_id : ℕ) → TokenPair
generate_tokens l now user_id a session_id = record {
  access_token =
      l.sign_access
        (record {
          sub = user_id;
          email = a.email;
          username = a.username;
          role = a.role;
          sid = some session_id;
        })
        now;
  refresh_token =
      l.sign_refresh
        (record {
          sub = user_id;
          email = a.email;
          username = a.username;
          role = a.role;
          sid = some session_id;
          token_type = "refresh";
        })
        now;
}

-- `payload.type !== 'refresh' || !payload.sid`, with the session.
abbrev pub session_of : RefreshTokenPayload → Option (ℕ × ℕ)
session_of p =
    case_option p.sid none (λ sid. if p.token_type =ₛ "refresh" then some (sid, p.sub) else none)

-- `verifyRefreshToken`: the session and the subject of the token.
unfoldable pub verify_refresh_token : Libraries → (now : ℕ) → String → AuthAction (ℕ × ℕ)
verify_refresh_token l now token =
    require (Error.unauthorized "Invalid or expired refresh token")
      (case_option (l.verify_refresh token now) none session_of)
