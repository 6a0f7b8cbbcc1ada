-- ===== src/Auth/Codes.antt =====
-- The one-time auth codes of the OAuth login (src/modules/auth/auth.service.ts) in Redis: a value and
-- its end by key. JSON is read as it was written.
use neura_gen.Worker.Breaker.{floor_or}
use neura_gen.Auth.Sessions.{AuthResponseDto}
use Prim.Native.String.{◌++◌ as ◌++ₛ◌}
use neura_gen.Store.{Error, ok, err, Result}
use neura_gen.Auth.Tokens.{Libraries, hash_token}
use neura_gen.Base.{
  lt→ltb, =ₛ_iff, find-filterb-none, ℕ, ◌+◌, ◌*◌, ◌<◌, ◌≡◌, not, ◌&&◌, ◌∷◌, ◌=ₛ◌, if◌then◌else◌,
  arith, refl, none, some, Option, String, Bool, true, false, List, is_some, case_option, get_or,
  ltb, filterb, find,
}

pub record CodeEntry : Type 0 where
  pub key : String
  pub value : AuthResponseDto
  pub ends_at : ℕ

-- `getGoogleAuthCodeTtlSeconds`, in milliseconds.
unfoldable pub get_google_auth_code_ttl : Libraries → ℕ
get_google_auth_code_ttl l =
    1000 * floor_or 30 1 120 (l.number (get_or (l.config "GOOGLE_AUTH_CODE_TTL_SECONDS") "120"))

-- `GET`
abbrev pub is_live : (now : ℕ) → String → CodeEntry → Bool
is_live now key e = (e.key =ₛ key) && ltb now e.ends_at

unfoldable pub get_code : (now : ℕ) → String → List CodeEntry → Option CodeEntry
get_code now key codes = find (is_live now key) codes

-- `DEL`
unfoldable pub delete_code : String → List CodeEntry → List CodeEntry
delete_code key codes = filterb (λ e. not (e.key =ₛ key)) codes

-- `getGoogleAuthCodeKey`
abbrev pub get_google_auth_code_key : Libraries → String → String
get_google_auth_code_key l code = "auth:google:code:" ++ₛ hash_token l code

-- `createGoogleAuthCode`, for the code that is drawn.
unfoldable pub create_google_auth_code :
    Libraries
    → (now : ℕ) → (code : String) → AuthResponseDto
    → List CodeEntry
    → Result String × List CodeEntry
create_google_auth_code l now code response codes =
    let key = get_google_auth_code_key l code in
    if is_some (get_code now key codes)
    then (err (Error.unauthorized "Unable to issue OAuth auth code"), codes)
    else (
      ok code,
      record { key = key; value = response; ends_at = now + get_google_auth_code_ttl l } ∷ codes,
    )

-- The test of the fields.
abbrev pub is_complete : AuthResponseDto → Bool
is_complete r =
    not (r.email =ₛ "")
    && (not (r.username =ₛ "") && (not (r.access_token =ₛ "") && not (r.refresh_token =ₛ "")))

-- `exchangeGoogleAuthCode`
unfoldable pub exchange_google_auth_code :
    Libraries
    → (now : ℕ) → (code : String) → List CodeEntry
    → Result AuthResponseDto × List CodeEntry
exchange_google_auth_code l now code codes =
    let key = get_google_auth_code_key l code in
    case_option (get_code now key codes)
      (err (Error.unauthorized "Auth code is invalid or expired"), codes)
      (λ e. (
        if is_complete e.value
            then ok e.value
            else err (Error.unauthorized "Auth code payload is invalid"),
        delete_code key codes,
      ))

other_key : (b c : Bool) → not b ≡ true → (b && c) ≡ false
other_key b c h = ground arith

-- Deleted entries are not found.
get_code-delete_code :
    (now : ℕ) (key : String) (codes : List CodeEntry)
    → get_code now key (delete_code key codes) ≡ none
unfolding get_code delete_code
get_code-delete_code now key codes =
    find-filterb-none (is_live now key) (λ e. not (e.key =ₛ key)) codes
      (λ e h. other_key (e.key =ₛ key) (ltb now e.ends_at) h)

get_code-live :
    (now : ℕ) (e : CodeEntry) (codes : List CodeEntry)
    → now < e.ends_at
    → get_code now e.key (e ∷ codes) ≡ some e
unfolding get_code
get_code-live now e codes h =
    let live : is_live now e.key e ≡ true =
      rw ((=ₛ_iff e.key e.key).1 refl, lt→ltb now e.ends_at h) refl in
    rw (find, live) refl

-- An auth code whose key is not in use gives out the complete response that it was made for, before
-- its end, and only once: the next exchange throws and changes nothing.
pub exchange-create :
    (l : Libraries) (now later again : ℕ) (code : String) (response : AuthResponseDto)
    (codes : List CodeEntry)
    → get_code now (get_google_auth_code_key l code) codes ≡ none
    → is_complete response ≡ true
    → later < now + get_google_auth_code_ttl l
    → (let made = create_google_auth_code l now code response codes in
        let taken = exchange_google_auth_code l later code made.1 in
        (made.0 ≡ ok code)
        × (taken.0 ≡ ok response)
        × (exchange_google_auth_code l again code taken.1
            ≡ (err (Error.unauthorized "Auth code is invalid or expired"), taken.1)))
unfolding create_google_auth_code exchange_google_auth_code
exchange-create l now later again code response codes new complete soon =
    let key = get_google_auth_code_key l code in
    let entry : CodeEntry = record {
      key = key;
      value = response;
      ends_at = now + get_google_auth_code_ttl l;
    } in
    rw
      (
        new,
        get_code-live later entry codes soon,
        complete,
        get_code-delete_code again key (entry ∷ codes),
      )
      (refl, refl, refl)
