-- ===== src/Auth/Store.antt =====
-- The tables of src/modules/auth/auth.service.ts (prisma/schema.prisma: User, RefreshSession,
-- PasswordResetToken), and its calls as functions on them. An account has the columns of User that
-- concern the login; its other columns, its wallet and the ledger are in `books`.
pub mod Rules
use neura_gen.Store.{Db, UserRole, Error, Result, ok, err}
use neura_gen.Base.{
  ℕ, ◌+◌, ◌-◌, ◌*◌, ◌/◌, ◌<◌, ◌≤◌, ◌≡◌, suc, zero, not, ◌||◌, ◌&&◌, ◌∷◌, ◌++◌, ◌==◌, ◌=ₛ◌,
  if◌then◌else◌, arith, refl, sym, ap, ◌∙◌, none, some, inl, inr, Option, Option-cases, Bool-cases,
  String, Bool, true, false, List, [], All, length, is_some, case_option, get_or, ltb, leb,
  map_option, Table, lookup, update, put, filterb, find,
}

pub record Account : Type 0 where
  pub email : String
  pub google_id : Option String
  pub password : String
  pub username : String
  pub role : UserRole

pub record RefreshSession : Type 0 where
  pub user_id : ℕ
  pub hashed_token : String
  pub expires_at : ℕ
  pub last_used_at : Option ℕ
  pub revoked_at : Option ℕ

pub record PasswordResetToken : Type 0 where
  pub user_id : ℕ
  pub token_hash : String
  pub expires_at : ℕ
  pub used_at : Option ℕ

-- What the calls read and write.
pub record AuthDb : Type 0 where
  pub accounts : Table Account
  pub sessions : Table RefreshSession
  pub reset_tokens : Table PasswordResetToken
  pub books : Db

abbrev pub AuthAction {ℓ} : Type ℓ → Type ℓ
AuthAction A = AuthDb → Result A × AuthDb

abbrev pub proceed {ℓ κ} :
    {A : Type ℓ} {B : Type κ} → Result A × AuthDb → (A → AuthAction B) → Result B × AuthDb
proceed (ok a, db) f = f a db
proceed (err e, db) f = (err e, db)

infixl 5 ◌>>=◌ ◌>>◌
abbrev pub ◌>>=◌ {ℓ κ} :
    {A : Type ℓ} {B : Type κ} → AuthAction A → (A → AuthAction B) → AuthAction B
◌>>=◌ m f db = proceed (m db) f

abbrev pub ◌>>◌ {ℓ κ} : {A : Type ℓ} {B : Type κ} → AuthAction A → AuthAction B → AuthAction B
m >> k = m >>= λ _. k

module _ {ℓ} {A : Type ℓ} where
  abbrev pub give : A → AuthAction A
  give a db = (ok a, db)

  abbrev pub fail_with : Error → AuthAction A
  fail_with e db = (err e, db)

  abbrev pub query : (AuthDb → A) → AuthAction A
  query f db = (ok (f db), db)

  -- `if (!x) throw e`
  unfoldable pub require : Error → Option A → AuthAction A
  require e none db = (err e, db)
  require e (some a) db = (ok a, db)

-- `if (b) throw e`
unfoldable pub refuse_if : Bool → Error → AuthAction (Unit {0})
refuse_if b e db = if b then (err e, db) else (ok tt, db)

-- One access that writes, or a `$transaction` of several writes that cannot fail.
abbrev pub write : (AuthDb → AuthDb) → AuthAction (Unit {0})
write f db = (ok tt, f db)

-- `updateMany`
unfoldable pub update_many {ℓ} : {V : Type ℓ} → (V → Bool) → (V → V) → Table V → Table V
update_many p f [] = []
update_many p f ((k, v) ∷ t) =
    if p v then (k, f v) ∷ update_many p f t else (k, v) ∷ update_many p f t

-- `deleteMany`
unfoldable pub delete_many {ℓ} : {V : Type ℓ} → (V → Bool) → Table V → Table V
delete_many p [] = []
delete_many p ((k, v) ∷ t) = if p v then delete_many p t else (k, v) ∷ delete_many p t
