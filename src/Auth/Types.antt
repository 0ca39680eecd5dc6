-- ===== src/Auth/Types.antt =====
-- The rows that crm-backend/src/modules/auth/auth.service.ts reads and writes, and the cryptography
-- that it calls. Times are numbers of milliseconds.
use crm_with_blockchain_rag.Base.{Bool, List, Option, String, true, ℕ, ◌≡◌}
use crm_with_blockchain_rag.Prisma.{Table}

pub data UserStatus : Type 0 where
  active inactive invited suspended : UserStatus

-- The JSON column `settings`: the two members of a password reset, and all others.
pub record Settings : Type 0 where
  pub password_reset_token_hash : Option String
  pub password_reset_expires : Option ℕ
  pub others : List (String × String)

pub record User : Type 0 where
  pub id : String
  pub tenant_id : String
  pub email : String
  pub password_hash : String
  pub role : String
  pub status : UserStatus
  pub settings : Settings
  pub last_login_at : Option ℕ

pub record RefreshSession : Type 0 where
  pub id : String
  pub user_id : String
  pub tenant_id : String
  pub token_hash : String
  pub expires_at : ℕ

-- The payload of a token.
pub record JwtPayload : Type 0 where
  pub sub : String
  pub email : String
  pub tenant_id : String
  pub role : String

-- `bcrypt` with the salt that it draws, `sha256` in hexadecimal, the signing of the two kinds of
-- tokens at a time, and `toLowerCase`.
pub record Crypto : Type 0 where
  pub hash : String → String → String
  pub compare : String → String → Bool
  pub sha256 : String → String
  pub sign_access : JwtPayload → ℕ → String
  pub sign_refresh : JwtPayload → ℕ → String
  pub lower : String → String
  pub compare_hash : (salt password : String) → compare password (hash salt password) ≡ true

pub record AuthClient : Type 1 where
  pub crypto : Crypto
  pub refresh_days : ℕ
  pub user : Table User
  pub session : Table RefreshSession
  pub user_keyed : (u : User) → user.key u ≡ u.id
  pub session_keyed : (x : RefreshSession) → session.key x ≡ x.id

-- The tables, the access tokens handed to the blacklist and the reset mails that are queued, as the
-- address and the token.
pub record AuthDb (c : AuthClient) : Type 0 where
  pub users : c.user.State
  pub sessions : c.session.State
  pub blacklisted : List String
  pub mails : List (String × String)

pub data AuthError : Type 0 where
  unauthorized business_rule record_missing constraint_violation : AuthError
