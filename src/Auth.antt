-- ===== src/Auth.antt =====
-- Accounts and sign-in (backend/src/auth/auth.service.ts, backend/src/users/users.service.ts): the
-- users, the refresh tokens, and the tokens that are mailed for verification and reset.
pub mod Users
pub mod Service
use voting_secure.Base.{ℕ, String, Bool, Option, List, find?, str_eq, ◌+◌}
use voting_secure.Access.{Role}

pub record User : Type 0 where
  pub id : String
  pub role : Role
  pub email : String
  pub email_hash : String
  pub password : String
  pub name : Option String
  pub is_email_verified : Bool

pub record RefreshToken : Type 0 where
  pub token_hash : String
  pub user_id : String
  pub expires_at : ℕ
  pub revoked_at : Option ℕ

-- A row of `EmailVerificationToken` or `PasswordResetToken`.
pub record OneTimeToken : Type 0 where
  pub token_hash : String
  pub user_id : String
  pub expires_at : ℕ
  pub used_at : Option ℕ

pub record AuthStore : Type 0 where
  pub users : List User
  pub refresh_tokens : List RefreshToken
  pub verification_tokens : List OneTimeToken
  pub reset_tokens : List OneTimeToken

pub data AuthError : Type 0 where
  user_not_found no_refresh_token invalid_refresh_token refresh_failed : AuthError
  invalid_credentials email_not_verified invalid_verification_token invalid_reset_token : AuthError
  secret_unset write_failed mail_failed forbidden : AuthError

-- What the services call: the JWT library, argon2, AES and HMAC. `verify_jwt` gives the subject, and
-- nothing where it throws.
pub record AuthPlatform : Type 0 where
  pub sign_jwt : User → String
  pub sign_refresh_jwt : (now : ℕ) (user_id : String) → String
  pub verify_jwt : (now : ℕ) → String → Option String
  pub hmac_sha256 : (secret text : String) → String
  pub token_hash_secret : Option String
  pub hash_password : String → String
  pub verify_password : (hashed plain : String) → Bool
  pub encrypt : String → String
  pub decrypt : String → String
  pub get_blind_index : String → String

abbrev pub find_token : String → List OneTimeToken → Option OneTimeToken
find_token h ts = find? (λ t. str_eq t.token_hash h) ts

abbrev pub find_refresh : String → List RefreshToken → Option RefreshToken
find_refresh h ts = find? (λ t. str_eq t.token_hash h) ts
