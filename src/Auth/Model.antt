-- ===== src/Auth/Model.antt =====
-- services/auth/internal/model, the claims of service/jwt.go, and what the service asks of the
-- libraries and of the database. Times of the database are in microseconds, those of the claims in
-- seconds.
use gofin.Prelude.{ℕ, ◌*◌, ◌/◌, String, Bool, Option, List}
use gofin.Api.{Error, Result}

pub record User : Type 0 where
  pub id : String
  pub username : String
  pub email : String
  pub password_hash : String
  pub role : String
  pub currency : String
  pub has_completed_onboarding : Bool
  pub created_at : ℕ
  pub updated_at : ℕ

-- A row of the table of users, and one of the table of refresh tokens that are spent or revoked.
pub record UserRow : Type 0 where
  pub user : User
  pub tokens_revoked_at : Option ℕ

pub record Revoked : Type 0 where
  pub jti : String
  pub user_id : String
  pub expires_at : ℕ

pub record Store : Type 0 where
  pub users : List UserRow
  pub blacklist : List Revoked

pub record RegisterRequest : Type 0 where
  pub username : String
  pub email : String
  pub password : String

pub record LoginRequest : Type 0 where
  pub email : String
  pub password : String

pub record UpdateProfileRequest : Type 0 where
  pub username : String
  pub email : String
  pub currency : String

pub record ChangePasswordRequest : Type 0 where
  pub current_password : String
  pub new_password : String

pub record TokenPair : Type 0 where
  pub access_token : String
  pub refresh_token : String

pub record ValidateTokenResult : Type 0 where
  pub user_id : String
  pub role : String
  pub username : String
  pub assumed_by : String

-- The payload of a token of either kind: a claim that a token does not carry is empty.
pub record Claims : Type 0 where
  pub subject : String
  pub jti : String
  pub issued_at : Option ℕ
  pub expires_at : Option ℕ
  pub role : String
  pub username : String
  pub assumed_by : String

abbrev pub to_seconds : ℕ → ℕ
to_seconds t = t / 1000000

abbrev pub of_seconds : ℕ → ℕ
of_seconds t = t * 1000000

-- A request's surroundings. `now` is the service's clock and `db_now` the database's; `statement` is
-- the failure of the statement of a repository method, `others` what concurrent requests do to the
-- database right before it, and `misfit` the refusal of a row that breaks a column's constraint.
-- `sign` and `parse` are the JWT library's, `parse` at a time; the password functions are bcrypt's;
-- `parse_uuid` gives the canonical text of an id, and `new_id` and `new_jti` are fresh UUIDs. The
-- last four are Unicode's tables, on texts and on characters.
pub record Environment : Type 0 where
  pub now : ℕ
  pub db_now : ℕ
  pub statement : String → Option Error
  pub others : String → Store → Store
  pub misfit : User → Option Error
  pub parse_uuid : String → Result String
  pub new_id : String
  pub new_jti : String
  pub sign : Claims → Result String
  pub parse : ℕ → String → Result Claims
  pub hash_password : String → Result String
  pub check_password : String → String → Bool
  pub access_token_ttl : ℕ
  pub refresh_token_ttl : ℕ
  pub to_lower : String → String
  pub is_upper : ℕ → Bool
  pub is_lower : ℕ → Bool
  pub is_digit : ℕ → Bool

abbrev pub role_user : String
role_user = "user"

abbrev pub role_admin : String
role_admin = "admin"

abbrev pub duplicate_email : String
duplicate_email = "DUPLICATE_EMAIL"

abbrev pub duplicate_username : String
duplicate_username = "DUPLICATE_USERNAME"

abbrev pub invalid_credentials : String
invalid_credentials = "INVALID_CREDENTIALS"

abbrev pub weak_password : String
weak_password = "WEAK_PASSWORD"
