-- ===== src/Auth/Service.antt =====
-- services/auth/internal/service/auth.go. An error that is only wrapped in a text is passed on.
use gofin.Prelude.{
  ltb, ◌==◌, if◌then◌else◌, ℕ, String, Bool, true, false, not, ◌&&◌, ◌||◌, Option, none, some, List,
  [], str_eq,
}
use gofin.Prelude.Text.{trim_space}
use Prim.Native.Char.{code}
use gofin.Api.{Error, Result, ok, err, other, coded, unauthorized, not_found, validation, forbidden}
use gofin.Exec.{Exec, pure, raise, lift, attempt, or_error, ◌>>=◌, ◌>>◌}
use gofin.Auth.Model.{
  User, Store, Environment, Claims, RegisterRequest, LoginRequest, UpdateProfileRequest,
  ChangePasswordRequest, TokenPair, ValidateTokenResult, duplicate_email, duplicate_username,
  invalid_credentials, weak_password, role_user, role_admin, to_seconds, of_seconds,
}
use gofin.Auth.Repository.{
  Written, duplicate, missing, written, create_user, get_user_by_email, get_user_by_username,
  get_user_by_id, complete_onboarding, list_all_users, update_user, update_password,
  revoke_all_user_tokens, get_tokens_revoked_at, delete_user, consume_token, blacklist_token,
  delete_by_user_id,
}
use gofin.Auth.Tokens.{
  generate_token_pair, generate_token_pair_with_assumed_by, validate_access_token,
  validate_refresh_token, validate_password_strength,
}

abbrev pub email_taken : Error
email_taken = coded duplicate_email "An account with this email already exists" 409

abbrev pub username_taken : Error
username_taken = coded duplicate_username "This username is already taken" 409

abbrev pub bad_login : Error
bad_login = coded invalid_credentials "Invalid email or password" 401

abbrev pub no_user : Error
no_user = unauthorized "User not found"

abbrev pub log_in_again : Error
log_in_again = unauthorized "Please log in again"

abbrev pub unable_to_validate : Error
unable_to_validate = unauthorized "Unable to validate token"

abbrev pub token_revoked : Error
token_revoked = unauthorized "Token has been revoked. Please log in again."

abbrev pub bad_token : Error
bad_token = unauthorized "Invalid or expired refresh token"

abbrev pub spent_token : Error
spent_token = unauthorized "Refresh token has been revoked"

abbrev pub result_of : Claims → ValidateTokenResult
result_of c = record {
  user_id = c.subject;
  role = c.role;
  username = c.username;
  assumed_by = c.assumed_by;
}

-- `strings.Contains`.
unfoldable pub starts : String → String → Bool
starts String.[] s = true
starts (String.◌∷◌ c p) String.[] = false
starts (String.◌∷◌ c p) (String.◌∷◌ d s) = (code c == code d) && starts p s

unfoldable pub contains_text : String → String → Bool
unfolding starts
contains_text p String.[] = starts p ""
contains_text p (String.◌∷◌ c s) = starts p (String.◌∷◌ c s) || contains_text p s

-- What a violated unique constraint is answered with.
unfoldable pub duplicate_error : String → Error
unfolding contains_text
duplicate_error constraint =
    if contains_text "email" constraint then email_taken else username_taken

unfoldable pub require : {A : Type 0} → Error → Option A → Exec Store A
require e none = raise e
require e (some a) = pure a

unfoldable pub require_not : Error → Bool → Exec Store Unit
require_not e true = raise e
require_not e false = pure tt

abbrev pub is_found : Option User → Bool
is_found none = false
is_found (some u) = true

abbrev pub is_another : String → Option User → Bool
is_another id none = false
is_another id (some u) = not (str_eq u.id id)

-- The user that a write returns.
unfoldable pub require_written : Written → Exec Store User
unfolding duplicate_error
require_written (duplicate c) = raise (duplicate_error c)
require_written missing = raise no_user
require_written (written u) = pure u

abbrev pub is_some_text : Option String → Bool
is_some_text none = false
is_some_text (some t) = true

unfoldable pub require_strength : Option String → Exec Store Unit
require_strength none = pure tt
require_strength (some text) = raise (coded weak_password text 400)

-- The expiry that `claims.ExpiresAt.Time` reads: without one the call panics.
unfoldable pub expiry : Claims → Result ℕ
expiry c = elim c.expires_at [
  | none ↦ err (other "nil pointer dereference")
  | some e ↦ ok (of_seconds e)
]

-- Whether the token was issued before the revocation, both to the second.
unfoldable pub is_revoked : Option ℕ → Option ℕ → Bool
is_revoked none issued_at = false
is_revoked (some t) none = false
is_revoked (some t) (some issued_at) = ltb issued_at (to_seconds t)

module _ (env : Environment) where
  abbrev pub lower_email : String → String
  lower_email email = env.to_lower (trim_space email)

  unfoldable pub register : RegisterRequest → Exec Store (User × TokenPair)
  unfolding validate_password_strength get_user_by_email get_user_by_username create_user
      require_written require_not require_strength generate_token_pair
  register req = do
    let email = lower_email req.email
    let username = trim_space req.username
    require_strength (validate_password_strength env req.password)
    by_email ← get_user_by_email env email
    require_not email_taken (is_found by_email)
    by_username ← get_user_by_username env username
    require_not username_taken (is_found by_username)
    hash ← lift (env.hash_password req.password)
    w ← create_user env username email hash role_user "USD"
    user ← require_written w
    tokens ← lift (generate_token_pair env user.id user.role user.username)
    pure (user, tokens)

  unfoldable pub login : LoginRequest → Exec Store (User × TokenPair)
  unfolding get_user_by_email require require_not generate_token_pair
  login req = do
    found ← get_user_by_email env (lower_email req.email)
    user ← require bad_login found
    require_not bad_login (not (env.check_password req.password user.password_hash))
    tokens ← lift (generate_token_pair env user.id user.role user.username)
    pure (user, tokens)

  unfoldable pub validate_token : String → Exec Store ValidateTokenResult
  unfolding validate_access_token get_tokens_revoked_at require_not is_revoked
  validate_token token = do
    claims ← lift (or_error log_in_again (validate_access_token env token))
    answer ← attempt (get_tokens_revoked_at env claims.subject)
    revoked_at ← lift (or_error unable_to_validate answer)
    require_not token_revoked (is_revoked revoked_at claims.issued_at)
    pure (result_of claims)

  unfoldable pub get_user : String → Exec Store User
  unfolding get_user_by_id require
  get_user user_id = do found ← get_user_by_id env user_id; require no_user found

  -- The consumption of a token that was read, and what follows where this was its first use.
  unfoldable pub consume_claims : Claims → Exec Store Bool
  unfolding consume_token expiry
  consume_claims claims = do
    expires_at ← lift (expiry claims)
    consume_token env claims.jti claims.subject expires_at

  unfoldable pub issue : Claims → Exec Store (User × TokenPair)
  unfolding get_user_by_id require generate_token_pair
  issue claims = do
    found ← get_user_by_id env claims.subject
    user ← require no_user found
    tokens ← lift (generate_token_pair env user.id user.role user.username)
    pure (user, tokens)

  unfoldable pub refresh_token : String → Exec Store (User × TokenPair)
  unfolding validate_refresh_token consume_claims issue require_not
  refresh_token token = do
    claims ← lift (or_error bad_token (validate_refresh_token env token))
    consumed ← consume_claims claims
    require_not spent_token (not consumed)
    issue claims

  -- The rest of a logout once the token has been read.
  unfoldable pub logout_claims : Claims → Exec Store Unit
  unfolding blacklist_token expiry
  logout_claims claims = do
    expires_at ← lift (expiry claims)
    blacklist_token env claims.jti claims.subject expires_at

  -- A token that does not validate leaves nothing to blacklist.
  abbrev pub logout_answer : Result Claims → Exec Store Unit
  logout_answer (err e) = pure tt
  logout_answer (ok claims) = logout_claims claims

  unfoldable pub logout : String → Exec Store Unit
  unfolding validate_refresh_token logout_claims
  logout token = logout_answer (validate_refresh_token env token)

  unfoldable pub complete_user_onboarding : String → String → Exec Store User
  unfolding complete_onboarding require
  complete_user_onboarding user_id currency = do
    found ← complete_onboarding env user_id currency
    require no_user found

  unfoldable pub update_profile : String → UpdateProfileRequest → Exec Store User
  unfolding get_user_by_email get_user_by_username update_user require_written require_not
  update_profile user_id req = do
    let email = lower_email req.email
    let username = trim_space req.username
    by_email ← get_user_by_email env email
    require_not email_taken (is_another user_id by_email)
    by_username ← get_user_by_username env username
    require_not username_taken (is_another user_id by_username)
    w ← update_user env user_id username email (trim_space req.currency)
    require_written w

  unfoldable pub list_users : Exec Store (List User)
  unfolding list_all_users
  list_users = list_all_users env

  unfoldable pub assume_identity : String → String → Exec Store (User × TokenPair)
  unfolding get_user_by_id require require_not generate_token_pair_with_assumed_by
  assume_identity admin_user_id target_user_id = do
    require_not (validation "Cannot assume your own identity" [])
        (str_eq admin_user_id target_user_id)
    found ← get_user_by_id env target_user_id
    target ← require (not_found "Target user not found") found
    tokens ← lift (
        generate_token_pair_with_assumed_by env target.id target.role target.username admin_user_id)
    pure (target, tokens)

  unfoldable pub restore_identity : String → Exec Store (User × TokenPair)
  unfolding get_user_by_id require require_not generate_token_pair
  restore_identity assumed_by = do
    require_not (validation "No assumed identity to restore" []) (str_eq assumed_by "")
    found ← get_user_by_id env assumed_by
    admin ← require (not_found "Admin user not found") found
    require_not (forbidden "Assumed-by user is not an admin") (not (str_eq admin.role role_admin))
    tokens ← lift (generate_token_pair env admin.id admin.role admin.username)
    pure (admin, tokens)

  -- A unique violation here is not mapped: it is an error like any other.
  unfoldable pub require_created : Written → Exec Store User
  require_created (duplicate c) = raise (other c)
  require_created missing = raise (other "no rows")
  require_created (written u) = pure u

  -- The rest of the seed where the username is free.
  unfoldable pub seed_new : String → String → String → Exec Store Unit
  unfolding create_user complete_onboarding require_created
  seed_new username email password = do
    hash ← lift (env.hash_password password)
    w ← create_user env username email hash role_admin "USD"
    user ← require_created w
    complete_onboarding env user.id "USD"
    pure tt

  unfoldable pub seed_admin : String → String → String → Exec Store Unit
  unfolding get_user_by_username seed_new
  seed_admin username email password = do
    existing ← get_user_by_username env username
    if is_found existing then pure tt else seed_new username email password

  unfoldable pub change_password : String → ChangePasswordRequest → Exec Store (User × TokenPair)
  unfolding get_user_by_id update_password revoke_all_user_tokens validate_password_strength require
      require_not require_strength generate_token_pair
  change_password user_id req = do
    found ← get_user_by_id env user_id
    user ← require no_user found
    require_not (coded invalid_credentials "Current password is incorrect" 401)
        (not (env.check_password req.current_password user.password_hash))
    require_strength (validate_password_strength env req.new_password)
    hash ← lift (env.hash_password req.new_password)
    update_password env user_id hash
    revoke_all_user_tokens env user_id
    tokens ← lift (generate_token_pair env user.id user.role user.username)
    pure (user, tokens)

  unfoldable pub delete_refresh_token_blacklist : String → Exec Store Unit
  unfolding delete_by_user_id
  delete_refresh_token_blacklist user_id = delete_by_user_id env user_id

  unfoldable pub delete_user_row : String → Exec Store Unit
  unfolding delete_user
  delete_user_row user_id = delete_user env user_id
