-- ===== src/Auth/Grpc.antt =====
-- services/auth/internal/handler/grpc.go: the calls of the gateway and of the other services.
use gofin.Prelude.{if◌then◌else◌, String, Bool, false, str_eq}
use gofin.Prelude.Int.{pos, eqb_ℤ}
use gofin.Api.{Error, api, grpc, other, Result, ok, err}
use gofin.Exec.{Exec, pure, lift, attempt, or_error, ◌>>=◌, ◌>>◌}
use gofin.Auth.Model.{User, Store, Environment, ValidateTokenResult}
use gofin.Auth.Service.{
  require_not, validate_token, get_user, delete_refresh_token_blacklist, delete_user_row,
}

abbrev pub invalid_argument : Error
invalid_argument = grpc 3

abbrev pub grpc_not_found : Error
grpc_not_found = grpc 5

abbrev pub grpc_internal : Error
grpc_internal = grpc 13

abbrev pub unauthenticated : Error
unauthenticated = grpc 16

unfoldable pub is_missing_user : Error → Bool
is_missing_user (api e) = eqb_ℤ e.status (pos 401)
is_missing_user (grpc c) = false
is_missing_user (other text) = false

-- The answer to a lookup that fails.
unfoldable pub lookup_failure {ℓ} : {A : Type ℓ} → Result A → Result A
unfolding is_missing_user
lookup_failure (ok a) = ok a
lookup_failure (err e) = err (if is_missing_user e then grpc_not_found else grpc_internal)

module _ (env : Environment) where
  unfoldable pub grpc_validate_token : String → Exec Store ValidateTokenResult
  unfolding validate_token
  grpc_validate_token token = do
    answer ← attempt (validate_token env token)
    lift (or_error unauthenticated answer)

  unfoldable pub grpc_get_user : String → Exec Store User
  unfolding get_user lookup_failure require_not
  grpc_get_user user_id = do
    require_not invalid_argument (str_eq user_id "")
    answer ← attempt (get_user env user_id)
    lift (lookup_failure answer)

  unfoldable pub verify_password : String → String → Exec Store Bool
  unfolding get_user lookup_failure require_not
  verify_password user_id password = do
    require_not invalid_argument (str_eq user_id "")
    require_not invalid_argument (str_eq password "")
    answer ← attempt (get_user env user_id)
    user ← lift (lookup_failure answer)
    pure (env.check_password password user.password_hash)

  unfoldable pub delete_user_data : String → Exec Store Unit
  unfolding delete_refresh_token_blacklist delete_user_row require_not
  delete_user_data user_id = do
    require_not invalid_argument (str_eq user_id "")
    cleared ← attempt (delete_refresh_token_blacklist env user_id)
    lift (or_error grpc_internal cleared)
    deleted ← attempt (delete_user_row env user_id)
    lift (or_error grpc_internal deleted)
