-- ===== src/Auth/Calls.antt =====
-- The calls that reach the auth service, over REST or gRPC or by the cleanup's timer, and what a
-- series of them leaves in the database.
pub mod Keeps
pub mod Steps
pub mod Spent
pub mod Once
pub mod Rows
pub mod Privilege
pub mod Revocation
pub mod Login
pub mod Identity
pub mod Deletion
use gofin.Prelude.{String, List, [], ◌∷◌}
use gofin.Auth.Model.{
  Store, Environment, RegisterRequest, LoginRequest, UpdateProfileRequest, ChangePasswordRequest,
}
use gofin.Auth.Repository.{cleanup_expired}
use gofin.Auth.Service.{
  register, login, refresh_token, logout, complete_user_onboarding, update_profile, list_users,
  assume_identity, restore_identity, change_password,
}
use gofin.Auth.Grpc.{grpc_validate_token, grpc_get_user, verify_password, delete_user_data}

pub data Call : Type 0 where
  registers : RegisterRequest → Call
  logs_in : LoginRequest → Call
  validates : String → Call
  gets_user : String → Call
  verifies : String → String → Call
  refreshes : String → Call
  logs_out : String → Call
  completes_onboarding : String → String → Call
  updates_profile : String → UpdateProfileRequest → Call
  lists_users : Call
  assumes : String → String → Call
  restores : String → Call
  changes_password : String → ChangePasswordRequest → Call
  cleans_up : Call
  deletes_user_data : String → Call

-- The database after a call.
unfoldable pub serve : Environment → Call → Store → Store
unfolding register login refresh_token logout complete_user_onboarding update_profile list_users
    assume_identity restore_identity change_password grpc_validate_token grpc_get_user
    verify_password delete_user_data cleanup_expired
serve env (registers req) s = (register env req s).0
serve env (logs_in req) s = (login env req s).0
serve env (validates token) s = (grpc_validate_token env token s).0
serve env (gets_user id) s = (grpc_get_user env id s).0
serve env (verifies id password) s = (verify_password env id password s).0
serve env (refreshes token) s = (refresh_token env token s).0
serve env (logs_out token) s = (logout env token s).0
serve env (completes_onboarding id currency) s = (complete_user_onboarding env id currency s).0
serve env (updates_profile id req) s = (update_profile env id req s).0
serve env lists_users s = (list_users env s).0
serve env (assumes admin target) s = (assume_identity env admin target s).0
serve env (restores admin) s = (restore_identity env admin s).0
serve env (changes_password id req) s = (change_password env id req s).0
serve env cleans_up s = (cleanup_expired env s).0
serve env (deletes_user_data id) s = (delete_user_data env id s).0

-- Call after call, each in its own surroundings.
unfoldable pub serve_all : List (Environment × Call) → Store → Store
unfolding serve
serve_all [] s = s
serve_all ((env, c) ∷ calls) s = serve_all calls (serve env c s)
