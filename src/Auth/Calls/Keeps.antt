-- ===== src/Auth/Calls/Keeps.antt =====
-- What the repository's methods keep, every call keeps.
use gofin.Prelude.{All, ℕ, String, Bool, true, false, Option, none, some, List, [], ◌∷◌}
use gofin.Auth.Service.{
  consume_claims, issue, logout_answer, list_users, logout, require, require_not, require_strength,
  require_written, register, login, validate_token, get_user, refresh_token, logout_claims,
  complete_user_onboarding, update_profile, assume_identity, restore_identity, change_password,
  delete_refresh_token_blacklist, delete_user_row,
}
use gofin.Exec.{raise, pure}
use gofin.Auth.Model.{
  User, Store, Environment, Claims, RegisterRequest, LoginRequest, UpdateProfileRequest,
  ChangePasswordRequest, role_user,
}
use gofin.Auth.Repository.{
  fits, Written, duplicate, missing, written, statement, create_user, get_user_by_email,
  get_user_by_username, get_user_by_id, complete_onboarding, list_all_users, update_user,
  update_password, revoke_all_user_tokens, get_tokens_revoked_at, delete_user, consume_token,
  blacklist_token, cleanup_expired, delete_by_user_id,
}
use gofin.Auth.Tokens.{validate_refresh_token}
use gofin.Auth.Grpc.{verify_password, grpc_get_user, grpc_validate_token, delete_user_data}
use gofin.Auth.Calls.{serve_all, serve, Call}
use gofin.Api.{Error, Result, ok, err}
use gofin.Exec.Keeps.{Keeps, Keeps-raise, Keeps-pure, keeps_rules}

-- Every method that writes keeps `P`, and so do the concurrent requests; the deletion of a user's
-- revoked tokens does where `Spares` holds of the user's id.
pub record WritesKeep (P : Store → Type 0) (Spares : Environment → String → Type 0)
    (env : Environment) : Type 0 where
  pub others : (name : String) (s : Store) → P s → P (env.others name s)
  pub creates :
      (username email hash currency : String)
      → Keeps P (create_user env username email hash role_user currency)
  pub updates :
      (id username email currency : String) → Keeps P (update_user env id username email currency)
  pub onboards : (id currency : String) → Keeps P (complete_onboarding env id currency)
  pub rehashes : (id hash : String) → Keeps P (update_password env id hash)
  pub revokes : (id : String) → Keeps P (revoke_all_user_tokens env id)
  pub deletes : (id : String) → Keeps P (delete_user env id)
  pub consumes : (jti id : String) (t : ℕ) → Keeps P (consume_token env jti id t)
  pub blacklists : (jti id : String) (t : ℕ) → Keeps P (blacklist_token env jti id t)
  pub cleans : Keeps P (cleanup_expired env)
  pub clears : (id : String) → Spares env id → Keeps P (delete_by_user_id env id)

module _ {P : Store → Type 0} where
  require-Keeps : {A : Type 0} (e : Error) (o : Option A) → Keeps P (require e o)
  unfolding require
  require-Keeps e none = Keeps-raise e
  require-Keeps e (some a) = Keeps-pure a

  require_not-Keeps : (e : Error) (b : Bool) → Keeps P (require_not e b)
  unfolding require_not
  require_not-Keeps e true = Keeps-raise e
  require_not-Keeps e false = Keeps-pure tt

  require_strength-Keeps : (o : Option String) → Keeps P (require_strength o)
  unfolding require_strength
  require_strength-Keeps none = Keeps-pure tt
  require_strength-Keeps (some text) = Keeps-raise _

  require_written-Keeps : (w : Written) → Keeps P (require_written w)
  unfolding require_written
  require_written-Keeps (duplicate c) = Keeps-raise _
  require_written-Keeps missing = Keeps-raise _
  require_written-Keeps (written u) = Keeps-pure u

ruleset guard_rules =
    (keeps_rules, require-Keeps, require_not-Keeps, require_strength-Keeps, require_written-Keeps)

module _ {P : Store → Type 0} (env : Environment)
    (others : (name : String) (s : Store) → P s → P (env.others name s)) where
  pub statement-Keeps : (name : String) → Keeps P (statement env name)
  unfolding statement
  statement-Keeps name = record { after = λ s h. others name s h }

  pub fits-Keeps : (u : User) → Keeps P (fits env u)
  unfolding fits
  fits-Keeps u = go (env.misfit u)
    where
      go : (q : Option Error) → Keeps P (elim q [ none ↦ pure tt | some e ↦ raise e ])
      go none = Keeps-pure tt
      go (some e) = Keeps-raise e

  pub get_user_by_id-Keeps : (id : String) → Keeps P (get_user_by_id env id)
  unfolding get_user_by_id
  get_user_by_id-Keeps id = search (keeps_rules, statement-Keeps)

  get_user_by_email-Keeps : (email : String) → Keeps P (get_user_by_email env email)
  unfolding get_user_by_email
  get_user_by_email-Keeps email = search (keeps_rules, statement-Keeps)

  get_user_by_username-Keeps : (username : String) → Keeps P (get_user_by_username env username)
  unfolding get_user_by_username
  get_user_by_username-Keeps username = search (keeps_rules, statement-Keeps)

  pub issue-Keeps : (c : Claims) → Keeps P (issue env c)
  unfolding issue
  issue-Keeps c = search (guard_rules, get_user_by_id-Keeps) depth 12

  get_tokens_revoked_at-Keeps : (id : String) → Keeps P (get_tokens_revoked_at env id)
  unfolding get_tokens_revoked_at
  get_tokens_revoked_at-Keeps id = search (keeps_rules, statement-Keeps)

  list_all_users-Keeps : Keeps P (list_all_users env)
  unfolding list_all_users
  list_all_users-Keeps = search (keeps_rules, statement-Keeps)

-- The calls whose deletions spare what is kept.
abbrev pub IsSparing : (Environment → String → Type 0) → Environment → Call → Type 0
IsSparing Spares env (Call.deletes_user_data id) = Spares env id
IsSparing Spares env c = Unit

module _ {P : Store → Type 0} {Spares : Environment → String → Type 0} {env : Environment}
    (w : WritesKeep P Spares env) where
  register-Keeps : (req : RegisterRequest) → Keeps P (register env req)
  unfolding register
  register-Keeps req =
      search
        (
          guard_rules,
          get_user_by_email-Keeps env w.others,
          get_user_by_username-Keeps env w.others,
          w.creates,
        )
        depth 12

  login-Keeps : (req : LoginRequest) → Keeps P (login env req)
  unfolding login
  login-Keeps req = search (guard_rules, get_user_by_email-Keeps env w.others)

  validate_token-Keeps : (token : String) → Keeps P (validate_token env token)
  unfolding validate_token
  validate_token-Keeps token = search (guard_rules, get_tokens_revoked_at-Keeps env w.others)

  get_user-Keeps : (id : String) → Keeps P (get_user env id)
  unfolding get_user
  get_user-Keeps id = search (guard_rules, get_user_by_id-Keeps env w.others)

  consume_claims-Keeps : (c : Claims) → Keeps P (consume_claims env c)
  unfolding consume_claims
  consume_claims-Keeps c = search (keeps_rules, w.consumes)

  refresh_token-Keeps : (token : String) → Keeps P (refresh_token env token)
  unfolding refresh_token
  refresh_token-Keeps token =
      search (guard_rules, consume_claims-Keeps, issue-Keeps env w.others) depth 12

  logout_claims-Keeps : (c : Claims) → Keeps P (logout_claims env c)
  unfolding logout_claims
  logout_claims-Keeps c = search (guard_rules, w.blacklists)

  update_profile-Keeps :
      (id : String) (req : UpdateProfileRequest) → Keeps P (update_profile env id req)
  unfolding update_profile
  update_profile-Keeps id req =
      search
        (
          guard_rules,
          get_user_by_email-Keeps env w.others,
          get_user_by_username-Keeps env w.others,
          w.updates,
        )
        depth 12

  complete_user_onboarding-Keeps :
      (id currency : String) → Keeps P (complete_user_onboarding env id currency)
  unfolding complete_user_onboarding
  complete_user_onboarding-Keeps id currency = search (guard_rules, w.onboards)

  assume_identity-Keeps : (admin target : String) → Keeps P (assume_identity env admin target)
  unfolding assume_identity
  assume_identity-Keeps admin target = search (guard_rules, get_user_by_id-Keeps env w.others)

  restore_identity-Keeps : (admin : String) → Keeps P (restore_identity env admin)
  unfolding restore_identity
  restore_identity-Keeps admin = search (guard_rules, get_user_by_id-Keeps env w.others) depth 12

  change_password-Keeps :
      (id : String) (req : ChangePasswordRequest) → Keeps P (change_password env id req)
  unfolding change_password
  change_password-Keeps id req =
      search (guard_rules, get_user_by_id-Keeps env w.others, w.rehashes, w.revokes) depth 12

  delete_refresh_token_blacklist-Keeps :
      (id : String) → Spares env id → Keeps P (delete_refresh_token_blacklist env id)
  unfolding delete_refresh_token_blacklist
  delete_refresh_token_blacklist-Keeps id h = w.clears id h

  delete_user_row-Keeps : (id : String) → Keeps P (delete_user_row env id)
  unfolding delete_user_row
  delete_user_row-Keeps id = w.deletes id

  delete_user_data-Keeps : (id : String) → Spares env id → Keeps P (delete_user_data env id)
  unfolding delete_user_data
  delete_user_data-Keeps id h =
      search (guard_rules, delete_refresh_token_blacklist-Keeps, delete_user_row-Keeps) depth 12

  grpc_validate_token-Keeps : (token : String) → Keeps P (grpc_validate_token env token)
  unfolding grpc_validate_token
  grpc_validate_token-Keeps token = search (guard_rules, validate_token-Keeps)

  grpc_get_user-Keeps : (id : String) → Keeps P (grpc_get_user env id)
  unfolding grpc_get_user
  grpc_get_user-Keeps id = search (guard_rules, get_user-Keeps)

  verify_password-Keeps : (id password : String) → Keeps P (verify_password env id password)
  unfolding verify_password
  verify_password-Keeps id password = search (guard_rules, get_user-Keeps)

  list_users-Keeps : Keeps P (list_users env)
  unfolding list_users
  list_users-Keeps = list_all_users-Keeps env w.others

  logout_answer-Keeps : (r : Result Claims) → Keeps P (logout_answer env r)
  logout_answer-Keeps (err e) = search keeps_rules
  logout_answer-Keeps (ok c) = logout_claims-Keeps c

  logout-Keeps : (token : String) → Keeps P (logout env token)
  unfolding logout
  logout-Keeps token = logout_answer-Keeps (validate_refresh_token env token)

  pub serve-Keeps : (c : Call) (s : Store) → IsSparing Spares env c → P s → P (serve env c s)
  unfolding serve
  serve-Keeps (Call.registers req) s a h = (register-Keeps req).after s h
  serve-Keeps (Call.logs_in req) s a h = (login-Keeps req).after s h
  serve-Keeps (Call.validates token) s a h = (grpc_validate_token-Keeps token).after s h
  serve-Keeps (Call.gets_user id) s a h = (grpc_get_user-Keeps id).after s h
  serve-Keeps (Call.verifies id password) s a h = (verify_password-Keeps id password).after s h
  serve-Keeps (Call.refreshes token) s a h = (refresh_token-Keeps token).after s h
  serve-Keeps (Call.logs_out token) s a h = (logout-Keeps token).after s h
  serve-Keeps (Call.completes_onboarding id currency) s a h =
      (complete_user_onboarding-Keeps id currency).after s h
  serve-Keeps (Call.updates_profile id req) s a h = (update_profile-Keeps id req).after s h
  serve-Keeps Call.lists_users s a h = (list_users-Keeps).after s h
  serve-Keeps (Call.assumes admin target) s a h = (assume_identity-Keeps admin target).after s h
  serve-Keeps (Call.restores admin) s a h = (restore_identity-Keeps admin).after s h
  serve-Keeps (Call.changes_password id req) s a h = (change_password-Keeps id req).after s h
  serve-Keeps Call.cleans_up s a h = w.cleans.after s h
  serve-Keeps (Call.deletes_user_data id) s a h = (delete_user_data-Keeps id a).after s h

abbrev pub AllKeep :
    (Store → Type 0) → (Environment → String → Type 0) → List (Environment × Call) → Type 0
AllKeep P Spares = All (λ c. WritesKeep P Spares c.0 × IsSparing Spares c.0 c.1)

pub serve_all-Keeps :
    (P : Store → Type 0) (Spares : Environment → String → Type 0)
    (calls : List (Environment × Call)) (s : Store)
    → AllKeep P Spares calls
    → P s
    → P (serve_all calls s)
unfolding serve_all
serve_all-Keeps P Spares [] s a h = h
serve_all-Keeps P Spares ((env, c) ∷ calls) s a h =
    serve_all-Keeps P Spares calls (serve env c s) a.1 (serve-Keeps a.0.0 c s a.0.1 h)
