-- ===== src/Datarights/Requests.antt =====
-- services/datarights/internal/service: the requests for exports and deletions.
pub mod Deletion
pub mod Listing
pub mod Reads
pub mod Single
pub mod Tests
pub mod Export
use gofin.Prelude.{
  ltb, ◌==◌, if◌then◌else◌, ℕ, ◌+◌, ◌*◌, String, Bool, true, false, not, Option, none, some, List,
  [], ◌∷◌, ◌++◌, str_eq,
}
use gofin.Prelude.Int.{wrap64, ℤ, pos, ltb_ℤ, pos_part}
use gofin.Api.{Error, grpc, other, api, coded, Result, ok, err, validation, not_found}
use gofin.Exec.{Exec, pure, raise, lift, ◌>>=◌, ◌>>◌}
use gofin.Datarights.Jobs.{
  Tables, Database, ExportJob, DeletionJob, create_export_job, get_export_job,
  get_in_progress_export, get_latest_non_failed_job, list_jobs_by_user, create_deletion_job,
  get_deletion_job, get_in_progress_deletion,
}

-- What the service is configured with: the auth service's client, by its answers, the usernames that
-- are protected, whether there is a repository of exports to look at and whether there are engines.
-- `user_email` is the resolver's answer, and `now` the service's clock.
pub record AuthClient : Type 0 where
  pub verify_password : String → String → Result Bool
  pub get_username : String → Result String

pub record Service : Type 0 where
  pub db : Database
  pub auth_client : Option AuthClient
  pub protected_usernames : List String
  pub has_export_repo : Bool
  pub has_engine : Bool
  pub user_email : String → Result String
  pub now : ℕ

pub record CreateDeletionJobResult : Type 0 where
  pub job : DeletionJob
  pub is_existing : Bool

pub record CreateJobResult : Type 0 where
  pub job : ExportJob
  pub is_existing : Bool

-- 30 days in seconds.
abbrev pub rate_limit_window : ℕ
rate_limit_window = 30 * 24 * 3600

abbrev pub auth_unavailable : Error
auth_unavailable = coded "SERVICE_UNAVAILABLE" "Auth service unavailable" 503

abbrev pub bad_credentials : Error
bad_credentials = coded "INVALID_CREDENTIALS" "Invalid credentials" 401

abbrev pub protected_user : Error
protected_user = coded "PROTECTED_USER" "Cannot delete a protected user account" 403

abbrev pub export_conflict : Error
export_conflict = coded "EXPORT_CONFLICT" "Cannot delete user while data export is in progress" 409

abbrev pub no_client : Error
no_client = other "auth client not configured"

-- An error of the auth service: 14 is gRPC's code Unavailable.
unfoldable pub client_error : Error → Error
client_error (grpc c) = if c == 14 then auth_unavailable else grpc c
client_error (api e) = api e
client_error (other text) = other text

unfoldable pub is_protected_username : List String → String → Bool
is_protected_username [] username = false
is_protected_username (name ∷ protected) username =
    if str_eq username name then true else is_protected_username protected username

unfoldable pub password_answer : Result Bool → Result {0} (Unit {0})
unfolding client_error
password_answer (err e) = err (client_error e)
password_answer (ok valid) = if valid then ok tt else err bad_credentials

unfoldable pub username_answer : List String → Result String → Result {0} (Unit {0})
unfolding client_error is_protected_username
username_answer protected (err e) = err (client_error e)
username_answer protected (ok username) =
    if is_protected_username protected username then err protected_user else ok tt

unfoldable pub check_that : Bool → Error → Exec Tables Unit
check_that true e = pure tt
check_that false e = raise e

abbrev pub is_none {ℓ} : {A : Type ℓ} → Option A → Bool
is_none none = true
is_none (some a) = false

-- Go's Time.Before and Add on the clock's seconds.
abbrev pub is_limited : ℕ → Option ExportJob → Bool
is_limited now none = false
is_limited now (some j) = ltb now (j.created_at + rate_limit_window)

-- RateLimitError; the time that it carries is that of the job, plus the window.
abbrev pub rate_limited : Error
rate_limited = other "rate limited"

pub record JobListResponse : Type 0 where
  pub jobs : List ExportJob
  pub total : ℕ
  pub page : ℕ
  pub page_size : ℕ
  pub has_more : Bool

unfoldable pub clamp_page : ℤ → ℕ
clamp_page page = if ltb_ℤ page (pos 1) then 1 else pos_part page

unfoldable pub clamp_page_size : ℤ → ℕ
clamp_page_size page_size =
    if ltb_ℤ page_size (pos 1)
    then 10
    else if ltb_ℤ (pos 50) page_size
    then 50
    else pos_part page_size

module _ (svc : Service) where
  unfoldable pub verify_password : String → String → Result {0} (Unit {0})
  unfolding password_answer
  verify_password admin_user_id password = elim svc.auth_client [
    | none ↦ err no_client
    | some c ↦ password_answer (c.verify_password admin_user_id password)
  ]

  unfoldable pub check_protected_username : String → Result {0} (Unit {0})
  unfolding username_answer
  check_protected_username user_id = elim svc.auth_client [
    | none ↦ err no_client
    | some c ↦ username_answer svc.protected_usernames (c.get_username user_id)
  ]

  unfoldable pub check_export_conflict : String → Exec Tables Unit
  unfolding get_in_progress_export check_that
  check_export_conflict user_id = if not svc.has_export_repo then pure tt else do
    export_job ← get_in_progress_export svc.db user_id
    check_that (is_none export_job) export_conflict

  abbrev pub submit_deletion : DeletionJob → Exec Tables Unit
  submit_deletion job s = (
    if svc.has_engine
        then record s {
          submitted_deletions = s.submitted_deletions ++ ((job.id, job.user_id) ∷ []);
        }
        else s,
    ok tt,
  )

  unfoldable pub start_deletion : String → String → Exec Tables CreateDeletionJobResult
  unfolding create_deletion_job
  start_deletion user_id admin_user_id = do
    job ← create_deletion_job svc.db user_id admin_user_id
    submit_deletion job
    pure (record { job = job; is_existing = false })

  abbrev pub deletion_or_start :
      String → String → Option DeletionJob → Exec Tables CreateDeletionJobResult
  deletion_or_start user_id admin_user_id (some existing) =
      pure (record { job = existing; is_existing = true })
  deletion_or_start user_id admin_user_id none = start_deletion user_id admin_user_id

  unfoldable pub request_deletion : String → String → String → Exec Tables CreateDeletionJobResult
  unfolding verify_password check_that check_protected_username check_export_conflict
      get_in_progress_deletion start_deletion
  request_deletion user_id admin_user_id password = do
    lift (verify_password admin_user_id password)
    check_that (not (str_eq user_id admin_user_id)) (validation "Cannot delete your own account" [])
    lift (check_protected_username user_id)
    check_export_conflict user_id
    existing ← get_in_progress_deletion svc.db user_id
    deletion_or_start user_id admin_user_id existing

  abbrev pub found_deletion : Option DeletionJob → Exec Tables DeletionJob
  found_deletion none = raise (not_found "Deletion job not found")
  found_deletion (some job) = pure job

  unfoldable pub get_deletion : String → Exec Tables DeletionJob
  unfolding get_deletion_job
  get_deletion job_id = do job ← get_deletion_job svc.db job_id; found_deletion job

  abbrev pub or_empty : Result String → String
  or_empty (ok email) = email
  or_empty (err e) = ""

  -- A user whose email is not resolved is submitted with none.
  abbrev pub submit_export : ExportJob → Exec Tables Unit
  submit_export job s = (
    if svc.has_engine
        then record s {
          submitted_exports =
              s.submitted_exports
              ++ ((job.id, job.user_id, or_empty (svc.user_email job.user_id)) ∷ []);
        }
        else s,
    ok tt,
  )

  unfoldable pub store_export : String → Exec Tables CreateJobResult
  unfolding create_export_job
  store_export user_id = do
    job ← create_export_job svc.db user_id
    submit_export job
    pure (record { job = job; is_existing = false })

  unfoldable pub start_export : String → Exec Tables CreateJobResult
  unfolding get_latest_non_failed_job check_that store_export
  start_export user_id = do
    latest ← get_latest_non_failed_job svc.db user_id
    check_that (not (is_limited svc.now latest)) rate_limited
    store_export user_id

  abbrev pub export_or_start : String → Option ExportJob → Exec Tables CreateJobResult
  export_or_start user_id (some existing) = pure (record { job = existing; is_existing = true })
  export_or_start user_id none = start_export user_id

  unfoldable pub request_export : String → Exec Tables CreateJobResult
  unfolding get_in_progress_export start_export
  request_export user_id = do
    existing ← get_in_progress_export svc.db user_id
    export_or_start user_id existing

  abbrev pub owned_export : String → Option ExportJob → Exec Tables ExportJob
  owned_export user_id none = raise (not_found "Export job not found")
  owned_export user_id (some job) =
      if str_eq job.user_id user_id then pure job else raise (not_found "Export job not found")

  unfoldable pub get_export : String → String → Exec Tables ExportJob
  unfolding get_export_job
  get_export job_id user_id = do job ← get_export_job svc.db job_id; owned_export user_id job

  -- The page, its size and what they give.
  unfoldable pub list_exports : String → ℤ → ℤ → Exec Tables JobListResponse
  unfolding list_jobs_by_user clamp_page clamp_page_size
  list_exports user_id page page_size = do
    let p = clamp_page page
    let n = clamp_page_size page_size
    (jobs, total) ← list_jobs_by_user svc.db user_id p n
    pure (record {
      jobs = jobs;
      total = total;
      page = p;
      page_size = n;
      has_more = ltb_ℤ (wrap64 (pos (p * n))) (pos total);
    })
