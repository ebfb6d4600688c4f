-- ===== src/Datarights/Jobs.antt =====
-- services/datarights/internal/repository: the tables of export and deletion jobs. Times are in
-- seconds. Rows stand in the order of insertion.
use gofin.Prelude.{
  leb, if◌then◌else◌, length, take, drop, keep, sort_by, ℕ, ◌-◌, ◌*◌, String, Bool, true, false,
  not, ◌&&◌, Option, none, some, List, [], ◌∷◌, ◌++◌, map, str_eq,
}
use gofin.Api.{other, Result, Error, ok, err}
use gofin.Prelude.Int.{negsuc, pos, wrap64, ℤ}
use gofin.Exec.{Exec, gets, ◌>>=◌, ◌>>◌}
use gofin.Datarights.Pool.{JobStatus, pending, running, completed, failed}

pub record ExportJob : Type 0 where
  pub id : String
  pub user_id : String
  pub status : JobStatus
  pub error : Option String
  pub file_size_bytes : Option ℤ
  pub created_at : ℕ
  pub completed_at : Option ℕ
  pub updated_at : ℕ

pub record DeletionJob : Type 0 where
  pub id : String
  pub user_id : String
  pub admin_user_id : String
  pub status : JobStatus
  pub error : Option String
  pub created_at : ℕ
  pub completed_at : Option ℕ
  pub updated_at : ℕ

-- The two tables, and the jobs handed to the engines: the job's id, the user's and the email.
pub record Tables : Type 0 where
  pub exports : List ExportJob
  pub deletions : List DeletionJob
  pub submitted_exports : List (String × String × String)
  pub submitted_deletions : List (String × String)

-- A statement of a repository method fails with an error and writes nothing; `db_now` is the
-- database's clock, and `new_id` the id of a new row.
pub record Database : Type 0 where
  pub statement : String → Option Error
  pub db_now : ℕ
  pub new_id : String

unfoldable pub is_active : JobStatus → Bool
is_active pending = true
is_active running = true
is_active completed = false
is_active failed = false

unfoldable pub is_failed : JobStatus → Bool
is_failed failed = true
is_failed pending = false
is_failed running = false
is_failed completed = false

unfoldable pub first_row {ℓ} : {A : Type ℓ} → List A → Option A
first_row [] = none
first_row (x ∷ xs) = some x

abbrev pub newest_first : ExportJob → ExportJob → Bool
newest_first a b = leb b.created_at a.created_at

abbrev pub active_export_of : String → ExportJob → Bool
active_export_of user_id j = str_eq j.user_id user_id && is_active j.status

abbrev pub counted_export_of : String → ExportJob → Bool
counted_export_of user_id j = str_eq j.user_id user_id && not (is_failed j.status)

abbrev pub active_deletion_of : String → DeletionJob → Bool
active_deletion_of user_id j = str_eq j.user_id user_id && is_active j.status

abbrev pub export_with : String → ExportJob → Bool
export_with id j = str_eq j.id id

abbrev pub deletion_with : String → DeletionJob → Bool
deletion_with id j = str_eq j.id id

abbrev pub change_export : String → (ExportJob → ExportJob) → List ExportJob → List ExportJob
change_export id f = map (λ j. if export_with id j then f j else j)

abbrev pub change_deletion :
    String → (DeletionJob → DeletionJob) → List DeletionJob → List DeletionJob
change_deletion id f = map (λ j. if deletion_with id j then f j else j)

module _ (db : Database) where
  unfoldable pub query : String → Exec Tables Unit
  query name s = (s, elim (db.statement name) [ none ↦ ok tt | some e ↦ err e ])

  abbrev write : (Tables → Tables) → Exec Tables Unit
  write f s = (f s, ok tt)

  -- PostgresJobRepository.
  abbrev pub new_export : String → ExportJob
  new_export user_id = record {
    id = db.new_id;
    user_id = user_id;
    status = pending;
    error = none;
    file_size_bytes = none;
    created_at = db.db_now;
    completed_at = none;
    updated_at = db.db_now;
  }

  unfoldable pub insert_export : String → Exec Tables ExportJob
  insert_export user_id s =
      (record s { exports = s.exports ++ (new_export user_id ∷ []) }, ok (new_export user_id))

  unfoldable pub create_export_job : String → Exec Tables ExportJob
  unfolding query insert_export
  create_export_job user_id = do query "export.CreateJob"; insert_export user_id

  unfoldable pub get_export_job : String → Exec Tables (Option ExportJob)
  unfolding query first_row
  get_export_job id = do
    query "export.GetJob"
    gets (λ s. first_row (keep (export_with id) s.exports))

  unfoldable pub get_in_progress_export : String → Exec Tables (Option ExportJob)
  unfolding query first_row is_active
  get_in_progress_export user_id = do
    query "export.GetInProgressJob"
    gets (λ s. first_row (keep (active_export_of user_id) s.exports))

  unfoldable pub get_latest_non_failed_job : String → Exec Tables (Option ExportJob)
  unfolding query first_row is_failed
  get_latest_non_failed_job user_id = do
    query "export.GetLatestNonFailedJob"
    gets (λ s. first_row (sort_by newest_first (keep (counted_export_of user_id) s.exports)))

  abbrev pub exports_of : String → Tables → List ExportJob
  exports_of user_id s = sort_by newest_first (keep (λ j. str_eq j.user_id user_id) s.exports)

  -- A page of rows. PostgreSQL refuses a negative offset, and an int64 product that wrapped may be one.
  abbrev pub page_at : ℤ → ℕ → List ExportJob → Result (List ExportJob)
  page_at (pos offset) limit rows = ok (take limit (drop offset rows))
  page_at (negsuc n) limit rows = err (other "OFFSET must not be negative")

  -- The page and the number of all jobs of the user; the page and its size are at least 1.
  unfoldable pub list_jobs_by_user : String → ℕ → ℕ → Exec Tables (List ExportJob × ℕ)
  unfolding query
  list_jobs_by_user user_id page page_size = do
    query "export.ListJobsByUser.count"
    total ← gets (λ s. length (exports_of user_id s))
    query "export.ListJobsByUser"
    rows ←
        (λ s. (s, page_at (wrap64 (pos ((page - 1) * page_size))) page_size (exports_of user_id s)))
    gets (λ s. (rows, total))

  unfoldable pub update_export_status : String → JobStatus → Exec Tables Unit
  unfolding query
  update_export_status id status = do
    query "export.UpdateStatus"
    write (λ s. record s {
      exports =
          change_export id (λ j. record j { status = status; updated_at = db.db_now }) s.exports;
    })

  unfoldable pub complete_export_job : String → ℤ → Exec Tables Unit
  unfolding query
  complete_export_job id file_size_bytes = do
    query "export.CompleteJob"
    write (λ s. record s {
      exports =
          change_export id
            (λ j. record j {
              status = completed;
              file_size_bytes = some file_size_bytes;
              completed_at = some db.db_now;
              updated_at = db.db_now;
            })
            s.exports;
    })

  unfoldable pub fail_export_job : String → String → Exec Tables Unit
  unfolding query
  fail_export_job id message = do
    query "export.FailJob"
    write (λ s. record s {
      exports =
          change_export id
            (λ j. record j {
              status = failed;
              error = some message;
              completed_at = some db.db_now;
              updated_at = db.db_now;
            })
            s.exports;
    })

  unfoldable pub get_non_terminal_exports : Exec Tables (List (String × String))
  unfolding query is_active
  get_non_terminal_exports = do
    query "export.GetNonTerminalJobs"
    gets
        (λ s. map (λ (j : ExportJob). (j.id, j.user_id)) (keep (λ j. is_active j.status) s.exports))

  -- PostgresDeletionJobRepository.
  abbrev pub new_deletion : String → String → DeletionJob
  new_deletion user_id admin_user_id = record {
    id = db.new_id;
    user_id = user_id;
    admin_user_id = admin_user_id;
    status = pending;
    error = none;
    created_at = db.db_now;
    completed_at = none;
    updated_at = db.db_now;
  }

  unfoldable pub insert_deletion : String → String → Exec Tables DeletionJob
  insert_deletion user_id admin_user_id s = (
    record s { deletions = s.deletions ++ (new_deletion user_id admin_user_id ∷ []) },
    ok (new_deletion user_id admin_user_id),
  )

  unfoldable pub create_deletion_job : String → String → Exec Tables DeletionJob
  unfolding query insert_deletion
  create_deletion_job user_id admin_user_id = do
    query "deletion.CreateJob"
    insert_deletion user_id admin_user_id

  unfoldable pub get_deletion_job : String → Exec Tables (Option DeletionJob)
  unfolding query first_row
  get_deletion_job id = do
    query "deletion.GetJob"
    gets (λ s. first_row (keep (deletion_with id) s.deletions))

  unfoldable pub get_in_progress_deletion : String → Exec Tables (Option DeletionJob)
  unfolding query first_row is_active
  get_in_progress_deletion user_id = do
    query "deletion.GetInProgressJob"
    gets (λ s. first_row (keep (active_deletion_of user_id) s.deletions))

  unfoldable pub update_deletion_status : String → JobStatus → Exec Tables Unit
  unfolding query
  update_deletion_status id status = do
    query "deletion.UpdateStatus"
    write (λ s. record s {
      deletions =
          change_deletion id (λ j. record j { status = status; updated_at = db.db_now })
            s.deletions;
    })

  unfoldable pub complete_deletion_job : String → Exec Tables Unit
  unfolding query
  complete_deletion_job id = do
    query "deletion.CompleteJob"
    write (λ s. record s {
      deletions =
          change_deletion id
            (λ j. record j {
              status = completed;
              completed_at = some db.db_now;
              updated_at = db.db_now;
            })
            s.deletions;
    })

  unfoldable pub fail_deletion_job : String → String → Exec Tables Unit
  unfolding query
  fail_deletion_job id message = do
    query "deletion.FailJob"
    write (λ s. record s {
      deletions =
          change_deletion id
            (λ j. record j {
              status = failed;
              error = some message;
              completed_at = some db.db_now;
              updated_at = db.db_now;
            })
            s.deletions;
    })

  unfoldable pub get_non_terminal_deletions : Exec Tables (List (String × String))
  unfolding query is_active
  get_non_terminal_deletions = do
    query "deletion.GetNonTerminalJobs"
    gets (λ s.
        map (λ (j : DeletionJob). (j.id, j.user_id)) (keep (λ j. is_active j.status) s.deletions))
