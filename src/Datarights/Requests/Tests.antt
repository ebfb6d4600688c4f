-- ===== src/Datarights/Requests/Tests.antt =====
-- Requests for exports and deletions on concrete tables.
use gofin.Exec.{◌>>=◌, gets, raise, pure, lift}
use gofin.Prelude.{take, ◌*◌, ◌≤◌, ◌≡◌, refl, ◌⊎◌, true, none, some, [], ◌∷◌, arith, str_eq}
use gofin.Datarights.Requests.Single.{at_rest, and_then, asked, Reaches-OneActive, OneActive}
use gofin.Datarights.Requests.{
  clamp_page_size, rate_limited, raise, pure, start_deletion, bad_credentials,
  check_export_conflict, is_protected_username, list_exports, username_answer,
  check_protected_username, lift, check_that, password_answer, start_export, verify_password, pos,
  ok, request_export, Service, request_deletion, AuthClient,
}
use gofin.Datarights.Requests.Deletion.{started, request_deletion-DeletionAnswer, DeletionAnswer}
use gofin.Datarights.Jobs.{
  insert_deletion, create_deletion_job, query, is_failed, get_in_progress_deletion, is_active,
  first_row, get_latest_non_failed_job, get_in_progress_export, exports_of, Tables, ExportJob,
}
use gofin.Datarights.Requests.Listing.{list_exports-first_pages, has_next, first_pages}
use gofin.Api.{err, ok}
use gofin.Datarights.Pool.{completed}
use gofin.Datarights.Requests.Export.{request_export-ExportAnswer, ExportAnswer}
use gofin.Prelude.Int.{pos}

abbrev auth_client : AuthClient
auth_client = record {
  verify_password = λ id password. ok (str_eq password "secret");
  get_username = λ id. ok "bob";
}

abbrev service : Service
service = record {
  db = record { statement = λ name. none; db_now = 4000000; new_id = "j2" };
  auth_client = some auth_client;
  protected_usernames = "root" ∷ [];
  has_export_repo = true;
  has_engine = true;
  user_email = λ id. ok "bob@example.com";
  now = 4000000;
}

abbrev old_export : ExportJob
old_export = record {
  id = "j1";
  user_id = "u1";
  status = completed;
  error = none;
  file_size_bytes = some (pos 12);
  created_at = 1000000;
  completed_at = some 1000100;
  updated_at = 1000100;
}

abbrev tables : Tables
tables = record {
  exports = old_export ∷ [];
  deletions = [];
  submitted_exports = [];
  submitted_deletions = [];
}

-- The request is granted, and the user's second one finds the first.
deletion_granted :
    (request_deletion service "u1" "a1" "secret" tables).1 ≡ ok (started service "u1" "a1")
unfolding request_deletion verify_password password_answer check_that check_protected_username
    username_answer is_protected_username check_export_conflict get_in_progress_export
    get_in_progress_deletion first_row is_active start_deletion create_deletion_job query
    insert_deletion pure raise lift gets ◌>>=◌
deletion_granted = refl

wrong_password : request_deletion service "u1" "a1" "guess" tables ≡ (tables, err bad_credentials)
unfolding request_deletion verify_password password_answer lift ◌>>=◌
wrong_password = refl

too_early : (request_export (record service { now = 3000000 }) "u1" tables).1 ≡ err rate_limited
unfolding request_export start_export check_that get_in_progress_export get_latest_non_failed_job
    first_row is_active is_failed query pure raise lift gets ◌>>=◌
too_early = refl

request_deletion-DeletionAnswer_example :
    DeletionAnswer service "u1" "a1" "secret" tables
      (request_deletion service "u1" "a1" "secret" tables)
request_deletion-DeletionAnswer_example =
    request_deletion-DeletionAnswer service "u1" "a1" "secret" tables

request_export-ExportAnswer_example :
    ExportAnswer service "u1" tables (request_export service "u1" tables)
request_export-ExportAnswer_example = request_export-ExportAnswer service "u1" tables

abbrev after_request : Tables
after_request = (request_deletion service "u1" "a1" "secret" tables).0

tables-OneActive : OneActive tables
tables-OneActive u = omega arith

Reaches-OneActive_example : OneActive (request_deletion service "u1" "a2" "secret" after_request).0
Reaches-OneActive_example =
    Reaches-OneActive service
      (and_then (asked "u1" "a1" "secret" tables)
        (and_then (asked "u1" "a2" "secret" after_request) at_rest))
      tables-OneActive

list_exports-first_pages_example :
    ((1 ≤ clamp_page_size (pos 0)) × (clamp_page_size (pos 0) ≤ 50))
    × (first_pages service "u1" (pos 0) tables 1
        ≡ take (1 * clamp_page_size (pos 0)) (exports_of service.db "u1" tables))
    × ((has_next (list_exports service "u1" (pos 1) (pos 0) tables).1 ≡ true)
        ⊎ (first_pages service "u1" (pos 0) tables 1 ≡ exports_of service.db "u1" tables))
unfolding clamp_page_size
list_exports-first_pages_example =
    list_exports-first_pages service "u1" (pos 0) tables refl refl 0 (ground arith)
