-- ===== src/Datarights/Requests/Export.antt =====
-- `ExportService.CreateJob` of services/datarights/internal/service/export.go.
use gofin.Exec.{◌>>=◌, pure}
use gofin.Prelude.{
  if◌then◌else◌, Bool-cases, keep, insert_by, sort_by, All, ℕ, ◌+◌, ◌≤◌, String, ◌≡◌, refl, ◌⊎◌,
  inl, inr, true, false, not, Option, none, some, List, [], ◌∷◌, ◌++◌, arith,
}
use gofin.Api.{ok, Error, err, Result}
use gofin.Datarights.Requests.Reads.{check_that-Answers, query-Answers, bind-Answers}
use gofin.Datarights.Requests.{
  export_or_start, start_export, request_export, store_export, or_empty, is_limited,
  rate_limit_window, CreateJobResult, Service,
}
use gofin.Datarights.Jobs.{
  get_latest_non_failed_job, get_in_progress_export, insert_export, query, create_export_job,
  newest_first, new_export, counted_export_of, active_export_of, Tables, ExportJob, first_row,
}

-- The user's exports that did not fail are all older than the window.
abbrev pub IsRested : ℕ → String → List ExportJob → Type 0
IsRested now u jobs =
    All (λ j. j.created_at + rate_limit_window ≤ now) (keep (counted_export_of u) jobs)

abbrev pub active_export : String → Tables → Option ExportJob
active_export u s = first_row (keep (active_export_of u) s.exports)

-- The tables with one more job, which the engine has, with the user's email or none.
abbrev pub with_export : Service → String → Tables → Tables
with_export svc u s = record s {
  exports = s.exports ++ (new_export svc.db u ∷ []);
  submitted_exports =
      if svc.has_engine
      then s.submitted_exports ++ ((svc.db.new_id, u, or_empty svc (svc.user_email u)) ∷ [])
      else s.submitted_exports;
}

abbrev pub exported : Service → String → CreateJobResult
exported svc u = record { job = new_export svc.db u; is_existing = false }

abbrev pub ExportAnswer : Service → String → Tables → Tables × Result CreateJobResult → Type 0
ExportAnswer svc u s (t, err e) = t ≡ s
ExportAnswer svc u s (t, ok r) =
    ((active_export u s ≡ some r.job) × (t ≡ s) × (r.is_existing ≡ true))
    ⊎ ((active_export u s ≡ none)
        × IsRested svc.now u s.exports
        × (t ≡ with_export svc u s)
        × (r ≡ exported svc u))

-- The limit holds back by the first of the sorted jobs, so it holds back by each.
module _ (now : ℕ) where
  NotLimited : ExportJob → Type 0
  NotLimited j = j.created_at + rate_limit_window ≤ now

  insert_by-NotLimited :
      (j : ExportJob) (js : List ExportJob)
      → is_limited now (first_row (insert_by newest_first j js)) ≡ false
      → NotLimited j × (is_limited now (first_row js) ≡ false)
  unfolding first_row NotLimited
  insert_by-NotLimited j [] h = (ground arith, refl)
  insert_by-NotLimited j (k ∷ ks) h = elim (Bool-cases (newest_first j k)) [
    | inl e ↦ ground arith
    | inr e ↦ ground arith
  ]

  sort_by-NotLimited :
      (js : List ExportJob)
      → is_limited now (first_row (sort_by newest_first js)) ≡ false
      → All NotLimited js
  sort_by-NotLimited [] h = tt
  sort_by-NotLimited (j ∷ js) h =
      let (a, b) = insert_by-NotLimited j (sort_by newest_first js) h in
      (a, sort_by-NotLimited js b)

module _ (svc : Service) (u : String) (s : Tables) where
  store_export-with_export :
      svc.db.statement "export.CreateJob" ≡ none
      → store_export svc u s ≡ (with_export svc u s, ok (exported svc u))
  unfolding store_export create_export_job query insert_export pure ◌>>=◌
  store_export-with_export h = elim (Bool-cases svc.has_engine) [
    | inl e ↦ rw (h, e) refl
    | inr e ↦ rw (h, e) refl
  ]

  store_export-err :
      {e : Error} → svc.db.statement "export.CreateJob" ≡ some e → store_export svc u s ≡ (s, err e)
  unfolding store_export create_export_job query insert_export pure ◌>>=◌
  store_export-err h = rw h refl

  store_export-ExportAnswer :
      active_export u s ≡ none
      → IsRested svc.now u s.exports
      → ExportAnswer svc u s (store_export svc u s)
  store_export-ExportAnswer n k = go (svc.db.statement "export.CreateJob") refl
    where
      go :
          (o : Option Error)
          → svc.db.statement "export.CreateJob" ≡ o
          → ExportAnswer svc u s (store_export svc u s)
      go none h = rw (store_export-with_export h) (inr (n, k, refl, refl))
      go (some e) h = rw (store_export-err h) refl

  -- The guard of the limit, passed, is a guard of every job.
  is_limited-IsRested :
      (o : Option ExportJob)
      → first_row (sort_by newest_first (keep (counted_export_of u) s.exports)) ≡ o
      → not (is_limited svc.now o) ≡ true
      → IsRested svc.now u s.exports
  unfolding NotLimited
  is_limited-IsRested o p h =
      sort_by-NotLimited svc.now (keep (counted_export_of u) s.exports) (ground arith)

  -- A request for an export that fails, because of the limit or of the database, has written
  -- nothing. One that succeeds answers with the user's export under way and writes nothing, or
  -- there was none, every export of the user's that did not fail is 30 days old or older, and
  -- exactly one job is added, and given to the engine, with no email where none is resolved.
  pub request_export-ExportAnswer : ExportAnswer svc u s (request_export svc u s)
  unfolding request_export start_export get_in_progress_export get_latest_non_failed_job pure
  request_export-ExportAnswer =
      bind-Answers Post _ _ s (query-Answers svc.db _ _ s) (λ e. refl) λ o found. finish o found
    where
      Post : Tables × Result CreateJobResult → Type 0
      Post = ExportAnswer svc u s

      finish : (o : Option ExportJob) → active_export u s ≡ o → Post (export_or_start svc u o s)
      finish (some j) n = inl (n, refl, refl)
      finish none n =
          bind-Answers Post _ _ s (query-Answers svc.db _ _ s) (λ e. refl)
            λ latest found.
              bind-Answers Post _ _ s (check_that-Answers _ _ s) (λ e. refl)
                λ c free. store_export-ExportAnswer n (is_limited-IsRested latest found free)
