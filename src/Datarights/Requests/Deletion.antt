-- ===== src/Datarights/Requests/Deletion.antt =====
-- `DeletionService.CreateJob` of services/datarights/internal/service/deletion.go.
use gofin.Exec.{◌>>=◌, pure, lift}
use gofin.Prelude.{
  if◌then◌else◌, Bool-cases, keep, String, ◌≡◌, refl, ◌⊎◌, inl, inr, true, false, Option, none,
  some, [], ◌∷◌, ◌++◌, arith, str_eq,
}
use gofin.Datarights.Requests.{
  export_conflict, check_that, is_none, deletion_or_start, lift, check_export_conflict,
  request_deletion, check_protected_username, CreateDeletionJobResult, start_deletion,
  verify_password, Service,
}
use gofin.Datarights.Requests.Reads.{
  weaken-Answers, then-Answers, query-Answers, check_that-Answers, Answers, bind-Answers,
}
use gofin.Datarights.Jobs.{
  get_in_progress_export, get_in_progress_deletion, first_row, active_export_of, insert_deletion,
  query, active_deletion_of, create_deletion_job, DeletionJob, new_deletion, Tables,
}
use gofin.Api.{Error, err, ok, Result}

-- What a request for a deletion may answer from the tables `s`.
abbrev pub IsAdmitted : Service → String → String → String → Tables → Type 0
IsAdmitted svc u a p s =
    (verify_password svc a p ≡ ok tt)
    × (str_eq u a ≡ false)
    × (check_protected_username svc u ≡ ok tt)
    × ((svc.has_export_repo ≡ false) ⊎ (first_row (keep (active_export_of u) s.exports) ≡ none))

abbrev pub active_job : String → Tables → Option DeletionJob
active_job u s = first_row (keep (active_deletion_of u) s.deletions)

-- The tables with one more job, which the engine has.
abbrev pub with_deletion : Service → String → String → Tables → Tables
with_deletion svc u a s = record s {
  deletions = s.deletions ++ (new_deletion svc.db u a ∷ []);
  submitted_deletions =
      if svc.has_engine
      then s.submitted_deletions ++ ((svc.db.new_id, u) ∷ [])
      else s.submitted_deletions;
}

abbrev pub started : Service → String → String → CreateDeletionJobResult
started svc u a = record { job = new_deletion svc.db u a; is_existing = false }

abbrev pub DeletionAnswer :
    Service → String → String → String → Tables → Tables × Result CreateDeletionJobResult → Type 0
DeletionAnswer svc u a p s (t, err e) = t ≡ s
DeletionAnswer svc u a p s (t, ok r) =
    IsAdmitted svc u a p s
    × (((active_job u s ≡ some r.job) × (t ≡ s) × (r.is_existing ≡ true))
        ⊎ ((active_job u s ≡ none) × (t ≡ with_deletion svc u a s) × (r ≡ started svc u a)))

is_none_lem : {A : Type 0} {x : Option A} (o : Option A) → x ≡ o → is_none o ≡ true → x ≡ none
is_none_lem none p h = p
is_none_lem (some y) p h = cc

-- A request that found the user's job under way, or none.
module _ (svc : Service) (u a p : String) (s : Tables) where
  -- The new job is stored, then submitted.
  start_deletion-with_deletion :
      svc.db.statement "deletion.CreateJob" ≡ none
      → start_deletion svc u a s ≡ (with_deletion svc u a s, ok (started svc u a))
  unfolding start_deletion create_deletion_job query insert_deletion pure ◌>>=◌
  start_deletion-with_deletion h = elim (Bool-cases svc.has_engine) [
    | inl e ↦ rw (h, e) refl
    | inr e ↦ rw (h, e) refl
  ]

  start_deletion-err :
      {e : Error}
      → svc.db.statement "deletion.CreateJob" ≡ some e
      → start_deletion svc u a s ≡ (s, err e)
  unfolding start_deletion create_deletion_job query insert_deletion pure ◌>>=◌
  start_deletion-err h = rw h refl

  start_deletion-DeletionAnswer :
      IsAdmitted svc u a p s
      → active_job u s ≡ none
      → DeletionAnswer svc u a p s (start_deletion svc u a s)
  start_deletion-DeletionAnswer k n = go (svc.db.statement "deletion.CreateJob") refl
    where
      go :
          (o : Option Error)
          → svc.db.statement "deletion.CreateJob" ≡ o
          → DeletionAnswer svc u a p s (start_deletion svc u a s)
      go none h = rw (start_deletion-with_deletion h) (k, inr (n, refl, refl))
      go (some e) h = rw (start_deletion-err h) refl

  check_export_conflict-Answers :
      Answers
        (λ c.
          (svc.has_export_repo ≡ false) ⊎ (first_row (keep (active_export_of u) s.exports) ≡ none))
        (check_export_conflict svc u)
        s
  unfolding check_export_conflict get_in_progress_export pure
  check_export_conflict-Answers = elim (Bool-cases svc.has_export_repo) [
    | inr e ↦ rw e (refl, λ c k. inl refl)
    | inl e ↦ rw e (
        then-Answers _ _ s (query-Answers svc.db _ _ s) λ o found.
          weaken-Answers (check_that (is_none o) export_conflict) s
            (λ c free. inr (is_none_lem o found free))
            (check_that-Answers (is_none o) export_conflict s))
  ]

  -- A request for a deletion that fails has written nothing. One that succeeds has checked the
  -- password of the admin, that the user is another one and not protected, and, where the service
  -- has the exports, that none of the user's is under way; it answers with the user's job under way
  -- and writes nothing, or there was none, and then exactly one job is added, and given to the
  -- engine.
  pub request_deletion-DeletionAnswer : DeletionAnswer svc u a p s (request_deletion svc u a p s)
  unfolding request_deletion get_in_progress_deletion lift pure
  request_deletion-DeletionAnswer =
      bind-Answers Post (lift (verify_password svc a p)) _ s (refl, λ c h. h) (λ e. refl)
        λ c valid.
          bind-Answers Post _ _ s (check_that-Answers _ _ s) (λ e. refl)
            λ c other.
              bind-Answers Post _ _ s (refl, λ c h. h) (λ e. refl)
                λ c unprotected.
                  bind-Answers Post _ _ s check_export_conflict-Answers (λ e. refl)
                    λ c free.
                      bind-Answers Post _ _ s (query-Answers svc.db _ _ s) (λ e. refl)
                        λ o found. finish o ((valid, ground arith, unprotected, free)) found
    where
      Post : Tables × Result CreateDeletionJobResult → Type 0
      Post = DeletionAnswer svc u a p s

      finish :
          (o : Option DeletionJob)
          → IsAdmitted svc u a p s
          → active_job u s ≡ o
          → Post (deletion_or_start svc u a o s)
      finish none k n = start_deletion-DeletionAnswer k n
      finish (some j) k n = (k, inl (n, refl, refl))
