-- ===== src/Datarights/Requests/Listing.antt =====
-- `ExportService.ListJobs` of services/datarights/internal/service/export.go.
use gofin.Exec.{◌>>=◌, pure, gets}
use gofin.Prelude.{
  ltb, Bool-cases, length, take, drop, ℕ, zero, suc, ◌+◌, ◌-◌, ◌*◌, ◌^◌, ◌≤◌, ◌<◌, String, ◌≡◌,
  refl, sym, ◌∙◌, ◌⊎◌, inl, inr, Bool, true, none, List, [], ◌++◌, arith,
}
use gofin.Prelude.Slices.{take-add, take_all}
use gofin.Prelude.Int.{ltb_ℤ, wrap64, wrap64_pos, pos, ℤ}
use gofin.Datarights.Requests.{clamp_page, clamp_page_size, list_exports, JobListResponse, Service}
use gofin.Datarights.Jobs.{exports_of, query, list_jobs_by_user, Tables, ExportJob}
use gofin.Api.{err, ok, Result}

abbrev pub listed : Result JobListResponse → List ExportJob
listed (ok r) = r.jobs
listed (err e) = []

ltb_pos : (a b : ℕ) → ltb_ℤ (pos a) (pos b) ≡ ltb a b
ltb_pos a b = ground arith

clamp_page_lem : (n : ℕ) → clamp_page (pos (suc n)) ≡ suc n
unfolding clamp_page
clamp_page_lem n = ground arith

abbrev pub has_next : Result JobListResponse → Bool
has_next (ok r) = r.has_more
has_next (err e) = true

clamp_page_size_bounds :
    (page_size : ℤ) → (1 ≤ clamp_page_size page_size) × (clamp_page_size page_size ≤ 50)
unfolding clamp_page_size
clamp_page_size_bounds page_size = ground arith

module _ (svc : Service) (u : String) (page_size : ℤ) (s : Tables) where
  -- The pages from the first on, as a client reads them one after the other.
  unfoldable pub first_pages : ℕ → List ExportJob
  first_pages zero = []
  first_pages (suc n) = first_pages n ++ listed (list_exports svc u (pos (suc n)) page_size s).1

module _ (svc : Service) (u : String) (page_size : ℤ) (s : Tables)
    (quiet_count : svc.db.statement "export.ListJobsByUser.count" ≡ none)
    (quiet : svc.db.statement "export.ListJobsByUser" ≡ none) where
  list_exports_lem :
      (n : ℕ)
      → suc n * clamp_page_size page_size < 2 ^ 63
      → list_exports svc u (pos (suc n)) page_size s ≡ (
        s,
        ok (record {
          jobs =
              take
                (clamp_page_size page_size)
                (drop (n * clamp_page_size page_size) (exports_of svc.db u s));
          total = length (exports_of svc.db u s);
          page = suc n;
          page_size = clamp_page_size page_size;
          has_more = ltb (suc n * clamp_page_size page_size) (length (exports_of svc.db u s));
        }),
      )
  unfolding list_exports list_jobs_by_user query gets pure ◌>>=◌
  list_exports_lem n h =
      let e : suc n - 1 ≡ n = omega arith in
      let low : wrap64 (pos (n * clamp_page_size page_size)) ≡ pos (n * clamp_page_size page_size) =
        wrap64_pos (n * clamp_page_size page_size) (ground arith) in
      rw
        (
          clamp_page_lem n,
          quiet_count,
          quiet,
          e,
          low,
          wrap64_pos (suc n * clamp_page_size page_size) h,
          ltb_pos,
        )
        refl

  first_pages-take :
      (n : ℕ)
      → n * clamp_page_size page_size < 2 ^ 63
      → first_pages svc u page_size s n
        ≡ take (n * clamp_page_size page_size) (exports_of svc.db u s)
  unfolding first_pages
  first_pages-take zero h = let e : 0 * clamp_page_size page_size ≡ 0 = ground arith in rw e refl
  first_pages-take (suc n) h =
      let e : suc n * clamp_page_size page_size
          ≡ n * clamp_page_size page_size + clamp_page_size page_size =
        ground arith in
      rw (first_pages-take n (ground arith), list_exports_lem n h, e)
        (sym (take-add (n * clamp_page_size page_size) (clamp_page_size page_size) _))

  -- Where the statements of the list do not fail and no request comes between, the pages that a
  -- client reads from the first on are, together, the user's jobs from the newest on, for any size
  -- of the pages as it is clamped to 1 .. 50 and as long as the rows read are an int's; and when a
  -- page says that there are no more, the pages up to it are all of the user's jobs.
  pub list_exports-first_pages :
      (n : ℕ)
      → suc n * clamp_page_size page_size < 2 ^ 63
      → ((1 ≤ clamp_page_size page_size) × (clamp_page_size page_size ≤ 50))
        × (first_pages svc u page_size s (suc n)
            ≡ take (suc n * clamp_page_size page_size) (exports_of svc.db u s))
        × ((has_next (list_exports svc u (pos (suc n)) page_size s).1 ≡ true)
            ⊎ (first_pages svc u page_size s (suc n) ≡ exports_of svc.db u s))
  list_exports-first_pages n h = (
    clamp_page_size_bounds page_size,
    first_pages-take (suc n) h,
    elim (Bool-cases (ltb (suc n * clamp_page_size page_size) (length (exports_of svc.db u s)))) [
      | inl e ↦ inl (rw (list_exports_lem n h) e)
      | inr e ↦ inr (first_pages-take (suc n) h ∙ take_all _ _ (ground arith))
    ],
  )
