-- ===== src/Datarights/Requests/Single.antt =====
-- The deletions under way of one user, over the requests and the engine's updates of
-- services/datarights.
use gofin.Exec.{◌>>=◌, ◌>>◌, Exec}
use gofin.Prelude.{
  if◌then◌else◌, Bool-cases, length, keep, All, ℕ, ◌+◌, ◌≤◌, String, ◌≡◌, refl, subst, inl, inr,
  Bool, true, false, ◌&&◌, Option, none, some, List, [], ◌∷◌, ◌++◌, map, arith, eq_iff, str_eq,
}
use gofin.Prelude.Alls.{All-everywhere, All-of_keep, All-weaken}
use gofin.Datarights.Jobs.{
  new_deletion, query, change_deletion, first_row, fail_deletion_job, complete_deletion_job,
  update_deletion_status, is_active, active_deletion_of, deletion_with, Tables, DeletionJob,
}
use gofin.Datarights.Requests.Deletion.{active_job, request_deletion-DeletionAnswer, DeletionAnswer}
use gofin.Datarights.Requests.Export.{request_export-ExportAnswer, ExportAnswer}
use gofin.Api.{Error, ok, err, Result}
use gofin.Datarights.Requests.{
  Exec, CreateJobResult, CreateDeletionJobResult, Result, request_export, request_deletion, Service,
}
use gofin.Datarights.Pool.{running}

abbrev pub active_count : String → List DeletionJob → ℕ
active_count u jobs = length (keep (active_deletion_of u) jobs)

-- No user has two deletions under way.
abbrev pub OneActive : Tables → Type 0
OneActive s = (u : String) → active_count u s.deletions ≤ 1

-- Every job with the id is under way, as the engine's are when it takes them.
abbrev pub IsUnderWay : String → Tables → Type 0
IsUnderWay id s = All (λ j. is_active j.status ≡ true) (keep (deletion_with id) s.deletions)

-- The requests of users and admins and what the engine writes about a job, one at a time.
pub data Step (svc : Service) : Tables → Tables → Type 0 where
  asked : (u a p : String) (s : Tables) → Step svc s (request_deletion svc u a p s).0
  exported : (u : String) (s : Tables) → Step svc s (request_export svc u s).0
  began :
      (id : String) (s : Tables)
      → IsUnderWay id s
      → Step svc s (update_deletion_status svc.db id running s).0
  at_resthed : (id : String) (s : Tables) → Step svc s (complete_deletion_job svc.db id s).0
  gave_up :
      (id message : String) (s : Tables) → Step svc s (fail_deletion_job svc.db id message s).0

pub data Reaches (svc : Service) : Tables → Tables → Type 0 where
  at_rest : {s : Tables} → Reaches svc s s
  and_then : {s t v : Tables} → Step svc s t → Reaches svc t v → Reaches svc s v

keep-map :
    {A : Type 0} (p : A → Bool) (g : A → A) (xs : List A)
    → All (λ x. p (g x) ≡ true → p x ≡ true) xs
    → length (keep p (map g xs)) ≤ length (keep p xs)
keep-map p g [] k = omega arith
keep-map p g (x ∷ xs) (k, ks) =
    let h = keep-map p g xs ks in
    elim (Bool-cases (p (g x))) [ inl e ↦ rw (e, k e) (ground arith) | inr e ↦ rw e (ground arith) ]

weaken_and : (a b c : Bool) → (b ≡ true → c ≡ true) → (a && b) ≡ true → (a && c) ≡ true
weaken_and true b c k h = k h
weaken_and false b c k h = h

-- A change of jobs that makes none active leaves at most one active where there was at most one.
active_count-change_deletion :
    (u id : String) (f : DeletionJob → DeletionJob) (js : List DeletionJob)
    → ((j : DeletionJob) → (f j).user_id ≡ j.user_id)
    → active_count u js ≤ 1
    → All
        (λ j. deletion_with id j ≡ true → is_active (f j).status ≡ true → is_active j.status ≡ true)
        js
    → active_count u (change_deletion id f js) ≤ 1
active_count-change_deletion u id f js same one ks = omega (
  arith,
  keep-map (active_deletion_of u) (λ j. if deletion_with id j then f j else j) js
      (All-weaken _ _
        (λ j k. elim (Bool-cases (deletion_with id j)) [
          | inl e ↦ rw (e, same j) (weaken_and (str_eq j.user_id u) _ _ (k e))
          | inr e ↦ rw e (λ h. h)
        ])
        js ks),
)

active_count-append :
    (u : String) (js : List DeletionJob) (j : DeletionJob)
    → active_count u (js ++ (j ∷ [])) ≡ active_count u js + active_count u (j ∷ [])
active_count-append u [] j = ground arith
active_count-append u (k ∷ js) j = ground (arith, active_count-append u js j)

active_count-none :
    (u : String) (js : List DeletionJob)
    → first_row (keep (active_deletion_of u) js) ≡ none
    → active_count u js ≡ 0
unfolding first_row
active_count-none u js h = go (keep (active_deletion_of u) js) h
  where
    go : (ks : List DeletionJob) → first_row ks ≡ none → length ks ≡ 0
    go [] h = refl
    go (k ∷ ks) h = cc

module _ (svc : Service) where
  new_deletion_lem :
      (u a v : String) (s : Tables)
      → active_job u s ≡ none
      → active_count v s.deletions ≤ 1
      → active_count v (s.deletions ++ (new_deletion svc.db u a ∷ [])) ≤ 1
  unfolding is_active
  new_deletion_lem u a v s free one =
      rw (active_count-append v s.deletions (new_deletion svc.db u a))
        (elim (Bool-cases (str_eq u v)) [
          | inl e ↦
              let h = active_count-none v s.deletions (
                subst (λ w. first_row (keep (active_deletion_of w) s.deletions) ≡ none)
                  ((eq_iff u v).0 e) free) in
              ground arith
          | inr e ↦ ground arith
        ])

  request_deletion-OneActive :
      (u a p : String) (s : Tables) → OneActive s → OneActive (request_deletion svc u a p s).0
  request_deletion-OneActive u a p s one v =
      go (request_deletion svc u a p s) (request_deletion-DeletionAnswer svc u a p s)
    where
      go :
          (r : Tables × Result CreateDeletionJobResult)
          → DeletionAnswer svc u a p s r
          → active_count v r.0.deletions ≤ 1
      go (t, err e) same = rw same (one v)
      go (t, ok r) (k, inl (found, same, e)) = rw same (one v)
      go (t, ok r) (k, inr (free, same, e)) = rw same (new_deletion_lem u a v s free (one v))

  request_export-deletions :
      (u : String) (s : Tables) → (request_export svc u s).0.deletions ≡ s.deletions
  request_export-deletions u s = go (request_export svc u s) (request_export-ExportAnswer svc u s)
    where
      go :
          (r : Tables × Result CreateJobResult)
          → ExportAnswer svc u s r
          → r.0.deletions ≡ s.deletions
      go (t, err e) same = rw same refl
      go (t, ok r) (inl (found, same, e)) = rw same refl
      go (t, ok r) (inr (free, old, same, e)) = rw same refl

  query_then :
      {A : Type 0} (name : String) (m : Exec Tables A) (P : Tables → Type 0) (s : Tables)
      → P s
      → P (m s).0
      → P ((query svc.db name >> m) s).0
  unfolding query ◌>>=◌
  query_then name m P s before after = go (svc.db.statement name) refl
    where
      go : (o : Option Error) → svc.db.statement name ≡ o → P ((query svc.db name >> m) s).0
      go none h = rw h after
      go (some e) h = rw h before

  Step-OneActive : {s t : Tables} → Step svc s t → OneActive s → OneActive t
  unfolding update_deletion_status complete_deletion_job fail_deletion_job is_active
  Step-OneActive (asked u a p s) one v = request_deletion-OneActive u a p s one v
  Step-OneActive (exported u s) one v = rw (request_export-deletions u s) (one v)
  Step-OneActive (began id s k) one v =
      query_then "deletion.UpdateStatus" _ (λ t. active_count v t.deletions ≤ 1) s (one v)
        (active_count-change_deletion v id _ s.deletions (λ j. refl) (one v)
          (All-weaken _ _ (λ j h c a. h c) s.deletions
            (All-of_keep _ (deletion_with id) s.deletions k)))
  Step-OneActive (at_resthed id s) one v =
      query_then "deletion.CompleteJob" _ (λ t. active_count v t.deletions ≤ 1) s (one v)
        (active_count-change_deletion v id _ s.deletions (λ j. refl) (one v)
          (All-everywhere _ (λ j c a. cc) s.deletions))
  Step-OneActive (gave_up id message s) one v =
      query_then "deletion.FailJob" _ (λ t. active_count v t.deletions ≤ 1) s (one v)
        (active_count-change_deletion v id _ s.deletions (λ j. refl) (one v)
          (All-everywhere _ (λ j c a. cc) s.deletions))

  -- No user has two deletions under way, after any requests for deletions and exports and any
  -- writes of the engine, one at a time, where it was so before. The engine sets a job running only
  -- while it is under way.
  pub Reaches-OneActive : {s t : Tables} → Reaches svc s t → OneActive s → OneActive t
  Reaches-OneActive at_rest one = one
  Reaches-OneActive (and_then m r) one = Reaches-OneActive r (Step-OneActive m one)
