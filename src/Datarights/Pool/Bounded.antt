-- ===== src/Datarights/Pool/Bounded.antt =====
-- What holds of every pool that can be reached (services/datarights/internal/jobrunner/pool.go).
use gofin.Prelude.{
  All, ℕ, ◌≤◌, ◌≡◌, refl, ◌⊎◌, inl, inr, Bool, true, false, List, [], ◌∷◌, ◌++◌, arith,
}
use gofin.Datarights.Pool.Counts.{count-last, All-middle, All-replace, count-middle, count, one_if}
use gofin.Datarights.Pool.{
  starting, holding, pending, waiting, worker, is_counted, queued_jobs, has_slot, released, failed,
  Step, Move, active_jobs, Reachable, completed, leaving, Pool, JobStatus, Phase, Worker,
}

-- A job that has left its work is completed or failed in the store, or a write of its status failed.
abbrev pub IsEnded : JobStatus → Bool → Type 0
IsEnded status write_failed = (write_failed ≡ true) ⊎ ((status ≡ completed) ⊎ (status ≡ failed))

abbrev IsSettledIn : Phase → JobStatus → Bool → Type 0
IsSettledIn leaving s f = IsEnded s f
IsSettledIn released s f = IsEnded s f
IsSettledIn phase s f = Unit

abbrev pub IsSettled : Worker → Type 0
IsSettled w = IsSettledIn w.phase w.status w.write_failed

abbrev pub Bounded : ℕ → Pool → Type 0
Bounded max p =
    (active_jobs p ≤ max)
    × (active_jobs p ≡ count has_slot p.workers)
    × (queued_jobs p ≡ count is_counted p.workers)
    × All IsSettled p.workers

Move-slot :
    (w w' : Worker)
    → Move w w'
    → (one_if (has_slot w) ≡ one_if (has_slot w'))
      × (one_if (is_counted w) ≡ one_if (is_counted w'))
Move-slot w w' (Move.starts id s f) = (refl, refl)
Move-slot w w' (Move.start_fails id s f) = (refl, refl)
Move-slot w w' (Move.panics id s f) = (refl, refl)
Move-slot w w' (Move.panic_fails id s f) = (refl, refl)
Move-slot w w' (Move.completes id s f) = (refl, refl)
Move-slot w w' (Move.complete_fails id s f) = (refl, refl)
Move-slot w w' (Move.fails id s f) = (refl, refl)
Move-slot w w' (Move.fail_fails id s f) = (refl, refl)

Move-IsSettled : (w w' : Worker) → Move w w' → IsSettled w'
Move-IsSettled w w' (Move.starts id s f) = tt
Move-IsSettled w w' (Move.start_fails id s f) = inl refl
Move-IsSettled w w' (Move.panics id s f) = inr (inr refl)
Move-IsSettled w w' (Move.panic_fails id s f) = inl refl
Move-IsSettled w w' (Move.completes id s f) = inr (inl refl)
Move-IsSettled w w' (Move.complete_fails id s f) = inl refl
Move-IsSettled w w' (Move.fails id s f) = inr (inr refl)
Move-IsSettled w w' (Move.fail_fails id s f) = inl refl

All-last :
    (ws : List Worker) (w : Worker) → IsSettled w → All IsSettled ws → All IsSettled (ws ++ w ∷ [])
All-last [] w h hs = (h, tt)
All-last (x ∷ ws) w h (k, ks) = (k, All-last ws w h ks)

Step-Bounded : (max : ℕ) (p p' : Pool) → Step max p p' → Bounded max p → Bounded max p'
Step-Bounded max p p' (Step.submits s q ws id) (le, a, b, hs) =
    let w = worker id waiting pending false in
    let x = count-last has_slot ws w in
    let y = count-last is_counted ws w in
    (le, omega (arith, a, x), omega (arith, b, y), All-last ws w tt hs)
Step-Bounded max p p' (Step.acquires s q pre post id st f room) (le, a, b, hs) =
    let w = worker id waiting st f in
    let w' = worker id holding st f in
    let e = count-middle has_slot pre post w in
    let e' = count-middle has_slot pre post w' in
    let d = count-middle is_counted pre post w in
    let d' = count-middle is_counted pre post w' in
    (
      omega arith,
      omega (arith, a, e, e'),
      omega (arith, b, d, d'),
      All-replace IsSettled pre post w w' tt hs,
    )
Step-Bounded max p p' (Step.dequeues s q pre post id st f) (le, a, b, hs) =
    let w = worker id holding st f in
    let w' = worker id starting st f in
    let e = count-middle has_slot pre post w in
    let e' = count-middle has_slot pre post w' in
    let d = count-middle is_counted pre post w in
    let d' = count-middle is_counted pre post w' in
    (
      le,
      omega (arith, a, e, e'),
      omega (arith, b, d, d'),
      All-replace IsSettled pre post w w' tt hs,
    )
Step-Bounded max p p' (Step.moves s q pre post w w' m) (le, a, b, hs) =
    let (x, y) = Move-slot w w' m in
    let e = count-middle has_slot pre post w in
    let e' = count-middle has_slot pre post w' in
    let d = count-middle is_counted pre post w in
    let d' = count-middle is_counted pre post w' in
    (
      le,
      omega (arith, a, e, e', x),
      omega (arith, b, d, d', y),
      All-replace IsSettled pre post w w' (Move-IsSettled w w' m) hs,
    )
Step-Bounded max p p' (Step.releases s q pre post id st f) (le, a, b, hs) =
    let w = worker id leaving st f in
    let w' = worker id released st f in
    let e = count-middle has_slot pre post w in
    let e' = count-middle has_slot pre post w' in
    let d = count-middle is_counted pre post w in
    let d' = count-middle is_counted pre post w' in
    (
      omega arith,
      omega (arith, a, e, e'),
      omega (arith, b, d, d'),
      All-replace IsSettled pre post w w' (All-middle IsSettled pre post w hs) hs,
    )

-- However the goroutines of the submitted jobs interleave, and whichever of their status writes fail,
-- a pool of capacity max never has more than max active jobs; ActiveJobs is the number of goroutines
-- that hold a slot and QueuedJobs the number that have not yet lowered the counter; and a job whose
-- goroutine has left its work is completed or failed in the store, unless a status write failed.
pub pool-Bounded : (max : ℕ) (p : Pool) → Reachable max p → Bounded max p
unfolding count
pool-Bounded max p (Reachable.new) = (omega arith, refl, refl, tt)
pool-Bounded max p (Reachable.step q r before s) =
    Step-Bounded max q p s (pool-Bounded max q before)
