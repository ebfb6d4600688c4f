-- ===== src/Datarights/Pool.antt =====
-- services/datarights/internal/jobrunner/pool.go as a step relation: any interleaving of the workers.
pub mod Counts
pub mod Bounded
pub mod Tests
use gofin.Prelude.{ℕ, ◌+◌, ◌-◌, ◌<◌, String, Bool, true, false, List, [], ◌∷◌, ◌++◌}

-- Where the goroutine of a job stands: before the slot, between the slot and the counter, before the
-- write of the running status, in its work, before the release of the slot, and after it.
pub data Phase : Type 0 where
  waiting : Phase
  holding : Phase
  starting : Phase
  executing : Phase
  leaving : Phase
  released : Phase

-- The status that the store has for the job.
pub data JobStatus : Type 0 where
  pending : JobStatus
  running : JobStatus
  completed : JobStatus
  failed : JobStatus

-- `write_failed` is that some write of the job's status has failed and was reported.
pub record Worker : Type 0 where
  pub job_id : String
  pub phase : Phase
  pub status : JobStatus
  pub write_failed : Bool

-- The semaphore's length, the counter of queued jobs, and the goroutines in the order of submission.
pub record Pool : Type 0 where
  pub sem : ℕ
  pub queued_count : ℕ
  pub workers : List Worker

-- The moves of a worker between its slot's acquisition and its release.
pub data Move : Worker → Worker → Type 0 where
  -- UpdateStatus succeeds, or fails and the worker returns.
  starts :
      (id : String) (s : JobStatus) (f : Bool)
      → Move
          (record { job_id = id; phase = starting; status = s; write_failed = f })
          (record { job_id = id; phase = executing; status = running; write_failed = f })
  start_fails :
      (id : String) (s : JobStatus) (f : Bool)
      → Move
          (record { job_id = id; phase = starting; status = s; write_failed = f })
          (record { job_id = id; phase = leaving; status = s; write_failed = true })
  -- UpdateStatus panics, and FailJob succeeds or fails.
  panics :
      (id : String) (s : JobStatus) (f : Bool)
      → Move
          (record { job_id = id; phase = starting; status = s; write_failed = f })
          (record { job_id = id; phase = leaving; status = failed; write_failed = f })
  panic_fails :
      (id : String) (s : JobStatus) (f : Bool)
      → Move
          (record { job_id = id; phase = starting; status = s; write_failed = f })
          (record { job_id = id; phase = leaving; status = s; write_failed = true })
  -- The work succeeds, and CompleteJob succeeds or fails.
  completes :
      (id : String) (s : JobStatus) (f : Bool)
      → Move
          (record { job_id = id; phase = executing; status = s; write_failed = f })
          (record { job_id = id; phase = leaving; status = completed; write_failed = f })
  complete_fails :
      (id : String) (s : JobStatus) (f : Bool)
      → Move
          (record { job_id = id; phase = executing; status = s; write_failed = f })
          (record { job_id = id; phase = leaving; status = s; write_failed = true })
  -- The work returns an error, or it or CompleteJob panics, and FailJob succeeds or fails.
  fails :
      (id : String) (s : JobStatus) (f : Bool)
      → Move
          (record { job_id = id; phase = executing; status = s; write_failed = f })
          (record { job_id = id; phase = leaving; status = failed; write_failed = f })
  fail_fails :
      (id : String) (s : JobStatus) (f : Bool)
      → Move
          (record { job_id = id; phase = executing; status = s; write_failed = f })
          (record { job_id = id; phase = leaving; status = s; write_failed = true })

abbrev pub worker : String → Phase → JobStatus → Bool → Worker
worker id phase status f = record { job_id = id; phase = phase; status = status; write_failed = f }

abbrev pub pool : ℕ → ℕ → List Worker → Pool
pool sem queued_count workers = record { sem = sem; queued_count = queued_count; workers = workers }

-- One step of the pool whose semaphore has capacity `max`.
pub data Step (max : ℕ) : Pool → Pool → Type 0 where
  submits :
      (s q : ℕ) (ws : List Worker) (id : String)
      → Step max (pool s q ws) (pool s (q + 1) (ws ++ worker id waiting pending false ∷ []))
  -- A send on the semaphore goes through only while it is not full.
  acquires :
      (s q : ℕ) (pre post : List Worker) (id : String) (st : JobStatus) (f : Bool)
      → s < max
      → Step max
          (pool s q (pre ++ worker id waiting st f ∷ post))
          (pool (s + 1) q (pre ++ worker id holding st f ∷ post))
  dequeues :
      (s q : ℕ) (pre post : List Worker) (id : String) (st : JobStatus) (f : Bool)
      → Step max
          (pool s q (pre ++ worker id holding st f ∷ post))
          (pool s (q - 1) (pre ++ worker id starting st f ∷ post))
  moves :
      (s q : ℕ) (pre post : List Worker) (w w' : Worker)
      → Move w w'
      → Step max (pool s q (pre ++ w ∷ post)) (pool s q (pre ++ w' ∷ post))
  releases :
      (s q : ℕ) (pre post : List Worker) (id : String) (st : JobStatus) (f : Bool)
      → Step max
          (pool s q (pre ++ worker id leaving st f ∷ post))
          (pool (s - 1) q (pre ++ worker id released st f ∷ post))

abbrev pub new_pool : Pool
new_pool = pool 0 0 []

pub data Reachable (max : ℕ) : Pool → Type 0 where
  new : Reachable max new_pool
  step : (p p' : Pool) → Reachable max p → Step max p p' → Reachable max p'

-- `ActiveJobs` and `QueuedJobs`.
abbrev pub active_jobs : Pool → ℕ
active_jobs p = p.sem

abbrev pub queued_jobs : Pool → ℕ
queued_jobs p = p.queued_count

-- The goroutine holds a slot; it has not lowered the counter yet.
abbrev pub has_slot : Worker → Bool
has_slot w = elim w.phase [
  | waiting ↦ false
  | holding ↦ true
  | starting ↦ true
  | executing ↦ true
  | leaving ↦ true
  | released ↦ false
]

abbrev pub is_counted : Worker → Bool
is_counted w = elim w.phase [
  | waiting ↦ true
  | holding ↦ true
  | starting ↦ false
  | executing ↦ false
  | leaving ↦ false
  | released ↦ false
]
