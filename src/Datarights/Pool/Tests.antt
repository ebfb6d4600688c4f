-- ===== src/Datarights/Pool/Tests.antt =====
-- The theorems on the job pool at a concrete run.
use gofin.Prelude.{false, [], ◌∷◌, arith}
use gofin.Datarights.Pool.{Step, new_pool, pending, holding, waiting, worker, pool, Reachable, Pool}
use gofin.Datarights.Pool.Bounded.{pool-Bounded, Bounded}

-- One job is submitted and takes the only slot.
abbrev one_job : Pool
one_job = pool 1 1 (worker "job-1" holding pending false ∷ [])

one_job_run : Reachable 1 one_job
one_job_run =
    Reachable.step (pool 0 1 (worker "job-1" waiting pending false ∷ [])) one_job
      (Reachable.step new_pool (pool 0 1 (worker "job-1" waiting pending false ∷ [])) Reachable.new
        (Step.submits 0 0 [] "job-1"))
      (Step.acquires 0 1 [] [] "job-1" pending false (omega arith))

pool-Bounded_example : Bounded 1 one_job
pool-Bounded_example = pool-Bounded 1 one_job one_job_run
