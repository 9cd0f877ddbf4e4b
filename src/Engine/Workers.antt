-- ===== src/Engine/Workers.antt =====
-- engine/src/queue/admin.rs: workers, and the list of all jobs.
use flashq.Prelude.{ℕ, String, Bool, none, some, List, filter, ltb, string_eq, add_u64, sub_u64}
use flashq.Dict
use flashq.Engine.{Engine, Worker}

-- A worker is active if its last heartbeat is less than 30 seconds old.
abbrev pub is_active : ℕ → Worker → Bool
is_active now w = ltb (sub_u64 now w.last_heartbeat) 30000

-- `WorkerInfo` has the fields of `Worker`.
unfoldable pub list_workers : Engine → ℕ → List Worker
list_workers e now = filter (is_active now) (Dict.values e.workers)

unfoldable pub worker_heartbeat : Engine → String → List String → ℕ → ℕ → ℕ → Engine
worker_heartbeat e id queues concurrency jobs_processed now =
    let old : Worker = Dict.get_or e.workers id (record {
      id = id;
      queues = queues;
      concurrency = concurrency;
      last_heartbeat = now;
      jobs_processed = 0;
    }) in
    record e {
      workers = Dict.insert e.workers id (record old {
        queues = queues;
        concurrency = concurrency;
        last_heartbeat = now;
        jobs_processed = jobs_processed;
      });
    }

unfoldable pub increment_worker_jobs : Engine → String → Engine
increment_worker_jobs e id = elim (Dict.get e.workers id) [
  | none ↦ e
  | some w ↦ record e {
    workers = Dict.insert e.workers id (record w { jobs_processed = add_u64 w.jobs_processed 1 });
  }
]
