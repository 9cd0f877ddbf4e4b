-- ===== src/Push/Placed.antt =====
-- Where a pushed job is found.
use flashq.Prelude.{ℕ, ◌≡◌, ap, ◌∙◌, String, Bool, true, false, some, nat_eq, string_eq}
use flashq.Dict
use flashq.Dict.Laws.{get-insert_self}
use flashq.Protocol.Job.{Job}
use flashq.Shard.{Shard, in_queue, waiting_deps}
use flashq.Manager.{Manager, write_shard, index_job}
use flashq.Manager.Laws.{shards-write_shard}
use flashq.Query.{get_job}
use flashq.Query.Found.{queue_job-enqueue, get_job-in_queue, get_job-waiting_deps}
use flashq.Push.{enqueue, place_job}

-- A job that `push` has placed is found by `get_job` in the state left, whether it went to its queue or
-- waits for its dependencies.
pub place_job-found :
    (m : Manager) (idx : ℕ) (queue : String) (job : Job) (b : Bool) (t : ℕ)
    → (get_job (place_job m idx queue job b) job.id t).0 ≡ some job
unfolding place_job index_job write_shard
place_job-found m idx queue job true t =
    ap (λ r. r.0)
      (get_job-waiting_deps (place_job m idx queue job true) job.id idx job t
        (get-insert_self m.job_index job.id (waiting_deps idx))
        (ap (λ (s : Shard). Dict.get s.waiting_deps job.id) (shards-write_shard m idx _)
          ∙ get-insert_self (m.shards idx).waiting_deps job.id job))
place_job-found m idx queue job false t =
    ap (λ r. r.0)
      (get_job-in_queue (place_job m idx queue job false) job.id idx queue job t
        (get-insert_self m.job_index job.id (in_queue idx queue))
        (queue_job-enqueue (place_job m idx queue job false) idx (m.shards idx) queue job
          (shards-write_shard m idx (enqueue (m.shards idx) queue job))))
