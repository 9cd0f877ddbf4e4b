-- ===== src/Push/Batch/Found.antt =====
-- engine/src/queue/push.rs: where the jobs of a batch are found.

use flashq.Prelude.{
  ℕ, ◌≡◌, ◌≢◌, String, Bool, not, some, List, [], ◌∷◌, nat_eq, string_eq, All, filter,
}
use flashq.Dict
use flashq.Protocol.Job.{Job}
use flashq.Manager.{Manager, shard_index, write_shard}
use flashq.Query.{get_job}
use flashq.Push.Batch.{touch_queue, persist_if_any}

-- The id is of none of the jobs.
abbrev pub NotAmong : ℕ → List Job → Type 0
NotAmong id = All (λ (j : Job). j.id ≢ id)

abbrev pub Distinct : List Job → Type 0
Distinct [] = Unit
Distinct (j ∷ js) = NotAmong j.id js × Distinct js

abbrev pub FoundIn : Manager → ℕ → Job → Type 0
FoundIn m t job = (get_job m job.id t).0 ≡ some job

abbrev rejected : (Job → Bool) → List Job → List Job
rejected f jobs = filter (λ j. not (f j)) jobs

-- The state before the jobs of a batch are placed.
abbrev before_placing : Manager → String → List Job → List Job → Manager
before_placing m queue created waiting =
    let idx = shard_index m queue in
    let stored = persist_if_any (persist_if_any m created "waiting") waiting "waiting_children" in
    write_shard stored idx (touch_queue (stored.shards idx) queue)
