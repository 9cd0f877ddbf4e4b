-- ===== src/Query.antt =====
-- engine/src/queue/query.rs: looking a job up through the job index.
pub mod Found
pub mod Agree
pub mod Others
use flashq.Prelude.{
  ℕ, String, Option, none, some, List, [], ◌∷◌, nat_beq, nat_eq, string_eq, if◌then◌else◌,
}
use flashq.Dict
use flashq.Protocol.Job.{
  Job, JobState, failed, waiting_children, waiting_parent, completed, unknown,
}
use flashq.Ipq
use flashq.Shard.{
  JobLocation, in_queue, processing, dlq, waiting_deps, waiting_parents, done, to_state,
}
use flashq.Manager.{Manager, processing_get}

-- `dlq.iter().find(|j| j.id == id)`
unfoldable pub find_job : List Job → ℕ → Option Job
find_job [] id = none
find_job (j ∷ js) id = if nat_beq j.id id then some j else find_job js id

-- The heap's or the queue's job of that id, if the queue exists.
unfoldable pub queue_job : Manager → ℕ → String → ℕ → Option Job
unfolding Ipq.get
queue_job m i queue id = elim (Dict.get (m.shards i).queues queue) [
  | none ↦ none
  | some heap ↦ Ipq.get heap id
]

unfoldable pub dlq_job : Manager → ℕ → String → ℕ → Option Job
unfolding find_job
dlq_job m i queue id = elim (Dict.get (m.shards i).dlq queue) [
  | none ↦ none
  | some jobs ↦ find_job jobs id
]

-- The `match` of `get_job` on the location.
unfoldable pub get_job_at : Manager → ℕ → ℕ → JobLocation → Option Job × JobState
unfolding queue_job dlq_job to_state processing_get
get_job_at m id now processing = elim (processing_get m id) [
  | none ↦ (none, JobState.active)
  | some job ↦ (some job, to_state processing job.run_at now)
]
get_job_at m id now (in_queue i queue) = elim (queue_job m i queue id) [
  | none ↦ (none, unknown)
  | some job ↦ (some job, to_state (in_queue i queue) job.run_at now)
]
get_job_at m id now (dlq i queue) = elim (dlq_job m i queue id) [
  | none ↦ (none, unknown)
  | some job ↦ (some job, failed)
]
get_job_at m id now (waiting_deps i) = (Dict.get (m.shards i).waiting_deps id, waiting_children)
get_job_at m id now (waiting_parents i) =
    (Dict.get (m.shards i).waiting_children id, waiting_parent)
get_job_at m id now done = (none, completed)

unfoldable pub get_job : Manager → ℕ → ℕ → Option Job × JobState
unfolding get_job_at
get_job m id now = elim (Dict.get m.job_index id) [
  | none ↦ (none, unknown)
  | some location ↦ get_job_at m id now location
]

unfoldable pub get_state_at : Manager → ℕ → ℕ → JobLocation → JobState
unfolding queue_job to_state
get_state_at m id now (in_queue i queue) = elim (queue_job m i queue id) [
  | none ↦ unknown
  | some job ↦ to_state (in_queue i queue) job.run_at now
]
get_state_at m id now location = to_state location 0 now

unfoldable pub get_state : Manager → ℕ → ℕ → JobState
unfolding get_state_at
get_state m id now = elim (Dict.get m.job_index id) [
  | none ↦ unknown
  | some location ↦ get_state_at m id now location
]

unfoldable pub get_job_by_custom_id : Manager → String → ℕ → Option (Job × JobState)
unfolding get_job
get_job_by_custom_id m custom_id now = elim (Dict.get m.custom_id_map custom_id) [
  | none ↦ none
  | some id ↦
      let (found, state) = get_job m id now in
      elim found [ none ↦ none | some job ↦ some (job, state) ]
]
