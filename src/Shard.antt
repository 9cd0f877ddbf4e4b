-- ===== src/Shard.antt =====
-- engine/src/queue/types/shard.rs and location.rs: the state behind one shard lock, and where the
-- job index says that a job is. The wake-up handle `notify` is an effect of the manager.
pub mod Laws
use mathlib.Core.Option
use flashq.Prelude.{
  ℕ, String, Bool, Option, none, some, List, [], ltb, set_remove, string_eq, if◌then◌else◌,
}
use flashq.Dict
use flashq.Dict.{Dict}
use flashq.Protocol.Job.{
  Job, JobState, waiting, delayed, active, completed, failed, waiting_children, waiting_parent,
}
use flashq.Ipq.{Ipq}
use flashq.Limiters.{QueueState, ConcurrencyLimiter, new_state, release}

pub data JobLocation : Type 0 where
  in_queue : ℕ → String → JobLocation
  processing : JobLocation
  dlq : ℕ → String → JobLocation
  waiting_deps : ℕ → JobLocation
  waiting_parents : ℕ → JobLocation
  done : JobLocation

-- `JobLocation::to_state`; `waiting_parents` is the source's `WaitingChildren`, `done` its
-- `Completed`.
unfoldable pub to_state : JobLocation → ℕ → ℕ → JobState
to_state (in_queue shard_idx queue) run_at now = if ltb now run_at then delayed else waiting
to_state processing run_at now = active
to_state (dlq shard_idx queue) run_at now = failed
to_state (waiting_deps shard_idx) run_at now = waiting_children
to_state (waiting_parents shard_idx) run_at now = waiting_parent
to_state done run_at now = completed

unfoldable pub shard_idx : JobLocation → Option ℕ
shard_idx (in_queue i queue) = some i
shard_idx (dlq i queue) = some i
shard_idx (waiting_deps i) = some i
shard_idx (waiting_parents i) = some i
shard_idx processing = none
shard_idx done = none

pub record Shard : Type 0 where
  pub queues : Dict String Ipq
  pub dlq : Dict String (List Job)
  pub unique_keys : Dict String (List String)
  pub waiting_deps : Dict ℕ Job
  pub waiting_children : Dict ℕ Job
  pub queue_state : Dict String QueueState
  pub active_groups : Dict String (List String)

unfoldable pub new_shard : Shard
new_shard = record {
  queues = [];
  dlq = [];
  unique_keys = [];
  waiting_deps = [];
  waiting_children = [];
  queue_state = [];
  active_groups = [];
}

-- `get_state` inserts the default state where there is none; the caller writes through it.
unfoldable pub state_of : Shard → String → QueueState
state_of s queue = Dict.get_or s.queue_state queue new_state

unfoldable pub set_state : Shard → String → QueueState → Shard
set_state s queue state = record s { queue_state = Dict.insert s.queue_state queue state }

unfoldable pub remove_unique_key : Shard → String → Option String → Shard
remove_unique_key s queue none = s
remove_unique_key s queue (some key) = elim (Dict.get s.unique_keys queue) [
  | none ↦ s
  | some held ↦ record s { unique_keys = Dict.insert s.unique_keys queue (set_remove held key) }
]

unfoldable pub release_group : Shard → String → Option String → Shard
release_group s queue none = s
release_group s queue (some gid) = elim (Dict.get s.active_groups queue) [
  | none ↦ s
  | some groups ↦ record s {
    active_groups = Dict.insert s.active_groups queue (set_remove groups gid);
  }
]

abbrev pub release_state : QueueState → QueueState
release_state state = record state { concurrency = Option.map release state.concurrency }

unfoldable pub release_concurrency : Shard → String → Shard
unfolding state_of set_state
release_concurrency s queue = set_state s queue (release_state (state_of s queue))

unfoldable pub release_job_resources : Shard → String → Option String → Option String → Shard
unfolding release_concurrency release_group remove_unique_key
release_job_resources s queue unique_key group_id =
    remove_unique_key (release_group (release_concurrency s queue) queue group_id) queue unique_key
