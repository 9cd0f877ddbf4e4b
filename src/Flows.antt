-- ===== src/Flows.antt =====
-- engine/src/queue/flows.rs: a parent job that waits for its children.

pub mod Ready
use flashq.Prelude.{
  ℕ, zero, suc, ◌+◌, String, ℤ, Bool, true, false, Option, none, some, List, [], ◌∷◌, length, leb,
  nat_eq, string_eq, if◌then◌else◌, add_u64, add_u32,
}
use flashq.Dict
use flashq.Protocol.Json.{Value}
use flashq.Protocol.Job.{Job, FlowChild}
use flashq.Protocol.Builder.{unwrap_or}
use flashq.Result.{Result, ok, err, empty_flow}
use flashq.Shard.{in_queue, waiting_parents}
use flashq.Manager.{
  Manager, persist_push, notify_shard, num_shards, shard_index, emit, write_shard, index_job,
  next_id, record_push, with_metrics,
}
use flashq.Push.{enqueue}
use flashq.Logs.{add_job_log}

-- The literals of `push_flow`, which differ in six fields.
unfoldable pub flow_job : ℕ → String → Value → ℤ → ℕ → ℕ → Option ℕ → List ℕ → Job
flow_job id queue payload priority now run_at parent_id children_ids = record {
  id = id;
  queue = queue;
  payload = payload;
  priority = priority;
  created_at = now;
  run_at = run_at;
  started_at = 0;
  attempts = 0;
  max_attempts = 0;
  backoff = 0;
  ttl = 0;
  timeout = 0;
  unique_key = none;
  depends_on = [];
  progress = 0;
  progress_msg = none;
  tags = [];
  lifo = false;
  remove_on_complete = false;
  remove_on_fail = false;
  last_heartbeat = 0;
  stall_timeout = 0;
  stall_count = 0;
  parent_id = parent_id;
  children_ids = children_ids;
  children_completed = 0;
  custom_id = none;
  keep_completed_age = 0;
  keep_completed_count = 0;
  completed_at = 0;
  group_id = none;
}

unfoldable pub next_ids : ℕ → Manager → List ℕ × Manager
next_ids zero m = ([], m)
next_ids (suc n) m = let (id, m') = next_id m in let (ids, m'') = next_ids n m' in (id ∷ ids, m'')

unfoldable pub child_jobs : ℕ → List ℕ → List FlowChild → ℕ → List Job
unfolding flow_job
child_jobs parent_id (id ∷ ids) (c ∷ cs) now =
    flow_job id c.queue c.payload c.priority now (add_u64 now (unwrap_or c.delay 0))
      (some parent_id) []
    ∷ child_jobs parent_id ids cs now
child_jobs parent_id _ _ now = []

unfoldable pub persist_children : Manager → List Job → Manager
persist_children m [] = m
persist_children m (job ∷ jobs) = persist_children (emit m (persist_push job "waiting")) jobs

-- Index, enqueue and wake-up of one child.
unfoldable pub push_child : Manager → Job → Manager
unfolding enqueue
push_child m job =
    let idx = shard_index m job.queue in
    let indexed = index_job m job.id (in_queue idx job.queue) in
    emit (write_shard indexed idx (enqueue (indexed.shards idx) job.queue job)) (notify_shard idx)

unfoldable pub push_children : Manager → List Job → Manager
unfolding push_child
push_children m [] = m
push_children m (job ∷ jobs) = push_children (push_child m job) jobs

abbrev is_empty : List FlowChild → Bool
is_empty [] = true
is_empty (c ∷ cs) = false

unfoldable pub push_flow :
    Manager → String → Value → List FlowChild → ℤ → ℕ → Manager × Result (ℕ × List ℕ)
unfolding next_ids child_jobs persist_children push_children flow_job
push_flow m queue parent_data children priority now =
    if is_empty children
    then (m, err empty_flow)
    else let (parent_id, m1) = next_id m in
      let (children_ids, m2) = next_ids (length children) m1 in
      let parent = flow_job parent_id queue parent_data priority now now none children_ids in
      let idx = shard_index m queue in
      let m3 =
        index_job (emit m2 (persist_push parent "waiting_parent")) parent_id
          (waiting_parents idx) in
      let m4 = write_shard m3 idx (record (m3.shards idx) {
        waiting_children = Dict.insert (m3.shards idx).waiting_children parent_id parent;
      }) in
      let jobs = child_jobs parent_id children_ids children now in
      let m5 = push_children (persist_children m4 jobs) jobs in
      (
        with_metrics m5 (record_push m5.metrics (length children_ids + 1)),
        ok (parent_id, children_ids),
      )

-- The first shard at or after `idx` that holds the parent.
unfoldable pub find_parent : Manager → ℕ → ℕ → ℕ → Option (ℕ × Job)
find_parent m parent_id zero idx = none
find_parent m parent_id (suc left) idx = elim (Dict.get (m.shards idx).waiting_children parent_id) [
  | some parent ↦ some (idx, parent)
  | none ↦ find_parent m parent_id left (idx + 1)
]

-- One more child of this parent is done.
unfoldable pub child_completed_at : Manager → ℕ → ℕ → Job → ℕ → Manager
unfolding enqueue add_job_log
child_completed_at m idx parent_id parent now =
    let parent' = record parent { children_completed = add_u32 parent.children_completed 1 } in
    let s = m.shards idx in
    if leb (length parent.children_ids) parent'.children_completed
    then (let s' = record s { waiting_children = Dict.remove s.waiting_children parent_id } in
        let moved = write_shard m idx (enqueue s' parent.queue parent') in
        let indexed = index_job moved parent_id (in_queue idx parent.queue) in
        (add_job_log (emit indexed (notify_shard idx)) parent_id
          "All children completed, parent job ready" "info" now).0)
    else write_shard m idx
        (record s { waiting_children = Dict.insert s.waiting_children parent_id parent' })

unfoldable pub on_child_completed : Manager → ℕ → ℕ → Manager
unfolding find_parent child_completed_at
on_child_completed m parent_id now = elim (find_parent m parent_id num_shards 0) [
  | none ↦ m
  | some (idx, parent) ↦ child_completed_at m idx parent_id parent now
]
