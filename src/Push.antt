-- ===== src/Push.antt =====
-- engine/src/queue/push.rs: `push`, guard by guard. Each stage returns the state that it leaves
-- beside its outcome: what an early stage has written stays when a later one fails.
pub mod Placed
pub mod Batch
pub mod Stored
pub mod Keys
use Prim.Native.Char.{Char}
use flashq.Prelude.{
  ℕ, String, Bool, true, false, not, ◌&&◌, Option, none, some, List, [], ◌∷◌, ltb, nat_beq, nat_eq,
  string_eq, contains, set_insert, if◌then◌else◌, add_u64,
}
use flashq.Dict
use flashq.Dict.{Dict}
use flashq.Protocol.Job.{Job, JobEvent}
use flashq.Protocol.Builder.{JobInput, create_job_from_input, unwrap_or}
use flashq.Ipq
use flashq.Result.{Result, ok, err, debounced, duplicate_key, storage_failed}
use flashq.Validation.{validate_queue_name, validate_job_data}
use flashq.Shard.{Shard, in_queue, waiting_deps}
use flashq.Manager.{
  Manager, persist_push, notify_shard, broadcast, shard_index, emit, write_shard, index_job,
  unindex_job, next_id, record_push, with_metrics,
}
use flashq.Query.{get_job}

-- The debounce check: an entry that has not expired refuses the job, else the entry is renewed.
unfoldable pub check_debounce : Manager → String → JobInput → ℕ → Manager × Bool
check_debounce m queue input now = elim input.debounce_id [
  | none ↦ (m, true)
  | some id ↦
      let queue_map = Dict.get_or m.debounce_cache queue [] in
      let expiry = add_u64 now (unwrap_or input.debounce_ttl 5000) in
      let live : Bool = elim (Dict.get queue_map id) [
        | none ↦ false
        | some existing ↦ ltb now existing
      ] in
      (
        record m {
          debounce_cache =
              Dict.insert m.debounce_cache queue
                (if live then queue_map else Dict.insert queue_map id expiry);
        },
        not live,
      )
]

-- The custom id: an existing job is returned, else the id is (re)registered.
unfoldable pub check_custom_id : Manager → JobInput → ℕ → ℕ → Manager × Option Job
check_custom_id m input internal_id now = elim input.job_id [
  | none ↦ (m, none)
  | some custom_id ↦
      let existing : Option Job = elim (Dict.get m.custom_id_map custom_id) [
        | none ↦ none
        | some id ↦ (get_job m id now).0
      ] in
      elim existing [
        | some job ↦ (m, some job)
        | none ↦
            (record m { custom_id_map = Dict.insert m.custom_id_map custom_id internal_id }, none)
      ]
]

unfoldable pub all_completed : List ℕ → List ℕ → Bool
all_completed completed [] = true
all_completed completed (dep ∷ deps) = contains completed dep && all_completed completed deps

-- The unique key: `false` if it is taken.
unfoldable pub take_unique_key : Shard → String → Option String → Shard × Bool
take_unique_key s queue none = (s, true)
take_unique_key s queue (some key) =
    let held = Dict.get_or s.unique_keys queue [] in
    let free = not (contains held key) in
    (
      record s {
        unique_keys = Dict.insert s.unique_keys queue (if free then set_insert held key else held);
      },
      free,
    )

-- `shard.queues.entry(queue).or_default().push(job)`
unfoldable pub enqueue : Shard → String → Job → Shard
enqueue s queue job = record s {
  queues = Dict.insert s.queues queue (Ipq.push (Dict.get_or s.queues queue Ipq.empty) job);
}

unfoldable pub drop_custom_id : Manager → Option String → Manager
drop_custom_id m none = m
drop_custom_id m (some custom_id) = record m {
  custom_id_map = Dict.remove m.custom_id_map custom_id;
}

-- Under the shard's lock: the job is put into its queue, or set aside until its dependencies are done.
unfoldable pub place_job : Manager → ℕ → String → Job → Bool → Manager
unfolding enqueue
place_job m idx queue job needs_waiting_deps =
    if needs_waiting_deps
    then index_job
        (write_shard m idx (record (m.shards idx) {
          waiting_deps = Dict.insert (m.shards idx).waiting_deps job.id job;
        }))
        job.id (waiting_deps idx)
    else index_job (write_shard m idx (enqueue (m.shards idx) queue job)) job.id
        (in_queue idx queue)

-- `retain(|j| j.id != id)` on the queue, if it exists.
unfoldable pub drop_from_queue : Shard → String → ℕ → Shard
drop_from_queue s queue id = elim (Dict.get s.queues queue) [
  | none ↦ s
  | some heap ↦ record s {
    queues = Dict.insert s.queues queue (Ipq.retain heap (λ (j : Job). not (nat_beq j.id id)));
  }
]

unfoldable pub unplace_job : Manager → ℕ → String → Job → Bool → Manager
unfolding drop_from_queue
unplace_job m idx queue job needs_waiting_deps =
    unindex_job
      (write_shard m idx (
        if needs_waiting_deps
        then record (m.shards idx) { waiting_deps = Dict.remove (m.shards idx).waiting_deps job.id }
        else drop_from_queue (m.shards idx) queue job.id))
      job.id

abbrev pub pushed_event : Job → ℕ → JobEvent
pushed_event job now = record {
  event_type = "pushed";
  queue = job.queue;
  job_id = job.id;
  timestamp = now;
  payload = some job.payload;
  error = none;
  progress = none;
}

-- The storage's answer to the insertion: asked and awaited in sync mode only.
abbrev pub sync_error : Manager → Job → String → Option String
sync_error m job state = if m.env.sync_persistence then m.env.insert_job job state else none

-- What follows once the job is stored.
unfoldable pub announce_push : Manager → ℕ → Job → ℕ → Manager
announce_push m idx job now =
    let counted = emit (with_metrics m (record_push m.metrics 1)) (notify_shard idx) in
    if m.env.has_event_listeners then emit counted (broadcast (pushed_event job now)) else counted

-- From the unique key on, for a job that is made and not yet placed.
unfoldable pub push_job : Manager → String → JobInput → Job → ℕ → Manager × Result Job
unfolding all_completed take_unique_key place_job unplace_job drop_custom_id announce_push
push_job m queue input job now =
    let idx = shard_index m queue in
    let needs_waiting_deps = not (all_completed m.completed_jobs job.depends_on) in
    let (s, free) = take_unique_key (m.shards idx) queue input.unique_key in
    let keyed = write_shard m idx s in
    if not free
    then (drop_custom_id keyed input.job_id, err (duplicate_key (unwrap_or input.unique_key "")))
    else let state : String = if needs_waiting_deps then "waiting_children" else "waiting" in
      let placed = place_job keyed idx queue job needs_waiting_deps in
      elim (sync_error m job state) [
        | some e ↦ (
          drop_custom_id
              (unplace_job (emit placed (persist_push job state)) idx queue job needs_waiting_deps)
              input.job_id,
          err (storage_failed e),
        )
        | none ↦
            let stored = emit placed (persist_push job state) in
            (if needs_waiting_deps then stored else announce_push stored idx job now, ok job)
      ]

unfoldable pub push_valid : Manager → String → JobInput → ℕ → Manager × Result Job
unfolding check_debounce check_custom_id push_job
push_valid m queue input now =
    let (bounced, free) = check_debounce m queue input now in
    if not free
    then (bounced, err (debounced (unwrap_or input.debounce_id "")))
    else let (internal_id, numbered) = next_id bounced in
      let (named, existing) = check_custom_id numbered input internal_id now in
      elim existing [
        | some job ↦ (named, ok job)
        | none ↦ push_job named queue input (create_job_from_input internal_id queue input now) now
      ]

unfoldable pub push : (Char → Bool) → Manager → String → JobInput → ℕ → Manager × Result Job
unfolding push_valid
push is_alphanumeric m queue input now = elim (validate_queue_name is_alphanumeric queue) [
  | err e ↦ (m, err e)
  | ok _ ↦ elim (validate_job_data input.payload) [
    | err e ↦ (m, err e)
    | ok _ ↦ push_valid m queue input now
  ]
]
