-- ===== src/JobOps.antt =====
-- engine/src/queue/job_ops.rs: operations on one job, found through the job index.
pub mod Blocked
use flashq.Prelude.{
  ℕ, pos, String, Option, none, some, List, [], ◌∷◌, min, nat_beq, nat_eq, string_eq, if◌then◌else◌,
}
use flashq.Dict
use flashq.Protocol.Json.{Value, Fields, number, int, object, field, end}
use flashq.Protocol.Job.{Job, JobEvent}
use flashq.Ipq
use flashq.Result.{Result, ok, err, not_found, not_found_in_processing, cannot_be_cancelled}
use flashq.Shard.{
  Shard, JobLocation, in_queue, processing, dlq, waiting_deps, waiting_parents, done,
  release_concurrency, remove_unique_key,
}
use flashq.Manager.{
  Manager, persist_cancel, notify_waiters, notify_subscribers, shard_index, emit, write_shard,
  processing_get, processing_drop, processing_update, unindex_job,
}
use flashq.Query.{find_job}
use flashq.Ack.{job_event, broadcast_if_heard}

-- What every branch of `cancel` does once it has taken the job out.
unfoldable pub cancelled : Manager → ℕ → Manager
cancelled m id = emit (emit (unindex_job m id) (persist_cancel id)) (notify_waiters id none)

unfoldable pub cancel_processing : Manager → ℕ → Manager × Result (Unit {0})
unfolding cancelled
cancel_processing m id = elim (processing_get m id) [
  | none ↦ (m, err (not_found id))
  | some job ↦
      let idx = shard_index m job.queue in
      (
        cancelled
            (write_shard (processing_drop m id) idx (
              remove_unique_key (release_concurrency (m.shards idx) job.queue) job.queue
                job.unique_key))
            id,
        ok tt,
      )
]

unfoldable pub cancel_in_queue : Manager → ℕ → ℕ → String → Manager × Result (Unit {0})
unfolding cancelled
cancel_in_queue m id idx queue = elim (Dict.get (m.shards idx).queues queue) [
  | none ↦ (m, err (not_found id))
  | some heap ↦
      let (removed, rest) = Ipq.remove heap id in
      elim removed [
        | none ↦ (m, err (not_found id))
        | some job ↦ (
          cancelled
              (write_shard m idx (
                remove_unique_key
                  (record (m.shards idx) { queues = Dict.insert (m.shards idx).queues queue rest })
                  queue job.unique_key))
              id,
          ok tt,
        )
      ]
]

unfoldable pub cancel_at : Manager → ℕ → JobLocation → Manager × Result (Unit {0})
unfolding cancelled cancel_processing cancel_in_queue
cancel_at m id processing = cancel_processing m id
cancel_at m id (waiting_deps i) = elim (Dict.get (m.shards i).waiting_deps id) [
  | none ↦ (m, err (not_found id))
  | some job ↦
      let s = m.shards i in
      (
        cancelled (write_shard m i (record s { waiting_deps = Dict.remove s.waiting_deps id })) id,
        ok tt,
      )
]
cancel_at m id (in_queue i queue) = cancel_in_queue m id i queue
cancel_at m id (waiting_parents i) = elim (Dict.get (m.shards i).waiting_children id) [
  | none ↦ (m, err (not_found id))
  | some job ↦
      let s = m.shards i in
      (
        cancelled
            (write_shard m i (record s { waiting_children = Dict.remove s.waiting_children id }))
            id,
        ok tt,
      )
]
cancel_at m id (dlq i queue) = (m, err (cannot_be_cancelled id))
cancel_at m id done = (m, err (cannot_be_cancelled id))

unfoldable pub cancel : Manager → ℕ → Manager × Result (Unit {0})
unfolding cancel_at
cancel m id = elim (Dict.get m.job_index id) [
  | none ↦ (m, err (not_found id))
  | some location ↦ cancel_at m id location
]

unfoldable pub update_progress : Manager → ℕ → ℕ → Option String → Manager × Result (Unit {0})
update_progress m id progress message =
    elim (processing_update m id
      (λ job. record job { progress = min progress 100; progress_msg = message })) [
        | none ↦ (m, err (not_found_in_processing id))
        | some m' ↦ (
          elim (processing_get m' id) [
            | none ↦ m'
            | some job ↦ emit m' (notify_subscribers "progress" job.queue job)
          ],
          ok tt,
        )
      ]

unfoldable pub get_progress : Manager → ℕ → Result (ℕ × Option String)
get_progress m id = elim (processing_get m id) [
  | none ↦ err (not_found id)
  | some job ↦ ok (job.progress, job.progress_msg)
]

-- A job of the queue is taken out, rewritten and pushed again; `none` where it is not there.
unfoldable pub update_in_queue : Shard → String → ℕ → (Job → Job) → Option Shard
update_in_queue s queue id f = elim (Dict.get s.queues queue) [
  | none ↦ none
  | some heap ↦
      let (removed, rest) = Ipq.remove heap id in
      elim removed [
        | none ↦ none
        | some job ↦ some (record s { queues = Dict.insert s.queues queue (Ipq.push rest (f job)) })
      ]
]

-- The first job of that id in the dead letter queue is rewritten in place.
unfoldable pub update_job_in : List Job → ℕ → (Job → Job) → List Job
update_job_in [] id f = []
update_job_in (j ∷ js) id f =
    let rest = update_job_in js id f in if nat_beq j.id id then f j ∷ js else j ∷ rest

unfoldable pub update_in_dlq : Shard → String → ℕ → (Job → Job) → Option Shard
unfolding update_job_in
update_in_dlq s queue id f = elim (Dict.get s.dlq queue) [
  | none ↦ none
  | some jobs ↦ elim (find_job jobs id) [
    | none ↦ none
    | some _ ↦ some (record s { dlq = Dict.insert s.dlq queue (update_job_in jobs id f) })
  ]
]

unfoldable pub update_waiting : Shard → ℕ → (Job → Job) → Option Shard
update_waiting s id f = elim (Dict.get s.waiting_deps id) [
  | none ↦ none
  | some job ↦ some (record s { waiting_deps = Dict.insert s.waiting_deps id (f job) })
]

unfoldable pub update_parent : Shard → ℕ → (Job → Job) → Option Shard
update_parent s id f = elim (Dict.get s.waiting_children id) [
  | none ↦ none
  | some job ↦ some (record s { waiting_children = Dict.insert s.waiting_children id (f job) })
]

-- `partial`: the event's data are the chunk, and its index if there is one, as `serde_json` writes
-- them.
unfoldable pub partial : Manager → ℕ → Value → Option ℕ → ℕ → Manager × Result (Unit {0})
partial m id chunk index now = elim (processing_get m id) [
  | none ↦ (m, err (not_found_in_processing id))
  | some job ↦
      let fields : Fields = elim index [
        | none ↦ end
        | some i ↦ field "index" (number (int (pos i))) end
      ] in
      (
        broadcast_if_heard m
            (record (job_event "partial" job now (some (object (field "chunk" chunk fields)))
              none) { job_id = id }),
        ok tt,
      )
]
