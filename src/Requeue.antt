-- ===== src/Requeue.antt =====
-- engine/src/queue/job_ops.rs, continued: operations that change a job where it stands, or move it
-- between the processing map, its queue and the dead letter queue.
use flashq.Prelude.{
  ℕ, String, ℤ, Option, none, some, ltb, nat_eq, string_eq, if◌then◌else◌, add_u64,
}
use flashq.Dict
use flashq.Protocol.Json.{Value}
use flashq.Protocol.Job.{Job}
use flashq.Ipq
use flashq.Result.{
  Error, Result, ok, err, not_found, not_found_in_processing, not_found_in_queue, not_found_in_dlq,
  not_found_in_waiting_deps, not_found_in_waiting_children, not_in_processing, not_delayed,
  cannot_change_priority,
}
use flashq.Shard.{
  Shard, JobLocation, in_queue, processing, dlq, waiting_deps, waiting_parents, done,
  release_concurrency,
}
use flashq.Manager.{
  Manager, Effect, persist_discard, persist_priority, persist_delayed, persist_promote,
  persist_data, shard_index, emit, write_shard, processing_get, processing_drop, processing_update,
  index_job,
}
use flashq.Push.{enqueue}
use flashq.Ack.{push_dlq}
use flashq.JobOps.{update_in_queue, update_in_dlq, update_waiting, update_parent}

-- The shard is written and the change persisted where the job was found.
abbrev pub commit_shard : Manager → ℕ → Option Shard → Effect → Error → Manager × Result (Unit {0})
commit_shard m i none e missing = (m, err missing)
commit_shard m i (some s) e missing = (emit (write_shard m i s) e, ok tt)

abbrev pub commit : Manager → Option Manager → Effect → Error → Manager × Result (Unit {0})
commit m none e missing = (m, err missing)
commit m (some m') e missing = (emit m' e, ok tt)

abbrev pub set_priority : ℤ → Job → Job
set_priority p job = record job { priority = p }

unfoldable pub change_priority_at : Manager → ℕ → ℤ → JobLocation → Manager × Result (Unit {0})
change_priority_at m id p processing =
    commit m (processing_update m id (set_priority p)) (persist_priority id p)
      (not_found_in_processing id)
change_priority_at m id p (in_queue i queue) =
    commit_shard m i (update_in_queue (m.shards i) queue id (set_priority p))
      (persist_priority id p) (not_found_in_queue id)
change_priority_at m id p (dlq i queue) =
    commit_shard m i (update_in_dlq (m.shards i) queue id (set_priority p)) (persist_priority id p)
      (not_found_in_dlq id)
change_priority_at m id p (waiting_deps i) =
    commit_shard m i (update_waiting (m.shards i) id (set_priority p)) (persist_priority id p)
      (not_found_in_waiting_deps id)
change_priority_at m id p (waiting_parents i) =
    commit_shard m i (update_parent (m.shards i) id (set_priority p)) (persist_priority id p)
      (not_found_in_waiting_children id)
change_priority_at m id p done = (m, err (cannot_change_priority id))

unfoldable pub change_priority : Manager → ℕ → ℤ → Manager × Result (Unit {0})
unfolding change_priority_at
change_priority m id p = elim (Dict.get m.job_index id) [
  | none ↦ (m, err (cannot_change_priority id))
  | some location ↦ change_priority_at m id p location
]

abbrev pub delay_job : Job → ℕ → Job
delay_job job run_at = record job {
  run_at = run_at;
  started_at = 0;
  progress = 0;
  progress_msg = none;
}

unfoldable pub move_to_delayed : Manager → ℕ → ℕ → ℕ → Manager × Result (Unit {0})
move_to_delayed m id delay_ms now = elim (processing_get m id) [
  | none ↦ (m, err (not_in_processing id))
  | some job ↦
      let run_at = add_u64 now delay_ms in
      let idx = shard_index m job.queue in
      let indexed =
        emit (index_job (processing_drop m id) id (in_queue idx job.queue))
          (persist_delayed id run_at) in
      (
        write_shard indexed idx (
            enqueue (release_concurrency (indexed.shards idx) job.queue) job.queue
              (delay_job job run_at)),
        ok tt,
      )
]

-- In either case the job is pushed again: ready now, or as it was.
unfoldable pub promote_in : Manager → ℕ → ℕ → ℕ → String → Manager × Result (Unit {0})
promote_in m id now i queue = elim (Dict.get (m.shards i).queues queue) [
  | none ↦ (m, err (not_found_in_queue id))
  | some heap ↦
      let (removed, rest) = Ipq.remove heap id in
      elim removed [
        | none ↦ (m, err (not_found_in_queue id))
        | some job ↦
            let s = m.shards i in
            let job' = if ltb now job.run_at then record job { run_at = now } else job in
            let pushed =
              write_shard m i
                (record s { queues = Dict.insert s.queues queue (Ipq.push rest job') }) in
            if ltb now job.run_at
            then (emit pushed (persist_promote id now), ok tt)
            else (pushed, err (not_delayed id))
      ]
]

unfoldable pub promote_at : Manager → ℕ → ℕ → JobLocation → Manager × Result (Unit {0})
unfolding promote_in
promote_at m id now (in_queue i queue) = promote_in m id now i queue
promote_at m id now _ = (m, err (not_found id))

unfoldable pub promote : Manager → ℕ → ℕ → Manager × Result (Unit {0})
unfolding promote_at
promote m id now = elim (Dict.get m.job_index id) [
  | none ↦ (m, err (not_found id))
  | some location ↦ promote_at m id now location
]

abbrev pub set_payload : Value → Job → Job
set_payload v job = record job { payload = v }

unfoldable pub update_job_data_at : Manager → ℕ → Value → JobLocation → Manager × Result (Unit {0})
update_job_data_at m id v processing =
    commit m (processing_update m id (set_payload v)) (persist_data id v)
      (not_found_in_processing id)
update_job_data_at m id v (in_queue i queue) =
    commit_shard m i (update_in_queue (m.shards i) queue id (set_payload v)) (persist_data id v)
      (not_found_in_queue id)
update_job_data_at m id v (dlq i queue) =
    commit_shard m i (update_in_dlq (m.shards i) queue id (set_payload v)) (persist_data id v)
      (not_found_in_dlq id)
update_job_data_at m id v _ = (m, err (not_found id))

unfoldable pub update_job_data : Manager → ℕ → Value → Manager × Result (Unit {0})
unfolding update_job_data_at
update_job_data m id v = elim (Dict.get m.job_index id) [
  | none ↦ (m, err (not_found id))
  | some location ↦ update_job_data_at m id v location
]

unfoldable pub discard_processing : Manager → ℕ → Manager × Result (Unit {0})
discard_processing m id = elim (processing_get m id) [
  | none ↦ (m, err (not_in_processing id))
  | some job ↦
      let idx = shard_index m job.queue in
      let moved =
        write_shard (processing_drop m id) idx
          (push_dlq (release_concurrency (m.shards idx) job.queue) job.queue job) in
      (emit (index_job moved id (dlq idx job.queue)) (persist_discard id), ok tt)
]

unfoldable pub discard_in_queue : Manager → ℕ → ℕ → String → Manager × Result (Unit {0})
discard_in_queue m id i queue = elim (Dict.get (m.shards i).queues queue) [
  | none ↦ (m, err (not_found_in_queue id))
  | some heap ↦
      let (removed, rest) = Ipq.remove heap id in
      elim removed [
        | none ↦ (m, err (not_found_in_queue id))
        | some job ↦
            let s = m.shards i in
            let moved =
              write_shard m i
                (push_dlq (record s { queues = Dict.insert s.queues queue rest }) queue job) in
            (emit (index_job moved id (dlq i queue)) (persist_discard id), ok tt)
      ]
]

unfoldable pub discard_at : Manager → ℕ → JobLocation → Manager × Result (Unit {0})
unfolding discard_processing discard_in_queue
discard_at m id processing = discard_processing m id
discard_at m id (in_queue i queue) = discard_in_queue m id i queue
discard_at m id _ = (m, err (not_found id))

unfoldable pub discard : Manager → ℕ → Manager × Result (Unit {0})
unfolding discard_at
discard m id = elim (Dict.get m.job_index id) [
  | none ↦ (m, err (not_found id))
  | some location ↦ discard_at m id location
]
