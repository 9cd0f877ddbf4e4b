-- ===== src/Ack.antt =====
-- engine/src/queue/ack.rs: `ack`, `fail` and `get_result`.
pub mod Keeps
pub mod Batch
pub mod Once
pub mod Frees
pub mod Retry
pub mod Buried
use mathlib.Core.Option
use flashq.Prelude.{
  ℕ, zero, suc, ◌+◌, ◌-◌, String, Bool, true, false, ◌||◌, Option, none, some, List, [], ◌∷◌, ◌++◌,
  length, ltb, drop, set_insert, nat_eq, string_eq, if◌then◌else◌, add_u64, sub_u64, add_u32,
}
use flashq.Dict
use flashq.Dict.{Dict}
use flashq.Protocol.Json.{Value}
use flashq.Protocol.Job.{Job, JobEvent, should_go_to_dlq, next_backoff}
use flashq.Result.{Result, ok, err, not_found}
use flashq.Shard.{
  Shard, in_queue, dlq, done, release_concurrency, release_group, remove_unique_key,
  release_job_resources,
}
use flashq.Manager.{
  Manager, persist_ack, persist_ack_batch, persist_delete, persist_delete_batch, persist_fail,
  persist_dlq, notify_shard, notify_subscribers, notify_waiters, broadcast, shard_index, emit,
  write_shard, processing_get, processing_drop, index_job, unindex_job, record_complete,
  record_fail, record_dlq, record_retry, with_metrics,
}
use flashq.Push.{enqueue}
use flashq.Flows.{on_child_completed}

abbrev pub job_event : String → Job → ℕ → Option Value → Option String → JobEvent
job_event kind job now payload error = record {
  event_type = kind;
  queue = job.queue;
  job_id = job.id;
  timestamp = now;
  payload = payload;
  error = error;
  progress = none;
}

abbrev pub broadcast_if_heard : Manager → JobEvent → Manager
broadcast_if_heard m e = if m.env.has_event_listeners then emit m (broadcast e) else m

-- `unindex_job`, and the removal of the job's log and stall count.
unfoldable pub forget_job : Manager → ℕ → Manager
forget_job m id = record (unindex_job m id) {
  job_logs = Dict.remove m.job_logs id;
  stalled_count = Dict.remove m.stalled_count id;
}

-- The result, the mark and the record of a job that is kept after its completion. The records are
-- cut to the newest `max_completed_jobs`.
unfoldable pub store_completed : Manager → Job → Option Value → ℕ → Manager
store_completed m job result now =
    let records = m.completed_jobs_data ++ (job, now, result) ∷ [] in
    record (index_job m job.id done) {
      job_results = elim result [
        | none ↦ m.job_results
        | some r ↦ Dict.insert m.job_results job.id r
      ];
      completed_jobs = set_insert m.completed_jobs job.id;
      completed_jobs_data = drop (length records - m.env.max_completed_jobs) records;
    }

unfoldable pub retain_result : Manager → Job → Option Value → ℕ → Manager
retain_result m job result now =
    if ltb 0 job.keep_completed_age || ltb 0 job.keep_completed_count
    then record m {
      completed_retention =
          Dict.insert m.completed_retention job.id (now, job.keep_completed_age, result);
    }
    else m

-- Release the shard's resources of a job that was processing.
unfoldable pub release_resources : Manager → Job → Manager
release_resources m job =
    let idx = shard_index m job.queue in
    write_shard m idx (release_job_resources (m.shards idx) job.queue job.unique_key job.group_id)

unfoldable pub finish_ack : Manager → Job → Option Value → ℕ → Manager
unfolding retain_result
finish_ack m job result now =
    let counted = with_metrics m (record_complete m.metrics (sub_u64 now job.created_at)) in
    let told = emit counted (notify_subscribers "completed" job.queue job) in
    let heard = broadcast_if_heard told (job_event "completed" job now result none) in
    let kept = retain_result (emit heard (notify_waiters job.id result)) job result now in
    elim job.parent_id [ none ↦ kept | some parent_id ↦ on_child_completed kept parent_id now ]

-- `ack` of a job that was found and taken out of the processing map, where it stood under its id.
unfoldable pub ack_job : Manager → Job → Option Value → ℕ → Manager
unfolding release_resources store_completed finish_ack forget_job
ack_job m job result now =
    let released = release_resources m job in
    finish_ack
      (if job.remove_on_complete
        then emit (forget_job released job.id) (persist_delete job.id)
        else emit (store_completed released job result now) (persist_ack job.id result))
      job result now

unfoldable pub ack : Manager → ℕ → Option Value → ℕ → Manager × Result (Unit {0})
unfolding ack_job
ack m id result now = elim (processing_get m id) [
  | none ↦ (m, err (not_found id))
  | some job ↦ (ack_job (processing_drop m id) job result now, ok tt)
]

-- `release_concurrency` and `release_group` under one lock.
unfoldable pub release_slot_and_group : Manager → Job → Manager
release_slot_and_group m job =
    let idx = shard_index m job.queue in
    write_shard m idx
      (release_group (release_concurrency (m.shards idx) job.queue) job.queue job.group_id)

unfoldable pub push_dlq : Shard → String → Job → Shard
push_dlq s queue job = record s {
  dlq = Dict.insert s.dlq queue (Dict.get_or s.dlq queue [] ++ job ∷ []);
}

-- `fail` of a job that is discarded.
unfoldable pub fail_removed : Manager → Job → Option String → ℕ → Manager
unfolding release_slot_and_group forget_job
fail_removed m job error now =
    let released = forget_job (release_slot_and_group m job) job.id in
    let counted = with_metrics released (record (record_fail released.metrics) {
      current_processing = sub_u64 released.metrics.current_processing 1;
    }) in
    broadcast_if_heard counted (job_event "failed" job now none error)

-- `fail` of a job that goes to the dead letter queue.
unfoldable pub fail_to_dlq : Manager → Job → Option String → ℕ → Manager
unfolding release_slot_and_group push_dlq
fail_to_dlq m job error now =
    let idx = shard_index m job.queue in
    let indexed = emit (index_job m job.id (dlq idx job.queue)) (persist_dlq job error) in
    let released = release_slot_and_group indexed job in
    let stored = write_shard released idx (push_dlq (released.shards idx) job.queue job) in
    broadcast_if_heard (with_metrics stored (record_dlq (record_fail stored.metrics)))
      (job_event "failed" job now none error)

-- The job as it goes back to its queue.
unfoldable pub retry_job : Job → Option String → ℕ → Job
retry_job job error now =
    let backoff = next_backoff job in
    record job {
      run_at = if ltb 0 backoff then add_u64 now backoff else job.run_at;
      started_at = 0;
      progress_msg = elim error [ none ↦ job.progress_msg | some e ↦ some e ];
    }

unfoldable pub fail_retried : Manager → Job → Option String → ℕ → Manager
unfolding release_slot_and_group retry_job
fail_retried m job error now =
    let idx = shard_index m job.queue in
    let job' = retry_job job error now in
    let indexed =
      emit (index_job m job.id (in_queue idx job.queue))
        (persist_fail job.id job'.run_at job.attempts) in
    let released = release_slot_and_group indexed job in
    let queued = write_shard released idx (enqueue (released.shards idx) job.queue job') in
    emit (with_metrics queued (record_retry queued.metrics)) (notify_shard idx)

-- `fail` of a job that was found and taken out of the processing map, with the attempt counted. A
-- job stands in that map under its own id.
unfoldable pub fail_job : Manager → Job → Option String → ℕ → Manager
unfolding fail_removed fail_to_dlq fail_retried
fail_job m found error now =
    let job = record found { attempts = add_u32 found.attempts 1 } in
    if should_go_to_dlq job
    then (let told =
          emit (emit m (notify_subscribers "failed" job.queue job)) (notify_waiters job.id none) in
        if job.remove_on_fail
        then fail_removed told job error now
        else fail_to_dlq told job error now)
    else fail_retried m job error now

unfoldable pub fail : Manager → ℕ → Option String → ℕ → Manager × Result (Unit {0})
unfolding fail_job
fail m id error now = elim (processing_get m id) [
  | none ↦ (m, err (not_found id))
  | some job ↦ (fail_job (processing_drop m id) job error now, ok tt)
]

unfoldable pub get_result : Manager → ℕ → Option Value
get_result m id = Dict.get m.job_results id
