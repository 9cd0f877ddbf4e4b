-- ===== src/Stalls/Slots.antt =====
-- engine/src/queue/monitoring.rs: what the third stall of a job leaves behind.
use flashq.Prelude.{
  ℕ, ◌+◌, ◌≤◌, ◌≡◌, refl, ap, ◌∙◌, String, none, some, [], arith, nat_eq, string_eq,
}
use flashq.Dict
use flashq.Dict.Laws.{get-insert_self}
use flashq.Protocol.Job.{Job, failed}
use flashq.Shard.{Shard, dlq}
use flashq.Manager.{
  Manager, shard_index, emit, persist_dlq, write_shard, processing_get, processing_drop, index_job,
  record_fail, with_metrics,
}
use flashq.Manager.Laws.{shards-write_shard}
use flashq.Logs.{add_job_log}
use flashq.Query.{find_job, get_job}
use flashq.Ack.{push_dlq}
use flashq.Ack.Buried.{get_job-dlq, dlq_job-push_dlq}
use flashq.Stalls.{bury_stalled, handle_stalled}

shards-add_job_log :
    (m : Manager) (id : ℕ) (message level : String) (now : ℕ)
    → (add_job_log m id message level now).0.shards ≡ m.shards
unfolding add_job_log
shards-add_job_log m id message level now = ground arith

job_index-add_job_log :
    (m : Manager) (id : ℕ) (message level : String) (now : ℕ)
    → (add_job_log m id message level now).0.job_index ≡ m.job_index
unfolding add_job_log
job_index-add_job_log m id message level now = ground arith

abbrev dropped : Manager → ℕ → Job → Manager
dropped m id job =
    index_job (emit (processing_drop m id) (persist_dlq job (some "Job stalled"))) id
      (dlq (shard_index m job.queue) job.queue)

abbrev stored : Manager → ℕ → Job → Manager
stored m id job =
    write_shard (dropped m id job) (shard_index m job.queue)
      (push_dlq ((dropped m id job).shards (shard_index m job.queue)) job.queue job)

abbrev logged : Manager → ℕ → Job → ℕ → Manager
logged m id job now =
    (add_job_log (with_metrics (stored m id job) (record_fail (stored m id job).metrics)) id
      "Job moved to DLQ after 3 stall detections" "error" now).0

bury_stalled-logged :
    (m : Manager) (id : ℕ) (job : Job) (now : ℕ)
    → processing_get m id ≡ some job
    → bury_stalled m id now ≡ logged m id job now
unfolding bury_stalled
bury_stalled-logged m id job now e = rw (e, bury_stalled) refl

shard-logged :
    (m : Manager) (id : ℕ) (job : Job) (now : ℕ)
    → (logged m id job now).shards (shard_index m job.queue)
      ≡ push_dlq (m.shards (shard_index m job.queue)) job.queue job
unfolding index_job processing_drop
shard-logged m id job now =
    ap (λ (f : ℕ → Shard). f (shard_index m job.queue)) (shards-add_job_log _ id _ _ now)
    ∙ shards-write_shard (dropped m id job) (shard_index m job.queue) _

get_job-logged :
    (m : Manager) (job : Job) (now later : ℕ)
    → find_job (Dict.get_or (m.shards (shard_index m job.queue)).dlq job.queue []) job.id ≡ none
    → get_job (logged m job.id job now) job.id later ≡ (some job, failed)
unfolding index_job write_shard processing_drop
get_job-logged m job now later new =
    get_job-dlq (logged m job.id job now) job.id (shard_index m job.queue) job.queue job later
      (ap (λ d. Dict.get d job.id)
          (job_index-add_job_log
            (with_metrics (stored m job.id job) (record_fail (stored m job.id job).metrics)) job.id
            "Job moved to DLQ after 3 stall detections" "error" now)
        ∙ get-insert_self m.job_index job.id (dlq (shard_index m job.queue) job.queue))
      (dlq_job-push_dlq (logged m job.id job now) (shard_index m job.queue)
        (m.shards (shard_index m job.queue)) job.queue job (shard-logged m job.id job now) new)

-- The state in which the third stall is handled.
abbrev counted : Manager → ℕ → Manager
counted m id = record m {
  stalled_count = Dict.insert m.stalled_count id (Dict.get_or m.stalled_count id 0 + 1);
}

handle_stalled_third :
    (stall_text : ℕ → String) (m : Manager) (id stalls now : ℕ)
    → 2 ≤ Dict.get_or m.stalled_count id 0
    → handle_stalled stall_text m (id, stalls) now ≡ bury_stalled (counted m id) id now
unfolding handle_stalled
handle_stalled_third stall_text m id stalls now le = ground (arith)

-- The third stall of a job that is processing under its own id, with no older job of that id in the
-- dead letter queue, moves it there: `get_job` finds it in the failed state. But the queue keeps the
-- slots, the active groups and the unique keys that it had, so those of the job stay taken.
pub third_stall_keeps_slots :
    (stall_text : ℕ → String) (m : Manager) (job : Job) (stalls now later : ℕ)
    → processing_get m job.id ≡ some job
    → 2 ≤ Dict.get_or m.stalled_count job.id 0
    → find_job (Dict.get_or (m.shards (shard_index m job.queue)).dlq job.queue []) job.id ≡ none
    → let after = handle_stalled stall_text m (job.id, stalls) now in
      let before = m.shards (shard_index m job.queue) in
      let s = after.shards (shard_index m job.queue) in
      (get_job after job.id later ≡ (some job, failed))
      × (s.queue_state ≡ before.queue_state)
      × (s.active_groups ≡ before.active_groups)
      × (s.unique_keys ≡ before.unique_keys)
unfolding processing_get shard_index push_dlq
third_stall_keeps_slots stall_text m job stalls now later e le new =
    let buried =
      handle_stalled_third stall_text m job.id stalls now le
      ∙ bury_stalled-logged (counted m job.id) job.id job now e in
    let same =
      ap (λ (k : Manager). k.shards (shard_index m job.queue)) buried
      ∙ shard-logged (counted m job.id) job.id job now in
    (
      ap (λ k. get_job k job.id later) buried ∙ get_job-logged (counted m job.id) job now later new,
      ap (λ (s : Shard). s.queue_state) same,
      ap (λ (s : Shard). s.active_groups) same,
      ap (λ (s : Shard). s.unique_keys) same,
    )
