-- ===== src/Stalls.antt =====
-- engine/src/queue/monitoring.rs: heartbeats and the detection of stalled jobs.
pub mod Slots
use flashq.Prelude.{
  ℕ, zero, suc, ◌+◌, String, Bool, true, false, Option, none, some, List, [], ◌∷◌, ◌++◌, map,
  filter, ltb, leb, nat_eq, string_eq, if◌then◌else◌, add_u64, add_u32,
}
use flashq.Dict
use flashq.Dict.{Dict}
use flashq.Protocol.Job.{Job}
use flashq.Result.{Result, ok, err, not_in_processing}
use flashq.Shard.{Shard, dlq}
use flashq.Manager.{
  Manager, num_shards, persist_dlq, shard_index, emit, write_shard, processing_get, processing_drop,
  processing_update, index_job, record_fail, with_metrics,
}
use flashq.Logs.{add_job_log}
use flashq.Ack.{push_dlq}

unfoldable pub heartbeat : Manager → ℕ → ℕ → Manager × Result (Unit {0})
heartbeat m id now = elim (processing_update m id (λ job. record job { last_heartbeat = now })) [
  | none ↦ (m, err (not_in_processing id))
  | some beaten ↦ (record beaten { stalled_count = Dict.remove beaten.stalled_count id }, ok tt)
]

unfoldable pub is_stalled : Job → ℕ → Bool
is_stalled job now =
    let stall_timeout = if ltb 0 job.stall_timeout then job.stall_timeout else 30000 in
    let last_activity = if ltb 0 job.last_heartbeat then job.last_heartbeat else job.started_at in
    ltb (add_u64 last_activity stall_timeout) now

abbrev pub stalled_in : Dict ℕ Job → ℕ → List (ℕ × ℕ)
stalled_in jobs now =
    map (λ (e : ℕ × Job). (e.1.id, e.1.stall_count)) (filter (λ e. is_stalled e.1 now) jobs)

unfoldable pub all_stalled : Manager → ℕ → ℕ → ℕ → List (ℕ × ℕ)
unfolding is_stalled
all_stalled m now zero idx = []
all_stalled m now (suc left) idx =
    stalled_in (m.processing_shards idx) now ++ all_stalled m now left (idx + 1)

-- The third stall of a job: it goes to the dead letter queue.
unfoldable pub bury_stalled : Manager → ℕ → ℕ → Manager
unfolding push_dlq
bury_stalled m id now = elim (processing_get m id) [
  | none ↦ m
  | some job ↦
      let idx = shard_index m job.queue in
      let indexed =
        index_job (emit (processing_drop m id) (persist_dlq job (some "Job stalled"))) id
          (dlq idx job.queue) in
      let stored = write_shard indexed idx (push_dlq (indexed.shards idx) job.queue job) in
      (add_job_log (with_metrics stored (record_fail stored.metrics)) id
        "Job moved to DLQ after 3 stall detections" "error" now).0
]

-- An earlier stall: the job gets more time. The text of the log shows the count.
module _ (stall_text : ℕ → String) where
  unfoldable pub warn_stalled : Manager → ℕ → ℕ → ℕ → Manager
  warn_stalled m id count now =
      let raised = add_u32 count 1 in
      let updated : Manager =
        elim (processing_update m id
          (λ job. record job { last_heartbeat = now; stall_count = raised })) [
            | none ↦ m
            | some n ↦ n
          ] in
      (add_job_log updated id (stall_text raised) "warn" now).0

  unfoldable pub handle_stalled : Manager → ℕ × ℕ → ℕ → Manager
  unfolding bury_stalled warn_stalled
  handle_stalled m stalled now =
      let count = Dict.get_or m.stalled_count stalled.0 0 + 1 in
      let counted = record m { stalled_count = Dict.insert m.stalled_count stalled.0 count } in
      if leb 3 count
      then bury_stalled counted stalled.0 now
      else warn_stalled counted stalled.0 stalled.1 now

  unfoldable pub handle_all : Manager → List (ℕ × ℕ) → ℕ → Manager
  unfolding handle_stalled
  handle_all m [] now = m
  handle_all m (s ∷ rest) now = handle_all (handle_stalled m s now) rest now

  unfoldable pub check_stalled_jobs : Manager → ℕ → Manager
  unfolding all_stalled handle_all
  check_stalled_jobs m now = handle_all m (all_stalled m now num_shards 0) now
