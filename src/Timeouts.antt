-- ===== src/Timeouts.antt =====
-- engine/src/queue/background/timeout.rs: jobs that run too long, and jobs whose dependencies are
-- done. The source walks hash maps: here the walk follows the model's lists.
pub mod Moved
pub mod Deps
use flashq.Prelude.{
  ℕ, zero, suc, ◌+◌, none, some, List, [], ◌∷◌, ◌++◌, map, filter, nat_eq, string_eq, if◌then◌else◌,
  add_u32,
}
use flashq.Dict
use flashq.Dict.{Dict}
use flashq.Protocol.Job.{Job, is_timed_out, should_go_to_dlq}
use flashq.Shard.{Shard, in_queue, dlq, release_concurrency}
use flashq.Manager.{
  Manager, persist_fail, persist_dlq, notify_shard, notify_subscribers, num_shards, shard_index,
  emit, write_shard, processing_get, processing_drop, index_job, record_dlq, record_retry,
  record_timeout, with_metrics,
}
use flashq.Push.{enqueue, all_completed}
use flashq.Ack.{push_dlq, retry_job}

unfoldable pub timed_out_ids : Dict ℕ Job → ℕ → List ℕ
timed_out_ids jobs now = map (λ (e : ℕ × Job). e.1.id) (filter (λ e. is_timed_out e.1 now) jobs)

-- `processing_iter` over the shards from `idx` on.
unfoldable pub all_timed_out : Manager → ℕ → ℕ → ℕ → List ℕ
unfolding timed_out_ids
all_timed_out m now zero idx = []
all_timed_out m now (suc left) idx =
    timed_out_ids (m.processing_shards idx) now ++ all_timed_out m now left (idx + 1)

-- A job that timed out, taken out of processing: its slot is released, its attempt counted.
unfoldable pub time_out_job : Manager → Job → ℕ → Manager
time_out_job m found now =
    let idx = shard_index m found.queue in
    let released = write_shard m idx (release_concurrency (m.shards idx) found.queue) in
    let job = record found { attempts = add_u32 found.attempts 1 } in
    if should_go_to_dlq job
    then (let told = emit released (notify_subscribers "timeout" job.queue job) in
        let indexed =
          emit (index_job told job.id (dlq idx job.queue))
            (persist_dlq job (some "Job timed out")) in
        let counted = with_metrics indexed (record_dlq (record_timeout indexed.metrics)) in
        write_shard counted idx (push_dlq (counted.shards idx) job.queue job))
    else (let job' = retry_job job (some "Job timed out") now in
        let indexed =
          emit (index_job released job.id (in_queue idx job.queue))
            (persist_fail job.id job'.run_at job.attempts) in
        let counted = with_metrics indexed (record_retry indexed.metrics) in
        emit (write_shard counted idx (enqueue (counted.shards idx) job.queue job'))
          (notify_shard idx))

unfoldable pub time_out_ids : Manager → List ℕ → ℕ → Manager
unfolding time_out_job
time_out_ids m [] now = m
time_out_ids m (id ∷ ids) now =
    time_out_ids
      (elim (processing_get m id) [
        | none ↦ m
        | some job ↦ time_out_job (processing_drop m id) job now
      ])
      ids now

unfoldable pub check_timed_out_jobs : Manager → ℕ → Manager
unfolding all_timed_out time_out_ids
check_timed_out_jobs m now = time_out_ids m (all_timed_out m now num_shards 0) now

unfoldable pub ready_ids : List ℕ → Dict ℕ Job → List ℕ
ready_ids completed waiting =
    map (λ (e : ℕ × Job). e.0) (filter (λ e. all_completed completed e.1.depends_on) waiting)

-- Each ready job goes from `waiting_deps` to its queue.
unfoldable pub move_ready : Shard → List ℕ → Shard
unfolding enqueue
move_ready s [] = s
move_ready s (id ∷ ids) =
    move_ready
      (elim (Dict.get s.waiting_deps id) [
        | none ↦ s
        | some job ↦
            enqueue (record s { waiting_deps = Dict.remove s.waiting_deps id }) job.queue job
      ])
      ids

unfoldable pub check_shard : Manager → ℕ → Manager
unfolding ready_ids move_ready
check_shard m idx = elim (ready_ids m.completed_jobs (m.shards idx).waiting_deps) [
  | [] ↦ m
  | id ∷ ids ↦ emit (write_shard m idx (move_ready (m.shards idx) (id ∷ ids))) (notify_shard idx)
]

unfoldable pub check_shards : Manager → ℕ → ℕ → Manager
unfolding check_shard
check_shards m zero idx = m
check_shards m (suc left) idx = check_shards (check_shard m idx) left (idx + 1)

unfoldable pub check_dependencies : Manager → Manager
unfolding check_shards
check_dependencies m = elim m.completed_jobs [ [] ↦ m | _ ∷ _ ↦ check_shards m num_shards 0 ]
