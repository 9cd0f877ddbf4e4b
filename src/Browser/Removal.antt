-- ===== src/Browser/Removal.antt =====
-- engine/src/queue/browser.rs: the removal of jobs by state, of a queue's waiting jobs, and of all
-- that belongs to a queue.
use flashq.Prelude.{
  ℕ, zero, suc, ◌+◌, ◌-◌, ◌^◌, String, true, false, not, Option, none, some, List, [], ◌∷◌, ◌++◌,
  map, length, take, filter, leb, set_remove, nat_eq, string_eq, ◌==◌,
}
use flashq.Dict
use flashq.Dict.{Dict}
use flashq.Protocol.Job.{Job, JobState, CronJob, waiting, delayed, active, completed, failed}
use flashq.Ipq
use flashq.Ipq.{Ipq}
use flashq.Shard.{Shard}
use flashq.Manager.{
  Manager, persist_clean, persist_drain, persist_obliterate, shard_index, emit, write_shard,
  processing_drop, unindex_job,
}
use flashq.Cleanup.{remove_keys, remove_members, sort_ids}

-- The first `n` jobs made at the cutoff or before, and the jobs without them.
unfoldable pub split_old : ℕ → ℕ → List Job → List Job × List Job
split_old zero cutoff jobs = ([], jobs)
split_old (suc n) cutoff [] = ([], [])
split_old (suc n) cutoff (job ∷ jobs) = elim (leb job.created_at cutoff) [
  | true ↦ let (old, kept) = split_old n cutoff jobs in (job ∷ old, kept)
  | false ↦ let (old, kept) = split_old (suc n) cutoff jobs in (old, job ∷ kept)
]

abbrev pub ids_of : List Job → List ℕ
ids_of = map (λ (job : Job). job.id)

abbrev pub unindex_ids : Manager → List ℕ → Manager
unindex_ids m ids = record m { job_index = remove_keys m.job_index ids }

-- The keys of the jobs leave the queue's set, if there is one.
abbrev pub drop_keys : List String → List Job → List String
drop_keys keys [] = keys
drop_keys keys (job ∷ jobs) =
    drop_keys (elim job.unique_key [ none ↦ keys | some key ↦ set_remove keys key ]) jobs

unfoldable pub drop_unique_keys : Shard → String → List Job → Shard
drop_unique_keys s queue jobs = elim (Dict.get s.unique_keys queue) [
  | none ↦ s
  | some keys ↦ record s { unique_keys = Dict.insert s.unique_keys queue (drop_keys keys jobs) }
]

unfoldable pub clean_failed : Manager → String → ℕ → ℕ → Manager × ℕ
unfolding split_old
clean_failed m queue cutoff max_remove =
    let idx = shard_index m queue in
    let s = m.shards idx in
    elim (Dict.get s.dlq queue) [
      | none ↦ (m, 0)
      | some jobs ↦
          let (old, kept) = split_old max_remove cutoff jobs in
          (
            unindex_ids (write_shard m idx (record s { dlq = Dict.insert s.dlq queue kept }))
                (ids_of old),
            length old,
          )
    ]

unfoldable pub clean_queued : Manager → String → ℕ → ℕ → Manager × ℕ
unfolding split_old drop_unique_keys
clean_queued m queue cutoff max_remove =
    let idx = shard_index m queue in
    let s = m.shards idx in
    elim (Dict.get s.queues queue) [
      | none ↦ (m, 0)
      | some heap ↦
          let old = (split_old max_remove cutoff (Ipq.jobs heap)).0 in
          let emptied = record s {
            queues = Dict.insert s.queues queue (Ipq.remove_ids heap (ids_of old));
          } in
          (
            unindex_ids (write_shard m idx (drop_unique_keys emptied queue old)) (ids_of old),
            length old,
          )
    ]

unfoldable pub clean_completed : Manager → ℕ → Manager × ℕ
clean_completed m max_remove =
    let ids = take max_remove (sort_ids m.completed_jobs) in
    (
      unindex_ids
          (record m {
            completed_jobs = remove_members m.completed_jobs ids;
            job_results = remove_keys m.job_results ids;
            job_logs = remove_keys m.job_logs ids;
          })
          ids,
      length ids,
    )

abbrev pub state_str : JobState → String
state_str waiting = "waiting"
state_str delayed = "delayed"
state_str active = "active"
state_str completed = "completed"
state_str failed = "failed"
state_str _ = "unknown"

unfoldable pub clean_state : Manager → String → ℕ → JobState → ℕ → Manager × ℕ
unfolding clean_failed clean_queued clean_completed
clean_state m queue cutoff failed max_remove = clean_failed m queue cutoff max_remove
clean_state m queue cutoff waiting max_remove = clean_queued m queue cutoff max_remove
clean_state m queue cutoff delayed max_remove = clean_queued m queue cutoff max_remove
clean_state m queue cutoff completed max_remove = clean_completed m max_remove
clean_state m queue cutoff _ max_remove = (m, 0)

-- Without a limit the model's bound is `u64::MAX`; `saturating_sub` is `-` on ℕ.
unfoldable pub clean : Manager → String → ℕ → JobState → Option ℕ → ℕ → Manager × ℕ
unfolding clean_state
clean m queue grace_ms state limit now =
    let cutoff = now - grace_ms in
    let max_remove : ℕ = elim limit [ none ↦ 2 ^ 64 - 1 | some n ↦ n ] in
    let (cleaned, removed) = clean_state m queue cutoff state max_remove in
    (emit cleaned (persist_clean queue cutoff (state_str state)), removed)

unfoldable pub drain : Manager → String → Manager × ℕ
unfolding drop_unique_keys
drain m queue =
    let idx = shard_index m queue in
    let s = m.shards idx in
    elim (Dict.get s.queues queue) [
      | none ↦ (emit m (persist_drain queue), 0)
      | some heap ↦
          let jobs = Ipq.jobs heap in
          let emptied =
            drop_unique_keys (record s { queues = Dict.remove s.queues queue }) queue jobs in
          (
            emit (unindex_ids (write_shard m idx emptied) (ids_of jobs)) (persist_drain queue),
            Ipq.len heap,
          )
    ]

-- The ids, as keys, of the jobs of a queue.
abbrev pub keys_of_queue : Dict ℕ Job → String → List ℕ
keys_of_queue d queue = Dict.keys (filter (λ (e : ℕ × Job). e.1.queue == queue) d)

-- The ids of a queue's processing jobs.
unfoldable pub processing_of_queue : Manager → String → ℕ → ℕ → List ℕ
processing_of_queue m queue zero idx = []
processing_of_queue m queue (suc left) idx =
    ids_of (filter (λ (job : Job). job.queue == queue) (Dict.values (m.processing_shards idx)))
    ++ processing_of_queue m queue left (idx + 1)

unfoldable pub drop_processing : Manager → List ℕ → Manager
drop_processing m [] = m
drop_processing m (id ∷ ids) = drop_processing (unindex_job (processing_drop m id) id) ids

unfoldable pub obliterate : Manager → String → Manager × ℕ
unfolding processing_of_queue drop_processing
obliterate m queue =
    let idx = shard_index m queue in
    let s = m.shards idx in
    let queued : List Job = elim (Dict.get s.queues queue) [
      | none ↦ []
      | some heap ↦ Ipq.jobs heap
    ] in
    let dead = Dict.get_or s.dlq queue [] in
    let parents = keys_of_queue s.waiting_children queue in
    let deps = keys_of_queue s.waiting_deps queue in
    let emptied = record s {
      queues = Dict.remove s.queues queue;
      dlq = Dict.remove s.dlq queue;
      unique_keys = Dict.remove s.unique_keys queue;
      queue_state = Dict.remove s.queue_state queue;
      waiting_children = remove_keys s.waiting_children parents;
      waiting_deps = remove_keys s.waiting_deps deps;
    } in
    let unindexed =
      unindex_ids
        (unindex_ids
          (unindex_ids (unindex_ids (write_shard m idx emptied) (ids_of queued)) (ids_of dead))
          parents)
        deps in
    let running = processing_of_queue unindexed queue 32 0 in
    let stopped = drop_processing unindexed running in
    (
      emit
          (record stopped {
            cron_jobs =
                Dict.retain (λ _ (cron : CronJob). not (cron.queue == queue)) stopped.cron_jobs;
          })
          (persist_obliterate queue),
      length queued + length dead + length parents + length deps + length running,
    )
