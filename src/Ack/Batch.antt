-- ===== src/Ack/Batch.antt =====
-- engine/src/queue/ack.rs: `ack_batch`.
pub mod Wrong
use flashq.Prelude.{
  ℕ, suc, ◌+◌, String, Bool, true, false, Option, none, some, List, [], ◌∷◌, ◌++◌, length,
  set_insert, nat_eq, string_eq, if◌then◌else◌, add_u64, sub_u64,
}
use flashq.Dict
use flashq.Dict.{Dict}
use flashq.Protocol.Job.{Job}
use flashq.Shard.{Shard, done, release_concurrency, release_group, remove_unique_key}
use flashq.Manager.{
  Manager, persist_ack_batch, persist_delete_batch, notify_waiters, shard_index, emit, write_shard,
  processing_get, processing_drop, index_job, unindex_job, with_metrics,
}

-- What one shard is to release: the name of a queue, and the unique keys and groups of the jobs.
pub record Resources : Type 0 where
  pub queue : String
  pub keys : List (Option String)
  pub groups : List (Option String)

-- The state and what the first pass has collected.
pub record Collected : Type 0 where
  pub manager : Manager
  pub resources : Dict ℕ Resources
  pub removed : List ℕ
  pub completed : List ℕ
  pub acked : ℕ

-- `entry(idx).or_insert_with(…)`, then the pushes.
unfoldable pub add_resources : Dict ℕ Resources → ℕ → Job → Dict ℕ Resources
add_resources d idx job =
    let entry = Dict.get_or d idx (record { queue = job.queue; keys = []; groups = [] }) in
    Dict.insert d idx (record entry {
      keys = entry.keys ++ job.unique_key ∷ [];
      groups = entry.groups ++ job.group_id ∷ [];
    })

-- The first pass, for one id.
unfoldable pub collect : Collected → ℕ → Collected
unfolding add_resources
collect c id = elim (processing_get c.manager id) [
  | none ↦ c
  | some job ↦
      let taken = processing_drop c.manager id in
      let counted = record c {
        resources = add_resources c.resources (shard_index taken job.queue) job;
        acked = c.acked + 1;
      } in
      if job.remove_on_complete
      then record counted {
        manager = emit (unindex_job taken id) (notify_waiters id none);
        removed = c.removed ++ id ∷ [];
      }
      else record counted {
        manager = emit (index_job taken id done) (notify_waiters id none);
        completed = c.completed ++ id ∷ [];
      }
]

unfoldable pub collect_all : Collected → List ℕ → Collected
unfolding collect
collect_all c [] = c
collect_all c (id ∷ ids) = collect_all (collect c id) ids

-- One slot for each job, whatever its key.
unfoldable pub release_each : Shard → String → List (Option String) → Shard
release_each s queue [] = s
release_each s queue (_ ∷ keys) = release_each (release_concurrency s queue) queue keys

unfoldable pub release_groups : Shard → String → List (Option String) → Shard
release_groups s queue [] = s
release_groups s queue (gid ∷ gids) = release_groups (release_group s queue gid) queue gids

unfoldable pub remove_keys : Shard → String → List (Option String) → Shard
remove_keys s queue [] = s
remove_keys s queue (key ∷ keys) = remove_keys (remove_unique_key s queue key) queue keys

unfoldable pub release_shard : Shard → Resources → Shard
unfolding release_each release_groups remove_keys
release_shard s r =
    remove_keys (release_groups (release_each s r.queue r.keys) r.queue r.groups) r.queue r.keys

-- The shards are different ones, so their order does not matter.
unfoldable pub release_all : Manager → Dict ℕ Resources → Manager
unfolding release_shard
release_all m [] = m
release_all m ((idx, r) ∷ rest) =
    release_all (write_shard m idx (release_shard (m.shards idx) r)) rest

abbrev pub remove_all {ℓ} : {V : Type ℓ} → Dict ℕ V → List ℕ → Dict ℕ V
remove_all d [] = d
remove_all d (id ∷ ids) = remove_all (Dict.remove d id) ids

abbrev pub insert_all : List ℕ → List ℕ → List ℕ
insert_all set [] = set
insert_all set (id ∷ ids) = insert_all (set_insert set id) ids

abbrev pub persist_ids : Manager → (List ℕ → Manager) → List ℕ → Manager
persist_ids m f [] = m
persist_ids m f (id ∷ ids) = f (id ∷ ids)

unfoldable pub ack_batch : Manager → List ℕ → Manager × ℕ
unfolding collect_all release_all
ack_batch m ids =
    let c =
      collect_all (record { manager = m; resources = []; removed = []; completed = []; acked = 0 })
        ids in
    let released = release_all c.manager c.resources in
    let cleaned = record released {
      job_logs = remove_all released.job_logs c.removed;
      stalled_count = remove_all released.stalled_count c.removed;
      completed_jobs = insert_all released.completed_jobs c.completed;
    } in
    let acks = persist_ids cleaned (λ l. emit cleaned (persist_ack_batch l)) c.completed in
    let deletes = persist_ids acks (λ l. emit acks (persist_delete_batch l)) c.removed in
    (
      with_metrics deletes (record deletes.metrics {
        total_completed = add_u64 deletes.metrics.total_completed c.acked;
        current_processing = sub_u64 deletes.metrics.current_processing c.acked;
      }),
      c.acked,
    )
