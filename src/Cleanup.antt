-- ===== src/Cleanup.antt =====
-- engine/src/queue/background/cleanup.rs, and `cleanup_job_logs` of logs.rs. A `HashSet` gives its
-- elements in an order of its own; here they come in the order of the list. Locks that the
-- code only tries to take are free or not as `Locks` says; it waits for the others.
pub mod Removed
pub mod Stale
pub mod Locked
use flashq.Prelude.{
  ℕ, zero, suc, ◌+◌, ◌-◌, ◌/◌, String, Bool, true, false, not, ◌||◌, ◌&&◌, Option, none, some, List,
  [], ◌∷◌, ◌++◌, map, length, take, filter, ltb, leb, nat_beq, contains, set_remove, nat_eq,
  string_eq, if◌then◌else◌, sub_u64,
}
use flashq.Dict
use flashq.Dict.{Dict}
use flashq.Protocol.Json.{Value}
use flashq.Protocol.Job.{Job, JobLogEntry}
use flashq.Ipq
use flashq.Ipq.{Ipq}
use flashq.Shard.{
  Shard, JobLocation, in_queue, processing, dlq, waiting_deps, waiting_parents, done,
}
use flashq.Manager.{Manager, processing_shard_index}

abbrev pub max_completed : ℕ
max_completed = 50000

abbrev pub max_results : ℕ
max_results = 10000

abbrev pub max_index_size : ℕ
max_index_size = 100000

unfoldable pub remove_keys {ℓ} : {V : Type ℓ} → Dict ℕ V → List ℕ → Dict ℕ V
remove_keys d [] = d
remove_keys d (id ∷ ids) = remove_keys (Dict.remove d id) ids

abbrev pub remove_members : List ℕ → List ℕ → List ℕ
remove_members set [] = set
remove_members set (id ∷ ids) = remove_members (set_remove set id) ids

unfoldable pub cleanup_completed_jobs : Manager → Manager
unfolding remove_keys
cleanup_completed_jobs m =
    let len = length m.completed_jobs in
    let to_remove = take (len - max_completed / 2) m.completed_jobs in
    if ltb max_completed len
    then record m {
      job_index = remove_keys m.job_index to_remove;
      custom_id_map = Dict.retain (λ _ id. not (contains to_remove id)) m.custom_id_map;
      completed_jobs = remove_members m.completed_jobs to_remove;
    }
    else m

unfoldable pub cleanup_job_results : Manager → Manager
unfolding remove_keys
cleanup_job_results m =
    let len = length m.job_results in
    if ltb max_results len
    then record m {
      job_results =
          remove_keys m.job_results (take (len - max_results / 2) (Dict.keys m.job_results));
    }
    else m

unfoldable pub cleanup_completed_retention : Manager → ℕ → Manager
cleanup_completed_retention m now = record m {
  completed_retention =
      Dict.retain
        (λ _ (kept : ℕ × ℕ × Option Value). nat_beq kept.1 0 || ltb (sub_u64 now kept.0) kept.1)
        m.completed_retention;
}

abbrev pub has_job : List Job → ℕ → Bool
has_job [] id = false
has_job (job ∷ jobs) id = nat_beq job.id id || has_job jobs id

-- The ids in all queues, or in all dead letter queues, of a shard.
abbrev pub in_heaps : Dict String Ipq → ℕ → Bool
in_heaps [] id = false
in_heaps ((_, heap) ∷ rest) id = has_job (Ipq.jobs heap) id || in_heaps rest id

abbrev pub in_dlqs : Dict String (List Job) → ℕ → Bool
in_dlqs [] id = false
in_dlqs ((_, jobs) ∷ rest) id = has_job jobs id || in_dlqs rest id

-- Where `try_read` and `try_write` succeed: on which processing shards, and on which shards.
pub record Locks : Type 0 where
  pub processing_free : ℕ → Bool
  pub shard_free : ℕ → Bool

-- The keys of the processing maps that could be read; each is looked up by any id.
abbrev pub is_processing : Locks → Manager → ℕ → ℕ → Bool
is_processing locks m zero id = false
is_processing locks m (suc n) id =
    (locks.processing_free n && Dict.contains_key (m.processing_shards n) id)
    || is_processing locks m n id

-- A shard that could not be read counts as empty.
unfoldable pub is_stale : Locks → Manager → ℕ → JobLocation → Bool
is_stale locks m id done = not (contains m.completed_jobs id)
is_stale locks m id processing = not (is_processing locks m 32 id)
is_stale locks m id (in_queue i queue) = not (locks.shard_free i && in_heaps (m.shards i).queues id)
is_stale locks m id (dlq i queue) = not (locks.shard_free i && in_dlqs (m.shards i).dlq id)
is_stale locks m id (waiting_deps i) =
    not (locks.shard_free i && Dict.contains_key (m.shards i).waiting_deps id)
is_stale locks m id (waiting_parents i) =
    not (locks.shard_free i && Dict.contains_key (m.shards i).waiting_children id)

-- The loop over the index: at most `target` stale ids.
unfoldable pub stale_ids : Locks → Manager → ℕ → Dict ℕ JobLocation → List ℕ
unfolding is_stale
stale_ids locks m zero entries = []
stale_ids locks m (suc target) [] = []
stale_ids locks m (suc target) ((id, location) ∷ entries) = elim (is_stale locks m id location) [
  | true ↦ id ∷ stale_ids locks m target entries
  | false ↦ stale_ids locks m (suc target) entries
]

abbrev pub forget_ids : Manager → List ℕ → Manager
forget_ids m ids = record m {
  job_index = remove_keys m.job_index ids;
  job_logs = remove_keys m.job_logs ids;
  stalled_count = remove_keys m.stalled_count ids;
}

unfoldable pub cleanup_stale_index_entries : Locks → Manager → Manager
unfolding stale_ids remove_keys
cleanup_stale_index_entries locks m =
    let len = length m.job_index in
    if leb len max_index_size
    then m
    else forget_ids m (stale_ids locks m (len - max_index_size / 2) m.job_index)

abbrev pub is_nonempty {ℓ} : {A : Type ℓ} → List A → Bool
is_nonempty [] = false
is_nonempty (x ∷ xs) = true

-- `shrink_memory_buffers`, of which only the dropping of empty entries can be seen.
unfoldable pub shrink_shard : Shard → Shard
shrink_shard s = record s {
  queues = Dict.retain (λ _ heap. is_nonempty (Ipq.jobs heap)) s.queues;
  dlq = Dict.retain (λ _ jobs. is_nonempty jobs) s.dlq;
  unique_keys = Dict.retain (λ _ keys. is_nonempty keys) s.unique_keys;
}

unfoldable pub shrink_memory_buffers : Locks → Manager → Manager
unfolding shrink_shard
shrink_memory_buffers locks m = record m {
  shards = λ i. if locks.shard_free i then shrink_shard (m.shards i) else m.shards i;
}

-- `sort` of ids, by insertion.
abbrev pub insert_id : ℕ → List ℕ → List ℕ
insert_id a [] = a ∷ []
insert_id a (b ∷ bs) = let later = insert_id a bs in if leb a b then a ∷ b ∷ bs else b ∷ later

abbrev pub sort_ids : List ℕ → List ℕ
sort_ids [] = []
sort_ids (a ∷ rest) = insert_id a (sort_ids rest)

unfoldable pub cleanup_job_logs : Manager → Manager
unfolding remove_keys
cleanup_job_logs m =
    let kept =
      Dict.retain
        (λ id (logs : List JobLogEntry).
          Dict.contains_key m.job_index id || not (contains m.completed_jobs id))
        m.job_logs in
    record m {
      job_logs =
          if ltb 10000 (length kept)
          then remove_keys kept (take (length kept - 7500) (sort_ids (Dict.keys kept)))
          else kept;
    }
