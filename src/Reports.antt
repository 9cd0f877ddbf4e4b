-- ===== src/Reports.antt =====
-- What the engine reports of itself: engine/src/queue/queue_control.rs (`list_queues`,
-- `get_job_counts`), monitoring.rs (`stats`), flows.rs (`get_children`), query.rs (`get_jobs_batch`),
-- manager.rs (the counts by queue).
pub mod Counts
use mathlib.Core.Option
use flashq.Prelude.{
  ℕ, zero, suc, ◌+◌, String, Bool, true, false, not, Option, none, some, List, [], ◌∷◌, ◌++◌, map,
  length, filter, ltb, nat_eq, string_eq, ◌==◌, if◌then◌else◌,
}
use flashq.Dict
use flashq.Dict.{Dict}
use flashq.Protocol.Job.{Job, JobState, is_ready}
use flashq.Ipq
use flashq.Ipq.{Ipq}
use flashq.Limiters.{QueueState, RateLimiter, ConcurrencyLimiter}
use flashq.Shard.{Shard}
use flashq.Manager.{Manager, num_shards, shard_index}
use flashq.Query.{get_job}
use flashq.Flows.{find_parent}
use flashq.Protocol.Json.{Value}

-- How many elements pass a test.
unfoldable pub count_if {ℓ} : {A : Type ℓ} → (A → Bool) → List A → ℕ
count_if p [] = 0
count_if p (x ∷ xs) = let rest = count_if p xs in if p x then suc rest else rest

-- A sum over the shards from `idx` on.
unfoldable pub sum_shards : (ℕ → ℕ) → ℕ → ℕ → ℕ
sum_shards f zero idx = 0
sum_shards f (suc left) idx = f idx + sum_shards f left (idx + 1)

abbrev pub of_queue : String → Job → Bool
of_queue queue job = job.queue == queue

unfoldable pub processing_count_by_queue : Manager → String → ℕ
unfolding sum_shards count_if
processing_count_by_queue m queue =
    sum_shards (λ i. count_if (of_queue queue) (Dict.values (m.processing_shards i))) 32 0

unfoldable pub completed_count_by_queue : Manager → String → ℕ
unfolding count_if
completed_count_by_queue m queue =
    count_if (λ (r : Job × ℕ × Option Value). r.0.queue == queue) m.completed_jobs_data

abbrev pub is_delayed : ℕ → Job → Bool
is_delayed now job = ltb now job.run_at

abbrev pub queued_jobs : Shard → String → List Job
queued_jobs s queue = elim (Dict.get s.queues queue) [ none ↦ [] | some heap ↦ Ipq.jobs heap ]

pub record JobCounts : Type 0 where
  pub waiting : ℕ
  pub active : ℕ
  pub delayed : ℕ
  pub completed : ℕ
  pub failed : ℕ

unfoldable pub get_job_counts : Manager → String → ℕ → JobCounts
unfolding processing_count_by_queue completed_count_by_queue
get_job_counts m queue now =
    let s = m.shards (shard_index m queue) in
    record {
      waiting = count_if (λ job. not (is_delayed now job)) (queued_jobs s queue);
      active = processing_count_by_queue m queue;
      delayed = count_if (is_delayed now) (queued_jobs s queue);
      completed = completed_count_by_queue m queue;
      failed = length (Dict.get_or s.dlq queue []);
    }

pub record QueueInfo : Type 0 where
  pub name : String
  pub pending : ℕ
  pub processing : ℕ
  pub completed : ℕ
  pub delayed : ℕ
  pub dlq : ℕ
  pub paused : Bool
  pub rate_limit : Option ℕ
  pub concurrency_limit : Option ℕ

unfoldable pub queue_info : Manager → Shard → String → Ipq → ℕ → QueueInfo
unfolding processing_count_by_queue completed_count_by_queue
queue_info m s name heap now =
    let state = Dict.get s.queue_state name in
    record {
      name = name;
      pending = count_if (λ job. not (is_delayed now job)) (Ipq.jobs heap);
      processing = processing_count_by_queue m name;
      completed = completed_count_by_queue m name;
      delayed = count_if (is_delayed now) (Ipq.jobs heap);
      dlq = length (Dict.get_or s.dlq name []);
      paused = elim state [ none ↦ false | some q ↦ q.paused ];
      rate_limit = elim state [
        | none ↦ none
        | some q ↦ Option.map (λ (l : RateLimiter). l.limit) q.rate_limiter
      ];
      concurrency_limit = elim state [
        | none ↦ none
        | some q ↦ Option.map (λ (c : ConcurrencyLimiter). c.limit) q.concurrency
      ];
    }

unfoldable pub list_from : Manager → ℕ → ℕ → ℕ → List QueueInfo
unfolding queue_info
list_from m now zero idx = []
list_from m now (suc left) idx =
    map (λ (e : String × Ipq). queue_info m (m.shards idx) e.0 e.1 now) (m.shards idx).queues
    ++ list_from m now left (idx + 1)

unfoldable pub list_queues : Manager → ℕ → List QueueInfo
unfolding list_from
list_queues m now = list_from m now num_shards 0

abbrev pub heap_count : (Job → Bool) → Dict String Ipq → ℕ
heap_count p [] = 0
heap_count p ((_, heap) ∷ rest) = count_if p (Ipq.jobs heap) + heap_count p rest

abbrev pub dlq_count : Dict String (List Job) → ℕ
dlq_count [] = 0
dlq_count ((_, jobs) ∷ rest) = length jobs + dlq_count rest

pub record Stats : Type 0 where
  pub ready : ℕ
  pub processing : ℕ
  pub delayed : ℕ
  pub dlq : ℕ
  pub completed : ℕ

unfoldable pub stats : Manager → ℕ → Stats
unfolding sum_shards count_if
stats m now = record {
  ready = sum_shards (λ i. heap_count (λ job. is_ready job now) (m.shards i).queues) num_shards 0;
  processing = sum_shards (λ i. length (m.processing_shards i)) 32 0;
  delayed =
      sum_shards (λ i. heap_count (λ job. not (is_ready job now)) (m.shards i).queues) num_shards 0;
  dlq = sum_shards (λ i. dlq_count (m.shards i).dlq) num_shards 0;
  completed = length m.completed_jobs;
}

-- The jobs of the ids that are found.
unfoldable pub get_jobs_batch : Manager → List ℕ → ℕ → List (Job × JobState)
unfolding get_job
get_jobs_batch m [] now = []
get_jobs_batch m (id ∷ ids) now =
    let (found, state) = get_job m id now in
    let rest = get_jobs_batch m ids now in
    elim found [ none ↦ rest | some job ↦ (job, state) ∷ rest ]

-- `get_children` of a parent that is waiting in a shard; the counts are `u32`.
unfoldable pub get_children : Manager → ℕ → ℕ → Option (List Job × ℕ × ℕ)
unfolding get_jobs_batch find_parent
get_children m parent_id now = elim (find_parent m parent_id num_shards 0) [
  | none ↦ none
  | some (_, parent) ↦ some (
    map (λ (r : Job × JobState). r.0) (get_jobs_batch m parent.children_ids now),
    parent.children_completed,
    length parent.children_ids,
  )
]
