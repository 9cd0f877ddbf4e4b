-- ===== src/Recover.antt =====
-- engine/src/queue/manager.rs: `recover_from_sqlite`. What the storage loads is a record of lists; a
-- load that fails is `none` and changes nothing. Webhooks are restored beside (see Webhooks).
pub mod Restored
use flashq.Prelude.{
  ℕ, ◌+◌, String, Bool, true, false, ◌||◌, Option, none, some, List, [], ◌∷◌, ltb, set_insert,
  nat_eq, string_eq, ◌==◌, if◌then◌else◌, add_u64,
}
use flashq.Dict
use flashq.Dict.{Dict}
use flashq.Protocol.Json.{Value}
use flashq.Protocol.Job.{Job, CronJob}
use flashq.Limiters.{QueueState, RateLimiter, ConcurrencyLimiter, new_rate, new_concurrency}
use flashq.Shard.{Shard, in_queue, dlq, waiting_deps, state_of, set_state}
use flashq.Manager.{Manager, shard_index, write_shard, index_job}
use flashq.Push.{enqueue}
use flashq.Ack.{push_dlq}

pub record StoredQueueState : Type 0 where
  pub queue : String
  pub paused : Bool
  pub rate_limit : Option ℕ
  pub concurrency_limit : Option ℕ

pub record Storage : Type 0 where
  pub max_job_id : Option ℕ
  pub pending_jobs : Option (List (Job × String))
  pub dlq_jobs : Option (List Job)
  pub crons : Option (List CronJob)
  pub custom_ids : Option (List (ℕ × String))
  pub completed_ids : Option (List ℕ)
  pub job_results : Option (List (ℕ × Value))
  pub queue_states : Option (List StoredQueueState)

-- A loop over what was loaded, if it was.
abbrev pub for_loaded {ℓ} :
    {A : Type ℓ} → (Manager → A → Manager) → Manager → Option (List A) → Manager
for_loaded f m none = m
for_loaded f m (some []) = m
for_loaded f m (some (x ∷ xs)) = for_loaded f (f m x) (some xs)

unfoldable pub recover_job : Manager → Job × String → Manager
unfolding enqueue
recover_job m (job, state) =
    let idx = shard_index m job.queue in
    let s = m.shards idx in
    if (state == "waiting") || ((state == "delayed") || (state == "active"))
    then index_job (write_shard m idx (enqueue s job.queue job)) job.id (in_queue idx job.queue)
    else if state == "waiting_children"
    then index_job
        (write_shard m idx (record s { waiting_deps = Dict.insert s.waiting_deps job.id job }))
        job.id (waiting_deps idx)
    else m

unfoldable pub recover_dlq_job : Manager → Job → Manager
unfolding push_dlq
recover_dlq_job m job =
    let idx = shard_index m job.queue in
    index_job (write_shard m idx (push_dlq (m.shards idx) job.queue job)) job.id (dlq idx job.queue)

abbrev pub recover_cron : Manager → CronJob → Manager
recover_cron m cron = record m { cron_jobs = Dict.insert m.cron_jobs cron.name cron }

abbrev pub recover_custom_id : Manager → ℕ × String → Manager
recover_custom_id m (id, custom_id) = record m {
  custom_id_map = Dict.insert m.custom_id_map custom_id id;
}

abbrev pub recover_completed : Manager → ℕ → Manager
recover_completed m id = record m { completed_jobs = set_insert m.completed_jobs id }

abbrev pub recover_result : Manager → ℕ × Value → Manager
recover_result m (id, result) = record m { job_results = Dict.insert m.job_results id result }

-- The limiters start anew.
unfoldable pub restore_state : QueueState → StoredQueueState → ℕ → QueueState
restore_state qs stored now = record qs {
  paused = stored.paused || qs.paused;
  rate_limiter = elim stored.rate_limit [
    | none ↦ qs.rate_limiter
    | some limit ↦ some (new_rate limit now)
  ];
  concurrency = elim stored.concurrency_limit [
    | none ↦ qs.concurrency
    | some limit ↦ some (new_concurrency limit)
  ];
}

unfoldable pub recover_queue_state : ℕ → Manager → StoredQueueState → Manager
unfolding restore_state
recover_queue_state now m stored =
    let idx = shard_index m stored.queue in
    let s = m.shards idx in
    write_shard m idx
      (set_state s stored.queue (restore_state (state_of s stored.queue) stored now))

-- The counter goes behind the greatest id, if there is one.
abbrev pub recover_counter : Manager → Option ℕ → Manager
recover_counter m none = m
recover_counter m (some max_id) =
    if ltb 0 max_id then record m { id_counter = add_u64 max_id 1 } else m

unfoldable pub recover_from_sqlite : Manager → Storage → ℕ → Manager
unfolding recover_job recover_dlq_job recover_queue_state
recover_from_sqlite m storage now =
    let counted = recover_counter m storage.max_job_id in
    let pending = for_loaded recover_job counted storage.pending_jobs in
    let dead = for_loaded recover_dlq_job pending storage.dlq_jobs in
    let crons = for_loaded recover_cron dead storage.crons in
    let named = for_loaded recover_custom_id crons storage.custom_ids in
    let completed = for_loaded recover_completed named storage.completed_ids in
    let results = for_loaded recover_result completed storage.job_results in
    for_loaded (recover_queue_state now) results storage.queue_states
