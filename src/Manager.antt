-- ===== src/Manager.antt =====
-- engine/src/queue/manager.rs and types/metrics.rs: the state that all operations share. An
-- operation runs as one step, with one reading of the clock. The queue-name hash and the answers of
-- the storage are parameters; calls of the storage, of subscribers, waiters, event channels and
-- wake-ups are recorded, newest first, in `effects`.
pub mod Laws
use mathlib.Core.Option
use flashq.Prelude.{
  ℕ, ◌%◌, ◌+◌, String, ℤ, Bool, true, false, Option, none, some, List, [], ◌∷◌, nat_beq, nat_eq,
  if◌then◌else◌, add_u64, sub_u64,
}
use flashq.Dict
use flashq.Dict.{Dict}
use flashq.Protocol.Json.{Value}
use flashq.Protocol.Job.{Job, JobLogEntry, JobEvent, CronJob}
use flashq.Shard.{Shard, JobLocation}

-- What the engine asks of its collaborators.
pub data Effect : Type 0 where
  persist_push : Job → String → Effect
  persist_push_batch : List Job → String → Effect
  persist_ack : ℕ → Option Value → Effect
  persist_ack_batch persist_delete_batch : List ℕ → Effect
  persist_delete persist_cancel persist_discard : ℕ → Effect
  persist_fail : ℕ → ℕ → ℕ → Effect
  persist_dlq : Job → Option String → Effect
  persist_priority : ℕ → ℤ → Effect
  persist_delayed persist_promote : ℕ → ℕ → Effect
  persist_data : ℕ → Value → Effect
  persist_purge persist_queue_state : String → Effect
  persist_cron_next_run : String → ℕ → Effect
  persist_cron_delete persist_drain persist_obliterate : String → Effect
  persist_cron : CronJob → Effect
  persist_clean : String → ℕ → String → Effect
  notify_shard : ℕ → Effect
  notify_subscribers : String → String → Job → Effect
  notify_waiters : ℕ → Option Value → Effect
  broadcast : JobEvent → Effect

pub record GlobalMetrics : Type 0 where
  pub total_pushed : ℕ
  pub total_completed : ℕ
  pub total_failed : ℕ
  pub total_timed_out : ℕ
  pub latency_sum : ℕ
  pub latency_count : ℕ
  pub current_queued : ℕ
  pub current_processing : ℕ
  pub current_dlq : ℕ
  pub throughput_window_count : ℕ

-- The hash of a queue name, and the error of a synchronous insertion of a job, if it fails.
pub record Env : Type 0 where
  pub hash : String → ℕ
  pub insert_job : Job → String → Option String
  pub sync_persistence : Bool
  pub has_event_listeners : Bool
  pub max_completed_jobs : ℕ

pub record Manager : Type 0 where
  pub env : Env
  pub shards : ℕ → Shard
  pub processing_shards : ℕ → Dict ℕ Job
  pub job_index : Dict ℕ JobLocation
  pub completed_jobs : List ℕ
  pub completed_jobs_data : List (Job × ℕ × Option Value)
  pub job_results : Dict ℕ Value
  pub job_logs : Dict ℕ (List JobLogEntry)
  pub stalled_count : Dict ℕ ℕ
  pub custom_id_map : Dict String ℕ
  pub debounce_cache : Dict String (Dict String ℕ)
  pub completed_retention : Dict ℕ (ℕ × ℕ × Option Value)
  pub cron_jobs : Dict String CronJob
  pub metrics : GlobalMetrics
  pub id_counter : ℕ
  pub effects : List Effect

abbrev pub num_shards : ℕ
num_shards = 32

unfoldable pub shard_index : Manager → String → ℕ
shard_index m queue = m.env.hash queue % num_shards

abbrev pub emit : Manager → Effect → Manager
emit m e = record m { effects = e ∷ m.effects }

abbrev pub set_at {ℓ} : {A : Type ℓ} → (ℕ → A) → ℕ → A → ℕ → A
set_at f i v j = if nat_beq i j then v else f j

-- A change under one shard's lock.
unfoldable pub write_shard : Manager → ℕ → Shard → Manager
write_shard m i s = record m { shards = set_at m.shards i s }

-- `job_id & 0x1F`
abbrev pub processing_shard_index : ℕ → ℕ
processing_shard_index id = id % 32

unfoldable pub processing_insert : Manager → Job → Manager
processing_insert m job = record m {
  processing_shards =
      set_at m.processing_shards (processing_shard_index job.id)
        (Dict.insert (m.processing_shards (processing_shard_index job.id)) job.id job);
}

unfoldable pub processing_get : Manager → ℕ → Option Job
processing_get m id = Dict.get (m.processing_shards (processing_shard_index id)) id

-- `processing_remove` returns what `processing_get` finds, and leaves this.
unfoldable pub processing_drop : Manager → ℕ → Manager
processing_drop m id = record m {
  processing_shards =
      set_at m.processing_shards (processing_shard_index id)
        (Dict.remove (m.processing_shards (processing_shard_index id)) id);
}

-- `processing_get_mut` with a function that rewrites the job.
unfoldable pub processing_update : Manager → ℕ → (Job → Job) → Option Manager
unfolding processing_get
processing_update m id f = elim (processing_get m id) [
  | none ↦ none
  | some job ↦ some (record m {
    processing_shards =
        set_at m.processing_shards (processing_shard_index id)
          (Dict.insert (m.processing_shards (processing_shard_index id)) id (f job));
  })
]

unfoldable pub index_job : Manager → ℕ → JobLocation → Manager
index_job m id location = record m { job_index = Dict.insert m.job_index id location }

unfoldable pub unindex_job : Manager → ℕ → Manager
unindex_job m id = record m { job_index = Dict.remove m.job_index id }

-- `next_id`, and `next_job_ids`
unfoldable pub next_id : Manager → ℕ × Manager
next_id m = (m.id_counter, record m { id_counter = add_u64 m.id_counter 1 })

unfoldable pub record_push : GlobalMetrics → ℕ → GlobalMetrics
record_push g count = record g {
  total_pushed = add_u64 g.total_pushed count;
  current_queued = add_u64 g.current_queued count;
}

unfoldable pub record_pull : GlobalMetrics → GlobalMetrics
record_pull g = record g {
  current_queued = sub_u64 g.current_queued 1;
  current_processing = add_u64 g.current_processing 1;
}

unfoldable pub record_complete : GlobalMetrics → ℕ → GlobalMetrics
record_complete g latency = record g {
  total_completed = add_u64 g.total_completed 1;
  latency_sum = add_u64 g.latency_sum latency;
  latency_count = add_u64 g.latency_count 1;
  current_processing = sub_u64 g.current_processing 1;
  throughput_window_count = add_u64 g.throughput_window_count 1;
}

unfoldable pub record_fail : GlobalMetrics → GlobalMetrics
record_fail g = record g { total_failed = add_u64 g.total_failed 1 }

unfoldable pub record_dlq : GlobalMetrics → GlobalMetrics
record_dlq g = record g {
  current_processing = sub_u64 g.current_processing 1;
  current_dlq = add_u64 g.current_dlq 1;
}

unfoldable pub record_retry : GlobalMetrics → GlobalMetrics
record_retry g = record g {
  current_processing = sub_u64 g.current_processing 1;
  current_queued = add_u64 g.current_queued 1;
}

unfoldable pub record_timeout : GlobalMetrics → GlobalMetrics
record_timeout g = record g { total_timed_out = add_u64 g.total_timed_out 1 }

abbrev pub with_metrics : Manager → GlobalMetrics → Manager
with_metrics m g = record m { metrics = g }
