-- ===== src/Engine/Settings.antt =====
-- engine/src/queue/settings.rs: resets, clearing, and settings at run time.
use flashq.Prelude.{
  ℕ, zero, suc, ◌+◌, ◌-◌, ◌/◌, String, Option, none, some, List, [], ◌∷◌, map, length, take, ltb,
  set_insert, string_eq, ◌==◌, if◌then◌else◌, add_u64, sub_u64,
}
use flashq.Dict
use flashq.Dict.{Dict}
use flashq.Protocol.Job.{Job}
use flashq.Ipq
use flashq.Ipq.{Ipq}
use flashq.Shard.{Shard, new_shard}
use flashq.Manager.{Manager, GlobalMetrics, num_shards}
use flashq.Cleanup.{remove_keys, remove_members}
use flashq.Engine.{Engine, with_manager}

-- The four counters that a reset clears.
abbrev pub reset_totals : GlobalMetrics → GlobalMetrics
reset_totals g = record g {
  total_pushed = 0;
  total_completed = 0;
  total_failed = 0;
  total_timed_out = 0;
}

unfoldable pub reset : Engine → Engine
reset e = record e {
  manager = record e.manager {
    shards = λ i. new_shard;
    processing_shards = λ i. [];
    cron_jobs = [];
    completed_jobs = [];
    completed_jobs_data = [];
    job_results = [];
    job_index = [];
    job_logs = [];
    stalled_count = [];
    debounce_cache = [];
    custom_id_map = [];
    completed_retention = [];
    metrics = reset_totals e.manager.metrics;
  };
  kv_store = [];
  workers = [];
  hooks = record { webhooks = []; circuits = [] };
}

abbrev pub queued_in : Dict String Ipq → ℕ
queued_in [] = 0
queued_in ((_, heap) ∷ rest) = Ipq.len heap + queued_in rest

abbrev pub dead_in : Dict String (List Job) → ℕ
dead_in [] = 0
dead_in ((_, jobs) ∷ rest) = length jobs + dead_in rest

-- The total over the shards from `idx` on.
unfoldable pub total_of : (Shard → ℕ) → Manager → ℕ → ℕ → ℕ
total_of f m zero idx = 0
total_of f m (suc left) idx = f (m.shards idx) + total_of f m left (idx + 1)

abbrev pub clear_queues : Shard → Shard
clear_queues s = record s { queues = map (λ (q : String × Ipq). (q.0, Ipq.clear q.1)) s.queues }

abbrev pub clear_dlqs : Shard → Shard
clear_dlqs s = record s { dlq = map (λ (q : String × List Job). (q.0, [])) s.dlq }

unfoldable pub clear_all_queues : Manager → Manager × ℕ
unfolding total_of
clear_all_queues m = (
  record m { shards = λ i. clear_queues (m.shards i); job_index = [] },
  total_of (λ s. queued_in s.queues) m num_shards 0,
)

unfoldable pub clear_all_dlq : Manager → Manager × ℕ
unfolding total_of
clear_all_dlq m = (
  record m { shards = λ i. clear_dlqs (m.shards i) },
  total_of (λ s. dead_in s.dlq) m num_shards 0,
)

unfoldable pub clear_completed_jobs : Manager → Manager × ℕ
clear_completed_jobs m = (
  record m { completed_jobs = []; job_results = []; completed_retention = [] },
  length m.completed_jobs,
)

-- The history of metrics, which this clears too, is not part of the model.
unfoldable pub reset_metrics : Manager → Manager
reset_metrics m = record m { metrics = reset_totals m.metrics }

-- Empty tokens are left out.
unfoldable pub insert_tokens : List String → List String → List String
insert_tokens set [] = set
insert_tokens set (token ∷ tokens) =
    insert_tokens (if token == "" then set else set_insert set token) tokens

unfoldable pub set_auth_tokens : Engine → List String → Engine
unfolding insert_tokens
set_auth_tokens e tokens = record e { auth_tokens = insert_tokens [] tokens }

unfoldable pub set_queue_defaults : Engine → Option ℕ → Option ℕ → Option ℕ → Option ℕ → Engine
set_queue_defaults e timeout max_attempts backoff ttl = record e {
  queue_defaults = record {
    timeout = timeout;
    max_attempts = max_attempts;
    backoff = backoff;
    ttl = ttl;
  };
}

-- `if let Some(v) = value { field = v }`
abbrev pub or_keep : Option ℕ → ℕ → ℕ
or_keep none old = old
or_keep (some v) old = v

unfoldable pub set_cleanup_settings : Engine → Option ℕ → Option ℕ → Option ℕ → Option ℕ → Engine
set_cleanup_settings e max_completed_jobs max_job_results cleanup_interval_secs
      metrics_history_size =
    let s = e.cleanup_settings in
    record e {
      cleanup_settings = record {
        max_completed_jobs = or_keep max_completed_jobs s.max_completed_jobs;
        max_job_results = or_keep max_job_results s.max_job_results;
        cleanup_interval_secs = or_keep cleanup_interval_secs s.cleanup_interval_secs;
        metrics_history_size = or_keep metrics_history_size s.metrics_history_size;
      };
    }

-- How many entries go where there are more than `most`: down to half.
abbrev pub surplus : ℕ → ℕ → ℕ
surplus len most = if ltb most len then len - most / 2 else 0

unfoldable pub run_cleanup : Engine → Engine
unfolding remove_keys
run_cleanup e =
    let m = e.manager in
    let s = e.cleanup_settings in
    with_manager e (record m {
      completed_jobs =
          remove_members m.completed_jobs
            (take (surplus (length m.completed_jobs) s.max_completed_jobs) m.completed_jobs);
      job_results =
          remove_keys m.job_results
            (take (surplus (length m.job_results) s.max_job_results) (Dict.keys m.job_results));
      job_index =
          remove_keys m.job_index
            (take (surplus (length m.job_index) 100000) (Dict.keys m.job_index));
    })

unfoldable pub increment_connections : Engine → Engine
increment_connections e = record e { tcp_connection_count = add_u64 e.tcp_connection_count 1 }

unfoldable pub decrement_connections : Engine → Engine
decrement_connections e = record e { tcp_connection_count = sub_u64 e.tcp_connection_count 1 }
