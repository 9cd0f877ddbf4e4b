-- ===== src/Engine.antt =====
-- The parts of `QueueManager` (engine/src/queue/manager.rs) side by side: the job state, the key-value
-- store, the webhooks, and what is set at run time.
pub mod Settings
pub mod Workers
pub mod Background
use flashq.Prelude.{ℕ, String, Bool, Option, List}
use flashq.Dict.{Dict}
use flashq.Manager.{Manager}
use flashq.Kv.{Store}
use flashq.Webhooks.{Hooks}

pub record QueueDefaults : Type 0 where
  pub timeout : Option ℕ
  pub max_attempts : Option ℕ
  pub backoff : Option ℕ
  pub ttl : Option ℕ

pub record CleanupSettings : Type 0 where
  pub max_completed_jobs : ℕ
  pub max_job_results : ℕ
  pub cleanup_interval_secs : ℕ
  pub metrics_history_size : ℕ

pub record Worker : Type 0 where
  pub id : String
  pub queues : List String
  pub concurrency : ℕ
  pub last_heartbeat : ℕ
  pub jobs_processed : ℕ

pub record Engine : Type 0 where
  pub manager : Manager
  pub kv_store : Store
  pub hooks : Hooks
  pub workers : Dict String Worker
  pub auth_tokens : List String
  pub queue_defaults : QueueDefaults
  pub cleanup_settings : CleanupSettings
  pub tcp_connection_count : ℕ

abbrev pub with_manager : Engine → Manager → Engine
with_manager e m = record e { manager = m }
