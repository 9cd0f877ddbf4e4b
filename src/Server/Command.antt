-- ===== src/Server/Command.antt =====
-- engine/src/protocol/command.rs: `Command`, by the source's names with `_command`, without `WaitJob`
-- and `Metrics`. The fields of `Push` are those of `JobInput`.
use flashq.Prelude.{ℕ, String, ℤ, Option, List}
use flashq.Protocol.Json.{Value}
use flashq.Protocol.Job.{FlowChild}
use flashq.Protocol.Builder.{JobInput}

pub record KvEntry : Type 0 where
  pub key : String
  pub value : Value
  pub ttl : Option ℕ

pub data Command : Type 0 where
  push_command : String → JobInput → Command
  pushb_command : String → List JobInput → Command
  pull_command : String → Option ℕ → Command
  pullb_command : String → ℕ → Option ℕ → Command
  ack_command : ℕ → Option Value → Command
  ackb_command : List ℕ → Command
  fail_command : ℕ → Option String → Command
  get_result_command get_job_command get_state_command : ℕ → Command
  get_job_by_custom_id_command : String → Command
  cancel_command : ℕ → Command
  progress_command : ℕ → ℕ → Option String → Command
  get_progress_command : ℕ → Command
  dlq_command retry_dlq_command : String → Option ℕ → Command
  purge_dlq_command : String → Command
  get_jobs_batch_command : List ℕ → Command
  subscribe_command : String → List String → Command
  unsubscribe_command : String → Command
  stats_command : Command
  cron_command : String → String → Value → Option String → Option ℕ → ℤ → Option ℕ → Command
  cron_delete_command : String → Command
  cron_list_command : Command
  rate_limit_command : String → ℕ → Command
  rate_limit_clear_command pause_command resume_command : String → Command
  set_concurrency_command : String → ℕ → Command
  clear_concurrency_command : String → Command
  list_queues_command : Command
  auth_command : String → Command
  log_command : ℕ → String → String → Command
  get_logs_command heartbeat_command : ℕ → Command
  partial_command : ℕ → Value → Option ℕ → Command
  flow_command : String → Value → List FlowChild → ℤ → Command
  get_children_command : ℕ → Command
  get_jobs_command : Option String → Option String → Option ℕ → Option ℕ → Command
  clean_command : String → ℕ → String → Option ℕ → Command
  drain_command obliterate_command : String → Command
  change_priority_command : ℕ → ℤ → Command
  move_to_delayed_command : ℕ → ℕ → Command
  promote_command : ℕ → Command
  update_job_command : ℕ → Value → Command
  discard_command : ℕ → Command
  is_paused_command count_command get_job_counts_command : String → Command
  kv_set_command : String → Value → Option ℕ → Command
  kv_get_command kv_del_command : String → Command
  kv_mget_command : List String → Command
  kv_mset_command : List KvEntry → Command
  kv_exists_command : String → Command
  kv_expire_command : String → ℕ → Command
  kv_ttl_command : String → Command
  kv_keys_command : Option String → Command
  kv_incr_command : String → ℤ → Command

pub record Request : Type 0 where
  pub req_id : Option String
  pub command : Command
