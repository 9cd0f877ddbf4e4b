-- ===== src/Server/Session/Tokens.antt =====
-- engine/src/server/handler/commands.rs, kv.rs: commands and the tokens of the engine.
use flashq.Prelude.{ℕ, ◌≡◌, refl, Bool-cases, inl, inr, List}
use flashq.Engine.{Engine}
use flashq.Server.Command.{
  Command, push_command, pushb_command, pull_command, pullb_command, ack_command, ackb_command,
  fail_command, get_result_command, get_job_command, get_state_command,
  get_job_by_custom_id_command, cancel_command, progress_command, get_progress_command, dlq_command,
  retry_dlq_command, purge_dlq_command, get_jobs_batch_command, subscribe_command,
  unsubscribe_command, stats_command, cron_command, cron_delete_command, cron_list_command,
  rate_limit_command, rate_limit_clear_command, pause_command, resume_command,
  set_concurrency_command, clear_concurrency_command, list_queues_command, auth_command,
  log_command, get_logs_command, heartbeat_command, partial_command, flow_command,
  get_children_command, get_jobs_command, clean_command, drain_command, obliterate_command,
  change_priority_command, move_to_delayed_command, promote_command, update_job_command,
  discard_command, is_paused_command, count_command, get_job_counts_command, kv_set_command,
  kv_get_command, kv_del_command, kv_mget_command, kv_mset_command, kv_exists_command,
  kv_expire_command, kv_ttl_command, kv_keys_command, kv_incr_command,
}
use flashq.Server.Outside.{Outside}
use flashq.Server.KvHandler.{is_kv_command, handle_kv_command}
use flashq.Server.Handler.{run_command, process_command}

handle_kv_command-auth_tokens :
    (o : Outside) (e : Engine) (c : Command) (now : ℕ)
    → (handle_kv_command o e c now).0.auth_tokens ≡ e.auth_tokens
unfolding handle_kv_command
handle_kv_command-auth_tokens o e (kv_set_command _ _ _) now = refl
handle_kv_command-auth_tokens o e (kv_get_command _) now = refl
handle_kv_command-auth_tokens o e (kv_del_command _) now = refl
handle_kv_command-auth_tokens o e (kv_mget_command _) now = refl
handle_kv_command-auth_tokens o e (kv_mset_command _) now = refl
handle_kv_command-auth_tokens o e (kv_exists_command _) now = refl
handle_kv_command-auth_tokens o e (kv_expire_command _ _) now = refl
handle_kv_command-auth_tokens o e (kv_ttl_command _) now = refl
handle_kv_command-auth_tokens o e (kv_keys_command _) now = refl
handle_kv_command-auth_tokens o e (kv_incr_command _ _) now = refl
handle_kv_command-auth_tokens o e (push_command _ _) now = refl
handle_kv_command-auth_tokens o e (pushb_command _ _) now = refl
handle_kv_command-auth_tokens o e (pull_command _ _) now = refl
handle_kv_command-auth_tokens o e (pullb_command _ _ _) now = refl
handle_kv_command-auth_tokens o e (ack_command _ _) now = refl
handle_kv_command-auth_tokens o e (ackb_command _) now = refl
handle_kv_command-auth_tokens o e (fail_command _ _) now = refl
handle_kv_command-auth_tokens o e (get_result_command _) now = refl
handle_kv_command-auth_tokens o e (get_job_command _) now = refl
handle_kv_command-auth_tokens o e (get_state_command _) now = refl
handle_kv_command-auth_tokens o e (get_job_by_custom_id_command _) now = refl
handle_kv_command-auth_tokens o e (cancel_command _) now = refl
handle_kv_command-auth_tokens o e (progress_command _ _ _) now = refl
handle_kv_command-auth_tokens o e (get_progress_command _) now = refl
handle_kv_command-auth_tokens o e (dlq_command _ _) now = refl
handle_kv_command-auth_tokens o e (retry_dlq_command _ _) now = refl
handle_kv_command-auth_tokens o e (purge_dlq_command _) now = refl
handle_kv_command-auth_tokens o e (get_jobs_batch_command _) now = refl
handle_kv_command-auth_tokens o e (subscribe_command _ _) now = refl
handle_kv_command-auth_tokens o e (unsubscribe_command _) now = refl
handle_kv_command-auth_tokens o e stats_command now = refl
handle_kv_command-auth_tokens o e (cron_command _ _ _ _ _ _ _) now = refl
handle_kv_command-auth_tokens o e (cron_delete_command _) now = refl
handle_kv_command-auth_tokens o e cron_list_command now = refl
handle_kv_command-auth_tokens o e (rate_limit_command _ _) now = refl
handle_kv_command-auth_tokens o e (rate_limit_clear_command _) now = refl
handle_kv_command-auth_tokens o e (pause_command _) now = refl
handle_kv_command-auth_tokens o e (resume_command _) now = refl
handle_kv_command-auth_tokens o e (set_concurrency_command _ _) now = refl
handle_kv_command-auth_tokens o e (clear_concurrency_command _) now = refl
handle_kv_command-auth_tokens o e list_queues_command now = refl
handle_kv_command-auth_tokens o e (auth_command _) now = refl
handle_kv_command-auth_tokens o e (log_command _ _ _) now = refl
handle_kv_command-auth_tokens o e (get_logs_command _) now = refl
handle_kv_command-auth_tokens o e (heartbeat_command _) now = refl
handle_kv_command-auth_tokens o e (partial_command _ _ _) now = refl
handle_kv_command-auth_tokens o e (flow_command _ _ _ _) now = refl
handle_kv_command-auth_tokens o e (get_children_command _) now = refl
handle_kv_command-auth_tokens o e (get_jobs_command _ _ _ _) now = refl
handle_kv_command-auth_tokens o e (clean_command _ _ _ _) now = refl
handle_kv_command-auth_tokens o e (drain_command _) now = refl
handle_kv_command-auth_tokens o e (obliterate_command _) now = refl
handle_kv_command-auth_tokens o e (change_priority_command _ _) now = refl
handle_kv_command-auth_tokens o e (move_to_delayed_command _ _) now = refl
handle_kv_command-auth_tokens o e (promote_command _) now = refl
handle_kv_command-auth_tokens o e (update_job_command _ _) now = refl
handle_kv_command-auth_tokens o e (discard_command _) now = refl
handle_kv_command-auth_tokens o e (is_paused_command _) now = refl
handle_kv_command-auth_tokens o e (count_command _) now = refl
handle_kv_command-auth_tokens o e (get_job_counts_command _) now = refl

run_command-auth_tokens :
    (o : Outside) (e : Engine) (c : Command) (now : ℕ) (wakes : List ℕ)
    → (run_command o e c now wakes).0.auth_tokens ≡ e.auth_tokens
unfolding run_command
run_command-auth_tokens o e (push_command _ _) now wakes = refl
run_command-auth_tokens o e (pushb_command _ _) now wakes = refl
run_command-auth_tokens o e (pull_command _ _) now wakes = refl
run_command-auth_tokens o e (pullb_command _ _ _) now wakes = refl
run_command-auth_tokens o e (ack_command _ _) now wakes = refl
run_command-auth_tokens o e (ackb_command _) now wakes = refl
run_command-auth_tokens o e (fail_command _ _) now wakes = refl
run_command-auth_tokens o e (get_result_command _) now wakes = refl
run_command-auth_tokens o e (get_job_command _) now wakes = refl
run_command-auth_tokens o e (get_state_command _) now wakes = refl
run_command-auth_tokens o e (get_job_by_custom_id_command _) now wakes = refl
run_command-auth_tokens o e (cancel_command _) now wakes = refl
run_command-auth_tokens o e (progress_command _ _ _) now wakes = refl
run_command-auth_tokens o e (get_progress_command _) now wakes = refl
run_command-auth_tokens o e (dlq_command _ _) now wakes = refl
run_command-auth_tokens o e (retry_dlq_command _ _) now wakes = refl
run_command-auth_tokens o e (purge_dlq_command _) now wakes = refl
run_command-auth_tokens o e (get_jobs_batch_command _) now wakes = refl
run_command-auth_tokens o e (subscribe_command _ _) now wakes = refl
run_command-auth_tokens o e (unsubscribe_command _) now wakes = refl
run_command-auth_tokens o e stats_command now wakes = refl
run_command-auth_tokens o e (cron_command _ _ _ _ _ _ _) now wakes = refl
run_command-auth_tokens o e (cron_delete_command _) now wakes = refl
run_command-auth_tokens o e cron_list_command now wakes = refl
run_command-auth_tokens o e (rate_limit_command _ _) now wakes = refl
run_command-auth_tokens o e (rate_limit_clear_command _) now wakes = refl
run_command-auth_tokens o e (pause_command _) now wakes = refl
run_command-auth_tokens o e (resume_command _) now wakes = refl
run_command-auth_tokens o e (set_concurrency_command _ _) now wakes = refl
run_command-auth_tokens o e (clear_concurrency_command _) now wakes = refl
run_command-auth_tokens o e list_queues_command now wakes = refl
run_command-auth_tokens o e (auth_command _) now wakes = refl
run_command-auth_tokens o e (log_command _ _ _) now wakes = refl
run_command-auth_tokens o e (get_logs_command _) now wakes = refl
run_command-auth_tokens o e (heartbeat_command _) now wakes = refl
run_command-auth_tokens o e (partial_command _ _ _) now wakes = refl
run_command-auth_tokens o e (flow_command _ _ _ _) now wakes = refl
run_command-auth_tokens o e (get_children_command _) now wakes = refl
run_command-auth_tokens o e (get_jobs_command _ _ _ _) now wakes = refl
run_command-auth_tokens o e (clean_command _ _ _ _) now wakes = refl
run_command-auth_tokens o e (drain_command _) now wakes = refl
run_command-auth_tokens o e (obliterate_command _) now wakes = refl
run_command-auth_tokens o e (change_priority_command _ _) now wakes = refl
run_command-auth_tokens o e (move_to_delayed_command _ _) now wakes = refl
run_command-auth_tokens o e (promote_command _) now wakes = refl
run_command-auth_tokens o e (update_job_command _ _) now wakes = refl
run_command-auth_tokens o e (discard_command _) now wakes = refl
run_command-auth_tokens o e (is_paused_command _) now wakes = refl
run_command-auth_tokens o e (count_command _) now wakes = refl
run_command-auth_tokens o e (get_job_counts_command _) now wakes = refl
run_command-auth_tokens o e (kv_set_command _ _ _) now wakes = refl
run_command-auth_tokens o e (kv_get_command _) now wakes = refl
run_command-auth_tokens o e (kv_del_command _) now wakes = refl
run_command-auth_tokens o e (kv_mget_command _) now wakes = refl
run_command-auth_tokens o e (kv_mset_command _) now wakes = refl
run_command-auth_tokens o e (kv_exists_command _) now wakes = refl
run_command-auth_tokens o e (kv_expire_command _ _) now wakes = refl
run_command-auth_tokens o e (kv_ttl_command _) now wakes = refl
run_command-auth_tokens o e (kv_keys_command _) now wakes = refl
run_command-auth_tokens o e (kv_incr_command _ _) now wakes = refl

-- No command changes the tokens.
pub process_command-auth_tokens :
    (o : Outside) (e : Engine) (c : Command) (now : ℕ) (wakes : List ℕ)
    → (process_command o e c now wakes).0.auth_tokens ≡ e.auth_tokens
unfolding process_command
process_command-auth_tokens o e c now wakes = elim (Bool-cases (is_kv_command c)) [
  | inl kv ↦ rw (kv, process_command) (handle_kv_command-auth_tokens o e c now)
  | inr other ↦ rw (other, process_command) (run_command-auth_tokens o e c now wakes)
]
