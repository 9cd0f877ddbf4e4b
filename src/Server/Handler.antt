-- ===== src/Server/Handler.antt =====
-- engine/src/server/handler/commands.rs. A command runs as one step at a time `now`, but for the
-- two that wait. The list of subscribers is not part of the model.
use flashq.Prelude.{ℕ, Option, none, some, List, [], ◌∷◌, string_eq, if◌then◌else◌}
use flashq.Protocol.Job.{unknown}
use flashq.Protocol.Builder.{unwrap_or}
use flashq.Result.{
  Result, ok, err, cron_not_found, invalid_state, unknown_command, parent_not_found,
}
use flashq.Manager.{Manager}
use flashq.Push.{push}
use flashq.Push.Batch.{push_batch}
use flashq.Ack.{ack, fail, get_result}
use flashq.Ack.Batch.{ack_batch}
use flashq.Query.{get_job, get_state, get_job_by_custom_id}
use flashq.JobOps.{cancel, update_progress, get_progress, partial}
use flashq.Requeue.{change_priority, move_to_delayed, promote, update_job_data, discard}
use flashq.Dlq.{get_dlq, retry_dlq, purge_dlq}
use flashq.Cron.{add_cron_with_repeat, delete_cron, list_crons}
use flashq.Control.{
  pause, resume, set_rate_limit, clear_rate_limit, set_concurrency, clear_concurrency, is_paused,
  count,
}
use flashq.Logs.{add_job_log, get_job_logs}
use flashq.Stalls.{heartbeat}
use flashq.Flows.{push_flow}
use flashq.Reports.{stats, list_queues, get_job_counts, get_jobs_batch, get_children}
use flashq.Browser.{get_jobs}
use flashq.Browser.Removal.{clean, drain, obliterate}
use flashq.Engine.{Engine, with_manager}
use flashq.Server.Command.{
  Command, push_command, pushb_command, pull_command, pullb_command, ack_command, ackb_command,
  fail_command, get_result_command, get_job_command, get_state_command,
  get_job_by_custom_id_command, cancel_command, progress_command, get_progress_command, dlq_command,
  retry_dlq_command, purge_dlq_command, get_jobs_batch_command, subscribe_command,
  unsubscribe_command, stats_command, cron_command, cron_delete_command, cron_list_command,
  rate_limit_command, rate_limit_clear_command, pause_command, resume_command,
  set_concurrency_command, clear_concurrency_command, list_queues_command, auth_command,
  log_command, get_logs_command, heartbeat_command, partial_command, flow_command,
  get_children_command, get_jobs_command, clean_command, drain_command, obliterate_command,
  change_priority_command, move_to_delayed_command, promote_command, update_job_command,
  discard_command, is_paused_command, count_command, get_job_counts_command,
}
use flashq.Server.Response.{
  Response, ok_or_error, ok_response, batch_response, jobs_response, stats_response,
  progress_response, cron_list_response, result_response, queues_response, job_with_state_response,
  state_response, logs_response, flow_response, children_response, jobs_with_total_response,
  count_response, paused_response, job_counts_response, jobs_batch_response, error_response,
}
use flashq.Server.Outside.{Outside}
use flashq.Server.KvHandler.{is_kv_command, handle_kv_command}
use flashq.Server.Waits.{tries, pull_until, pull_batch_until}
use flashq.Server.States.{state_filter, clean_state_of}

-- The new state of the jobs and the answer.
abbrev pub answered : Engine → Manager × Response → Engine × Option Response
answered e (m, r) = (with_manager e m, some r)

abbrev pub checked : Engine → Manager × Result (Unit {0}) → Engine × Option Response
checked e (m, r) = (with_manager e m, some (ok_or_error r))

abbrev pub told : Engine → Manager → Engine × Option Response
told e m = (with_manager e m, some (ok_response none))

abbrev pub counted : Engine → Manager × ℕ → Engine × Option Response
counted e (m, n) = (with_manager e m, some (count_response n))

abbrev pub counted_in_batch : Engine → Manager × ℕ → Engine × Option Response
counted_in_batch e (m, n) = (with_manager e m, some (batch_response (n ∷ [])))

module _ (outside : Outside) where
  -- The `match` of `process_command`.
  unfoldable pub run_command : Engine → Command → ℕ → List ℕ → Engine × Option Response
  unfolding pull_until pull_batch_until
  run_command e (push_command queue input) now wakes =
      let (m, result) = push outside.is_alphanumeric e.manager queue input now in
      answered e (m, elim result [ ok job ↦ ok_response (some job.id) | err x ↦ error_response x ])
  run_command e (pushb_command queue jobs) now wakes =
      let (m, ids) = push_batch outside.is_alphanumeric e.manager queue jobs now in
      answered e (m, batch_response ids)
  run_command e (pull_command queue timeout) now wakes =
      answered e (pull_until e.manager queue (tries now wakes timeout))
  run_command e (pullb_command queue most timeout) now wakes =
      answered e (pull_batch_until e.manager queue most (tries now wakes timeout))
  run_command e (ack_command id result) now wakes = checked e (ack e.manager id result now)
  run_command e (ackb_command ids) now wakes = counted_in_batch e (ack_batch e.manager ids)
  run_command e (fail_command id error) now wakes = checked e (fail e.manager id error now)
  run_command e (get_result_command id) now wakes =
      (e, some (result_response id (get_result e.manager id)))
  run_command e (get_job_command id) now wakes =
      let (job, state) = get_job e.manager id now in (e, some (job_with_state_response job state))
  run_command e (get_state_command id) now wakes =
      (e, some (state_response id (get_state e.manager id now)))
  run_command e (get_job_by_custom_id_command job_id) now wakes = (
    e,
    some (elim (get_job_by_custom_id e.manager job_id now) [
      | none ↦ job_with_state_response none unknown
      | some (job, state) ↦ job_with_state_response (some job) state
    ]),
  )
  run_command e (cancel_command id) now wakes = checked e (cancel e.manager id)
  run_command e (progress_command id progress message) now wakes =
      checked e (update_progress e.manager id progress message)
  run_command e (get_progress_command id) now wakes = (
    e,
    some (elim (get_progress e.manager id) [
      | ok (progress, message) ↦ progress_response id progress message
      | err x ↦ error_response x
    ]),
  )
  run_command e (dlq_command queue most) now wakes =
      (e, some (jobs_response (get_dlq e.manager queue most)))
  run_command e (retry_dlq_command queue id) now wakes =
      counted_in_batch e (retry_dlq e.manager queue id now)
  run_command e (purge_dlq_command queue) now wakes = counted e (purge_dlq e.manager queue)
  run_command e (get_jobs_batch_command ids) now wakes =
      (e, some (jobs_batch_response (get_jobs_batch e.manager ids now)))
  run_command e (subscribe_command queue events) now wakes = (e, some (ok_response none))
  run_command e (unsubscribe_command queue) now wakes = (e, some (ok_response none))
  run_command e stats_command now wakes = (e, some (stats_response (stats e.manager now)))
  run_command e (cron_command name queue payload schedule repeat_every priority limit) now wakes =
      checked e (
        add_cron_with_repeat outside.is_cron outside.next_occurrence e.manager name queue payload
          schedule repeat_every priority limit now)
  run_command e (cron_delete_command name) now wakes =
      let (m, deleted) = delete_cron e.manager name in
      answered e (m, if deleted then ok_response none else error_response cron_not_found)
  run_command e cron_list_command now wakes = (e, some (cron_list_response (list_crons e.manager)))
  run_command e (rate_limit_command queue limit) now wakes =
      told e (set_rate_limit e.manager queue limit now)
  run_command e (rate_limit_clear_command queue) now wakes =
      told e (clear_rate_limit e.manager queue)
  run_command e (pause_command queue) now wakes = told e (pause e.manager queue)
  run_command e (resume_command queue) now wakes = told e (resume e.manager queue)
  run_command e (set_concurrency_command queue limit) now wakes =
      told e (set_concurrency e.manager queue limit)
  run_command e (clear_concurrency_command queue) now wakes =
      told e (clear_concurrency e.manager queue)
  run_command e list_queues_command now wakes =
      (e, some (queues_response (list_queues e.manager now)))
  run_command e (log_command id message level) now wakes =
      checked e (add_job_log e.manager id message level now)
  run_command e (get_logs_command id) now wakes =
      (e, some (logs_response id (get_job_logs e.manager id)))
  run_command e (heartbeat_command id) now wakes = checked e (heartbeat e.manager id now)
  run_command e (partial_command id chunk index) now wakes =
      checked e (partial e.manager id chunk index now)
  run_command e (flow_command queue payload children priority) now wakes =
      let (m, result) = push_flow e.manager queue payload children priority now in
      answered e (
        m,
        elim result [
          | ok (parent_id, children_ids) ↦ flow_response parent_id children_ids
          | err x ↦ error_response x
        ],
      )
  run_command e (get_children_command parent_id) now wakes = (
    e,
    some (elim (get_children e.manager parent_id now) [
      | none ↦ error_response (parent_not_found parent_id)
      | some (children, finished, total) ↦ children_response parent_id children finished total
    ]),
  )
  run_command e (get_jobs_command queue state limit offset) now wakes =
      let filter_state = state_filter (outside.to_lowercase) state in
      let (jobs, total) =
        get_jobs e.manager queue filter_state (unwrap_or limit 100) (unwrap_or offset 0) now in
      (e, some (jobs_with_total_response jobs total))
  run_command e (clean_command queue grace state limit) now wakes =
      answered e (elim (clean_state_of (outside.to_lowercase state)) [
        | none ↦ (e.manager, error_response invalid_state)
        | some which ↦
            let (m, n) = clean e.manager queue grace which limit now in (m, count_response n)
      ])
  run_command e (drain_command queue) now wakes = counted e (drain e.manager queue)
  run_command e (obliterate_command queue) now wakes = counted e (obliterate e.manager queue)
  run_command e (change_priority_command id priority) now wakes =
      checked e (change_priority e.manager id priority)
  run_command e (move_to_delayed_command id delay) now wakes =
      checked e (move_to_delayed e.manager id delay now)
  run_command e (promote_command id) now wakes = checked e (promote e.manager id now)
  run_command e (update_job_command id payload) now wakes =
      checked e (update_job_data e.manager id payload)
  run_command e (discard_command id) now wakes = checked e (discard e.manager id)
  run_command e (is_paused_command queue) now wakes =
      (e, some (paused_response (is_paused e.manager queue)))
  run_command e (count_command queue) now wakes = (e, some (count_response (count e.manager queue)))
  run_command e (get_job_counts_command queue) now wakes =
      (e, some (job_counts_response (get_job_counts e.manager queue now)))
  run_command e (auth_command token) now wakes = (e, some (ok_response none))
  run_command e _ now wakes = (e, some (error_response unknown_command))

  unfoldable pub process_command : Engine → Command → ℕ → List ℕ → Engine × Option Response
  unfolding is_kv_command handle_kv_command run_command
  process_command e command now wakes =
      if is_kv_command command
      then handle_kv_command outside e command now
      else run_command e command now wakes
