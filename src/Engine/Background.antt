-- ===== src/Engine/Background.antt =====
-- engine/src/queue/background/mod.rs: the background tasks, as steps in whatever order the timers
-- bring them. Snapshots and the history of metrics are left out.
use Prim.Native.Char.{Char}
use flashq.Prelude.{ℕ, String, Bool, Option}
use flashq.Timeouts.{check_timed_out_jobs, check_dependencies}
use flashq.Stalls.{check_stalled_jobs}
use flashq.Cron.{run_cron_jobs}
use flashq.Logs.{cleanup_debounce_cache}
use flashq.Cleanup.{
  Locks, cleanup_completed_jobs, cleanup_job_results, cleanup_job_logs, cleanup_stale_index_entries,
  cleanup_completed_retention, shrink_memory_buffers,
}
use flashq.Kv.{cleanup_expired_kv}
use flashq.Webhooks.{cleanup_webhook_circuits}
use flashq.Engine.{Engine, with_manager}

-- The order of the code; strings that are interned are not part of the model. Locks are tried twice,
-- by the cleanup of the index and, `later`, at the end.
unfoldable pub run_cleanup_tasks : Locks → Locks → Engine → ℕ → Engine
run_cleanup_tasks locks later e now =
    let indexed =
      cleanup_stale_index_entries locks
        (cleanup_job_logs (cleanup_job_results (cleanup_completed_jobs e.manager))) in
    let retained = cleanup_completed_retention (cleanup_debounce_cache indexed now) now in
    record e {
      manager = shrink_memory_buffers later retained;
      kv_store = cleanup_expired_kv e.kv_store now;
      hooks = cleanup_webhook_circuits e.hooks;
    }

pub data Task : Type 0 where
  wakeup timeouts stalled crons : Task
  cleanup : Locks → Locks → Task

module _ (is_alphanumeric : Char → Bool) (is_cron : String → Bool)
    (next_occurrence : String → ℕ → Option ℕ) (stall_text : ℕ → String) where
  -- One arm of the loop's `select!`.
  unfoldable pub run_task : Engine → Task → ℕ → Engine
  unfolding run_cleanup_tasks
  run_task e wakeup now = with_manager e (check_dependencies e.manager)
  run_task e timeouts now = with_manager e (check_timed_out_jobs e.manager now)
  run_task e stalled now = with_manager e (check_stalled_jobs stall_text e.manager now)
  run_task e crons now =
      with_manager e (run_cron_jobs is_cron next_occurrence is_alphanumeric e.manager now)
  run_task e (cleanup locks later) now = run_cleanup_tasks locks later e now
