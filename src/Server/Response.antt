-- ===== src/Server/Response.antt =====
-- engine/src/protocol/response.rs: `Response`, by the source's names with `_response`. The flag `ok`,
-- false in an error alone, is left out, as are the answers to `WaitJob` and `Metrics`.
use flashq.Prelude.{ℕ, String, ℤ, Bool, Option, none, List}
use flashq.Protocol.Json.{Value}
use flashq.Protocol.Job.{Job, JobState, JobLogEntry, CronJob}
use flashq.Result.{Result, ok, err, Error}
use flashq.Browser.{JobBrowserItem}
use flashq.Reports.{Stats, JobCounts, QueueInfo}

pub data Response : Type 0 where
  ok_response : Option ℕ → Response
  batch_response : List ℕ → Response
  job_response : Job → Response
  jobs_response : List Job → Response
  null_job_response : Response
  stats_response : Stats → Response
  progress_response : ℕ → ℕ → Option String → Response
  cron_list_response : List CronJob → Response
  result_response : ℕ → Option Value → Response
  queues_response : List QueueInfo → Response
  job_with_state_response : Option Job → JobState → Response
  state_response : ℕ → JobState → Response
  logs_response : ℕ → List JobLogEntry → Response
  flow_response : ℕ → List ℕ → Response
  children_response : ℕ → List Job → ℕ → ℕ → Response
  jobs_with_total_response : List JobBrowserItem → ℕ → Response
  count_response : ℕ → Response
  paused_response : Bool → Response
  job_counts_response : JobCounts → Response
  jobs_batch_response : List (Job × JobState) → Response
  error_response : Error → Response
  kv_value_response : Option Value → Response
  kv_values_response : List (Option Value) → Response
  kv_keys_response : List String → Response
  kv_exists_response : Bool → Response
  kv_ttl_response kv_incr_response : ℤ → Response

pub record ResponseWithId : Type 0 where
  pub req_id : Option String
  pub response : Response

-- The macro `ok_or_error!`.
unfoldable pub ok_or_error : Result (Unit {0}) → Response
ok_or_error (ok _) = ok_response none
ok_or_error (err e) = error_response e
