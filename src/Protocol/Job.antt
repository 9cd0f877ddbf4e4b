-- ===== src/Protocol/Job.antt =====
-- engine/src/protocol/types.rs: jobs, their states, log entries, cron jobs and events.
use flashq.Prelude.{
  ℕ, ◌-◌, ◌^◌, String, ℤ, Bool, ◌&&◌, Option, List, min, ltb, leb, nat_beq, if◌then◌else◌, mul_u64,
}
use flashq.Protocol.Json.{Value}

pub data JobState : Type 0 where
  waiting delayed active completed failed waiting_children waiting_parent stalled unknown : JobState

-- `Arc<Value>` is the value that it points to.
pub record Job : Type 0 where
  pub id : ℕ
  pub queue : String
  pub payload : Value
  pub priority : ℤ
  pub created_at : ℕ
  pub run_at : ℕ
  pub started_at : ℕ
  pub attempts : ℕ
  pub max_attempts : ℕ
  pub backoff : ℕ
  pub ttl : ℕ
  pub timeout : ℕ
  pub unique_key : Option String
  pub depends_on : List ℕ
  pub progress : ℕ
  pub progress_msg : Option String
  pub tags : List String
  pub lifo : Bool
  pub remove_on_complete : Bool
  pub remove_on_fail : Bool
  pub last_heartbeat : ℕ
  pub stall_timeout : ℕ
  pub stall_count : ℕ
  pub parent_id : Option ℕ
  pub children_ids : List ℕ
  pub children_completed : ℕ
  pub custom_id : Option String
  pub keep_completed_age : ℕ
  pub keep_completed_count : ℕ
  pub completed_at : ℕ
  pub group_id : Option String

abbrev pub is_ready : Job → ℕ → Bool
is_ready job now = leb job.run_at now

-- `saturating_sub` is `-` on ℕ.
abbrev pub is_expired : Job → ℕ → Bool
is_expired job now = ltb 0 job.ttl && ltb job.ttl (now - job.created_at)

abbrev pub is_timed_out : Job → ℕ → Bool
is_timed_out job now =
    ltb 0 job.timeout && (ltb 0 job.started_at && ltb job.timeout (now - job.started_at))

abbrev pub should_go_to_dlq : Job → Bool
should_go_to_dlq job = ltb 0 job.max_attempts && leb job.max_attempts job.attempts

unfoldable pub next_backoff : Job → ℕ
next_backoff job =
    if nat_beq job.backoff 0 then 0 else mul_u64 job.backoff (2 ^ min job.attempts 10)

pub record JobLogEntry : Type 0 where
  pub timestamp : ℕ
  pub message : String
  pub level : String

pub record FlowChild : Type 0 where
  pub queue : String
  pub payload : Value
  pub priority : ℤ
  pub delay : Option ℕ

pub record CronJob : Type 0 where
  pub name : String
  pub queue : String
  pub payload : Value
  pub schedule : Option String
  pub repeat_every : Option ℕ
  pub priority : ℤ
  pub next_run : ℕ
  pub executions : ℕ
  pub limit : Option ℕ

pub record JobEvent : Type 0 where
  pub event_type : String
  pub queue : String
  pub job_id : ℕ
  pub timestamp : ℕ
  pub payload : Option Value
  pub error : Option String
  pub progress : Option ℕ
