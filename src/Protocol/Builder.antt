-- ===== src/Protocol/Builder.antt =====
-- engine/src/protocol/command.rs (`JobInput`) and builder.rs (`JobBuilder::build`), with the
-- composition of the two in queue/push.rs (`create_job_from_input`).

use flashq.Prelude.{ℕ, String, ℤ, pos, Bool, false, Option, none, some, List, [], add_u64}
use flashq.Protocol.Json.{Value}
use flashq.Protocol.Job.{Job}

pub record JobInput : Type 0 where
  pub payload : Value
  pub priority : ℤ
  pub delay : Option ℕ
  pub ttl : Option ℕ
  pub timeout : Option ℕ
  pub max_attempts : Option ℕ
  pub backoff : Option ℕ
  pub unique_key : Option String
  pub depends_on : Option (List ℕ)
  pub tags : Option (List String)
  pub lifo : Bool
  pub remove_on_complete : Bool
  pub remove_on_fail : Bool
  pub stall_timeout : Option ℕ
  pub debounce_id : Option String
  pub debounce_ttl : Option ℕ
  pub job_id : Option String
  pub keep_completed_age : Option ℕ
  pub keep_completed_count : Option ℕ
  pub group_id : Option String

unfoldable pub new_input : Value → JobInput
new_input v = record {
  payload = v;
  priority = pos 0;
  delay = none;
  ttl = none;
  timeout = none;
  max_attempts = none;
  backoff = none;
  unique_key = none;
  depends_on = none;
  tags = none;
  lifo = false;
  remove_on_complete = false;
  remove_on_fail = false;
  stall_timeout = none;
  debounce_id = none;
  debounce_ttl = none;
  job_id = none;
  keep_completed_age = none;
  keep_completed_count = none;
  group_id = none;
}

pub record JobBuilder : Type 0 where
  pub queue : String
  pub payload : Value
  pub priority : ℤ
  pub delay : Option ℕ
  pub ttl : Option ℕ
  pub timeout : Option ℕ
  pub max_attempts : Option ℕ
  pub backoff : Option ℕ
  pub unique_key : Option String
  pub depends_on : Option (List ℕ)
  pub tags : Option (List String)
  pub lifo : Bool
  pub remove_on_complete : Bool
  pub remove_on_fail : Bool
  pub stall_timeout : Option ℕ
  pub custom_id : Option String
  pub keep_completed_age : Option ℕ
  pub keep_completed_count : Option ℕ
  pub group_id : Option String

abbrev pub unwrap_or {ℓ} : {A : Type ℓ} → Option A → A → A
unwrap_or none a = a
unwrap_or (some b) a = b

unfoldable pub build : JobBuilder → ℕ → ℕ → Job
build b id now = record {
  id = id;
  queue = b.queue;
  payload = b.payload;
  priority = b.priority;
  created_at = now;
  run_at = elim b.delay [ none ↦ now | some d ↦ add_u64 now d ];
  started_at = 0;
  attempts = 0;
  max_attempts = unwrap_or b.max_attempts 0;
  backoff = unwrap_or b.backoff 0;
  ttl = unwrap_or b.ttl 0;
  timeout = unwrap_or b.timeout 0;
  unique_key = b.unique_key;
  depends_on = unwrap_or b.depends_on [];
  progress = 0;
  progress_msg = none;
  tags = unwrap_or b.tags [];
  lifo = b.lifo;
  remove_on_complete = b.remove_on_complete;
  remove_on_fail = b.remove_on_fail;
  last_heartbeat = 0;
  stall_timeout = unwrap_or b.stall_timeout 0;
  stall_count = 0;
  parent_id = none;
  children_ids = [];
  children_completed = 0;
  custom_id = b.custom_id;
  keep_completed_age = unwrap_or b.keep_completed_age 0;
  keep_completed_count = unwrap_or b.keep_completed_count 0;
  completed_at = 0;
  group_id = b.group_id;
}

-- The chain of setters from `JobBuilder::new` on; a setter writes the field of its name.
unfoldable pub builder_of_input : String → JobInput → JobBuilder
builder_of_input q input = record {
  queue = q;
  payload = input.payload;
  priority = input.priority;
  delay = input.delay;
  ttl = input.ttl;
  timeout = input.timeout;
  max_attempts = input.max_attempts;
  backoff = input.backoff;
  unique_key = input.unique_key;
  depends_on = input.depends_on;
  tags = input.tags;
  lifo = input.lifo;
  remove_on_complete = input.remove_on_complete;
  remove_on_fail = input.remove_on_fail;
  stall_timeout = input.stall_timeout;
  custom_id = input.job_id;
  keep_completed_age = input.keep_completed_age;
  keep_completed_count = input.keep_completed_count;
  group_id = input.group_id;
}

unfoldable pub create_job_from_input : ℕ → String → JobInput → ℕ → Job
unfolding build builder_of_input
create_job_from_input id q input now = build (builder_of_input q input) id now
