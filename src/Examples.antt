-- ===== src/Examples.antt =====
-- Small states, and the theorems of the library applied to them.
pub mod Services
pub mod Sessions
use flashq.Prelude.{
  ℕ, ◌+◌, ◌≤◌, ◌≡◌, refl, ◌↔◌, pos, Bool, true, false, none, some, List, [], ◌∷◌, length, arith,
  Ordering, nat_eq, string_eq, leb, if◌then◌else◌,
}
use flashq.Dict
use flashq.Protocol.Json.{null}
use flashq.Protocol.Job.{Job}
use flashq.Protocol.Builder.{new_input, create_job_from_input}
use flashq.Ipq
use flashq.Ipq.{Ipq, HeapEntry, cmp}
use flashq.Ipq.Invariant.{Inv}
use flashq.Ipq.Pop.{Popped}
use flashq.Ipq.Order.{cmp_cycle}
use flashq.Ipq.Runs
use flashq.Ipq.Runs.{Op, pushes, pops, removes, run-Inv, pop-run}
use flashq.Limiters.{ConcurrencyLimiter, new_concurrency, new_state}
use flashq.Limiters.Slots
use flashq.Limiters.Slots.{Call, acquires, releases, fresh, granted-run}
use flashq.Circuit.{
  Entry, new_entry, closed, open_, half_open, should_allow, record_success, record_failure,
  try_half_open,
}
use flashq.Circuit.Trips.{fail_all, fail_all_trips, half_open_recovers}
use flashq.Shard.{Shard, new_shard, state_of, set_state}
use flashq.Push.{enqueue}
use flashq.Pull.{scan, groups_of, pull_shard, pull_batch_shard}
use flashq.Pull.Scan.{Fair, scan-Fair}
use flashq.Pull.Slots.{taken, pull_batch_slots}
use flashq.Pull.Single.{Outcome, pull_shard-Outcome}
use flashq.Protocol.Job.{waiting_children}
use flashq.Shard.{processing, waiting_deps}
use flashq.Prelude.{contains, filter, ltb, negsuc, ◌-◌, ◌^◌}
use flashq.Manager.{write_shard}
use flashq.Query.{get_state, get_job_at, queue_job}
use flashq.Query.Agree.{get_state_agrees}
use flashq.Push.{all_completed}
use flashq.Logs.{add_job_log, get_job_logs}
use flashq.Logs.Bounds.{logs_bounded}
use flashq.JobOps.{cancel}
use flashq.Timeouts.{check_dependencies, check_shards, check_shard, ready_ids, move_ready}
use flashq.Timeouts.Moved.{OwnIds}
use flashq.Timeouts.Deps.{check_dependencies_loses}
use flashq.Push.{all_completed}
use flashq.Prelude.{Bool-cases, nat_beq, some_injective, none-some, sym, ap, ◌∙◌, inl, inr}
use flashq.Kv.{kv_set, kv_get, kv_exists, kv_ttl}
use flashq.Kv.Expiry.{kv_set_lives}
use flashq.Result.{ok, err, not_found}
use flashq.Protocol.Job.{failed}
use flashq.Shard.{in_queue, release_state}
use flashq.Manager.{Manager, Env, GlobalMetrics, shard_index, processing_get, processing_insert}
use flashq.Query.{find_job, get_job}
use flashq.Push.{place_job, take_unique_key}
use flashq.Push.{push_job}
use flashq.Push.Stored.{push_job_found}
use flashq.Push.Keys.{push_key_refuses}
use flashq.Result.{duplicate_key}
use flashq.Protocol.Builder.{JobInput}
use flashq.Push.Placed.{place_job-found}
use flashq.Pull.{in_group}
use flashq.Ack.{ack, fail, retry_job}
use flashq.Ack.Once.{ack_once}
use flashq.Ack.Frees.{ack_frees}
use flashq.Ack.Retry.{tried}
use flashq.Ack.Buried.{fail_buries}
use flashq.Glob.{glob_match}
use flashq.Glob.Matching.{Matches}
use flashq.Glob.Complete.{glob_match_decides, glob_match_sound, glob_match_panics}

abbrev pub first_job : Job
first_job = create_job_from_input 1 "mail" (new_input null) 1000

abbrev pub urgent_job : Job
urgent_job =
    create_job_from_input 2 "mail"
      (record (new_input null) { priority = pos 5; group_id = some "g" }) 1001

abbrev some_ops : List Op
some_ops = pushes first_job ∷ pushes urgent_job ∷ pops ∷ pushes urgent_job ∷ removes 1 ∷ []

run-Inv_example : Inv (Runs.run Ipq.empty some_ops)
run-Inv_example = run-Inv some_ops

pop-run_example : Popped (Runs.run Ipq.empty some_ops) (Ipq.pop (Runs.run Ipq.empty some_ops))
pop-run_example = pop-run some_ops

abbrev entry : ℕ → Bool → HeapEntry
entry id lifo = record {
  job_id = id;
  priority = pos 0;
  run_at = 1000;
  lifo = lifo;
  generation = id;
}

cmp_cycle_example :
    (cmp (entry 1 false) (entry 3 false) ≡ Ordering.gt)
    × (cmp (entry 3 false) (entry 2 true) ≡ Ordering.gt)
    × (cmp (entry 2 true) (entry 1 false) ≡ Ordering.gt)
cmp_cycle_example =
    cmp_cycle (entry 1 false) (entry 2 true) (entry 3 false) refl refl refl refl refl refl refl
      (omega arith) (omega arith)

abbrev some_gaps : List ℕ
some_gaps = 0 ∷ 1 ∷ 400 ∷ 100 ∷ []

abbrev some_calls : List Call
some_calls = acquires ∷ acquires ∷ releases ∷ acquires ∷ []

granted-run_example :
    let t = Slots.run (fresh 1) some_calls in (t.limiter.current ≤ 1) × (t.granted ≤ 1 + t.released)
granted-run_example = granted-run 1 some_calls

abbrev pub opened : Entry
opened = record {
  state = open_;
  failures = 3;
  successes = 0;
  last_failure_at = 100;
  opened_at = 100;
}

abbrev four_times : List ℕ
four_times = 10 ∷ 20 ∷ 30 ∷ 40 ∷ []

fail_all_trips_example :
    (fail_all new_entry 3 four_times).state
    ≡ (if leb 3 (new_entry.failures + length four_times) then open_ else closed)
unfolding new_entry
fail_all_trips_example = fail_all_trips new_entry 3 four_times refl (omega arith) (omega arith)

half_open_recovers_example :
    let h = (try_half_open opened 250 100).0 in
    (should_allow h 250 100 ≡ true)
    × ((record_success h).state ≡ half_open)
    × ((record_success (record_success h)).state ≡ closed)
    × ((record_success (record_success h)).failures ≡ 0)
    × ((record_failure h 260 3).state ≡ open_)
    × ((record_failure h 260 3).opened_at ≡ 260)
    × ((record_failure (record_success h) 260 3).state ≡ open_)
    × ((record_failure (record_success h) 260 3).opened_at ≡ 260)
half_open_recovers_example =
    half_open_recovers opened 250 100 260 3 refl (omega arith) (omega arith)

abbrev pub filled : Shard
filled = enqueue (enqueue new_shard "mail" first_job) "mail" urgent_job

abbrev pub two_slots : ConcurrencyLimiter
two_slots = new_concurrency 2

abbrev pub limited : Shard
limited = set_state filled "mail" (record new_state { concurrency = some two_slots })

pull_batch_slots_example :
    (jobs : List Job) × ((pull_batch_shard limited "mail" 3 2000).1 ≡ some jobs)
    × ((state_of (pull_batch_shard limited "mail" 3 2000).0 "mail").concurrency
        ≡ some (taken two_slots (length jobs)))
    × (two_slots.current + length jobs ≤ two_slots.limit)
    × Fair 2000 (groups_of limited "mail") 3 jobs
unfolding state_of set_state new_concurrency Dict.get Dict.insert enqueue new_shard
pull_batch_slots_example = pull_batch_slots limited "mail" 3 2000 two_slots refl refl (omega arith)

pull_shard-Outcome_example : Outcome limited "mail" 2000 (pull_shard limited "mail" 2000)
pull_shard-Outcome_example = pull_shard-Outcome limited "mail" 2000

-- `a*c` on `abc`
glob_match_decides_example :
    (b : Bool) × (glob_match (97 ∷ 42 ∷ 99 ∷ []) (97 ∷ 98 ∷ 99 ∷ []) ≡ some b)
    × ((b ≡ true) ↔ Matches (97 ∷ 42 ∷ 99 ∷ []) (97 ∷ 98 ∷ 99 ∷ []))
glob_match_decides_example =
    glob_match_decides (97 ∷ 42 ∷ 99 ∷ []) (97 ∷ 98 ∷ 99 ∷ [])
      (omega arith, (omega arith, (omega arith, tt))) (omega arith)

abc_matches : glob_match (97 ∷ 42 ∷ 99 ∷ []) (97 ∷ 98 ∷ 99 ∷ []) ≡ some true
unfolding glob_match
abc_matches = refl

glob_match_sound_example : Matches (97 ∷ 42 ∷ 99 ∷ []) (97 ∷ 98 ∷ 99 ∷ [])
glob_match_sound_example = glob_match_sound (97 ∷ 42 ∷ 99 ∷ []) (97 ∷ 98 ∷ 99 ∷ []) abc_matches

-- `*a` on `é`
glob_match_panics_example : glob_match (b'*' ∷ 97 ∷ []) (233 ∷ []) ≡ none
glob_match_panics_example =
    glob_match_panics 97 233 (omega arith) (omega arith) (omega arith) (omega arith)

abbrev some_env : Env
some_env = record {
  hash = λ queue. 7;
  insert_job = λ job state. none;
  sync_persistence = false;
  has_event_listeners = true;
  max_completed_jobs = 10;
}

abbrev no_metrics : GlobalMetrics
no_metrics = record {
  total_pushed = 0;
  total_completed = 0;
  total_failed = 0;
  total_timed_out = 0;
  latency_sum = 0;
  latency_count = 0;
  current_queued = 0;
  current_processing = 0;
  current_dlq = 0;
  throughput_window_count = 0;
}

abbrev pub idle : Manager
idle = record {
  env = some_env;
  shards = λ i. limited;
  processing_shards = λ i. [];
  job_index = [];
  completed_jobs = [];
  completed_jobs_data = [];
  job_results = [];
  job_logs = [];
  stalled_count = [];
  custom_id_map = [];
  debounce_cache = [];
  completed_retention = [];
  cron_jobs = [];
  metrics = no_metrics;
  id_counter = 3;
  effects = [];
}

-- A job with one attempt.
abbrev last_try : Job
last_try = record urgent_job { max_attempts = 1 }

-- The urgent job is processing.
abbrev pub busy : Manager
busy = processing_insert idle urgent_job

abbrev busy_last : Manager
busy_last = processing_insert idle last_try

ack_once_example :
    ((ack (ack busy 2 none 3000).0 2 none 3001).1 ≡ err (not_found 2))
    × ((fail (ack busy 2 none 3000).0 2 none 3001).1 ≡ err (not_found 2))
ack_once_example = ack_once busy 2 none 3000 none none 3001

ack_frees_example :
    let s = busy.shards (shard_index busy urgent_job.queue) in
    let t = (ack busy 2 none 3000).0.shards (shard_index busy urgent_job.queue) in
    ((ack busy 2 none 3000).1 ≡ ok tt)
    × (state_of t urgent_job.queue ≡ release_state (state_of s urgent_job.queue))
    × (in_group (groups_of t urgent_job.queue) urgent_job.group_id ≡ false)
    × ((take_unique_key t urgent_job.queue urgent_job.unique_key).1 ≡ true)
unfolding processing_get processing_insert create_job_from_input Dict.get Dict.insert
ack_frees_example = ack_frees busy 2 urgent_job none 3000 refl

fail_buries_example :
    ((fail busy_last 2 none 3000).1 ≡ ok tt)
    × (get_job (fail busy_last 2 none 3000).0 2 4000 ≡ (some (tried last_try), failed))
unfolding processing_get processing_insert create_job_from_input Dict.get Dict.insert new_input
    enqueue new_shard find_job set_state
fail_buries_example = fail_buries busy_last 2 last_try none 3000 4000 refl refl refl refl refl

-- The urgent job is processing, and its group is busy.
abbrev busy_group : Manager
busy_group = record busy {
  job_index = (2, processing) ∷ [];
  shards = λ i. record limited { active_groups = ("mail", "g" ∷ []) ∷ [] };
}

-- A job that waits for the first one, which is completed.
abbrev dependent : Job
dependent = record urgent_job { depends_on = 1 ∷ [] }

abbrev dependency_done : Manager
dependency_done = record idle {
  job_index = (2, waiting_deps 1) ∷ [];
  shards = λ i. record new_shard { waiting_deps = (2, dependent) ∷ [] };
  completed_jobs = 1 ∷ [];
}

dependent_own : OwnIds (dependency_done.shards 1)
unfolding Dict.get create_job_from_input
dependent_own k j e = elim (Bool-cases (nat_beq 2 k)) [
  | inl same ↦
      let at : dependent ≡ j = some_injective (sym (rw same refl) ∙ e) in
      sym (ap (λ (x : Job). x.id) at) ∙ (nat_eq.test_iff 2 k).0 same
  | inr other ↦ absurd (none-some (sym (rw other refl) ∙ e))
]

check_dependencies_loses_example :
    let after = check_dependencies dependency_done in
    let ready = all_completed dependency_done.completed_jobs dependent.depends_on in
    (queue_job after 1 dependent.queue 2
      ≡ (if ready then some dependent else queue_job dependency_done 1 dependent.queue 2))
    × (get_job after 2 3000 ≡ (if ready then none else some dependent, waiting_children))
    × ((cancel after 2).1 ≡ (if ready then err (not_found 2) else ok tt))
unfolding Dict.get
check_dependencies_loses_example =
    check_dependencies_loses dependency_done 2 1 3000 1 dependent [] refl (omega arith) refl refl
      dependent_own (refl, tt)

kv_set_lives_example :
    let s' = (kv_set (λ v. 4) [] "k" null (some 500) 1000).0 in
    (kv_get s' "k" 1200 ≡ (if ltb (1000 + 500) 1200 then none else some null))
    × (kv_exists s' "k" 1200 ≡ (if ltb (1000 + 500) 1200 then false else true))
    × (kv_ttl s' "k" 1200 ≡ (
        if ltb (1000 + 500) 1200
        then negsuc 1
        else if ltb (1000 + 500 - 1200) (2 ^ 63)
        then pos (1000 + 500 - 1200)
        else negsuc (2 ^ 64 - (1000 + 500 - 1200) - 1)))
unfolding kv_set
kv_set_lives_example = kv_set_lives (λ v. 4) [] "k" null 500 1000 1200 (omega arith) refl

abbrev pub queued : Manager
queued = record idle { job_index = (1, in_queue 7 "mail") ∷ [] }

get_state_agrees_example : get_state queued 1 3000 ≡ (get_job queued 1 3000).1
unfolding get_job get_job_at queue_job Dict.get Dict.insert Ipq.get Ipq.push Ipq.empty enqueue
    new_shard set_state create_job_from_input
get_state_agrees_example = get_state_agrees queued 1 3000 first_job refl

abbrev parent : Job
parent = record first_job { children_ids = 2 ∷ [] }

abbrev flow : Manager
flow = record idle { shards = λ i. record limited { waiting_children = (1, parent) ∷ [] } }

abbrev keyed_input : JobInput
keyed_input = record (new_input null) { unique_key = some "k" }

abbrev keyed_job : Job
keyed_job = create_job_from_input 4 "mail" keyed_input 1000

keyed_answer : (push_job idle "mail" keyed_input keyed_job 1000).1 ≡ ok keyed_job
unfolding push_job take_unique_key Dict.get Dict.insert contains enqueue new_shard set_state
    all_completed create_job_from_input new_input
keyed_answer = refl

push_job_found_example :
    (keyed_job ≡ keyed_job)
    × ((get_job (push_job idle "mail" keyed_input keyed_job 1000).0 keyed_job.id 3000).0
        ≡ some keyed_job)
push_job_found_example =
    push_job_found idle "mail" keyed_input keyed_job 1000 keyed_job 3000 keyed_answer

push_key_refuses_example :
    (push_job
      (push_job idle "mail" keyed_input keyed_job 1000).0
      "mail"
      keyed_input
      urgent_job
      2000).1
    ≡ err (duplicate_key "k")
push_key_refuses_example =
    push_key_refuses idle "mail" keyed_input keyed_job 1000 keyed_input urgent_job 2000 "k"
      keyed_job refl refl keyed_answer
