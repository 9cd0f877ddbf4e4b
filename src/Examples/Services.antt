-- ===== src/Examples/Services.antt =====
-- The theorems of recovery, cron jobs, webhooks, cleanups and batches, applied to small states.
use flashq.Prelude.{
  ℕ, ◌+◌, ◌≤◌, ◌≡◌, ◌≢◌, refl, subst, ◌↔◌, pos, true, String, none, some, List, [], ◌∷◌, ◌≤ℤ◌,
  arith, nat_eq, string_eq, All,
}
use flashq.Dict
use flashq.Protocol.Json.{null}
use flashq.Protocol.Job.{Job, CronJob, failed, unknown}
use flashq.Protocol.Builder.{new_input, JobInput, create_job_from_input}
use flashq.Ipq
use flashq.Ipq.{Ipq}
use flashq.Ipq.Runs
use flashq.Ipq.Runs.{Op, pushes, updates, pops, removes, run-Inv}
use flashq.Ipq.Abstract.{Serves, view, run-Serves}
use flashq.Ipq.Invariant.{Inv}
use flashq.Ipq.Pop.{Before}
use flashq.Shard.{Shard, new_shard, state_of, set_state}
use flashq.Manager.{Manager, shard_index, processing_get, processing_insert}
use flashq.Query.{find_job, get_job, get_job_at, queue_job}
use flashq.Push.{enqueue}
use flashq.Push.Batch.{Registry, register_all}
use flashq.Push.Batch.Keys.{AllApart, Without, register_all_keys}
use flashq.Pull.{pull_shard, pulled, wait, scan, start_job, admit}
use flashq.Pull.Enough.{scan_enough}
use flashq.Pull.Served.{Startable, pull_serves, delayed_blocks}
use flashq.Ack.Batch.{ack_batch}
use flashq.Ack.Batch.Wrong.{ack_batch_keeps_others}
use flashq.Stalls.{handle_stalled}
use flashq.Stalls.Slots.{third_stall_keeps_slots}
use flashq.Recover.{Storage}
use flashq.Cron.Limits.{rounds, all_left, rounds_limited}
use flashq.Webhooks.{Webhook, fire_webhooks}
use flashq.Webhooks.Address.{is_private_v4}
use flashq.Webhooks.Private.{address, in_private_block, is_private_v4-blocks}
use flashq.Webhooks.Refused.{Elsewhere, open_circuit_silent}
use flashq.Control.{count}
use flashq.Browser.Removal.{drain}
use flashq.Browser.Drained.{drain_forgets}
use flashq.Cleanup.{Locks, cleanup_stale_index_entries}
use flashq.Cleanup.Locked.{cleanup_drops_locked}
use flashq.Dict.{Dict}
use flashq.Dict.Unique.{Unique}
use flashq.Shard.{JobLocation, in_queue, done}
use flashq.Prelude.{zero, suc, false, ◌<◌, ◌⊎◌, inl, inr, length}
use flashq.Cleanup.Stale.{cleanup_keeps_found}
use flashq.Auth.{verify_token}
use flashq.Auth.Exact.{IsMember, verify_token_exact}
use flashq.Examples.{first_job, urgent_job, idle, busy, queued, opened}

abbrev updated_ops : List Op
updated_ops = pushes first_job ∷ pushes urgent_job ∷ pops ∷ updates first_job ∷ removes 1 ∷ []

run-Serves_example : Serves (view Ipq.empty) updated_ops (view (Runs.run Ipq.empty updated_ops))
run-Serves_example = run-Serves updated_ops

-- Both jobs, in the order in which they were pushed.
abbrev both : Ipq
both = Ipq.push (Ipq.push Ipq.empty first_job) urgent_job

scan_enough_example : scan 3 2000 [] 2 both [] [] ≡ scan 50 2000 [] 2 both [] []
unfolding Ipq.push Ipq.empty
scan_enough_example = scan_enough 3 50 2000 [] 2 both [] [] (omega arith) (omega arith)

verify_token_exact_example :
    (verify_token [] (7 ∷ 8 ∷ []) ≡ true)
    × ((verify_token ((7 ∷ 9 ∷ []) ∷ (7 ∷ 8 ∷ []) ∷ []) (7 ∷ 8 ∷ []) ≡ true)
        ↔ IsMember (7 ∷ 8 ∷ []) ((7 ∷ 9 ∷ []) ∷ (7 ∷ 8 ∷ []) ∷ []))
verify_token_exact_example = verify_token_exact (7 ∷ 9 ∷ []) ((7 ∷ 8 ∷ []) ∷ []) (7 ∷ 8 ∷ [])

is_private_v4-blocks_example : is_private_v4 172 20 1 2 ≡ in_private_block (address 172 20 1 2)
is_private_v4-blocks_example =
    is_private_v4-blocks 172 20 1 2 (omega arith) (omega arith) (omega arith) (omega arith)

drain_forgets_example :
    let after = (drain idle "mail").0 in
    ((drain idle "mail").1 ≡ count idle "mail")
    × (count after "mail" ≡ 0)
    × All (λ (job : Job). get_job after job.id 3000 ≡ (none, unknown)) (Ipq.jobs both)
unfolding enqueue new_shard set_state Dict.get Dict.insert
drain_forgets_example = drain_forgets idle "mail" both 3000 refl

register_all_keys_example :
    let r : Registry = record {
      custom_ids = [];
      batch = [];
      keys = "k" ∷ [];
      results = [];
      to_create = [];
    } in
    let keyed : JobInput = record (new_input null) { unique_key = some "j" } in
    let inputs : List (ℕ × JobInput) = (0, keyed) ∷ (1, new_input null) ∷ (2, keyed) ∷ [] in
    AllApart (register_all r inputs (5 ∷ 6 ∷ 7 ∷ [])).to_create
    × All (Without r.keys) (register_all r inputs (5 ∷ 6 ∷ 7 ∷ [])).to_create
register_all_keys_example =
    register_all_keys
      (record { custom_ids = []; batch = []; keys = "k" ∷ []; results = []; to_create = [] })
      ((0, record (new_input null) { unique_key = some "j" })
        ∷ (1, new_input null)
        ∷ (2, record (new_input null) { unique_key = some "j" })
        ∷ [])
      (5 ∷ 6 ∷ 7 ∷ []) refl

-- A queue with one ready job.
abbrev one_job : Ipq
one_job = Ipq.push Ipq.empty first_job

abbrev single : Shard
single = enqueue new_shard "mail" first_job

only_first : (id : ℕ) (job : Job) → Ipq.get one_job id ≡ some job → first_job ≡ job
unfolding Ipq.get Ipq.push Ipq.empty Dict.get Dict.insert
only_first id job h = ground (arith)

one_pushed : Inv one_job
unfolding Runs.run Runs.step
one_pushed = run-Inv (pushes first_job ∷ [])

first_starts : Startable 2000 [] first_job
unfolding create_job_from_input new_input
first_starts = record { unexpired = refl; ready = refl; idle = refl }

pull_serves_example :
    (first : Job) × ((pull_shard single "mail" 2000).1 ≡ pulled (start_job first 2000))
    × (Ipq.get one_job first.id ≡ some first)
    × ((id : ℕ) (job : Job) → Ipq.get one_job id ≡ some job → Before first job)
unfolding enqueue new_shard Dict.get Dict.insert create_job_from_input new_input admit state_of
    Ipq.get Ipq.push Ipq.empty
pull_serves_example =
    pull_serves single "mail" 2000 one_job refl refl one_pushed 1 first_job refl
      (λ id job h. subst (Startable 2000 []) (only_first id job h) first_starts)

-- A delayed job of priority 5, and behind it a ready job of priority 0.
abbrev later_job : Job
later_job = record urgent_job { run_at = 9000 }

abbrev mixed : Ipq
mixed = Ipq.push (Ipq.push Ipq.empty first_job) later_job

abbrev mixed_shard : Shard
mixed_shard = enqueue (enqueue new_shard "mail" first_job) "mail" later_job

mixed_pushed : Inv mixed
unfolding Runs.run Runs.step
mixed_pushed = run-Inv (pushes first_job ∷ pushes later_job ∷ [])

others_below :
    (id : ℕ) (job : Job)
    → Ipq.get mixed id ≡ some job
    → id ≢ later_job.id
    → later_job.priority ≤ℤ job.priority
    → ⊥
unfolding Ipq.get Ipq.push Ipq.empty Dict.get Dict.insert create_job_from_input new_input
others_below id job h n le = ground (arith)

delayed_blocks_example : (pull_shard mixed_shard "mail" 2000).1 ≡ wait
unfolding enqueue new_shard Dict.get Dict.insert create_job_from_input new_input admit state_of
    Ipq.get Ipq.push Ipq.empty
delayed_blocks_example =
    delayed_blocks mixed_shard "mail" 2000 mixed refl refl mixed_pushed later_job refl refl refl
      others_below

-- The urgent job is processing and has stalled twice.
abbrev stalling : Manager
stalling = record busy { stalled_count = (2, 2) ∷ [] }

third_stall_keeps_slots_example :
    let after = handle_stalled (λ n. "stalled") stalling (urgent_job.id, 2) 90000 in
    let before = stalling.shards (shard_index stalling urgent_job.queue) in
    let s = after.shards (shard_index stalling urgent_job.queue) in
    (get_job after urgent_job.id 95000 ≡ (some urgent_job, failed))
    × (s.queue_state ≡ before.queue_state)
    × (s.active_groups ≡ before.active_groups)
    × (s.unique_keys ≡ before.unique_keys)
unfolding processing_get processing_insert create_job_from_input Dict.get Dict.insert new_input
    enqueue new_shard find_job set_state
third_stall_keeps_slots_example =
    third_stall_keeps_slots (λ n. "stalled") stalling urgent_job 2 90000 95000 refl (omega arith)
      refl

abbrev storage : Storage
storage = record {
  max_job_id = some 2;
  pending_jobs = some ((first_job, "waiting") ∷ (urgent_job, "active") ∷ []);
  dlq_jobs = some [];
  crons = none;
  custom_ids = none;
  completed_ids = some (1 ∷ []);
  job_results = none;
  queue_states = some (
      record { queue = "mail"; paused = true; rate_limit = none; concurrency_limit = some 3 } ∷ []);
}

abbrev hourly : CronJob
hourly = record {
  name = "hourly";
  queue = "mail";
  payload = null;
  schedule = none;
  repeat_every = some 3600000;
  priority = pos 0;
  next_run = 1000;
  executions = 0;
  limit = some 2;
}

rounds_limited_example :
    let r = rounds (λ s. true) (λ s t. none) (("hourly", hourly) ∷ []) (2000 ∷ 9000000 ∷ []) in
    r.1 + all_left r.0 ≤ 2
rounds_limited_example =
    rounds_limited (λ s. true) (λ s t. none) (("hourly", hourly) ∷ []) (2000 ∷ 9000000 ∷ [])

abbrev hook : Webhook
hook = record {
  id = "wh_1";
  url = "https://example.org/hook";
  events = "*" ∷ [];
  queue = none;
  secret = none;
  created_at = 0;
}

open_circuit_silent_example :
    let r =
      fire_webhooks
        (hook ∷ [])
        (("https://example.org/hook", opened) ∷ [])
        "completed"
        "mail"
        150
        100 in
    All (Elsewhere "https://example.org/hook" "completed" "mail") r.1
    × (Dict.get r.0 "https://example.org/hook" ≡ some opened)
unfolding Dict.get
open_circuit_silent_example =
    open_circuit_silent "https://example.org/hook" "completed" "mail" 150 100 opened
      (record { opened = refl; fits = omega arith; early = omega arith }) (hook ∷ [])
      (("https://example.org/hook", opened) ∷ []) refl

-- Entries of completed jobs under the ids from `n + 2` down to 3.
unfoldable padding : ℕ → Dict ℕ JobLocation
padding zero = []
padding (suc n) = (n + 3, done) ∷ padding n

get-padding : (n k : ℕ) → (k < 3) ⊎ (n + 2 < k) → Dict.get (padding n) k ≡ none
unfolding padding Dict.get
get-padding zero k h = refl
get-padding (suc n) k h =
    ground (arith, get-padding n k (elim h [ inl a ↦ inl a | inr b ↦ inr (omega (arith, b)) ]))

padding-Unique : (n : ℕ) → Unique (padding n)
unfolding padding
padding-Unique zero = tt
padding-Unique (suc n) = (get-padding n (n + 3) (inr (omega arith)), padding-Unique n)

length-padding : (n : ℕ) → length (padding n) ≡ n
unfolding padding
length-padding zero = refl
length-padding (suc n) = omega (arith, length-padding n)

-- A queue of one job among 100001 entries of the index.
abbrev crowded : Manager
crowded = record queued { job_index = (1, in_queue 7 "mail") ∷ padding 100001 }

abbrev all_free : Locks
all_free = record { processing_free = λ i. true; shard_free = λ i. true }

abbrev all_held : Locks
all_held = record { processing_free = λ i. false; shard_free = λ i. false }

cleanup_keeps_found_example :
    get_job (cleanup_stale_index_entries all_free crowded) 1 3000 ≡ get_job crowded 1 3000
unfolding get_job get_job_at queue_job Dict.get Dict.insert Ipq.get Ipq.push Ipq.empty enqueue
    new_shard set_state create_job_from_input
cleanup_keeps_found_example =
    cleanup_keeps_found all_free crowded 1 3000 first_job (in_queue 7 "mail")
      (get-padding 100001 1 (inl (omega arith)), padding-Unique 100001) refl refl refl refl

cleanup_drops_locked_example :
    let left = cleanup_stale_index_entries all_held crowded in
    (get_job left 1 3000 ≡ (none, unknown))
    × (queue_job left 7 "mail" 1 ≡ queue_job crowded 7 "mail" 1)
cleanup_drops_locked_example =
    cleanup_drops_locked all_held crowded 1 3000 7 "mail" [] (padding 100001) refl
      (omega (arith, length-padding 100001)) (omega (arith, length-padding 100001)) refl

-- A job of another queue of the same shard is processing too.
abbrev two_queues : Manager
two_queues = processing_insert busy (record first_job { queue = "letters" })

apart : ◌≢◌ {A = String} "mail" "letters"
apart h = ground (arith, string_eq.test_iff "mail" "letters")

ack_batch_keeps_others_example :
    state_of
      ((ack_batch two_queues (2 ∷ 1 ∷ [])).0.shards (shard_index two_queues urgent_job.queue))
      "letters"
    ≡ state_of (two_queues.shards (shard_index two_queues urgent_job.queue)) "letters"
unfolding processing_get processing_insert create_job_from_input Dict.get Dict.insert new_input
ack_batch_keeps_others_example =
    ack_batch_keeps_others two_queues 2 (1 ∷ []) urgent_job "letters" refl apart

abbrev batch : Registry
batch = record {
  custom_ids = [];
  batch = [];
  keys = [];
  results = [];
  to_create =
      (0, new_input null, 5) ∷ (1, record (new_input null) { depends_on = some (9 ∷ []) }, 6) ∷ [];
}
