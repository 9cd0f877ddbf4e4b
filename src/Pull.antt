-- ===== src/Pull.antt =====
-- engine/src/queue/pull.rs: one round of `pull` (the rest of its loop sleeps and tries again),
-- `pull_batch` and `pull_batch_nowait`.
pub mod Scan
pub mod Enough
pub mod Slots
pub mod Single
pub mod Served
use flashq.Prelude.{
  ℕ, zero, suc, ◌-◌, String, Bool, true, false, Option, none, some, List, [], ◌∷◌, ◌++◌, length,
  ltb, contains, set_insert, string_eq, ◌||◌, if◌then◌else◌,
}
use flashq.Dict
use flashq.Protocol.Job.{Job, is_ready, is_expired}
use flashq.Ipq
use flashq.Ipq.{Ipq}
use flashq.Limiters.{QueueState, RateLimiter, ConcurrencyLimiter, try_token, try_slot, release}
use flashq.Shard.{Shard, processing, state_of, set_state, release_concurrency}
use flashq.Manager.{
  Manager, shard_index, write_shard, index_job, processing_insert, record_pull, with_metrics,
}

-- `started_at` and `last_heartbeat` are stamped on a job that is handed out.
abbrev pub start_job : Job → ℕ → Job
start_job job now = record job { started_at = now; last_heartbeat = now }

-- `job.group_id` is one of the groups.
abbrev pub in_group : List String → Option String → Bool
in_group groups none = false
in_group groups (some gid) = contains groups gid

-- `newly_activated` beside the groups that were active.
abbrev pub taken_groups : List String → Option String → List String
taken_groups groups none = groups
taken_groups groups (some gid) = gid ∷ groups

unfoldable pub push_all : Ipq → List Job → Ipq
push_all q [] = q
push_all q (job ∷ jobs) = push_all (Ipq.push q job) jobs

-- What a scan of the heap ends with: the jobs that it hands out, and the heap without them, the
-- skipped jobs put back.
pub record Scanned : Type 0 where
  pub handed : List Job
  pub heap : Ipq

-- The loop over the heap: up to `want` jobs are taken; expired jobs are dropped, jobs of a busy group
-- skipped, and the first job that is not ready stops the scan. Each round takes an entry off the
-- heap, so its length is fuel enough.
unfoldable pub scan : ℕ → ℕ → List String → ℕ → Ipq → List Job → List Job → Scanned
unfolding push_all
scan zero now groups want heap skipped jobs = record { handed = jobs; heap = push_all heap skipped }
scan (suc fuel) now groups zero heap skipped jobs = record {
  handed = jobs;
  heap = push_all heap skipped;
}
scan (suc fuel) now groups (suc want) heap skipped jobs =
    let (top, rest) = Ipq.pop heap in
    elim top [
      | none ↦ record { handed = jobs; heap = push_all rest skipped }
      | some job ↦
          let next = scan fuel now groups (suc want) rest skipped jobs in
          let skip = scan fuel now groups (suc want) rest (skipped ++ job ∷ []) jobs in
          let take =
            scan fuel now (taken_groups groups job.group_id) want rest skipped
              (jobs ++ start_job job now ∷ []) in
          if is_expired job now
          then next
          else if is_ready job now
          then (if in_group groups job.group_id then skip else take)
          else record { handed = jobs; heap = push_all (Ipq.push rest job) skipped }
    ]

-- The groups of the queue that are active.
abbrev pub groups_of : Shard → String → List String
groups_of s queue = Dict.get_or s.active_groups queue []

unfoldable pub mark_group : Shard → String → Option String → Shard
mark_group s queue none = s
mark_group s queue (some gid) = record s {
  active_groups = Dict.insert s.active_groups queue (set_insert (groups_of s queue) gid);
}

unfoldable pub mark_groups : Shard → String → List Job → Shard
unfolding mark_group
mark_groups s queue [] = s
mark_groups s queue (job ∷ jobs) = mark_groups (mark_group s queue job.group_id) queue jobs

-- The scan of the queue's heap, if there is one, and the marking of the groups handed out.
unfoldable pub scan_queue : Shard → String → ℕ → ℕ → Shard × List Job
unfolding scan mark_groups
scan_queue s queue want now = elim (Dict.get s.queues queue) [
  | none ↦ (s, [])
  | some heap ↦
      let r = scan (suc (length heap.heap)) now (groups_of s queue) want heap [] [] in
      (
        mark_groups (record s { queues = Dict.insert s.queues queue r.heap }) queue r.handed,
        r.handed,
      )
]

pub data PullResult : Type 0 where
  pulled : Job → PullResult
  wait sleep_paused sleep_rate_limit sleep_concurrency : PullResult

pub data Admission : Type 0 where
  admitted paused rate_limited no_slot : Admission

-- A slot is taken where a concurrency limit is set.
unfoldable pub admit_slot : QueueState → QueueState × Admission
admit_slot state = elim state.concurrency [
  | none ↦ (state, admitted)
  | some c ↦
      let (c', granted) = try_slot c in
      (record state { concurrency = some c' }, if granted then admitted else no_slot)
]

-- The chain of tests at the head of a round: pause, rate limit, concurrency limit.
unfoldable pub admit : QueueState → ℕ → QueueState × Admission
unfolding admit_slot
admit state now = if state.paused then (state, paused) else elim state.rate_limiter [
  | none ↦ admit_slot state
  | some l ↦
      let (l', granted) = try_token l now in
      let state' = record state { rate_limiter = some l' } in
      if granted then admit_slot state' else (state', rate_limited)
]

-- An admitted round: a job is handed out, or the slot is given back.
unfoldable pub pull_admitted : Shard → String → ℕ → Shard × PullResult
unfolding scan_queue
pull_admitted s queue now =
    let (s', handed) = scan_queue s queue 1 now in
    elim handed [ [] ↦ (release_concurrency s' queue, wait) | job ∷ _ ↦ (s', pulled job) ]

abbrev pub pull_after : Admission → Shard → String → ℕ → Shard × PullResult
unfolding pull_admitted
pull_after admitted s queue now = pull_admitted s queue now
pull_after paused s queue now = (s, sleep_paused)
pull_after rate_limited s queue now = (s, sleep_rate_limit)
pull_after no_slot s queue now = (s, sleep_concurrency)

-- The block under the shard's lock.
unfoldable pub pull_shard : Shard → String → ℕ → Shard × PullResult
unfolding admit
pull_shard s queue now =
    let (state, admission) = admit (state_of s queue) now in
    pull_after admission (set_state s queue state) queue now

unfoldable pub track_pulled : Manager → Job → Manager
track_pulled m job =
    let placed = processing_insert (index_job m job.id processing) job in
    with_metrics placed (record_pull placed.metrics)

unfoldable pub pull : Manager → String → ℕ → Manager × PullResult
unfolding pull_shard track_pulled
pull m queue now =
    let idx = shard_index m queue in
    let (s, result) = pull_shard (m.shards idx) queue now in
    let locked = write_shard m idx s in
    elim result [ pulled job ↦ (track_pulled locked job, pulled job) | other ↦ (locked, other) ]

-- `while slots < count && conc.try_acquire()`
unfoldable pub acquire_slots : ℕ → ConcurrencyLimiter → ConcurrencyLimiter × ℕ
acquire_slots zero c = (c, 0)
acquire_slots (suc count) c =
    let (c', granted) = try_slot c in
    let rest : ConcurrencyLimiter × ℕ = let (c'', n) = acquire_slots count c' in (c'', suc n) in
    if granted then rest else (c', 0)

unfoldable pub release_slots : ℕ → Shard → String → Shard
release_slots zero s queue = s
release_slots (suc n) s queue = release_slots n (release_concurrency s queue) queue

-- The slots for a batch: as many as the limit allows, or all where none is set.
unfoldable pub admit_batch : QueueState → ℕ → QueueState × ℕ
unfolding acquire_slots
admit_batch state count = elim state.concurrency [
  | none ↦ (state, count)
  | some c ↦ let (c', n) = acquire_slots count c in (record state { concurrency = some c' }, n)
]

abbrev pub has_limit : QueueState → Bool
has_limit state = elim state.concurrency [ none ↦ false | some _ ↦ true ]

-- The block under the shard's lock of `pull_batch` and `pull_batch_nowait`; `none` is a pause.
unfoldable pub pull_batch_shard : Shard → String → ℕ → ℕ → Shard × Option (List Job)
unfolding admit_batch scan_queue release_slots
pull_batch_shard s queue count now =
    let before = state_of s queue in
    if before.paused
    then (set_state s queue before, none)
    else let (state, slots) = admit_batch before count in
      let (s', jobs) = scan_queue (set_state s queue state) queue slots now in
      (if has_limit before then release_slots (slots - length jobs) s' queue else s', some jobs)

unfoldable pub track_all : Manager → List Job → Manager
unfolding track_pulled
track_all m [] = m
track_all m (job ∷ jobs) = track_all (track_pulled m job) jobs

-- `pull_batch_nowait`, and one round of `pull_batch`, which tries again while this is empty.
unfoldable pub pull_batch : Manager → String → ℕ → ℕ → Manager × List Job
unfolding pull_batch_shard track_all
pull_batch m queue count now =
    let idx = shard_index m queue in
    let (s, result) = pull_batch_shard (m.shards idx) queue count now in
    let locked = write_shard m idx s in
    elim result [ none ↦ (locked, []) | some jobs ↦ (track_all locked jobs, jobs) ]

-- The body of this one is that of a round of `pull_batch`.
unfoldable pub pull_batch_nowait : Manager → String → ℕ → ℕ → Manager × List Job
unfolding pull_batch
pull_batch_nowait m queue count now = pull_batch m queue count now
