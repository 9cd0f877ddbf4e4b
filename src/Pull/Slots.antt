-- ===== src/Pull/Slots.antt =====
-- The concurrency slots that a pull takes and gives back.
use mathlib.Core.Option
use flashq.Prelude.{
  ℕ, zero, suc, ◌+◌, ◌-◌, ◌≤◌, ◌≡◌, refl, ap, ◌∙◌, inl, inr, String, false, Option, none, some,
  List, [], ◌∷◌, arith, length, nat_eq, string_eq, Option-cases,
}
use flashq.Dict
use flashq.Protocol.Job.{Job}
use flashq.Limiters.{QueueState, ConcurrencyLimiter, try_slot, release}
use flashq.Shard.{Shard, state_of, set_state, release_concurrency}
use flashq.Shard.Laws.{state_of-set_state, state_of_eq, state_of-release_concurrency}
use flashq.Pull.{
  scan, scan_queue, groups_of, mark_group, mark_groups, acquire_slots, release_slots, admit_batch,
  has_limit, pull_batch_shard,
}
use flashq.Pull.Scan.{Fair, Fair-mono, scan-Fair}

-- The limiter with `n` slots more in use.
abbrev pub taken : ConcurrencyLimiter → ℕ → ConcurrencyLimiter
taken c n = record c { current = c.current + n }

record Acquired (count : ℕ) (c : ConcurrencyLimiter) (r : ConcurrencyLimiter × ℕ) : Type 0 where
  limiter : r.0.limit ≡ c.limit
  current : r.0.current ≡ c.current + r.1
  asked : r.1 ≤ count
  within : c.current + r.1 ≤ c.limit

acquire_slots-Acquired :
    (count : ℕ) (c : ConcurrencyLimiter)
    → c.current ≤ c.limit
    → Acquired count c (acquire_slots count c)
unfolding acquire_slots try_slot
acquire_slots-Acquired zero c le = omega arith
acquire_slots-Acquired (suc count) c le =
    ground (arith, acquire_slots-Acquired count (record c { current = c.current + 1 }))

mark_group-state :
    (s : Shard) (queue : String) (gid : Option String)
    → (mark_group s queue gid).queue_state ≡ s.queue_state
unfolding mark_group
mark_group-state s queue none = refl
mark_group-state s queue (some gid) = refl

mark_groups-state :
    (s : Shard) (queue : String) (jobs : List Job)
    → (mark_groups s queue jobs).queue_state ≡ s.queue_state
unfolding mark_groups
mark_groups-state s queue [] = refl
mark_groups-state s queue (job ∷ jobs) =
    mark_groups-state (mark_group s queue job.group_id) queue jobs
    ∙ mark_group-state s queue job.group_id

-- The scan leaves the limits of the queue alone, and what it hands out is fair.
pub scan_queue-state :
    (s : Shard) (queue : String) (want now : ℕ)
    → (scan_queue s queue want now).0.queue_state ≡ s.queue_state
unfolding scan_queue
scan_queue-state s queue want now = elim (Option-cases (Dict.get s.queues queue)) [
  | inl e ↦ rw (e, scan_queue) refl
  | inr (heap, e) ↦
      let r = scan (suc (length heap.heap)) now (groups_of s queue) want heap [] [] in
      rw (e, scan_queue)
        (mark_groups-state (record s { queues = Dict.insert s.queues queue r.heap }) queue r.handed)
]

pub scan_queue-Fair :
    (s : Shard) (queue : String) (want now : ℕ)
    → Fair now (groups_of s queue) want (scan_queue s queue want now).1
unfolding scan_queue
scan_queue-Fair s queue want now = elim (Option-cases (Dict.get s.queues queue)) [
  | inl e ↦
      rw (e, scan_queue) (record { may_start = tt; one_per_group = tt; bounded = omega arith })
  | inr (heap, e) ↦
      rw (e, scan_queue) (scan-Fair (suc (length heap.heap)) now (groups_of s queue) want heap)
]

release_slots-state :
    (n : ℕ) (s : Shard) (queue : String) (c : ConcurrencyLimiter)
    → (state_of s queue).concurrency ≡ some c
    → (state_of (release_slots n s queue) queue).concurrency
      ≡ some (record c { current = c.current - n })
unfolding release_slots release
release_slots-state zero s queue c e = e ∙ ground arith
release_slots-state (suc n) s queue c e =
    release_slots-state n (release_concurrency s queue) queue (release c) (
      ap (λ (st : QueueState). st.concurrency) (state_of-release_concurrency s queue)
      ∙ ap (Option.map release) e)
    ∙ ground arith

admit_batch_limited :
    (state : QueueState) (count : ℕ) (c : ConcurrencyLimiter)
    → state.concurrency ≡ some c
    → ((admit_batch state count).0.concurrency ≡ some (acquire_slots count c).0)
      × ((admit_batch state count).1 ≡ (acquire_slots count c).1)
unfolding admit_batch
admit_batch_limited state count c e = (rw (e, admit_batch) refl, rw (e, admit_batch) refl)

abbrev admission : Shard → String → ℕ → QueueState × ℕ
admission s queue count = admit_batch (state_of s queue) count

abbrev scanned : Shard → String → ℕ → ℕ → Shard × List Job
scanned s queue count now =
    scan_queue (set_state s queue (admission s queue count).0) queue (admission s queue count).1 now

pull_batch_limited :
    (s : Shard) (queue : String) (count now : ℕ) (c : ConcurrencyLimiter)
    → (state_of s queue).paused ≡ false
    → (state_of s queue).concurrency ≡ some c
    → pull_batch_shard s queue count now ≡ (
      release_slots
          ((admission s queue count).1 - length (scanned s queue count now).1)
          (scanned s queue count now).0
          queue,
      some (scanned s queue count now).1,
    )
unfolding pull_batch_shard
pull_batch_limited s queue count now c u e = rw (u, pull_batch_shard) (rw (e, has_limit) refl)

scanned-state :
    (s : Shard) (queue : String) (count now : ℕ)
    → state_of (scanned s queue count now).0 queue ≡ (admission s queue count).0
scanned-state s queue count now =
    state_of_eq (set_state s queue (admission s queue count).0) (scanned s queue count now).0 queue
      (scan_queue-state (set_state s queue (admission s queue count).0) queue _ now)
    ∙ state_of-set_state s queue (admission s queue count).0

scanned-Fair :
    (s : Shard) (queue : String) (count now : ℕ)
    → Fair now (groups_of s queue) (admission s queue count).1 (scanned s queue count now).1
unfolding set_state
scanned-Fair s queue count now =
    scan_queue-Fair (set_state s queue (admission s queue count).0) queue
      (admission s queue count).1 now

-- Slots taken and given back again.
give_back :
    (c d : ConcurrencyLimiter) (n len : ℕ)
    → d.limit ≡ c.limit
    → d.current ≡ c.current + n
    → len ≤ n
    → ◌≡◌ {A = Option ConcurrencyLimiter}
        (some (record d { current = d.current - (n - len) }))
        (some (taken c len))
give_back c d n len p q le = ground arith

-- A batch pull of a queue that is not paused and has a concurrency limit, not exceeded, hands out jobs; after it
-- exactly one slot more is in use for each of them, and the limit is kept; the jobs are at most
-- `count`, each may start, and no two are of one group.
pub pull_batch_slots :
    (s : Shard) (queue : String) (count now : ℕ) (c : ConcurrencyLimiter)
    → (state_of s queue).paused ≡ false
    → (state_of s queue).concurrency ≡ some c
    → c.current ≤ c.limit
    → (jobs : List Job) × ((pull_batch_shard s queue count now).1 ≡ some jobs)
      × ((state_of (pull_batch_shard s queue count now).0 queue).concurrency
          ≡ some (taken c (length jobs)))
      × (c.current + length jobs ≤ c.limit)
      × Fair now (groups_of s queue) count jobs
pull_batch_slots s queue count now c u e le =
    let (admitted, granted) = admit_batch_limited (state_of s queue) count c e in
    let a = acquire_slots-Acquired count c le in
    let f = scanned-Fair s queue count now in
    (
      (scanned s queue count now).1,
      ap (λ (r : Shard × Option (List Job)). r.1) (pull_batch_limited s queue count now c u e),
      ap (λ (r : Shard × Option (List Job)). (state_of r.0 queue).concurrency)
            (pull_batch_limited s queue count now c u e)
          ∙ release_slots-state ((admission s queue count).1 - length (scanned s queue count now).1)
              (scanned s queue count now).0 queue (acquire_slots count c).0
              (ap (λ (st : QueueState). st.concurrency) (scanned-state s queue count now)
                ∙ admitted)
          ∙ give_back c (acquire_slots count c).0 (admission s queue count).1
              (length (scanned s queue count now).1) a.limiter (omega (arith, a.current, granted))
              f.bounded,
      omega (arith, a.within, granted, f.bounded),
      Fair-mono now (groups_of s queue) _ count _ (omega (arith, a.asked, granted)) f,
    )
