-- ===== src/Pull/Served.antt =====
-- engine/src/queue/pull.rs: what an admitted round does with the first job of the queue.
use flashq.Prelude.{
  none-some, some_injective, ℕ, suc, ◌≡◌, ◌≢◌, refl, sym, ap, ◌∙◌, inl, inr, String, true, false,
  some, List, [], ◌∷◌, arith, length, Bool-cases, nat_eq, nat_beq, string_eq, ◌≤ℤ◌,
}
use flashq.Dict
use flashq.Protocol.Job.{Job, is_expired, is_ready}
use flashq.Ipq
use flashq.Ipq.{Ipq}
use flashq.Ipq.Abstract.{indexed_get}
use flashq.Ipq.Invariant.{Inv}
use flashq.Ipq.Pop.{Before, exhausted, found, pop-Popped}
use flashq.Shard.{Shard, state_of, set_state}
use flashq.Pull.Scan.{scan_stops}
use flashq.Pull.{
  PullResult, pulled, wait, admitted, admit, scan, in_group, groups_of, start_job, scan_queue,
  pull_admitted, pull_after, pull_shard,
}

-- The job may be handed out at `now` while the groups are busy.
pub record Startable (now : ℕ) (groups : List String) (job : Job) : Type 0 where
  pub unexpired : is_expired job now ≡ false
  pub ready : is_ready job now ≡ true
  pub idle : in_group groups job.group_id ≡ false

scan_takes :
    (fuel now : ℕ) (groups : List String) (heap : Ipq) (job : Job)
    → (Ipq.pop heap).0 ≡ some job
    → Startable now groups job
    → (scan (suc fuel) now groups 1 heap [] []).handed ≡ start_job job now ∷ []
unfolding scan
scan_takes fuel now groups heap job e s =
    rw (e, scan)
      (rw (s.unexpired, s.ready, s.idle) (scan_stops fuel now _ _ _ (start_job job now ∷ [])))

scan_blocked :
    (fuel now : ℕ) (groups : List String) (heap : Ipq) (job : Job)
    → (Ipq.pop heap).0 ≡ some job
    → is_expired job now ≡ false
    → is_ready job now ≡ false
    → (scan (suc fuel) now groups 1 heap [] []).handed ≡ []
unfolding scan
scan_blocked fuel now groups heap job e x y = rw (e, scan) (rw (x, y) refl)

admitted_round :
    (s : Shard) (queue : String) (now : ℕ)
    → (admit (state_of s queue) now).1 ≡ admitted
    → pull_shard s queue now
      ≡ pull_admitted (set_state s queue (admit (state_of s queue) now).0) queue now
unfolding pull_shard pull_after pull_admitted
admitted_round s queue now a = rw (a, pull_after) refl

scanned_of :
    (s : Shard) (queue : String) (now : ℕ) (heap : Ipq)
    → Dict.get s.queues queue ≡ some heap
    → (scan_queue s queue 1 now).1
      ≡ (scan (suc (length heap.heap)) now (groups_of s queue) 1 heap [] []).handed
unfolding scan_queue
scanned_of s queue now heap e = rw (e, scan_queue) refl

round_takes :
    (s : Shard) (queue : String) (now : ℕ) (job : Job)
    → (scan_queue s queue 1 now).1 ≡ job ∷ []
    → (pull_admitted s queue now).1 ≡ pulled job
unfolding pull_admitted
round_takes s queue now job e = rw (e, pull_admitted) refl

round_waits :
    (s : Shard) (queue : String) (now : ℕ)
    → (scan_queue s queue 1 now).1 ≡ []
    → (pull_admitted s queue now).1 ≡ wait
unfolding pull_admitted
round_waits s queue now e = rw (e, pull_admitted) refl

module _ (s : Shard) (queue : String) (now : ℕ) (heap : Ipq)
    (let_in : (admit (state_of s queue) now).1 ≡ admitted)
    (queued : Dict.get s.queues queue ≡ some heap) (v : Inv heap) where
  abbrev locked : Shard
  locked = set_state s queue (admit (state_of s queue) now).0

  first_taken :
      (job : Job)
      → (Ipq.pop heap).0 ≡ some job
      → Startable now (groups_of s queue) job
      → (pull_shard s queue now).1 ≡ pulled (start_job job now)
  unfolding set_state
  first_taken job e ok =
      ap (λ (r : Shard × PullResult). r.1) (admitted_round s queue now let_in)
      ∙ round_takes locked queue now (start_job job now) (
          scanned_of locked queue now heap queued
          ∙ scan_takes (length heap.heap) now (groups_of s queue) heap job e ok)

  first_blocks :
      (job : Job)
      → (Ipq.pop heap).0 ≡ some job
      → is_expired job now ≡ false
      → is_ready job now ≡ false
      → (pull_shard s queue now).1 ≡ wait
  unfolding set_state
  first_blocks job e x y =
      ap (λ (r : Shard × PullResult). r.1) (admitted_round s queue now let_in)
      ∙ round_waits locked queue now (
          scanned_of locked queue now heap queued
          ∙ scan_blocked (length heap.heap) now (groups_of s queue) heap job e x y)

  -- An admitted round of `pull` on a queue whose jobs may all start, and that has one, hands out a
  -- job of the queue that no other comes before, by priority and then by `run_at`.
  pub pull_serves :
      (id : ℕ) (some_job : Job)
      → Ipq.get heap id ≡ some some_job
      → ((id : ℕ) (job : Job) → Ipq.get heap id ≡ some job → Startable now (groups_of s queue) job)
      → (first : Job) × ((pull_shard s queue now).1 ≡ pulled (start_job first now))
        × (Ipq.get heap first.id ≡ some first)
        × ((id : ℕ) (job : Job) → Ipq.get heap id ≡ some job → Before first job)
  unfolding Ipq.get
  pull_serves id some_job e all = elim (pop-Popped heap v).0 [
    | exhausted n nothing same ↦
        let (gen, e') = indexed_get heap id some_job e in absurd (none-some (sym (nothing id) ∙ e'))
    | found job gen top indexed left best ↦
        let here : Ipq.get heap job.id ≡ some job = rw (indexed, Ipq.get) refl in
        (
          job,
          first_taken job top (all job.id job here),
          here,
          λ i other h. let (g, h') = indexed_get heap i other h in best i other g h',
        )
  ]

  -- In an admitted round of `pull`, a delayed job that has not expired and is of higher priority than
  -- all others of its queue makes the pull wait, whatever other jobs are ready.
  pub delayed_blocks :
      (delayed : Job)
      → Ipq.get heap delayed.id ≡ some delayed
      → is_expired delayed now ≡ false
      → is_ready delayed now ≡ false
      → ((id : ℕ) (job : Job)
          → Ipq.get heap id ≡ some job
          → id ≢ delayed.id
          → delayed.priority ≤ℤ job.priority
          → ⊥)
      → (pull_shard s queue now).1 ≡ wait
  unfolding Ipq.get
  delayed_blocks delayed e x y above =
      let (gen, e') = indexed_get heap delayed.id delayed e in
      elim (pop-Popped heap v).0 [
        | exhausted n nothing same ↦ absurd (none-some (sym (nothing delayed.id) ∙ e'))
        | found job g top indexed left best ↦
            let here : Ipq.get heap job.id ≡ some job = rw (indexed, Ipq.get) refl in
            elim (Bool-cases (nat_beq job.id delayed.id)) [
              | inr other ↦
                  absurd (
                    above job.id job here (ground (arith))
                      (best delayed.id delayed gen e').priority)
              | inl same_id ↦
                  let same : job ≡ delayed =
                    some_injective (sym here ∙ ap (Ipq.get heap) (ground (arith)) ∙ e) in
                  first_blocks job top (rw same x) (rw same y)
            ]
      ]
