-- ===== src/Pull/Enough.antt =====
-- engine/src/queue/pull.rs: the loop over the heap ends by its own tests.
use flashq.Prelude.{
  ℕ, zero, suc, ◌<◌, ◌≡◌, refl, inl, inr, String, some, List, [], ◌∷◌, ◌++◌, arith, length,
  Bool-cases, Option-cases, nat_eq, string_eq,
}
use flashq.Dict
use flashq.Protocol.Job.{Job, is_expired, is_ready}
use flashq.Ipq
use flashq.Ipq.{Ipq, HeapEntry, pop_from, pop_loop, live_job}
use flashq.Ipq.Heap.{length-pop_from}
use flashq.Pull.{scan, in_group, taken_groups, start_job}

-- A pop that yields a job takes an entry off the heap.
pop_loop-shrinks :
    (fuel : ℕ) (heap : List HeapEntry) (index : Dict.Dict ℕ (Job × ℕ)) (counter : ℕ) (job : Job)
    → let q : Ipq = record { heap = heap; index = index; generation = counter } in
      (pop_loop fuel q).0 ≡ some job → length (pop_loop fuel q).1.heap < length heap
unfolding pop_loop
pop_loop-shrinks zero heap index counter job h = absurd (ground (arith))
pop_loop-shrinks (suc fuel) [] index counter job h = absurd (ground (arith))
pop_loop-shrinks (suc fuel) (e ∷ es) index counter job h =
    elim (Option-cases (live_job index (pop_from e es).0)) [
      | inl stale ↦
          rw (stale, pop_loop)
            (omega (
              arith,
              length-pop_from e es,
              pop_loop-shrinks fuel (pop_from e es).1 index counter job (rw (stale, pop_loop) at h),
            ))
      | inr (top, live) ↦ rw (live, pop_loop) (omega (arith, length-pop_from e es))
    ]

pop-shrinks :
    (q : Ipq) (job : Job) → (Ipq.pop q).0 ≡ some job → length (Ipq.pop q).1.heap < length q.heap
unfolding Ipq.pop
pop-shrinks q job h = pop_loop-shrinks (length q.heap) q.heap q.index q.generation job h

-- Any two amounts of fuel above the length of the heap give the same: the loop of a pull ends by its
-- own tests, whatever the heap holds.
pub scan_enough :
    (fuel more now : ℕ) (groups : List String) (want : ℕ) (heap : Ipq) (skipped jobs : List Job)
    → length heap.heap < fuel
    → length heap.heap < more
    → scan fuel now groups want heap skipped jobs ≡ scan more now groups want heap skipped jobs
unfolding scan
scan_enough zero more now groups want heap skipped jobs lt gt = absurd (omega arith)
scan_enough (suc fuel) zero now groups want heap skipped jobs lt gt = absurd (omega arith)
scan_enough (suc fuel) (suc more) now groups zero heap skipped jobs lt gt = refl
scan_enough (suc fuel) (suc more) now groups (suc want) heap skipped jobs lt gt =
    elim (Option-cases (Ipq.pop heap).0) [
      | inl e ↦ rw (e, scan) refl
      | inr (job, e) ↦
          let less = pop-shrinks heap job e in
          let same : (w : ℕ) (gs : List String) (sk js : List Job)
              → scan fuel now gs w (Ipq.pop heap).1 sk js
                ≡ scan more now gs w (Ipq.pop heap).1 sk js =
            λ w gs sk js.
              scan_enough fuel more now gs w (Ipq.pop heap).1 sk js (omega arith) (omega arith) in
          elim (Bool-cases (is_expired job now)) [
            | inl x ↦ rw (e, scan) (rw x (same (suc want) groups skipped jobs))
            | inr x ↦ elim (Bool-cases (is_ready job now)) [
              | inr y ↦ rw (e, scan) (rw (x, y) refl)
              | inl y ↦ elim (Bool-cases (in_group groups job.group_id)) [
                | inl z ↦
                    rw (e, scan) (rw (x, y, z) (same (suc want) groups (skipped ++ job ∷ []) jobs))
                | inr z ↦
                    rw (e, scan)
                      (rw (x, y, z)
                        (same want (taken_groups groups job.group_id) skipped
                          (jobs ++ start_job job now ∷ [])))
              ]
            ]
          ]
    ]
