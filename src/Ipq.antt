-- ===== src/Ipq.antt =====
-- engine/src/queue/types/indexed_priority_queue.rs: a binary heap of entries beside an index of
-- the jobs. Removal is lazy: an entry whose generation is not the index's is skipped by `pop`.
-- `BinaryHeap` is seen as a list: `pop` takes out a greatest entry under `HeapEntry`'s order.
pub mod Heap
pub mod Order
pub mod Invariant
pub mod Pop
pub mod Runs
pub mod Abstract
use flashq.Prelude.{
  ℕ, zero, suc, ◌+◌, compare, Ordering, ℤ, compare_ℤ, Bool, true, false, not, ◌||◌, Option, none,
  some, List, [], ◌∷◌, map, length, filter, nat_beq, nat_eq, if◌then◌else◌,
}
use flashq.Dict
use flashq.Dict.{Dict}
use flashq.Protocol.Job.{Job}

pub record HeapEntry : Type 0 where
  pub job_id : ℕ
  pub priority : ℤ
  pub run_at : ℕ
  pub lifo : Bool
  pub generation : ℕ

-- `Ordering::then_with`
abbrev pub then_with : Ordering → Ordering → Ordering
then_with Ordering.eq o = o
then_with Ordering.lt o = Ordering.lt
then_with Ordering.gt o = Ordering.gt

-- `impl Ord for HeapEntry`: the greatest entry is popped first.
unfoldable pub cmp : HeapEntry → HeapEntry → Ordering
cmp a b = then_with (compare_ℤ a.priority b.priority) (
    then_with (compare b.run_at a.run_at)
      (if a.lifo || b.lifo then compare a.job_id b.job_id else compare b.job_id a.job_id))

-- `BinaryHeap::pop`: the walk keeps the best entry so far and the others.
unfoldable pub pop_from : HeapEntry → List HeapEntry → HeapEntry × List HeapEntry
pop_from best [] = (best, [])
pop_from best (e ∷ es) = elim (cmp e best) [
  | Ordering.gt ↦ let (top, rest) = pop_from e es in (top, best ∷ rest)
  | _ ↦ let (top, rest) = pop_from best es in (top, e ∷ rest)
]

pub record Ipq : Type 0 where
  pub heap : List HeapEntry
  pub index : Dict ℕ (Job × ℕ)
  pub generation : ℕ

unfoldable pub empty : Ipq
empty = record { heap = []; index = []; generation = 0 }

-- The generation counter stays below 2^64: it grows by one with each push.
abbrev pub entry_of : Job → ℕ → HeapEntry
entry_of job gen = record {
  job_id = job.id;
  priority = job.priority;
  run_at = job.run_at;
  lifo = job.lifo;
  generation = gen;
}

unfoldable pub push : Ipq → Job → Ipq
push q job = record {
  heap = entry_of job q.generation ∷ q.heap;
  index = Dict.insert q.index job.id (job, q.generation);
  generation = q.generation + 1;
}

-- The job of the entry's id, if the entry is not stale.
unfoldable pub live_job : Dict ℕ (Job × ℕ) → HeapEntry → Option Job
live_job index e = elim (Dict.get index e.job_id) [
  | none ↦ none
  | some (job, stored_gen) ↦ if nat_beq stored_gen e.generation then some job else none
]

-- The loop of `pop`. Each round takes one entry off the heap: its length is fuel enough.
unfoldable pub pop_loop : ℕ → Ipq → Option Job × Ipq
unfolding pop_from
pop_loop zero q = (none, q)
pop_loop (suc fuel) q = elim q.heap [
  | [] ↦ (none, q)
  | e ∷ es ↦
      let (top, rest) = pop_from e es in
      elim (live_job q.index top) [
        | some job ↦ (some job, record q { heap = rest; index = Dict.remove q.index top.job_id })
        | none ↦ pop_loop fuel (record q { heap = rest })
      ]
]

unfoldable pub pop : Ipq → Option Job × Ipq
unfolding pop_loop
pop q = pop_loop (length q.heap) q

unfoldable pub get : Ipq → ℕ → Option Job
get q id = elim (Dict.get q.index id) [ none ↦ none | some (job, _) ↦ some job ]

unfoldable pub remove : Ipq → ℕ → Option Job × Ipq
unfolding get
remove q id = (get q id, record q { index = Dict.remove q.index id })

unfoldable pub update : Ipq → Job → Option Job × Ipq
unfolding remove push
update q job = let (old, q') = remove q job.id in (old, push q' job)

unfoldable pub len : Ipq → ℕ
len q = length q.index

-- `iter`
unfoldable pub jobs : Ipq → List Job
jobs q = map (λ e. e.1.0) q.index

unfoldable pub clear : Ipq → Ipq
clear q = record q { heap = []; index = [] }

-- The ids of the jobs that fail the test, and the loop that drops them one by one.
unfoldable pub removed_ids : Dict ℕ (Job × ℕ) → (Job → Bool) → List ℕ
removed_ids index f = map (λ e. e.0) (filter (λ e. not (f e.1.0)) index)

unfoldable pub remove_ids : Ipq → List ℕ → Ipq
unfolding remove
remove_ids q [] = q
remove_ids q (id ∷ ids) = remove_ids (remove q id).1 ids

unfoldable pub retain : Ipq → (Job → Bool) → Ipq
unfolding removed_ids remove_ids
retain q f = remove_ids q (removed_ids q.index f)
