-- ===== src/Ipq/Pop.antt =====
-- What `IndexedPriorityQueue::pop` returns and leaves behind.
use flashq.Prelude.{
  ℕ, zero, suc, ◌≤◌, ◌≡◌, ◌≢◌, refl, sym, ap, subst, ◌∙◌, inl, inr, Option, none, some, List, [],
  ◌∷◌, arith, ◌≤ℤ◌, nat_eq, Option-cases, length,
}
use flashq.Dict
use flashq.Dict.{Dict}
use flashq.Dict.Laws.{get-remove-some}
use flashq.Protocol.Job.{Job}
use flashq.Ipq.{Ipq, HeapEntry, entry_of, live_job, pop_from, pop_loop, pop}
use flashq.Ipq.Heap.{Outranks, pop_from-In, In-pop_from, pop_from-Outranks, length-pop_from}
use flashq.Ipq.Invariant.{Inv}

live_job-some :
    (index : Dict ℕ (Job × ℕ)) (e : HeapEntry) (job : Job)
    → live_job index e ≡ some job
    → Dict.get index e.job_id ≡ some (job, e.generation)
unfolding live_job
live_job-some index e job h = ground (arith)

live_job-none :
    (index : Dict ℕ (Job × ℕ)) (e : HeapEntry) (job : Job) (gen : ℕ)
    → live_job index e ≡ none
    → Dict.get index e.job_id ≡ some (job, gen)
    → gen ≢ e.generation
unfolding live_job
live_job-none index e job gen h k = ground (arith)

-- `a` is served no later than `b`: a higher priority, or the same and an earlier `run_at`.
pub record Before (a b : Job) : Type 0 where
  pub priority : b.priority ≤ℤ a.priority
  pub run_at : a.priority ≤ℤ b.priority → a.run_at ≤ b.run_at

-- The two outcomes of `pop`: no job is left, or one that comes before all others is taken out.
pub data Popped (q : Ipq) (r : Option Job × Ipq) : Type 0 where
  exhausted :
      r.0 ≡ none → ((id : ℕ) → Dict.get q.index id ≡ none) → r.1.index ≡ q.index → Popped q r
  found :
      (job : Job) (gen : ℕ)
      → r.0 ≡ some job
      → Dict.get q.index job.id ≡ some (job, gen)
      → r.1.index ≡ Dict.remove q.index job.id
      → ((id : ℕ) (other : Job) (g : ℕ) → Dict.get q.index id ≡ some (other, g) → Before job other)
      → Popped q r

module _ (e : HeapEntry) (es : List HeapEntry) (index : Dict ℕ (Job × ℕ)) (counter : ℕ)
    (v : Inv (record { heap = e ∷ es; index = index; generation = counter })) where
  abbrev top : HeapEntry
  top = (pop_from e es).0

  abbrev rest : List HeapEntry
  rest = (pop_from e es).1

  -- A stale entry is dropped and nothing else changes.
  stale-Inv :
      live_job index top ≡ none → Inv (record { heap = rest; index = index; generation = counter })
  stale-Inv h = record {
    indexed = λ id job gen k. (
      (v.indexed id job gen k).0,
      elim (pop_from-In e es _ (v.indexed id job gen k).1) [
        | inl p ↦ absurd (
            live_job-none index top job gen h
              (ap (Dict.get index)
                  (ap (λ (x : HeapEntry). x.job_id) (sym p) ∙ (v.indexed id job gen k).0)
                ∙ k)
              (ap (λ (x : HeapEntry). x.generation) p))
        | inr i ↦ i
      ],
    );
    described = λ x job gen i. v.described x job gen (In-pop_from e es x (inr i));
    fresh = λ x i. v.fresh x (In-pop_from e es x (inr i));
  }

  live-Inv :
      (job : Job)
      → live_job index top ≡ some job
      → Inv (record { heap = rest; index = Dict.remove index top.job_id; generation = counter })
  live-Inv job h = record {
    indexed = λ id j gen k.
        let (n, k') = get-remove-some index top.job_id id (j, gen) k in
        (
          (v.indexed id j gen k').0,
          elim (pop_from-In e es _ (v.indexed id j gen k').1) [
            | inl p ↦
                absurd (n (ap (λ (x : HeapEntry). x.job_id) (sym p) ∙ (v.indexed id j gen k').0))
            | inr i ↦ i
          ],
        );
    described = λ x j gen i k.
        v.described x j gen (In-pop_from e es x (inr i)) (get-remove-some index _ _ _ k).1;
    fresh = λ x i. v.fresh x (In-pop_from e es x (inr i));
  }

  top_described : (job : Job) → live_job index top ≡ some job → top ≡ entry_of job top.generation
  top_described job h =
      v.described top job top.generation (In-pop_from e es top (inl refl))
        (live_job-some index top job h) refl

  live-Before :
      (job : Job)
      → live_job index top ≡ some job
      → (id : ℕ) (other : Job) (g : ℕ) → Dict.get index id ≡ some (other, g)
      → Before job other
  live-Before job h id other g k = record { priority = o.priority; run_at = o.run_at }
    where
      o : Outranks (entry_of job top.generation) (entry_of other g)
      o =
          subst (λ t. Outranks t (entry_of other g)) (top_described job h)
            (pop_from-Outranks e es (entry_of other g) (v.indexed id other g k).1)

  live-Popped :
      (job : Job)
      → live_job index top ≡ some job
      → (r : Option Job × Ipq)
      → r ≡ (
        some job,
        record { heap = rest; index = Dict.remove index top.job_id; generation = counter },
      )
      → Popped (record { heap = e ∷ es; index = index; generation = counter }) r
  live-Popped job h r eq =
      let same : top.job_id ≡ job.id = ap (λ (x : HeapEntry). x.job_id) (top_described job h) in
      found job top.generation (ap (λ (x : Option Job × Ipq). x.0) eq)
        (ap (Dict.get index) (sym same) ∙ live_job-some index top job h)
        (ap (λ (x : Option Job × Ipq). x.1.index) eq ∙ ap (Dict.remove index) same)
        (live-Before job h)

empty_heap :
    (index : Dict ℕ (Job × ℕ)) (counter : ℕ)
    → Inv (record { heap = []; index = index; generation = counter })
    → (id : ℕ) → Dict.get index id ≡ none
empty_heap index counter v id = elim (Option-cases (Dict.get index id)) [
  | inl h ↦ h
  | inr ((job, gen), h) ↦ absurd (v.indexed id job gen h).1
]

Popped-of_index :
    (q q' : Ipq) (r : Option Job × Ipq) → q.index ≡ q'.index → Popped q r → Popped q' r
Popped-of_index q q' r p (exhausted n none_left same) =
    exhausted n (λ id. ap (λ i. Dict.get i id) (sym p) ∙ none_left id) (same ∙ p)
Popped-of_index q q' r p (found job gen s here left first) =
    found job gen s (ap (λ i. Dict.get i job.id) (sym p) ∙ here)
      (left ∙ ap (λ i. Dict.remove i job.id) p)
      (λ id other g k. first id other g (ap (λ i. Dict.get i id) p ∙ k))

pop_loop-Popped :
    (fuel : ℕ) (heap : List HeapEntry) (index : Dict ℕ (Job × ℕ)) (counter : ℕ)
    → length heap ≤ fuel
    → Inv (record { heap = heap; index = index; generation = counter })
    → let q : Ipq = record { heap = heap; index = index; generation = counter } in
      Popped q (pop_loop fuel q) × Inv (pop_loop fuel q).1
unfolding pop_loop
pop_loop-Popped zero [] index counter h v = (exhausted refl (empty_heap index counter v) refl, v)
pop_loop-Popped zero (e ∷ es) index counter h v = absurd (omega arith)
pop_loop-Popped (suc fuel) [] index counter h v =
    (exhausted refl (empty_heap index counter v) refl, v)
pop_loop-Popped (suc fuel) (e ∷ es) index counter h v =
    elim (Option-cases (live_job index (pop_from e es).0)) [
      | inl stale ↦
          let (p, w) =
            pop_loop-Popped fuel (pop_from e es).1 index counter
              (omega (arith, length-pop_from e es)) (stale-Inv e es index counter v stale) in
          rw (stale, pop_loop) (Popped-of_index _ _ _ refl p, w)
      | inr (job, live) ↦
          rw (live, pop_loop)
            (
              live-Popped e es index counter v job live _ refl,
              live-Inv e es index counter v job live,
            )
    ]

-- With the invariant, `pop` returns a job that no other comes before and removes it and nothing
-- else from the index, or returns nothing, and then the index is empty; the invariant is kept.
pub pop-Popped : (q : Ipq) → Inv q → Popped q (pop q) × Inv (pop q).1
unfolding pop
pop-Popped q v = pop_loop-Popped (length q.heap) q.heap q.index q.generation (omega arith) v
