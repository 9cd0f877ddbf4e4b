-- ===== src/Ipq/Invariant.antt =====
-- How the index and the heap of the queue belong together.
use flashq.Prelude.{ℕ, ◌<◌, ◌≡◌, sym, ap, ◌∙◌, inl, inr, Bool, some, List, [], ◌∷◌, arith, nat_eq}
use flashq.Dict
use flashq.Dict.{Dict}
use flashq.Dict.Laws.{get-insert-some, get-remove-some}
use flashq.Protocol.Job.{Job}
use flashq.Ipq.{
  Ipq, HeapEntry, entry_of, empty, push, remove, update, clear, retain, remove_ids, removed_ids,
}
use flashq.Ipq.Heap.{In}

-- Each indexed job has its entry in the heap, a live entry describes the job of its id, and the
-- entries are older than the counter.
pub record Inv (q : Ipq) : Type 0 where
  pub indexed :
      (id : ℕ) (job : Job) (gen : ℕ)
      → Dict.get q.index id ≡ some (job, gen)
      → (job.id ≡ id) × In (entry_of job gen) q.heap
  pub described :
      (e : HeapEntry) (job : Job) (gen : ℕ)
      → In e q.heap
      → Dict.get q.index e.job_id ≡ some (job, gen)
      → gen ≡ e.generation
      → e ≡ entry_of job gen
  pub fresh : (e : HeapEntry) → In e q.heap → e.generation < q.generation

pub empty-Inv : Inv empty
unfolding empty Dict.get
empty-Inv = record {
  indexed = λ id job gen h. cc;
  described = λ e job gen h k p. absurd h;
  fresh = λ e h. absurd h;
}

pub push-Inv : (q : Ipq) (job : Job) → Inv q → Inv (push q job)
unfolding push
push-Inv q job v = record {
  indexed = λ id j gen h. elim (get-insert-some q.index job.id id _ _ h) [
    | inl (p, w) ↦ (
      ap (λ (r : Job × ℕ). r.0.id) (sym w) ∙ p,
      inl (ap (λ (r : Job × ℕ). entry_of r.0 r.1) (sym w)),
    )
    | inr (_, k) ↦ ((v.indexed id j gen k).0, inr (v.indexed id j gen k).1)
  ];
  described = λ e j gen h k g. elim (get-insert-some q.index job.id e.job_id _ _ k) [
    | inl (p, w) ↦ elim h [
      | inl x ↦ x ∙ ap (λ (r : Job × ℕ). entry_of r.0 r.1) w
      | inr old ↦ absurd (omega (arith, v.fresh e old, g, ap (λ (r : Job × ℕ). r.1) w))
    ]
    | inr (n, k') ↦ elim h [
      | inl x ↦ absurd (n (ap (λ (y : HeapEntry). y.job_id) (sym x)))
      | inr old ↦ v.described e j gen old k' g
    ]
  ];
  fresh = λ e h. elim h [ inl x ↦ rw x (omega arith) | inr old ↦ omega (arith, v.fresh e old) ];
}

pub remove-Inv : (q : Ipq) (id : ℕ) → Inv q → Inv (remove q id).1
unfolding remove
remove-Inv q id v = record {
  indexed = λ j job gen h. v.indexed j job gen (get-remove-some q.index id j _ h).1;
  described = λ e job gen h k g. v.described e job gen h (get-remove-some q.index id _ _ k).1 g;
  fresh = v.fresh;
}

pub update-Inv : (q : Ipq) (job : Job) → Inv q → Inv (update q job).1
unfolding update
update-Inv q job v = push-Inv (remove q job.id).1 job (remove-Inv q job.id v)

remove_ids-Inv : (q : Ipq) (ids : List ℕ) → Inv q → Inv (remove_ids q ids)
unfolding remove_ids
remove_ids-Inv q [] v = v
remove_ids-Inv q (id ∷ ids) v = remove_ids-Inv (remove q id).1 ids (remove-Inv q id v)

pub retain-Inv : (q : Ipq) (f : Job → Bool) → Inv q → Inv (retain q f)
unfolding retain
retain-Inv q f v = remove_ids-Inv q (removed_ids q.index f) v

pub clear-Inv : (q : Ipq) → Inv (clear q)
unfolding clear Dict.get
clear-Inv q = record {
  indexed = λ id job gen h. cc;
  described = λ e job gen h k p. absurd h;
  fresh = λ e h. absurd h;
}
