-- ===== src/Reports/Counts.antt =====
-- engine/src/queue/queue_control.rs: the counts by state and the total.
use mathlib.Core.List.{map}
use flashq.Prelude.{
  ℕ, suc, ◌+◌, ◌≡◌, refl, ap, ◌∙◌, String, Bool, not, Option, none, some, List, [], ◌∷◌, arith,
  length, string_eq,
}
use flashq.Dict
use flashq.Protocol.Job.{Job}
use flashq.Ipq
use flashq.Ipq.{Ipq}
use flashq.Manager.{Manager, shard_index}
use flashq.Control.{count}
use flashq.Reports.{count_if, queued_jobs, is_delayed, get_job_counts}

count_if-not {ℓ} :
    {A : Type ℓ} (p : A → Bool) (xs : List A)
    → count_if (λ x. not (p x)) xs + count_if p xs ≡ length xs
unfolding count_if
count_if-not p [] = omega arith
count_if-not p (x ∷ xs) = ground (arith, count_if-not p xs)

length-map {ℓ κ} :
    {A : Type ℓ} {B : Type κ} (f : A → B) (xs : List A) → length (map f xs) ≡ length xs
length-map f [] = refl
length-map f (x ∷ xs) = ap suc (length-map f xs)

length_of_queued :
    (o : Option Ipq)
    → length (elim o [ none ↦ [] | some heap ↦ Ipq.jobs heap ])
      ≡ (elim o [ none ↦ 0 | some heap ↦ Ipq.len heap ])
unfolding Ipq.len Ipq.jobs
length_of_queued none = refl
length_of_queued (some heap) = length-map (λ (x : ℕ × (Job × ℕ)). x.1.0) heap.index

queued_length :
    (m : Manager) (queue : String)
    → length (queued_jobs (m.shards (shard_index m queue)) queue) ≡ count m queue
unfolding count
queued_length m queue = length_of_queued (Dict.get (m.shards (shard_index m queue)).queues queue)

-- At any time, the waiting and the delayed jobs that `get_job_counts` reports of a queue are together
-- as many as `count` says.
counts_agree :
    (m : Manager) (queue : String) (now : ℕ)
    → (get_job_counts m queue now).waiting + (get_job_counts m queue now).delayed ≡ count m queue
unfolding get_job_counts
counts_agree m queue now =
    count_if-not (is_delayed now) (queued_jobs (m.shards (shard_index m queue)) queue)
    ∙ queued_length m queue
