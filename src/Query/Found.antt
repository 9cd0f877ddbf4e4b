-- ===== src/Query/Found.antt =====
-- How a job is found again after it was put somewhere.
use flashq.Prelude.{
  ℕ, ◌≡◌, refl, sym, ap, ◌∙◌, String, none, some, arith, nat_eq, string_eq, inl, inr, Option-cases,
}
use flashq.Dict
use flashq.Dict.Laws.{get-insert_self}
use flashq.Protocol.Job.{Job, waiting_children, unknown}
use flashq.Ipq
use flashq.Ipq.{Ipq}
use flashq.Shard.{
  Shard, JobLocation, in_queue, processing, dlq, waiting_deps, waiting_parents, done, to_state,
}
use flashq.Manager.{Manager, processing_get}
use flashq.Query.{queue_job, dlq_job, get_job, get_job_at}
use flashq.Push.{enqueue}

pub get-push : (q : Ipq) (job : Job) → Ipq.get (Ipq.push q job) job.id ≡ some job
unfolding Ipq.get Ipq.push
get-push q job = ground (arith, get-insert_self q.index job.id (job, q.generation))

-- An enqueued job is found in its queue.
pub queue_job-enqueue :
    (m : Manager) (i : ℕ) (s : Shard) (queue : String) (job : Job)
    → m.shards i ≡ enqueue s queue job
    → queue_job m i queue job.id ≡ some job
unfolding queue_job enqueue
queue_job-enqueue m i s queue job e = ground (
  arith,
  ap (λ (t : Shard). Dict.get t.queues queue) e,
  get-insert_self s.queues queue (Ipq.push (Dict.get_or s.queues queue Ipq.empty) job),
  get-push (Dict.get_or s.queues queue Ipq.empty) job,
)

pub get_job-in_queue :
    (m : Manager) (id i : ℕ) (queue : String) (job : Job) (t : ℕ)
    → Dict.get m.job_index id ≡ some (in_queue i queue)
    → queue_job m i queue id ≡ some job
    → get_job m id t ≡ (some job, to_state (in_queue i queue) job.run_at t)
unfolding get_job get_job_at
get_job-in_queue m id i queue job t e h = rw (e, get_job, get_job_at, h) refl

pub get_job-waiting_deps :
    (m : Manager) (id i : ℕ) (job : Job) (t : ℕ)
    → Dict.get m.job_index id ≡ some (waiting_deps i)
    → Dict.get (m.shards i).waiting_deps id ≡ some job
    → get_job m id t ≡ (some job, waiting_children)
unfolding get_job get_job_at
get_job-waiting_deps m id i job t e h = rw (e, get_job, get_job_at, h) refl

get_job_at_same :
    (m n : Manager) (id t : ℕ)
    → n.shards ≡ m.shards
    → n.processing_shards ≡ m.processing_shards
    → (location : JobLocation) → get_job_at n id t location ≡ get_job_at m id t location
unfolding get_job_at queue_job dlq_job processing_get
get_job_at_same m n id t s p processing = rw p refl
get_job_at_same m n id t s p (in_queue i queue) = rw s refl
get_job_at_same m n id t s p (dlq i queue) = rw s refl
get_job_at_same m n id t s p (waiting_deps i) = rw s refl
get_job_at_same m n id t s p (waiting_parents i) = rw s refl
get_job_at_same m n id t s p done = refl

pub get_job-none :
    (m : Manager) (id t : ℕ) → Dict.get m.job_index id ≡ none → get_job m id t ≡ (none, unknown)
unfolding get_job
get_job-none m id t e = rw (e, get_job) refl

pub get_job-some :
    (m : Manager) (id t : ℕ) (location : JobLocation)
    → Dict.get m.job_index id ≡ some location
    → get_job m id t ≡ get_job_at m id t location
unfolding get_job
get_job-some m id t location e = rw (e, get_job) refl

-- What `get_job` finds depends on the index, the shards and the processing map only.
pub get_job_same :
    (m n : Manager) (id t : ℕ)
    → n.job_index ≡ m.job_index
    → n.shards ≡ m.shards
    → n.processing_shards ≡ m.processing_shards
    → get_job n id t ≡ get_job m id t
get_job_same m n id t e s p = elim (Option-cases (Dict.get m.job_index id)) [
  | inl g ↦ get_job-none n id t (ap (λ d. Dict.get d id) e ∙ g) ∙ sym (get_job-none m id t g)
  | inr (location, g) ↦
      get_job-some n id t location (ap (λ d. Dict.get d id) e ∙ g)
      ∙ get_job_at_same m n id t s p location
      ∙ sym (get_job-some m id t location g)
]
