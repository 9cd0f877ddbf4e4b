-- ===== src/Query/Others.antt =====
-- Changes of one job that leave the lookup of another as it is.
use flashq.Prelude.{
  ℕ, ◌≡◌, ◌≢◌, refl, sym, ap, subst, ◌∙◌, String, Option, none, some, arith, nat_eq, nat_beq,
  string_eq, inl, inr, Bool-cases, Option-cases,
}
use flashq.Dict
use flashq.Dict.Laws.{get-insert}
use flashq.Protocol.Job.{Job, waiting_children, waiting_parent}
use flashq.Ipq
use flashq.Ipq.{Ipq}
use flashq.Ipq.Abstract.{get-push}
use flashq.Shard.{
  Shard, JobLocation, in_queue, processing, dlq, waiting_deps, waiting_parents, done,
}
use flashq.Manager.{Manager, write_shard, index_job, processing_get}
use flashq.Push.{enqueue}
use flashq.Query.{get_job, get_job_at, find_job, queue_job, dlq_job}
use flashq.Query.Found.{get_job-some, get_job-none}

abbrev pub found_in : Shard → String → ℕ → Option Job
found_in s queue id = elim (Dict.get s.queues queue) [ none ↦ none | some heap ↦ Ipq.get heap id ]

get-empty : (id : ℕ) → Ipq.get Ipq.empty id ≡ none
unfolding Ipq.get Ipq.empty Dict.get
get-empty id = refl

pub found_in-enqueue :
    (s : Shard) (queue other_queue : String) (job : Job) (id : ℕ)
    → job.id ≢ id
    → found_in (enqueue s queue job) other_queue id ≡ found_in s other_queue id
unfolding enqueue
found_in-enqueue s queue other_queue job id other = elim (Option-cases (Dict.get s.queues queue)) [
  | inl e ↦ ground (
    arith,
    get-insert s.queues queue other_queue (Ipq.push (Dict.get_or s.queues queue Ipq.empty) job),
    get-push Ipq.empty job id,
    get-empty id,
    string_eq.test_iff queue other_queue,
  )
  | inr (heap, e) ↦ ground (
    arith,
    get-insert s.queues queue other_queue (Ipq.push (Dict.get_or s.queues queue Ipq.empty) job),
    get-push heap job id,
    string_eq.test_iff queue other_queue,
  )
]

-- The two shards hold the same under the id.
pub record Agrees (id : ℕ) (a b : Shard) : Type 0 where
  pub queued : (queue : String) → found_in a queue id ≡ found_in b queue id
  pub dead : a.dlq ≡ b.dlq
  pub deps : Dict.get a.waiting_deps id ≡ Dict.get b.waiting_deps id
  pub parents : a.waiting_children ≡ b.waiting_children

pub enqueue-Agrees :
    (s : Shard) (queue : String) (job : Job) (id : ℕ)
    → job.id ≢ id
    → Agrees id (enqueue s queue job) s
unfolding enqueue
enqueue-Agrees s queue job id n = record {
  queued = λ q. found_in-enqueue s queue q job id n;
  dead = refl;
  deps = refl;
  parents = refl;
}

pub insert_dep-Agrees :
    (s : Shard) (job : Job) (id : ℕ)
    → job.id ≢ id
    → Agrees id (record s { waiting_deps = Dict.insert s.waiting_deps job.id job }) s
insert_dep-Agrees s job id n = record {
  queued = λ q. refl;
  dead = refl;
  deps = get-insert s.waiting_deps job.id id job ∙ ground (arith);
  parents = refl;
}

queue_job_eq :
    (m n : Manager) (i : ℕ) (queue : String) (id : ℕ)
    → found_in (n.shards i) queue id ≡ found_in (m.shards i) queue id
    → queue_job n i queue id ≡ queue_job m i queue id
unfolding queue_job
queue_job_eq m n i queue id e = e

dlq_job_eq :
    (m n : Manager) (i : ℕ) (queue : String) (id : ℕ)
    → (n.shards i).dlq ≡ (m.shards i).dlq
    → dlq_job n i queue id ≡ dlq_job m i queue id
unfolding dlq_job
dlq_job_eq m n i queue id e =
    ap (λ d. elim (Dict.get d queue) [ none ↦ none | some jobs ↦ find_job jobs id ]) e

get_job_at-Agrees :
    (m n : Manager) (id t : ℕ)
    → ((i : ℕ) → Agrees id (n.shards i) (m.shards i))
    → n.processing_shards ≡ m.processing_shards
    → (location : JobLocation) → get_job_at n id t location ≡ get_job_at m id t location
unfolding get_job_at processing_get
get_job_at-Agrees m n id t a p (in_queue i queue) =
    rw (queue_job_eq m n i queue id ((a i).queued queue), get_job_at) refl
get_job_at-Agrees m n id t a p processing = rw p refl
get_job_at-Agrees m n id t a p (dlq i queue) =
    rw (dlq_job_eq m n i queue id (a i).dead, get_job_at) refl
get_job_at-Agrees m n id t a p (waiting_deps i) =
    ap (λ (o : Option Job). (o, waiting_children)) (a i).deps
get_job_at-Agrees m n id t a p (waiting_parents i) =
    ap (λ d. (Dict.get d id, waiting_parent)) (a i).parents
get_job_at-Agrees m n id t a p done = refl

-- What is indexed and stored of one job does not change what is found of another.
pub get_job-other :
    (m : Manager) (id other t idx : ℕ) (location : JobLocation) (s : Shard)
    → other ≢ id
    → Agrees id s (m.shards idx)
    → get_job (index_job (write_shard m idx s) other location) id t ≡ get_job m id t
unfolding index_job write_shard
get_job-other m id other t idx location s n a =
    let after = index_job (write_shard m idx s) other location in
    let index : Dict.get after.job_index id ≡ Dict.get m.job_index id =
      get-insert m.job_index other id location ∙ ground (arith) in
    let shards : (i : ℕ) → Agrees id (after.shards i) (m.shards i) = λ i.
      elim (Bool-cases (nat_beq idx i)) [
        | inr apart ↦
            rw apart (record { queued = λ q. refl; dead = refl; deps = refl; parents = refl })
        | inl same ↦ rw same (subst (λ j. Agrees id s (m.shards j)) (ground (arith)) a)
      ] in
    elim (Option-cases (Dict.get m.job_index id)) [
      | inl e ↦ get_job-none after id t (index ∙ e) ∙ sym (get_job-none m id t e)
      | inr (l, e) ↦
          get_job-some after id t l (index ∙ e)
          ∙ get_job_at-Agrees m after id t shards refl l
          ∙ sym (get_job-some m id t l e)
    ]
