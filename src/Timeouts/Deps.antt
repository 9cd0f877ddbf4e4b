-- ===== src/Timeouts/Deps.antt =====
-- What the dependency check does to waiting jobs and to the job index.
use flashq.Prelude.{
  ℕ, zero, suc, ◌+◌, ◌≤◌, ◌<◌, ◌≡◌, ◌≢◌, refl, ap, subst, ◌∙◌, none, some, List, [], ◌∷◌, arith,
  nat_eq, string_eq, nat_beq, contains, Bool-cases, inl, inr, if◌then◌else◌,
}
use flashq.Dict
use flashq.Dict.{Dict}
use flashq.Dict.Unique.{Unique}
use flashq.Protocol.Job.{Job, waiting_children}
use flashq.Result.{err, ok, not_found}
use flashq.Shard.{Shard, waiting_deps}
use flashq.Manager.{Manager, num_shards, write_shard}
use flashq.Push.{all_completed}
use flashq.Query.{get_job, get_job_at, queue_job}
use flashq.Query.Others.{found_in}
use flashq.JobOps.{cancel_at, cancel}
use flashq.Timeouts.{ready_ids, move_ready, check_shard, check_shards, check_dependencies}
use flashq.Timeouts.Moved.{contains-ready_ids, move_ready-waiting, OwnIds}

index-check_shard : (m : Manager) (idx : ℕ) → (check_shard m idx).job_index ≡ m.job_index
unfolding check_shard write_shard
index-check_shard m idx = go (ready_ids m.completed_jobs (m.shards idx).waiting_deps) refl
  where
    go :
        (ids : List ℕ)
        → ready_ids m.completed_jobs (m.shards idx).waiting_deps ≡ ids
        → (check_shard m idx).job_index ≡ m.job_index
    go [] e = rw (e, check_shard) refl
    go (i ∷ is) e = rw (e, check_shard) refl

index-check_shards :
    (m : Manager) (left idx : ℕ) → (check_shards m left idx).job_index ≡ m.job_index
unfolding check_shards
index-check_shards m zero idx = refl
index-check_shards m (suc left) idx =
    index-check_shards (check_shard m idx) left (idx + 1) ∙ index-check_shard m idx

index-check_dependencies : (m : Manager) → (check_dependencies m).job_index ≡ m.job_index
unfolding check_dependencies
index-check_dependencies m = go m.completed_jobs refl
  where
    go :
        (completed : List ℕ)
        → m.completed_jobs ≡ completed
        → (check_dependencies m).job_index ≡ m.job_index
    go [] e = rw (e, check_dependencies) refl
    go (i ∷ is) e = ground (arith, index-check_shards m num_shards 0)

-- A shard after its turn of the check.
abbrev pub checked : List ℕ → Shard → Shard
checked completed s = move_ready s (ready_ids completed s.waiting_deps)

shards-check_shard :
    (m : Manager) (idx i : ℕ)
    → (check_shard m idx).shards i
      ≡ (if nat_beq idx i then checked m.completed_jobs (m.shards idx) else m.shards i)
unfolding check_shard write_shard move_ready
shards-check_shard m idx i = go (ready_ids m.completed_jobs (m.shards idx).waiting_deps) refl
  where
    go :
        (ids : List ℕ)
        → ready_ids m.completed_jobs (m.shards idx).waiting_deps ≡ ids
        → (check_shard m idx).shards i
          ≡ (if nat_beq idx i then checked m.completed_jobs (m.shards idx) else m.shards i)
    go [] e = rw (e, check_shard) (ground (arith, ap m.shards))
    go (k ∷ ks) e = rw (e, check_shard) refl

completed-check_shard :
    (m : Manager) (idx : ℕ) → (check_shard m idx).completed_jobs ≡ m.completed_jobs
unfolding check_shard write_shard
completed-check_shard m idx = go (ready_ids m.completed_jobs (m.shards idx).waiting_deps) refl
  where
    go :
        (ids : List ℕ)
        → ready_ids m.completed_jobs (m.shards idx).waiting_deps ≡ ids
        → (check_shard m idx).completed_jobs ≡ m.completed_jobs
    go [] e = rw (e, check_shard) refl
    go (k ∷ ks) e = rw (e, check_shard) refl

shards-before :
    (m : Manager) (left idx i : ℕ) → i < idx → (check_shards m left idx).shards i ≡ m.shards i
unfolding check_shards
shards-before m zero idx i lt = refl
shards-before m (suc left) idx i lt =
    shards-before (check_shard m idx) left (idx + 1) i (omega (arith, lt))
    ∙ shards-check_shard m idx i
    ∙ ground (arith)

shards-check_shards :
    (m : Manager) (left idx i : ℕ)
    → idx ≤ i
    → i < idx + left
    → (check_shards m left idx).shards i ≡ checked m.completed_jobs (m.shards i)
unfolding check_shards
shards-check_shards m zero idx i le lt = absurd (omega (arith, le, lt))
shards-check_shards m (suc left) idx i le lt = elim (Bool-cases (nat_beq idx i)) [
  | inl same ↦
      let at : idx ≡ i = (nat_eq.test_iff idx i).0 same in
      shards-before (check_shard m idx) left (idx + 1) i (omega (arith, at))
      ∙ shards-check_shard m idx i
      ∙ rw same (ap (λ j. checked m.completed_jobs (m.shards j)) at)
  | inr other ↦
      let apart : idx ≢ i = λ p. ground (arith, (nat_eq.test_iff idx i).1 p) in
      let here : (check_shard m idx).shards i ≡ m.shards i =
        shards-check_shard m idx i ∙ rw other refl in
      shards-check_shards (check_shard m idx) left (idx + 1) i (omega (arith, le, apart))
        (omega (arith, lt))
      ∙ ap (λ c. checked c ((check_shard m idx).shards i)) (completed-check_shard m idx)
      ∙ ap (checked m.completed_jobs) here
]

shards-check_dependencies :
    (m : Manager) (i first : ℕ) (others : List ℕ)
    → m.completed_jobs ≡ first ∷ others
    → i < num_shards
    → (check_dependencies m).shards i ≡ checked m.completed_jobs (m.shards i)
unfolding check_dependencies
shards-check_dependencies m i first others e lt =
    rw (e, check_dependencies)
      (subst (λ c. (check_shards m num_shards 0).shards i ≡ checked c (m.shards i)) e
        (shards-check_shards m num_shards 0 i (omega arith) (omega (arith, lt))))

-- Once some job is completed, the dependency check moves a job that waits in one of the 32 shards, and
-- that the index has there, to its queue exactly if its dependencies are completed. But it leaves the
-- index as it was: `get_job` then does not find the job, which it still reports as waiting for others,
-- and `cancel` answers "not found"; a job that is not ready is found as before, and can be cancelled.
-- This holds where each waiting job of the shard stands there once and under its own id.
pub check_dependencies_loses :
    (m : Manager) (id i t first : ℕ) (job : Job) (others : List ℕ)
    → m.completed_jobs ≡ first ∷ others
    → i < num_shards
    → Dict.get m.job_index id ≡ some (waiting_deps i)
    → Dict.get (m.shards i).waiting_deps id ≡ some job
    → OwnIds (m.shards i)
    → Unique (m.shards i).waiting_deps
    → let after = check_dependencies m in
      let ready = all_completed m.completed_jobs job.depends_on in
      (queue_job after i job.queue id ≡ (if ready then some job else queue_job m i job.queue id))
      × (get_job after id t ≡ (if ready then none else some job, waiting_children))
      × ((cancel after id).1 ≡ (if ready then err (not_found id) else ok tt))
unfolding get_job get_job_at queue_job cancel cancel_at
check_dependencies_loses m id i t first job others c lt e w own u =
    let shard = shards-check_dependencies m i first others c lt in
    let ids = ready_ids m.completed_jobs (m.shards i).waiting_deps in
    let ready : contains ids id ≡ all_completed m.completed_jobs job.depends_on =
      contains-ready_ids m.completed_jobs (m.shards i).waiting_deps id job u w in
    let (waits, queued) = move_ready-waiting (m.shards i) ids id job own w in
    let indexed = ap (λ d. Dict.get d id) (index-check_dependencies m) ∙ e in
    let left = ap (λ (s : Shard). Dict.get s.waiting_deps id) shard ∙ rw ready at waits in
    (
      ap (λ (s : Shard). found_in s job.queue id) shard ∙ rw ready at queued,
      rw (indexed, get_job, get_job_at, left) refl,
      elim (Bool-cases (all_completed m.completed_jobs job.depends_on)) [
        | inl r ↦ rw (indexed, cancel, cancel_at, left, r) refl
        | inr r ↦ rw (indexed, cancel, cancel_at, left, r) refl
      ],
    )
