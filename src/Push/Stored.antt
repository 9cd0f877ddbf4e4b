-- ===== src/Push/Stored.antt =====
-- What `push` answers once the job is made, and where the job is then.
use flashq.Prelude.{
  ℕ, ◌≡◌, refl, ap, ◌∙◌, String, Bool, true, false, not, none, some, arith, nat_eq, string_eq,
  if◌then◌else◌, Bool-cases, Option-cases, inl, inr,
}
use flashq.Protocol.Job.{Job}
use flashq.Protocol.Builder.{JobInput, unwrap_or}
use flashq.Result.{Result, ok, err, duplicate_key, storage_failed}
use flashq.Shard.{Shard}
use flashq.Manager.{Manager, shard_index, write_shard, emit, persist_push}
use flashq.Query.{get_job}
use flashq.Query.Found.{get_job_same}
use flashq.Push.{all_completed, take_unique_key, place_job, sync_error, announce_push, push_job}
use flashq.Push.Placed.{place_job-found}

module _ (m : Manager) (queue : String) (input : JobInput) (job : Job) (now : ℕ) where
  abbrev pub idx : ℕ
  idx = shard_index m queue

  abbrev pub key : Shard × Bool
  key = take_unique_key (m.shards idx) queue input.unique_key

  abbrev pub waits : Bool
  waits = not (all_completed m.completed_jobs job.depends_on)

  abbrev pub state : String
  state = if waits then "waiting_children" else "waiting"

  abbrev pub placed : Manager
  placed = place_job (write_shard m idx key.0) idx queue job waits

  abbrev pub stored : Manager
  stored = emit placed (persist_push job state)

  pub push_job_taken :
      key.1 ≡ false
      → (push_job m queue input job now).1 ≡ err (duplicate_key (unwrap_or input.unique_key ""))
  unfolding push_job
  push_job_taken h = rw (h, push_job) refl

  pub push_job_failed :
      (e : String)
      → key.1 ≡ true
      → sync_error m job state ≡ some e
      → (push_job m queue input job now).1 ≡ err (storage_failed e)
  unfolding push_job
  push_job_failed e h g = rw (h, push_job) (rw g refl)

  pub push_job-stored :
      key.1 ≡ true
      → sync_error m job state ≡ none
      → push_job m queue input job now
        ≡ ((if waits then stored else announce_push stored idx job now), ok job)
  unfolding push_job
  push_job-stored h g = rw (h, push_job) (rw g refl)

  -- An answer with a job means that the key was free and the job is stored.
  pub accepted :
      (answer : Job)
      → (push_job m queue input job now).1 ≡ ok answer
      → (key.1 ≡ true)
        × (push_job m queue input job now
            ≡ ((if waits then stored else announce_push stored idx job now), ok job))
  accepted answer h = elim (Bool-cases key.1) [
    | inr taken ↦ cc (push_job_taken taken)
    | inl free ↦ elim (Option-cases (sync_error m job state)) [
      | inr (e, failed) ↦ cc (push_job_failed e free failed)
      | inl fine ↦ (free, push_job-stored free fine)
    ]
  ]

  announced_same :
      (n : Manager) (i t : ℕ) → get_job (announce_push n i job now) job.id t ≡ get_job n job.id t
  unfolding announce_push
  announced_same n i t =
      get_job_same n (announce_push n i job now) job.id t (ground arith) (ground arith)
        (ground arith)

  settled_same :
      (b : Bool) (n : Manager) (i t : ℕ)
      → get_job (if b then n else announce_push n i job now) job.id t ≡ get_job n job.id t
  settled_same true n i t = refl
  settled_same false n i t = announced_same n i t

  -- Where `push_job` answers with a job, it is the one that was made, and `get_job`
  -- finds it in the state left, at any time.
  pub push_job_found :
      (answer : Job) (later : ℕ)
      → (push_job m queue input job now).1 ≡ ok answer
      → (answer ≡ job) × ((get_job (push_job m queue input job now).0 job.id later).0 ≡ some job)
  push_job_found answer later h =
      let (free, e) = accepted answer h in
      (
        cc e,
        ap (λ (r : Manager × Result Job). (get_job r.0 job.id later).0) e
            ∙ ap (λ r. r.0) (settled_same waits stored idx later)
            ∙ ap (λ r. r.0) (get_job_same placed stored job.id later refl refl refl)
            ∙ place_job-found (write_shard m idx key.0) idx queue job waits later,
      )
