-- ===== src/Query/Agree.antt =====
-- The two lookups of a job's state.
use flashq.Prelude.{ℕ, ◌≡◌, refl, inl, inr, some, arith, nat_eq, string_eq, Option-cases}
use flashq.Dict
use flashq.Protocol.Job.{Job}
use flashq.Shard.{
  JobLocation, in_queue, processing, dlq, waiting_deps, waiting_parents, done, to_state,
}
use flashq.Manager.{Manager}
use flashq.Query.{get_job_at, get_job, get_state_at, get_state}

agree_at :
    (m : Manager) (id t : ℕ) (job : Job) (location : JobLocation)
    → (get_job_at m id t location).0 ≡ some job
    → get_state_at m id t location ≡ (get_job_at m id t location).1
unfolding get_job_at get_state_at to_state
agree_at m id t job processing h = ground arith
agree_at m id t job (in_queue i queue) h = ground arith
agree_at m id t job (dlq i queue) h = ground arith
agree_at m id t job (waiting_deps i) h = refl
agree_at m id t job (waiting_parents i) h = refl
agree_at m id t job done h = refl

-- Wherever `get_job` finds a job, `get_state` answers with the state that `get_job` gives.
pub get_state_agrees :
    (m : Manager) (id t : ℕ) (job : Job)
    → (get_job m id t).0 ≡ some job
    → get_state m id t ≡ (get_job m id t).1
unfolding get_job get_state
get_state_agrees m id t job h = elim (Option-cases (Dict.get m.job_index id)) [
  | inl e ↦ rw (e, get_job, get_state) refl
  | inr (location, e) ↦
      rw (e, get_job, get_state) (agree_at m id t job location (rw (e, get_job) at h))
]
