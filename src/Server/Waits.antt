-- ===== src/Server/Waits.antt =====
-- The two commands of engine/src/server/handler/commands.rs that wait: their loops try at `now` and
-- at the times `wakes` that fall before their timeout.
use flashq.Prelude.{ℕ, String, Option, List, [], ◌∷◌, ◌+◌, filter, ltb}
use flashq.Protocol.Builder.{unwrap_or}
use flashq.Manager.{Manager}
use flashq.Pull.{pulled, pull, pull_batch}
use flashq.Server.Response.{Response, job_response, jobs_response, null_job_response}

-- The loop of `pull`, for the times at which it tries.
unfoldable pub pull_until : Manager → String → List ℕ → Manager × Response
unfolding pull
pull_until m queue [] = (m, null_job_response)
pull_until m queue (now ∷ times) =
    let (tried, result) = pull m queue now in
    let rest = pull_until tried queue times in
    elim result [ pulled job ↦ (tried, job_response job) | _ ↦ rest ]

-- The loop of `pull_batch`, likewise.
unfoldable pub pull_batch_until : Manager → String → ℕ → List ℕ → Manager × Response
unfolding pull_batch
pull_batch_until m queue most [] = (m, jobs_response [])
pull_batch_until m queue most (now ∷ times) =
    let (tried, found) = pull_batch m queue most now in
    let rest = pull_batch_until tried queue most times in
    elim found [ [] ↦ rest | job ∷ jobs ↦ (tried, jobs_response (job ∷ jobs)) ]

-- The tries before the deadline, which is 60 seconds away where no timeout is given.
abbrev pub tries : ℕ → List ℕ → Option ℕ → List ℕ
tries now wakes timeout = now ∷ filter (λ t. ltb t (now + unwrap_or timeout 60000)) wakes
