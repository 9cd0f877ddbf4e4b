-- ===== src/Recover/Restored.antt =====
-- engine/src/queue/manager.rs: which jobs are back after a restart.
use flashq.Prelude.{
  ℕ, ◌≡◌, String, Bool, ◌||◌, Option, none, some, List, nat_eq, string_eq, All, ◌==◌,
}
use flashq.Dict
use flashq.Protocol.Job.{Job}
use flashq.Shard.{Shard, in_queue}
use flashq.Manager.{Manager}
use flashq.Query.Others.{found_in}

-- The job is indexed in a queue of its name, and is there.
abbrev Waits : Manager → Job → Type 0
Waits m job =
    (i : ℕ) × (Dict.get m.job_index job.id ≡ some (in_queue i job.queue))
    × (found_in (m.shards i) job.queue job.id ≡ some job)

abbrev is_queued : String → Bool
is_queued state = (state == "waiting") || ((state == "delayed") || (state == "active"))

abbrev AllLoaded {ℓ} : {A : Type ℓ} → (A → Type 0) → Option (List A) → Type 0
AllLoaded Q none = Unit
AllLoaded Q (some xs) = All Q xs
