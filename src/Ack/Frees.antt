-- ===== src/Ack/Frees.antt =====
-- What `ack` gives back: the concurrency slot, the group and the unique key.
use flashq.Prelude.{
  ℕ, ◌≡◌, refl, sym, ap, ◌∙◌, subst, inl, inr, String, true, false, Option, none, some, [], arith,
  nat_eq, string_eq, beq_refl, Option-cases, contains, set_remove, contains-set_remove,
}
use flashq.Dict
use flashq.Dict.Laws.{get-insert_self}
use flashq.Protocol.Json.{Value}
use flashq.Protocol.Job.{Job}
use flashq.Result.{ok}
use flashq.Shard.{
  Shard, state_of, release_state, release_concurrency, release_group, remove_unique_key,
  release_job_resources,
}
use flashq.Shard.Laws.{state_of_eq, state_of-release_concurrency}
use flashq.Manager.{Manager, shard_index, processing_get, processing_drop}
use flashq.Manager.Laws.{shards-write_shard}
use flashq.Push.{take_unique_key}
use flashq.Pull.{in_group, groups_of}
use flashq.Ack.{release_resources, ack}
use flashq.Ack.Keeps.{SameHolds, Keeps-ack_job}

pub states-release_group :
    (s : Shard) (queue : String) (gid : Option String)
    → (release_group s queue gid).queue_state ≡ s.queue_state
unfolding release_group
states-release_group s queue none = refl
states-release_group s queue (some g) = ground arith

states-remove_unique_key :
    (s : Shard) (queue : String) (key : Option String)
    → (remove_unique_key s queue key).queue_state ≡ s.queue_state
unfolding remove_unique_key
states-remove_unique_key s queue none = refl
states-remove_unique_key s queue (some k) = ground arith

groups-remove_unique_key :
    (s : Shard) (queue : String) (key : Option String)
    → (remove_unique_key s queue key).active_groups ≡ s.active_groups
unfolding remove_unique_key
groups-remove_unique_key s queue none = refl
groups-remove_unique_key s queue (some k) = ground arith

pub idle-release_group :
    (s : Shard) (queue : String) (gid : Option String)
    → in_group (groups_of (release_group s queue gid) queue) gid ≡ false
unfolding release_group contains
idle-release_group s queue none = refl
idle-release_group s queue (some g) = elim (Option-cases (Dict.get s.active_groups queue)) [
  | inl e ↦ rw (e, release_group) (rw (e, Dict.get_or) refl)
  | inr (gs, e) ↦
      rw (e, release_group)
        (rw (get-insert_self s.active_groups queue (set_remove gs g), Dict.get_or)
          (simp (contains-set_remove, beq_refl)))
]

free-remove_unique_key :
    (s : Shard) (queue : String) (key : Option String)
    → (take_unique_key (remove_unique_key s queue key) queue key).1 ≡ true
unfolding remove_unique_key take_unique_key contains
free-remove_unique_key s queue none = refl
free-remove_unique_key s queue (some k) = elim (Option-cases (Dict.get s.unique_keys queue)) [
  | inl e ↦ rw (e, remove_unique_key) (rw (e, Dict.get_or) refl)
  | inr (ks, e) ↦
      rw (e, remove_unique_key)
        (rw (get-insert_self s.unique_keys queue (set_remove ks k), Dict.get_or)
          (simp (contains-set_remove, beq_refl)))
]

-- What the release leaves in the shard of the job's queue.
record Freed (s t : Shard) (job : Job) : Type 0 where
  slot : state_of t job.queue ≡ release_state (state_of s job.queue)
  group : in_group (groups_of t job.queue) job.group_id ≡ false
  key : (take_unique_key t job.queue job.unique_key).1 ≡ true

Freed-release :
    (s : Shard) (job : Job)
    → Freed s (release_job_resources s job.queue job.unique_key job.group_id) job
unfolding release_job_resources
Freed-release s job =
    let a = release_concurrency s job.queue in
    let b = release_group a job.queue job.group_id in
    record {
      slot =
          state_of_eq b (remove_unique_key b job.queue job.unique_key) job.queue
            (states-remove_unique_key b job.queue job.unique_key)
          ∙ state_of_eq a b job.queue (states-release_group a job.queue job.group_id)
          ∙ state_of-release_concurrency s job.queue;
      group =
          ap (λ d. in_group (Dict.get_or d job.queue []) job.group_id)
            (groups-remove_unique_key b job.queue job.unique_key)
          ∙ idle-release_group a job.queue job.group_id;
      key = free-remove_unique_key b job.queue job.unique_key;
    }

-- Whether a key is free depends on the shard's keys only.
free_eq :
    (s t : Shard) (queue : String) (key : Option String)
    → t.unique_keys ≡ s.unique_keys
    → (take_unique_key t queue key).1 ≡ (take_unique_key s queue key).1
unfolding take_unique_key
free_eq s t queue none e = refl
free_eq s t queue (some k) e = rw e

Freed-of_holds : (s t u : Shard) (job : Job) → Freed s t job → SameHolds u t → Freed s u job
Freed-of_holds s t u job f v = record {
  slot = state_of_eq t u job.queue v.states ∙ f.slot;
  group = ap (λ d. in_group (Dict.get_or d job.queue []) job.group_id) v.groups ∙ f.group;
  key = free_eq t u job.queue job.unique_key v.keys ∙ f.key;
}

shard-release_resources :
    (m : Manager) (job : Job)
    → Freed
        (m.shards (shard_index m job.queue))
        ((release_resources m job).shards (shard_index m job.queue))
        job
unfolding release_resources
shard-release_resources m job =
    let idx = shard_index m job.queue in
    subst (λ t. Freed (m.shards idx) t job) (sym (shards-write_shard m idx _))
      (Freed-release (m.shards idx) job)

-- An `ack` of a job that is processing succeeds, and in the shard of its queue one slot of the
-- concurrency limit is given back, the job's group is idle, and its unique key can be taken again.
pub ack_frees :
    (m : Manager) (id : ℕ) (job : Job) (result : Option Value) (now : ℕ)
    → processing_get m id ≡ some job
    → let s = m.shards (shard_index m job.queue) in
      let t = (ack m id result now).0.shards (shard_index m job.queue) in
      ((ack m id result now).1 ≡ ok tt)
      × (state_of t job.queue ≡ release_state (state_of s job.queue))
      × (in_group (groups_of t job.queue) job.group_id ≡ false)
      × ((take_unique_key t job.queue job.unique_key).1 ≡ true)
unfolding processing_drop ack shard_index
ack_frees m id job result now e =
    let n = processing_drop m id in
    let f =
      Freed-of_holds (n.shards (shard_index n job.queue)) _ _ job (shard-release_resources n job)
        ((Keeps-ack_job n job result now).holds (shard_index n job.queue)) in
    rw (e, ack) (refl, f.slot, f.group, f.key)
