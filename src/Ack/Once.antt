-- ===== src/Ack/Once.antt =====
-- engine/src/queue/ack.rs: how often a job is acknowledged.
use flashq.Prelude.{ℕ, ◌≡◌, refl, ◌∙◌, inl, inr, String, Option, none, nat_eq, Option-cases}
use flashq.Protocol.Json.{Value}
use flashq.Protocol.Job.{Job}
use flashq.Result.{err, not_found}
use flashq.Manager.{Manager, processing_get, processing_drop, write_shard}
use flashq.Manager.Laws.{processing_get-processing_drop}
use flashq.Ack.{release_resources, ack, fail}
use flashq.Ack.Keeps.{Keeps-ack_job}

pub processing_get_eq :
    (m n : Manager) (id : ℕ)
    → n.processing_shards ≡ m.processing_shards
    → processing_get n id ≡ processing_get m id
unfolding processing_get
processing_get_eq m n id e = rw e

processing-release_resources :
    (m : Manager) (job : Job) → (release_resources m job).processing_shards ≡ m.processing_shards
unfolding release_resources write_shard
processing-release_resources m job = refl

pub ack_gone :
    (m : Manager) (id : ℕ)
    → processing_get m id ≡ none
    → (result : Option Value) (now : ℕ) → (ack m id result now).1 ≡ err (not_found id)
unfolding ack
ack_gone m id e result now = rw (e, ack) refl

pub fail_gone :
    (m : Manager) (id : ℕ)
    → processing_get m id ≡ none
    → (error : Option String) (now : ℕ) → (fail m id error now).1 ≡ err (not_found id)
unfolding fail
fail_gone m id e error now = rw (e, fail) refl

ack_leaves :
    (m : Manager) (id : ℕ) (result : Option Value) (now : ℕ)
    → processing_get (ack m id result now).0 id ≡ none
unfolding ack
ack_leaves m id result now = elim (Option-cases (processing_get m id)) [
  | inl e ↦ rw (e, ack) e
  | inr (job, e) ↦
      rw (e, ack)
        (processing_get_eq (processing_drop m id) _ id (
            (Keeps-ack_job (processing_drop m id) job result now).processing
            ∙ processing-release_resources (processing_drop m id) job)
          ∙ processing_get-processing_drop m id)
]

-- Once `ack` of a job has returned, whatever it answered, a second `ack` and a `fail` of that job
-- are answered by "not found", with any result, error and time.
pub ack_once :
    (m : Manager) (id : ℕ) (result : Option Value) (now : ℕ) (again : Option Value)
    (error : Option String) (later : ℕ)
    → ((ack (ack m id result now).0 id again later).1 ≡ err (not_found id))
      × ((fail (ack m id result now).0 id error later).1 ≡ err (not_found id))
ack_once m id result now again error later = (
  ack_gone (ack m id result now).0 id (ack_leaves m id result now) again later,
  fail_gone (ack m id result now).0 id (ack_leaves m id result now) error later,
)
