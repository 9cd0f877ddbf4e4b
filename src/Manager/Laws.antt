-- ===== src/Manager/Laws.antt =====
-- What the processing map and the job index hold after each change.
use flashq.Prelude.{ℕ, ◌≡◌, none, some, arith, nat_eq}
use flashq.Dict
use flashq.Dict.{Dict}
use flashq.Dict.Laws.{get-insert_self, get-remove_self}
use flashq.Protocol.Job.{Job}
use flashq.Shard.{Shard, JobLocation}
use flashq.Manager.{
  Manager, set_at, processing_shard_index, processing_get, processing_insert, processing_drop,
  write_shard, index_job,
}

pub set_at_self {ℓ} : {A : Type ℓ} (f : ℕ → A) (i : ℕ) (v : A) → set_at f i v i ≡ v
set_at_self f i v = ground arith

pub shards-write_shard : (m : Manager) (i : ℕ) (s : Shard) → (write_shard m i s).shards i ≡ s
unfolding write_shard
shards-write_shard m i s = set_at_self m.shards i s

pub processing_get-processing_drop :
    (m : Manager) (id : ℕ) → processing_get (processing_drop m id) id ≡ none
unfolding processing_get processing_drop
processing_get-processing_drop m id =
    rw
      (set_at_self m.processing_shards (processing_shard_index id)
        (Dict.remove (m.processing_shards (processing_shard_index id)) id))
      (get-remove_self (m.processing_shards (processing_shard_index id)) id)

pub processing_get-processing_insert :
    (m : Manager) (job : Job) → processing_get (processing_insert m job) job.id ≡ some job
unfolding processing_get processing_insert
processing_get-processing_insert m job =
    rw
      (set_at_self m.processing_shards (processing_shard_index job.id)
        (Dict.insert (m.processing_shards (processing_shard_index job.id)) job.id job))
      (get-insert_self (m.processing_shards (processing_shard_index job.id)) job.id job)

pub index-index_job :
    (m : Manager) (id : ℕ) (location : JobLocation)
    → Dict.get (index_job m id location).job_index id ≡ some location
unfolding index_job
index-index_job m id location = get-insert_self m.job_index id location
