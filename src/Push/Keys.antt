-- ===== src/Push/Keys.antt =====
-- The unique key of a pushed job.
use flashq.Prelude.{
  ℕ, ◌≡◌, refl, sym, ap, ◌∙◌, String, Bool, true, false, some, [], arith, nat_eq, string_eq,
  if◌then◌else◌, set_insert, contains-set_insert, beq_refl,
}
use flashq.Dict
use flashq.Dict.Laws.{get-insert_self}
use flashq.Protocol.Job.{Job}
use flashq.Protocol.Builder.{JobInput, unwrap_or}
use flashq.Result.{Result, ok, err, duplicate_key}
use flashq.Shard.{Shard}
use flashq.Manager.{Manager, shard_index, write_shard, index_job}
use flashq.Manager.Laws.{shards-write_shard}
use flashq.Push.{take_unique_key, enqueue, place_job, announce_push, push_job}
use flashq.Push.Stored

kept_key :
    (s t : Shard) (queue k : String)
    → (take_unique_key s queue (some k)).1 ≡ true
    → t.unique_keys ≡ (take_unique_key s queue (some k)).0.unique_keys
    → (take_unique_key t queue (some k)).1 ≡ false
unfolding take_unique_key
kept_key s t queue k free e =
    let held = Dict.get_or s.unique_keys queue [] in
    ground (
      arith,
      ap (λ d. Dict.get d queue) e,
      get-insert_self s.unique_keys queue (set_insert held k),
      contains-set_insert held k k,
      beq_refl k,
    )

keys-place_job :
    (m : Manager) (idx : ℕ) (queue : String) (job : Job) (b : Bool)
    → ((place_job m idx queue job b).shards idx).unique_keys ≡ (m.shards idx).unique_keys
unfolding place_job index_job enqueue
keys-place_job m idx queue job true = ap (λ (s : Shard). s.unique_keys) (shards-write_shard m idx _)
keys-place_job m idx queue job false =
    ap (λ (s : Shard). s.unique_keys) (shards-write_shard m idx _)

-- What the end of `push` leaves alone.
settled_shards :
    (job : Job) (now : ℕ) (b : Bool) (n : Manager) (i : ℕ)
    → ((if b then n else announce_push n i job now).shards ≡ n.shards)
      × ((if b then n else announce_push n i job now).env ≡ n.env)
unfolding announce_push
settled_shards job now true n i = (refl, refl)
settled_shards job now false n i = (ground arith, ground arith)

env-place_job :
    (m : Manager) (idx : ℕ) (queue : String) (job : Job) (b : Bool)
    → (place_job m idx queue job b).env ≡ m.env
unfolding place_job index_job write_shard
env-place_job m idx queue job true = refl
env-place_job m idx queue job false = refl

index_eq :
    (m n : Manager) (queue : String) → n.env ≡ m.env → shard_index n queue ≡ shard_index m queue
unfolding shard_index
index_eq m n queue e = rw e

module _ (m : Manager) (queue : String) (input : JobInput) (job : Job) (now : ℕ) where
  abbrev pushed : Manager
  pushed =
      if Stored.waits m queue input job now
      then Stored.stored m queue input job now
      else announce_push (Stored.stored m queue input job now) (shard_index m queue) job now

  pushed_index : shard_index pushed queue ≡ shard_index m queue
  unfolding write_shard
  pushed_index = index_eq m pushed queue (
      (settled_shards job now (Stored.waits m queue input job now)
        (Stored.stored m queue input job now) (shard_index m queue)).1
      ∙ env-place_job (write_shard m (shard_index m queue) (Stored.key m queue input job now).0)
          (shard_index m queue) queue job (Stored.waits m queue input job now))

  pushed_keys :
      (pushed.shards (shard_index m queue)).unique_keys
      ≡ (Stored.key m queue input job now).0.unique_keys
  pushed_keys =
      let idx = shard_index m queue in
      let waits = Stored.waits m queue input job now in
      let s = (Stored.key m queue input job now).0 in
      ap (λ (f : ℕ → Shard). (f idx).unique_keys)
        (settled_shards job now waits (Stored.stored m queue input job now) idx).0
      ∙ keys-place_job (write_shard m idx s) idx queue job waits
      ∙ ap (λ (t : Shard). t.unique_keys) (shards-write_shard m idx s)

  key_of :
      (k : String)
      → input.unique_key ≡ some k
      → Stored.key m queue input job now
        ≡ take_unique_key (m.shards (shard_index m queue)) queue (some k)
  key_of k u = ap (take_unique_key (m.shards (shard_index m queue)) queue) u

  refused_after :
      (k : String)
      → input.unique_key ≡ some k
      → (Stored.key m queue input job now).1 ≡ true
      → (take_unique_key (pushed.shards (shard_index pushed queue)) queue (some k)).1 ≡ false
  refused_after k u free =
      ap (λ i. (take_unique_key (pushed.shards i) queue (some k)).1) pushed_index
      ∙ kept_key (m.shards (shard_index m queue)) (pushed.shards (shard_index m queue)) queue k
          (sym (ap (λ (r : Shard × Bool). r.1) (key_of k u)) ∙ free)
          (pushed_keys ∙ ap (λ (r : Shard × Bool). r.0.unique_keys) (key_of k u))

-- Once `push_job` has answered with a job under a unique key, another `push_job` right after it, to
-- the same queue and under that key, of whatever job and at whatever time, is refused as a duplicate.
pub push_key_refuses :
    (m : Manager) (queue : String) (input : JobInput) (job : Job) (now : ℕ) (again : JobInput)
    (other : Job) (later : ℕ) (k : String) (answer : Job)
    → input.unique_key ≡ some k
    → again.unique_key ≡ some k
    → (push_job m queue input job now).1 ≡ ok answer
    → (push_job (push_job m queue input job now).0 queue again other later).1
      ≡ err (duplicate_key k)
push_key_refuses m queue input job now again other later k answer u v h =
    let (free, e) = Stored.accepted m queue input job now answer h in
    let n = pushed m queue input job now in
    ap (λ (r : Manager × Result Job). (push_job r.0 queue again other later).1) e
    ∙ Stored.push_job_taken n queue again other later (
        ap (λ key. (take_unique_key (n.shards (shard_index n queue)) queue key).1) v
        ∙ refused_after m queue input job now k u free)
    ∙ ap (λ key. err (duplicate_key (unwrap_or key ""))) v
