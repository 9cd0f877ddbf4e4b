-- ===== src/Ack/Batch/Wrong.antt =====
-- engine/src/queue/ack.rs: what `ack_batch` releases where a shard holds several queues.
use flashq.Prelude.{
  some_injective, ℕ, ◌≡◌, ◌≢◌, refl, sym, ap, ◌∙◌, String, Option, none, some, List, [], ◌∷◌, ◌++◌,
  arith, nat_eq, nat_beq, string_eq, Bool-cases, Option-cases, inl, inr, All, ◌==◌,
}
use flashq.Dict
use flashq.Dict.{Dict}
use flashq.Dict.Laws.{get-insert, get-insert_self}
use flashq.Protocol.Job.{Job}
use flashq.Shard.{
  Shard, state_of, set_state, release_concurrency, release_group, remove_unique_key, release_state,
}
use flashq.Shard.Laws.{state_of_eq}
use flashq.Manager.{
  Manager, shard_index, write_shard, processing_get, processing_drop, index_job, unindex_job, emit,
  persist_ack_batch, persist_delete_batch,
}
use flashq.Ack.Batch.{
  Resources, Collected, add_resources, collect, collect_all, release_each, release_groups,
  remove_keys, release_shard, release_all, remove_all, insert_all, persist_ids, ack_batch,
}

state_of-release_concurrency_other :
    (s : Shard) (queue other : String)
    → queue ≢ other
    → state_of (release_concurrency s queue) other ≡ state_of s other
unfolding release_concurrency set_state state_of
state_of-release_concurrency_other s queue other n = ground (
  arith,
  get-insert s.queue_state queue other (release_state (state_of s queue)),
  string_eq.test_iff queue other,
)

state_of-release_each :
    (s : Shard) (queue other : String) (keys : List (Option String))
    → queue ≢ other
    → state_of (release_each s queue keys) other ≡ state_of s other
unfolding release_each
state_of-release_each s queue other [] n = refl
state_of-release_each s queue other (_ ∷ keys) n =
    state_of-release_each (release_concurrency s queue) queue other keys n
    ∙ state_of-release_concurrency_other s queue other n

states-release_groups :
    (s : Shard) (queue : String) (gids : List (Option String))
    → (release_groups s queue gids).queue_state ≡ s.queue_state
unfolding release_groups release_group
states-release_groups s queue [] = refl
states-release_groups s queue (none ∷ gids) = states-release_groups s queue gids
states-release_groups s queue (some g ∷ gids) =
    states-release_groups (release_group s queue (some g)) queue gids ∙ ground (arith)

states-remove_keys :
    (s : Shard) (queue : String) (keys : List (Option String))
    → (remove_keys s queue keys).queue_state ≡ s.queue_state
unfolding remove_keys remove_unique_key
states-remove_keys s queue [] = refl
states-remove_keys s queue (none ∷ keys) = states-remove_keys s queue keys
states-remove_keys s queue (some k ∷ keys) =
    states-remove_keys (remove_unique_key s queue (some k)) queue keys ∙ ground (arith)

state_of-release_shard :
    (s : Shard) (r : Resources) (other : String)
    → r.queue ≢ other
    → state_of (release_shard s r) other ≡ state_of s other
unfolding release_shard
state_of-release_shard s r other n =
    let a = release_each s r.queue r.keys in
    let b = release_groups a r.queue r.groups in
    state_of_eq b (remove_keys b r.queue r.keys) other (states-remove_keys b r.queue r.keys)
    ∙ state_of_eq a b other (states-release_groups a r.queue r.groups)
    ∙ state_of-release_each s r.queue other r.keys n

-- The entries of the shard name the queue.
abbrev Names : ℕ → String → Dict ℕ Resources → Type 0
Names idx queue = All (λ (e : ℕ × Resources). e.0 ≡ idx → e.1.queue ≡ queue)

Names-insert :
    (idx : ℕ) (queue : String) (d : Dict ℕ Resources) (i : ℕ) (r : Resources)
    → Names idx queue d
    → (i ≡ idx → r.queue ≡ queue)
    → Names idx queue (Dict.insert d i r)
unfolding Dict.insert
Names-insert idx queue [] i r h k = (k, tt)
Names-insert idx queue ((j, v) ∷ d) i r h k = elim (Bool-cases (j == i)) [
  | inl same ↦ rw same (k, h.1)
  | inr apart ↦ rw apart (h.0, Names-insert idx queue d i r h.1 k)
]

Names-get :
    (idx : ℕ) (queue : String) (d : Dict ℕ Resources) (r : Resources)
    → Names idx queue d
    → Dict.get d idx ≡ some r
    → r.queue ≡ queue
unfolding Dict.get
Names-get idx queue [] r h e = absurd (ground (arith))
Names-get idx queue ((j, v) ∷ d) r h e = elim (Bool-cases (j == idx)) [
  | inl same ↦
      let at : v ≡ r = some_injective (ground (arith)) in
      ap (λ (x : Resources). x.queue) (sym at) ∙ h.0 ((nat_eq.test_iff j idx).0 same)
  | inr apart ↦ Names-get idx queue d r h.1 (ground (arith))
]

-- What holds once the shard has its entry.
record Holds (idx : ℕ) (queue : String) (m : Manager) (c : Collected) : Type 0 where
  names : Names idx queue c.resources
  entered : (r : Resources) × (Dict.get c.resources idx ≡ some r)
  shards : c.manager.shards ≡ m.shards

get_or-some :
    (d : Dict ℕ Resources) (i : ℕ) (r fallback : Resources)
    → Dict.get d i ≡ some r
    → Dict.get_or d i fallback ≡ r
get_or-some d i r fallback e = ap (λ o. elim o [ none ↦ fallback | some w ↦ w ]) e

add_resources-Names :
    (idx : ℕ) (queue : String) (d : Dict ℕ Resources) (i : ℕ) (job : Job)
    → Names idx queue d
    → (r : Resources) × (Dict.get d idx ≡ some r)
    → Names idx queue (add_resources d i job)
      × ((r : Resources) × (Dict.get (add_resources d i job) idx ≡ some r))
unfolding add_resources
add_resources-Names idx queue d i job h (r, e) =
    let fallback : Resources = record { queue = job.queue; keys = []; groups = [] } in
    let entry = Dict.get_or d i fallback in
    let next : Resources = record entry {
      keys = entry.keys ++ job.unique_key ∷ [];
      groups = entry.groups ++ job.group_id ∷ [];
    } in
    (
      Names-insert idx queue d i next h (λ p.
          ap (λ (x : Resources). x.queue) (get_or-some d i r fallback (ap (Dict.get d) p ∙ e))
          ∙ Names-get idx queue d r h e),
      elim (Bool-cases (i == idx)) [
        | inl same ↦ (next, get-insert d i idx next ∙ rw same refl)
        | inr apart ↦ (r, get-insert d i idx next ∙ rw apart e)
      ],
    )

collect-Holds :
    (idx : ℕ) (queue : String) (m : Manager) (c : Collected) (id : ℕ)
    → Holds idx queue m c
    → Holds idx queue m (collect c id)
unfolding collect processing_drop index_job unindex_job
collect-Holds idx queue m c id v = elim (Option-cases (processing_get c.manager id)) [
  | inl e ↦ rw (e, collect) v
  | inr (job, e) ↦
      let (names, entered) =
        add_resources-Names idx queue c.resources
          (shard_index (processing_drop c.manager id) job.queue) job v.names v.entered in
      elim (Bool-cases job.remove_on_complete) [
        | inl gone ↦
            rw (e, collect)
              (rw gone (record { names = names; entered = entered; shards = v.shards }))
        | inr kept ↦
            rw (e, collect)
              (rw kept (record { names = names; entered = entered; shards = v.shards }))
      ]
]

collect_all-Holds :
    (idx : ℕ) (queue : String) (m : Manager) (c : Collected) (ids : List ℕ)
    → Holds idx queue m c
    → Holds idx queue m (collect_all c ids)
unfolding collect_all
collect_all-Holds idx queue m c [] v = v
collect_all-Holds idx queue m c (id ∷ ids) v =
    collect_all-Holds idx queue m (collect c id) ids (collect-Holds idx queue m c id v)

release_all-other :
    (idx : ℕ) (queue other : String) (m : Manager) (d : Dict ℕ Resources)
    → Names idx queue d
    → queue ≢ other
    → state_of ((release_all m d).shards idx) other ≡ state_of (m.shards idx) other
unfolding release_all write_shard
release_all-other idx queue other m [] h n = refl
release_all-other idx queue other m ((i, r) ∷ d) h n =
    release_all-other idx queue other (write_shard m i (release_shard (m.shards i) r)) d h.1 n
    ∙ elim (Bool-cases (nat_beq i idx)) [
      | inr apart ↦ rw apart refl
      | inl same ↦
          let at : i ≡ idx = ground (arith) in
          rw same (
            ap (λ j. state_of (release_shard (m.shards j) r) other) at
            ∙ state_of-release_shard (m.shards idx) r other (λ p. n (sym (h.0 at) ∙ p)))
    ]

shards-persist_ids :
    (m : Manager) (f : List ℕ → Manager) (ids : List ℕ)
    → ((l : List ℕ) → (f l).shards ≡ m.shards)
    → (persist_ids m f ids).shards ≡ m.shards
shards-persist_ids m f [] h = refl
shards-persist_ids m f (id ∷ ids) h = h (id ∷ ids)

shards-ack_batch :
    (m : Manager) (ids : List ℕ)
    → let c =
        collect_all
          (record { manager = m; resources = []; removed = []; completed = []; acked = 0 })
          ids in
      (ack_batch m ids).0.shards ≡ (release_all c.manager c.resources).shards
unfolding ack_batch
shards-ack_batch m ids =
    let c =
      collect_all (record { manager = m; resources = []; removed = []; completed = []; acked = 0 })
        ids in
    let released = release_all c.manager c.resources in
    let cleaned = record released {
      job_logs = remove_all released.job_logs c.removed;
      stalled_count = remove_all released.stalled_count c.removed;
      completed_jobs = insert_all released.completed_jobs c.completed;
    } in
    let acks = persist_ids cleaned (λ l. emit cleaned (persist_ack_batch l)) c.completed in
    shards-persist_ids acks (λ l. emit acks (persist_delete_batch l)) c.removed (λ l. refl)
    ∙ shards-persist_ids cleaned (λ l. emit cleaned (persist_ack_batch l)) c.completed (λ l. refl)

abbrev fresh : Manager → Collected
fresh m = record { manager = m; resources = []; removed = []; completed = []; acked = 0 }

first-Holds :
    (m : Manager) (id : ℕ) (job : Job)
    → processing_get m id ≡ some job
    → Holds (shard_index m job.queue) job.queue m (collect (fresh m) id)
unfolding collect processing_drop index_job unindex_job shard_index Dict.get
first-Holds m id job e =
    let idx = shard_index m job.queue in
    let first : Resources = record {
      queue = job.queue;
      keys = job.unique_key ∷ [];
      groups = job.group_id ∷ [];
    } in
    let one = Names-insert idx job.queue [] idx first tt (λ p. refl) in
    let has = get-insert_self [] idx first in
    elim (Bool-cases job.remove_on_complete) [
      | inl gone ↦
          rw (e, collect) (rw gone (record { names = one; entered = (first, has); shards = refl }))
      | inr kept ↦
          rw (e, collect) (rw kept (record { names = one; entered = (first, has); shards = refl }))
    ]

-- `ack_batch` gives a slot back under the name of one queue only for each shard: once it has taken a
-- processing job, no other queue of that job's shard gets a slot back, whatever jobs of it the batch
-- completes.
pub ack_batch_keeps_others :
    (m : Manager) (id : ℕ) (ids : List ℕ) (job : Job) (other : String)
    → processing_get m id ≡ some job
    → job.queue ≢ other
    → state_of ((ack_batch m (id ∷ ids)).0.shards (shard_index m job.queue)) other
      ≡ state_of (m.shards (shard_index m job.queue)) other
unfolding collect_all
ack_batch_keeps_others m id ids job other e n =
    let idx = shard_index m job.queue in
    let c = collect_all (collect (fresh m) id) ids in
    let v = collect_all-Holds idx job.queue m (collect (fresh m) id) ids (first-Holds m id job e) in
    ap (λ (f : ℕ → Shard). state_of (f idx) other) (shards-ack_batch m (id ∷ ids))
    ∙ release_all-other idx job.queue other c.manager c.resources v.names n
    ∙ ap (λ (f : ℕ → Shard). state_of (f idx) other) v.shards
