-- ===== src/Ack/Keeps.antt =====
-- What the end of `ack` leaves alone: the processing map, and of each shard all but its queues and
-- the jobs that wait for their children.
use flashq.Prelude.{
  ℕ, ◌≡◌, refl, sym, ◌∙◌, subst, inl, inr, String, Option, arith, nat_eq, nat_beq, leb, length,
  add_u32, string_eq, Bool-cases, Option-cases, if◌then◌else◌,
}
use flashq.Protocol.Json.{Value}
use flashq.Protocol.Job.{Job}
use flashq.Shard.{Shard}
use flashq.Manager.{
  Manager, emit, persist_delete, persist_ack, num_shards, set_at, write_shard, index_job,
  unindex_job,
}
use flashq.Push.{enqueue}
use flashq.Logs.{add_job_log}
use flashq.Flows.{find_parent, child_completed_at, on_child_completed}
use flashq.Ack.{forget_job, store_completed, retain_result, release_resources, finish_ack, ack_job}

-- The keys, the limits and the groups of two shards are the same.
pub record SameHolds (s t : Shard) : Type 0 where
  pub keys : s.unique_keys ≡ t.unique_keys
  pub states : s.queue_state ≡ t.queue_state
  pub groups : s.active_groups ≡ t.active_groups

pub record Keeps (m n : Manager) : Type 0 where
  pub processing : n.processing_shards ≡ m.processing_shards
  pub holds : (i : ℕ) → SameHolds (n.shards i) (m.shards i)

SameHolds-refl : (s : Shard) → SameHolds s s
SameHolds-refl s = record { keys = refl; states = refl; groups = refl }

SameHolds-set_at :
    (f : ℕ → Shard) (i : ℕ) (s : Shard) (j : ℕ)
    → SameHolds s (f i)
    → SameHolds (set_at f i s j) (f j)
SameHolds-set_at f i s j v = elim (Bool-cases (nat_beq i j)) [
  | inl same ↦ rw same (subst (λ k. SameHolds s (f k)) (ground arith) v)
  | inr other ↦ rw other (SameHolds-refl (f j))
]

processing-child_completed_at :
    (m : Manager) (idx parent_id : ℕ) (parent : Job) (now : ℕ)
    → (child_completed_at m idx parent_id parent now).processing_shards ≡ m.processing_shards
unfolding child_completed_at add_job_log write_shard index_job
processing-child_completed_at m idx parent_id parent now = ground arith

SameHolds-enqueue :
    (s t : Shard) (queue : String) (job : Job) → SameHolds s t → SameHolds (enqueue s queue job) t
unfolding enqueue
SameHolds-enqueue s t queue job v = record { keys = v.keys; states = v.states; groups = v.groups }

shards-add_job_log :
    (m : Manager) (id : ℕ) (message level : String) (now : ℕ)
    → (add_job_log m id message level now).0.shards ≡ m.shards
unfolding add_job_log
shards-add_job_log m id message level now = ground arith

-- Each shard of a child's completion is the old one with one written.
Keeps-child_completed_at :
    (m : Manager) (idx parent_id : ℕ) (parent : Job) (now : ℕ)
    → Keeps m (child_completed_at m idx parent_id parent now)
unfolding child_completed_at write_shard index_job
Keeps-child_completed_at m idx parent_id parent now = record {
  processing = processing-child_completed_at m idx parent_id parent now;
  holds = λ i.
      elim (Bool-cases (leb (length parent.children_ids) (add_u32 parent.children_completed 1))) [
        | inl all ↦ rw all (
            subst (λ (f : ℕ → Shard). SameHolds (f i) (m.shards i))
              (sym (shards-add_job_log _ parent_id _ _ now))
              (SameHolds-set_at m.shards idx _ i (
                SameHolds-enqueue _ (m.shards idx) parent.queue _
                  (record { keys = refl; states = refl; groups = refl }))))
        | inr some_left ↦ rw some_left (
            SameHolds-set_at m.shards idx _ i
              (record { keys = refl; states = refl; groups = refl }))
      ];
}

Keeps-refl : (m : Manager) → Keeps m m
Keeps-refl m = record { processing = refl; holds = λ i. SameHolds-refl (m.shards i) }

Keeps-on_child_completed :
    (m : Manager) (parent_id now : ℕ) → Keeps m (on_child_completed m parent_id now)
unfolding on_child_completed
Keeps-on_child_completed m parent_id now =
    elim (Option-cases (find_parent m parent_id num_shards 0)) [
      | inl e ↦ rw (e, on_child_completed) (Keeps-refl m)
      | inr ((idx, parent), e) ↦
          rw (e, on_child_completed) (Keeps-child_completed_at m idx parent_id parent now)
    ]

Keeps-trans : (m k n : Manager) → Keeps m k → Keeps k n → Keeps m n
Keeps-trans m k n v w = record {
  processing = w.processing ∙ v.processing;
  holds = λ i. record {
    keys = (w.holds i).keys ∙ (v.holds i).keys;
    states = (w.holds i).states ∙ (v.holds i).states;
    groups = (w.holds i).groups ∙ (v.holds i).groups;
  };
}

Keeps-of_eq :
    (m n : Manager) → n.processing_shards ≡ m.processing_shards → n.shards ≡ m.shards → Keeps m n
Keeps-of_eq m n p s = record {
  processing = p;
  holds = λ i.
      subst (λ (f : ℕ → Shard). SameHolds (f i) (m.shards i)) (sym s) (SameHolds-refl (m.shards i));
}

-- What follows the release in `ack`.
Keeps-finish_ack :
    (m : Manager) (job : Job) (result : Option Value) (now : ℕ)
    → Keeps m (finish_ack m job result now)
unfolding finish_ack retain_result
Keeps-finish_ack m job result now = elim (Option-cases job.parent_id) [
  | inl e ↦ rw (e, finish_ack) (Keeps-of_eq m _ (ground arith) (ground arith))
  | inr (p, e) ↦
      rw (e, finish_ack)
        (Keeps-trans m _ _ (Keeps-of_eq m _ (ground arith) (ground arith))
          (Keeps-on_child_completed _ p now))
]

after_finish :
    (k m : Manager) (job : Job) (result : Option Value) (now : ℕ)
    → Keeps k m
    → Keeps k (finish_ack m job result now)
after_finish k m job result now v =
    Keeps-trans k m (finish_ack m job result now) v (Keeps-finish_ack m job result now)

-- The whole of `ack` for a job taken out, from the release on.
pub Keeps-ack_job :
    (m : Manager) (job : Job) (result : Option Value) (now : ℕ)
    → Keeps (release_resources m job) (ack_job m job result now)
unfolding ack_job store_completed forget_job index_job unindex_job
Keeps-ack_job m job result now =
    let released = release_resources m job in
    let n : Manager =
      if job.remove_on_complete
      then emit (forget_job released job.id) (persist_delete job.id)
      else emit (store_completed released job result now) (persist_ack job.id result) in
    after_finish released n job result now (Keeps-of_eq released n (ground arith) (ground arith))
