-- ===== src/Flows/Ready.antt =====
-- When a parent of a flow is released.
use flashq.Prelude.{ℕ, nat_eq, string_eq, add_u32}
use flashq.Dict
use flashq.Protocol.Job.{Job}
use flashq.Shard.{Shard, in_queue}
use flashq.Manager.{Manager, write_shard, index_job, emit, notify_shard}
use flashq.Push.{enqueue}

abbrev pub one_more : Job → Job
one_more parent = record parent { children_completed = add_u32 parent.children_completed 1 }

module _ (m : Manager) (idx parent_id : ℕ) (parent : Job) (now : ℕ) where
  abbrev shard : Shard
  shard = record (m.shards idx) {
    waiting_children = Dict.remove (m.shards idx).waiting_children parent_id;
  }

  abbrev moved : Manager
  moved =
      emit
        (index_job (write_shard m idx (enqueue shard parent.queue (one_more parent))) parent_id
          (in_queue idx parent.queue))
        (notify_shard idx)
