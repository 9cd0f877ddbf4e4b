-- ===== src/Control.antt =====
-- engine/src/queue/queue_control.rs and rate_limit.rs: pausing, and setting a queue's limits.
use flashq.Prelude.{ℕ, String, Bool, true, false, none, some, nat_eq, string_eq}
use flashq.Dict
use flashq.Ipq
use flashq.Limiters.{QueueState, new_rate, new_concurrency}
use flashq.Shard.{state_of, set_state}
use flashq.Manager.{Manager, notify_shard, persist_queue_state, shard_index, emit, write_shard}

-- The queue's state is rewritten under its shard's lock.
unfoldable pub update_state : Manager → String → (QueueState → QueueState) → Manager
update_state m queue f =
    let idx = shard_index m queue in
    write_shard m idx (set_state (m.shards idx) queue (f (state_of (m.shards idx) queue)))

unfoldable pub pause : Manager → String → Manager
unfolding update_state
pause m queue =
    emit (update_state m queue (λ s. record s { paused = true })) (persist_queue_state queue)

unfoldable pub resume : Manager → String → Manager
unfolding update_state
resume m queue =
    emit
      (emit (update_state m queue (λ s. record s { paused = false }))
        (notify_shard (shard_index m queue)))
      (persist_queue_state queue)

unfoldable pub set_rate_limit : Manager → String → ℕ → ℕ → Manager
unfolding update_state
set_rate_limit m queue limit now =
    emit (update_state m queue (λ s. record s { rate_limiter = some (new_rate limit now) }))
      (persist_queue_state queue)

unfoldable pub clear_rate_limit : Manager → String → Manager
unfolding update_state
clear_rate_limit m queue =
    emit (update_state m queue (λ s. record s { rate_limiter = none })) (persist_queue_state queue)

unfoldable pub set_concurrency : Manager → String → ℕ → Manager
unfolding update_state
set_concurrency m queue limit =
    emit (update_state m queue (λ s. record s { concurrency = some (new_concurrency limit) }))
      (persist_queue_state queue)

unfoldable pub clear_concurrency : Manager → String → Manager
unfolding update_state
clear_concurrency m queue =
    emit (update_state m queue (λ s. record s { concurrency = none })) (persist_queue_state queue)

unfoldable pub is_paused : Manager → String → Bool
is_paused m queue = elim (Dict.get (m.shards (shard_index m queue)).queue_state queue) [
  | none ↦ false
  | some state ↦ state.paused
]

unfoldable pub count : Manager → String → ℕ
count m queue = elim (Dict.get (m.shards (shard_index m queue)).queues queue) [
  | none ↦ 0
  | some heap ↦ Ipq.len heap
]
