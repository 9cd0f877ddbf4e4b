-- ===== src/Shard/Laws.antt =====
-- What a queue's state is after each change of its shard.

use flashq.Prelude.{◌≡◌, String, arith, string_eq, nat_eq}
use flashq.Dict.Laws.{get-insert_self}
use flashq.Limiters.{QueueState}
use flashq.Shard.{Shard, state_of, set_state, release_state, release_concurrency}

pub state_of-set_state :
    (s : Shard) (queue : String) (state : QueueState)
    → state_of (set_state s queue state) queue ≡ state
unfolding state_of set_state
state_of-set_state s queue state = ground (arith, get-insert_self s.queue_state queue state)

pub state_of_eq :
    (s t : Shard) (queue : String)
    → t.queue_state ≡ s.queue_state
    → state_of t queue ≡ state_of s queue
unfolding state_of
state_of_eq s t queue e = rw e

pub state_of-release_concurrency :
    (s : Shard) (queue : String)
    → state_of (release_concurrency s queue) queue ≡ release_state (state_of s queue)
unfolding release_concurrency
state_of-release_concurrency s queue = state_of-set_state s queue (release_state (state_of s queue))
