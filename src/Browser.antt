-- ===== src/Browser.antt =====
-- engine/src/queue/browser.rs: `get_jobs`; engine/src/queue/admin.rs: `list_jobs`.
pub mod Removal
pub mod Drained
use flashq.Prelude.{
  ℕ, zero, suc, ◌+◌, ◌-◌, ◌^◌, min, String, Bool, true, false, not, ◌||◌, ◌&&◌, Option, none, some,
  List, [], ◌∷◌, ◌++◌, map, length, take, drop, filter, ltb, leb, set_remove, nat_eq, string_eq,
  ◌==◌, if◌then◌else◌,
}
use flashq.Dict
use flashq.Dict.{Dict}
use flashq.Protocol.Job.{
  Job, JobState, CronJob, waiting, delayed, active, completed, failed, waiting_children,
  waiting_parent, stalled, unknown,
}
use flashq.Ipq
use flashq.Ipq.{Ipq}
use flashq.Shard.{Shard}
use flashq.Manager.{
  Manager, num_shards, persist_clean, persist_drain, persist_obliterate, shard_index, emit,
  write_shard, processing_drop, unindex_job,
}
use flashq.Cleanup.{remove_keys, remove_members, sort_ids}

-- `state_filter == Some(…)`
abbrev pub state_eq : JobState → JobState → Bool
state_eq waiting waiting = true
state_eq delayed delayed = true
state_eq active active = true
state_eq completed completed = true
state_eq failed failed = true
state_eq waiting_children waiting_children = true
state_eq waiting_parent waiting_parent = true
state_eq stalled stalled = true
state_eq unknown unknown = true
state_eq _ _ = false

abbrev pub skip_queue : String → Option String → Bool
skip_queue queue none = false
skip_queue queue (some f) = not (f == queue)

abbrev pub skip_state : JobState → Option JobState → Bool
skip_state state none = false
skip_state state (some f) = not (state_eq f state)

pub record JobBrowserItem : Type 0 where
  pub job : Job
  pub state : JobState

-- Jobs shown in one state, of a queue that the filters let pass.
abbrev pub items :
    Option String → Option JobState → String → (Job → JobState) → List Job → List JobBrowserItem
items queue_filter state_filter queue state [] = []
items queue_filter state_filter queue state (job ∷ jobs) =
    let rest = items queue_filter state_filter queue state jobs in
    if skip_queue queue queue_filter || skip_state (state job) state_filter
    then rest
    else record { job = job; state = state job } ∷ rest

-- The same where each job names its queue.
abbrev pub own_items : Option String → Option JobState → JobState → List Job → List JobBrowserItem
own_items queue_filter state_filter state [] = []
own_items queue_filter state_filter state (job ∷ jobs) =
    let rest = own_items queue_filter state_filter state jobs in
    if skip_queue job.queue queue_filter || skip_state state state_filter
    then rest
    else record { job = job; state = state } ∷ rest

abbrev pub queue_state_of : ℕ → Job → JobState
queue_state_of now job = if ltb now job.run_at then delayed else waiting

unfoldable pub heap_items :
    Option String → Option JobState → ℕ → Dict String Ipq → List JobBrowserItem
heap_items q f now [] = []
heap_items q f now ((queue, heap) ∷ rest) =
    items q f queue (queue_state_of now) (Ipq.jobs heap) ++ heap_items q f now rest

unfoldable pub dlq_items :
    Option String → Option JobState → Dict String (List Job) → List JobBrowserItem
dlq_items q f [] = []
dlq_items q f ((queue, jobs) ∷ rest) = items q f queue (λ _. failed) jobs ++ dlq_items q f rest

unfoldable pub shard_items : Option String → Option JobState → ℕ → Shard → List JobBrowserItem
unfolding heap_items dlq_items
shard_items q f now s =
    heap_items q f now s.queues
    ++ (dlq_items q f s.dlq
        ++ (own_items q f waiting_parent (Dict.values s.waiting_children)
            ++ own_items q f waiting_children (Dict.values s.waiting_deps)))

unfoldable pub all_shard_items :
    Option String → Option JobState → ℕ → Manager → ℕ → ℕ → List JobBrowserItem
unfolding shard_items
all_shard_items q f now m zero idx = []
all_shard_items q f now m (suc left) idx =
    shard_items q f now (m.shards idx) ++ all_shard_items q f now m left (idx + 1)

unfoldable pub processing_items :
    Option String → Option JobState → Manager → ℕ → ℕ → List JobBrowserItem
processing_items q f m zero idx = []
processing_items q f m (suc left) idx =
    own_items q f active (Dict.values (m.processing_shards idx))
    ++ processing_items q f m left (idx + 1)

-- `sort_by(|a, b| b.job.id.cmp(&a.job.id))`, stable, by insertion.
unfoldable pub insert_newest : JobBrowserItem → List JobBrowserItem → List JobBrowserItem
insert_newest a [] = a ∷ []
insert_newest a (b ∷ rest) =
    let later = insert_newest a rest in if leb b.job.id a.job.id then a ∷ b ∷ rest else b ∷ later

unfoldable pub newest_first : List JobBrowserItem → List JobBrowserItem
unfolding insert_newest
newest_first [] = []
newest_first (a ∷ rest) = insert_newest a (newest_first rest)

unfoldable pub get_jobs :
    Manager → Option String → Option JobState → ℕ → ℕ → ℕ → List JobBrowserItem × ℕ
unfolding all_shard_items processing_items newest_first
get_jobs m q f limit offset now =
    let jobs = newest_first (
      all_shard_items q f now m num_shards 0
      ++ (processing_items q f m 32 0
          ++ own_items q f completed (map (λ r. r.0) m.completed_jobs_data))) in
    (take (min limit 1000) (drop offset jobs), length jobs)

-- The jobs of a shard that `list_jobs` looks through: parents are not among them.
unfoldable pub listed_items : Option String → Option JobState → ℕ → Shard → List JobBrowserItem
unfolding heap_items dlq_items
listed_items q f now s =
    heap_items q f now s.queues
    ++ (dlq_items q f s.dlq ++ own_items q f waiting_children (Dict.values s.waiting_deps))

unfoldable pub all_listed_items :
    Option String → Option JobState → ℕ → Manager → ℕ → ℕ → List JobBrowserItem
unfolding listed_items
all_listed_items q f now m zero idx = []
all_listed_items q f now m (suc left) idx =
    listed_items q f now (m.shards idx) ++ all_listed_items q f now m left (idx + 1)

-- `sort_by(|a, b| b.job.created_at.cmp(&a.job.created_at))`, stable, by insertion.
unfoldable pub insert_created : JobBrowserItem → List JobBrowserItem → List JobBrowserItem
insert_created a [] = a ∷ []
insert_created a (b ∷ rest) =
    let later = insert_created a rest in
    if leb b.job.created_at a.job.created_at then a ∷ b ∷ rest else b ∷ later

unfoldable pub last_created_first : List JobBrowserItem → List JobBrowserItem
unfolding insert_created
last_created_first [] = []
last_created_first (a ∷ rest) = insert_created a (last_created_first rest)

unfoldable pub list_jobs :
    Manager → Option String → Option JobState → ℕ → ℕ → ℕ → List JobBrowserItem
unfolding all_listed_items processing_items last_created_first
list_jobs m q f limit offset now =
    let jobs = last_created_first (
      all_listed_items q f now m num_shards 0
      ++ (processing_items q f m 32 0
          ++ own_items q f completed (map (λ r. r.0) m.completed_jobs_data))) in
    take limit (drop offset jobs)
