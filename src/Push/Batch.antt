-- ===== src/Push/Batch.antt =====
-- engine/src/queue/push.rs: `push_batch`, phase by phase. An input carries its place in the request.
pub mod Keys
pub mod Found
use Prim.Native.Char.{Char}
use flashq.Prelude.{
  ℕ, suc, ◌+◌, String, Bool, true, false, not, ◌&&◌, Option, none, some, List, [], ◌∷◌, ◌++◌, map,
  length, filter, ltb, leb, nat_eq, string_eq, contains, set_insert, if◌then◌else◌, add_u64,
}
use flashq.Dict
use flashq.Dict.{Dict}
use flashq.Protocol.Job.{Job}
use flashq.Protocol.Builder.{JobInput, create_job_from_input, unwrap_or}
use flashq.Ipq
use flashq.Ipq.{Ipq}
use flashq.Result.{Result, ok, err}
use flashq.Validation.{max_batch_size, validate_queue_name, validate_job_data}
use flashq.Shard.{Shard, in_queue, waiting_deps}
use flashq.Manager.{
  Manager, persist_push_batch, notify_shard, shard_index, emit, write_shard, index_job, record_push,
  with_metrics,
}
use flashq.Flows.{next_ids}
use flashq.Push.{all_completed, enqueue}

abbrev pub enumerate {ℓ} : {A : Type ℓ} → ℕ → List A → List (ℕ × A)
enumerate i [] = []
enumerate i (x ∷ xs) = (i, x) ∷ enumerate (i + 1) xs

-- Phase 1, for one input: whether it stays, and the queue's debounce entries then.
unfoldable pub admit_input : Dict String ℕ → JobInput → ℕ → Dict String ℕ × Bool
admit_input entries input now = elim (validate_job_data input.payload) [
  | err e ↦ (entries, false)
  | ok _ ↦ elim input.debounce_id [
    | none ↦ (entries, true)
    | some id ↦
        let live : Bool = elim (Dict.get entries id) [
          | none ↦ false
          | some existing ↦ ltb now existing
        ] in
        if live
        then (entries, false)
        else (Dict.insert entries id (add_u64 now (unwrap_or input.debounce_ttl 5000)), true)
  ]
]

unfoldable pub after_debounce :
    Dict String ℕ → List (ℕ × JobInput) → ℕ → Dict String ℕ × List (ℕ × JobInput)
unfolding admit_input
after_debounce entries [] now = (entries, [])
after_debounce entries ((i, input) ∷ inputs) now =
    let (entries', stays) = admit_input entries input now in
    let (entries'', kept) = after_debounce entries' inputs now in
    (entries'', if stays then (i, input) ∷ kept else kept)

-- Phase 2: the known custom ids with their job ids, and the inputs that need an id. The batch's own
-- custom ids are still empty here.
unfoldable pub split_known :
    Dict String ℕ → List (ℕ × JobInput) → List (ℕ × ℕ) × List (ℕ × JobInput)
split_known ids [] = ([], [])
split_known ids ((i, input) ∷ inputs) =
    let (known, new) = split_known ids inputs in
    let existing : Option ℕ = elim input.job_id [
      | none ↦ none
      | some custom_id ↦ Dict.get ids custom_id
    ] in
    elim existing [ some id ↦ ((i, id) ∷ known, new) | none ↦ (known, (i, input) ∷ new) ]

-- What phase 4 works on: the custom ids of all jobs and of the batch, the queue's unique keys, the
-- results so far, and the jobs to be made.
pub record Registry : Type 0 where
  pub custom_ids : Dict String ℕ
  pub batch : Dict String ℕ
  pub keys : List String
  pub results : List (ℕ × ℕ)
  pub to_create : List (ℕ × JobInput × ℕ)

-- The job id under which the custom id is known, in all or in the batch.
unfoldable pub known_id : Registry → Option String → Option ℕ
known_id r none = none
known_id r (some custom_id) = elim (Dict.get r.custom_ids custom_id) [
  | some id ↦ some id
  | none ↦ Dict.get r.batch custom_id
]

unfoldable pub set_custom_id : Registry → Option String → ℕ → Registry
set_custom_id r none id = r
set_custom_id r (some custom_id) id = record r {
  custom_ids = Dict.insert r.custom_ids custom_id id;
  batch = Dict.insert r.batch custom_id id;
}

unfoldable pub drop_registered : Registry → Option String → Registry
drop_registered r none = r
drop_registered r (some custom_id) = record r {
  custom_ids = Dict.remove r.custom_ids custom_id;
  batch = Dict.remove r.batch custom_id;
}

abbrev pub add_job : Registry → ℕ → JobInput → ℕ → Registry
add_job r i input id = record r { to_create = r.to_create ++ (i, input, id) ∷ [] }

-- Phase 4, for one input.
unfoldable pub register : Registry → ℕ → JobInput → ℕ → Registry
unfolding known_id set_custom_id drop_registered
register r i input id = elim (known_id r input.job_id) [
  | some existing ↦ record r { results = r.results ++ (i, existing) ∷ [] }
  | none ↦
      let named = set_custom_id r input.job_id id in
      elim input.unique_key [
        | none ↦ add_job named i input id
        | some key ↦
            if contains named.keys key
            then drop_registered named input.job_id
            else add_job (record named { keys = set_insert named.keys key }) i input id
      ]
]

unfoldable pub register_all : Registry → List (ℕ × JobInput) → List ℕ → Registry
unfolding register
register_all r [] ids = r
register_all r (_ ∷ _) [] = r
register_all r ((i, input) ∷ inputs) (id ∷ ids) = register_all (register r i input id) inputs ids

-- Phase 5: the jobs, and whether each waits for its dependencies.
unfoldable pub create_all : String → List (ℕ × JobInput × ℕ) → ℕ → List Job
create_all queue [] now = []
create_all queue ((_, input, id) ∷ rest) now =
    create_job_from_input id queue input now ∷ create_all queue rest now

abbrev pub is_free : List ℕ → Job → Bool
is_free completed job = all_completed completed job.depends_on

-- Phase 6: the jobs are indexed and put into the queue, or among the waiting ones.
unfoldable pub place_created : Manager → ℕ → String → List Job → Manager
unfolding enqueue
place_created m idx queue [] = m
place_created m idx queue (job ∷ jobs) =
    let indexed = index_job m job.id (in_queue idx queue) in
    place_created (write_shard indexed idx (enqueue (indexed.shards idx) queue job)) idx queue jobs

unfoldable pub place_waiting : Manager → ℕ → List Job → Manager
place_waiting m idx [] = m
place_waiting m idx (job ∷ jobs) =
    let s = m.shards idx in
    place_waiting
      (write_shard (index_job m job.id (waiting_deps idx)) idx
        (record s { waiting_deps = Dict.insert s.waiting_deps job.id job }))
      idx jobs

-- `entry(queue).or_default()`
abbrev pub touch_queue : Shard → String → Shard
touch_queue s queue = record s {
  queues = Dict.insert s.queues queue (Dict.get_or s.queues queue Ipq.empty);
}

abbrev pub persist_if_any : Manager → List Job → String → Manager
persist_if_any m [] state = m
persist_if_any m (job ∷ jobs) state = emit m (persist_push_batch (job ∷ jobs) state)

-- `sort_by_key(|(idx, _)| *idx)`, which is stable, by insertion.
unfoldable pub insert_by_key : ℕ × ℕ → List (ℕ × ℕ) → List (ℕ × ℕ)
insert_by_key r [] = r ∷ []
insert_by_key r (s ∷ rest) =
    let later = insert_by_key r rest in if leb r.0 s.0 then r ∷ s ∷ rest else s ∷ later

unfoldable pub sort_by_key : List (ℕ × ℕ) → List (ℕ × ℕ)
unfolding insert_by_key
sort_by_key [] = []
sort_by_key (r ∷ rest) = insert_by_key r (sort_by_key rest)

abbrev pub result_ids : List (ℕ × ℕ) → List ℕ
result_ids results = map (λ (r : ℕ × ℕ). r.1) (sort_by_key results)

-- From phase 5 on.
unfoldable pub store_batch : Manager → String → Registry → ℕ → Manager × List ℕ
unfolding create_all place_created place_waiting sort_by_key
store_batch m queue r now =
    let idx = shard_index m queue in
    let jobs = create_all queue r.to_create now in
    let created = filter (is_free m.completed_jobs) jobs in
    let waiting = filter (λ job. not (is_free m.completed_jobs job)) jobs in
    let stored = persist_if_any (persist_if_any m created "waiting") waiting "waiting_children" in
    let heaped = write_shard stored idx (touch_queue (stored.shards idx) queue) in
    let placed = place_waiting (place_created heaped idx queue created) idx waiting in
    let ids = result_ids (r.results ++ map (λ (c : ℕ × JobInput × ℕ). (c.0, c.2)) r.to_create) in
    (emit (with_metrics placed (record_push placed.metrics (length ids))) (notify_shard idx), ids)

-- From phase 3 on, for the inputs that need an id.
unfoldable pub create_batch :
    Manager → String → List (ℕ × ℕ) → List (ℕ × JobInput) → ℕ → Manager × List ℕ
unfolding register_all store_batch next_ids
create_batch m queue known inputs now =
    let (ids, numbered) = next_ids (length inputs) m in
    let idx = shard_index m queue in
    let s = numbered.shards idx in
    let r =
      register_all
        (record {
          custom_ids = numbered.custom_id_map;
          batch = [];
          keys = Dict.get_or s.unique_keys queue [];
          results = known;
          to_create = [];
        })
        inputs ids in
    let registered =
      write_shard (record numbered { custom_id_map = r.custom_ids }) idx
        (record s { unique_keys = Dict.insert s.unique_keys queue r.keys }) in
    elim r.to_create [
      | [] ↦ (registered, result_ids r.results)
      | _ ∷ _ ↦ store_batch registered queue r now
    ]

unfoldable pub push_batch : (Char → Bool) → Manager → String → List JobInput → ℕ → Manager × List ℕ
unfolding after_debounce split_known create_batch
push_batch is_alphanumeric m queue inputs now = elim (validate_queue_name is_alphanumeric queue) [
  | err _ ↦ (m, [])
  | ok _ ↦
      if ltb max_batch_size (length inputs)
      then (m, [])
      else let (entries, kept) =
          after_debounce (Dict.get_or m.debounce_cache queue []) (enumerate 0 inputs) now in
        let bounced = record m { debounce_cache = Dict.insert m.debounce_cache queue entries } in
        let (known, new) = split_known m.custom_id_map kept in
        elim new [
          | [] ↦ (bounced, result_ids known)
          | first ∷ rest ↦ create_batch bounced queue known (first ∷ rest) now
        ]
]
