-- ===== src/Dlq.antt =====
-- engine/src/queue/dlq.rs: the dead letter queues.
use flashq.Prelude.{
  ℕ, String, Option, none, some, List, [], ◌∷◌, length, take, map, ltb, nat_beq, nat_eq, string_eq,
  if◌then◌else◌,
}
use flashq.Dict
use flashq.Protocol.Job.{Job}
use flashq.Protocol.Builder.{unwrap_or}
use flashq.Shard.{in_queue}
use flashq.Manager.{
  Manager, notify_shard, persist_purge, shard_index, emit, write_shard, index_job, unindex_job,
}
use flashq.Query.{find_job}
use flashq.Push.{enqueue}

unfoldable pub get_dlq : Manager → String → Option ℕ → List Job
get_dlq m queue count =
    take (unwrap_or count 100) (Dict.get_or (m.shards (shard_index m queue)).dlq queue [])

-- `dlq.remove(pos)` of the first job with that id.
unfoldable pub remove_job : List Job → ℕ → List Job
remove_job [] id = []
remove_job (j ∷ js) id = let rest = remove_job js id in if nat_beq j.id id then js else j ∷ rest

abbrev pub reset_job : Job → ℕ → Job
reset_job job now = record job { attempts = 0; run_at = now }

abbrev pub to_list {ℓ} : {A : Type ℓ} → Option A → List A
to_list none = []
to_list (some a) = a ∷ []

-- The jobs taken out of the dead letter queue, reset, and those that stay.
unfoldable pub take_retried : List Job → Option ℕ → ℕ → List Job × List Job
unfolding remove_job
take_retried jobs none now = (map (λ job. reset_job job now) jobs, [])
take_retried jobs (some id) now =
    (map (λ job. reset_job job now) (to_list (find_job jobs id)), remove_job jobs id)

-- Each job is indexed and pushed to the queue.
unfoldable pub requeue_all : Manager → ℕ → String → List Job → Manager
unfolding enqueue
requeue_all m idx queue [] = m
requeue_all m idx queue (job ∷ jobs) =
    let indexed = index_job m job.id (in_queue idx queue) in
    requeue_all (write_shard indexed idx (enqueue (indexed.shards idx) queue job)) idx queue jobs

unfoldable pub retry_dlq : Manager → String → Option ℕ → ℕ → Manager × ℕ
unfolding take_retried requeue_all
retry_dlq m queue job_id now =
    let idx = shard_index m queue in
    let s = m.shards idx in
    elim (Dict.get s.dlq queue) [
      | none ↦ (m, 0)
      | some jobs ↦
          let (retried, left) = take_retried jobs job_id now in
          let taken = write_shard m idx (record s { dlq = Dict.insert s.dlq queue left }) in
          if ltb 0 (length retried)
          then (emit (requeue_all taken idx queue retried) (notify_shard idx), length retried)
          else (taken, 0)
    ]

unfoldable pub unindex_all : Manager → List ℕ → Manager
unindex_all m [] = m
unindex_all m (id ∷ ids) = unindex_all (unindex_job m id) ids

unfoldable pub purge_dlq : Manager → String → Manager × ℕ
unfolding unindex_all
purge_dlq m queue =
    let idx = shard_index m queue in
    let s = m.shards idx in
    elim (Dict.get s.dlq queue) [
      | none ↦ (m, 0)
      | some jobs ↦
          let cleared = write_shard m idx (record s { dlq = Dict.insert s.dlq queue [] }) in
          (
            emit (unindex_all cleared (map (λ (job : Job). job.id) jobs)) (persist_purge queue),
            length jobs,
          )
    ]
