-- ===== src/Browser/Drained.antt =====
-- engine/src/queue/browser.rs: what `drain` leaves of a queue.
use flashq.Prelude.{
  ℕ, ◌≡◌, refl, sym, ap, ◌∙◌, String, true, none, some, List, [], ◌∷◌, arith, nat_eq, string_eq,
  contains, All, All-map,
}
use flashq.Dict
use flashq.Dict.{Dict}
use flashq.Dict.Laws.{get-remove_self}
use flashq.Protocol.Job.{Job, unknown}
use flashq.Ipq
use flashq.Ipq.{Ipq}
use flashq.Shard.{Shard}
use flashq.Manager.{Manager, shard_index, write_shard, emit, persist_drain}
use flashq.Manager.Laws.{shards-write_shard}
use flashq.Query.{get_job}
use flashq.Query.Found.{get_job-none}
use flashq.Control.{count}
use flashq.Cleanup.Removed.{get-remove_keys, contains_all}
use flashq.Browser.Removal.{ids_of, unindex_ids, drop_unique_keys, drain}

abbrev drained : Manager → String → Ipq → Manager
drained m queue heap =
    let idx = shard_index m queue in
    let s = m.shards idx in
    emit
      (unindex_ids
        (write_shard m idx (
          drop_unique_keys (record s { queues = Dict.remove s.queues queue }) queue
            (Ipq.jobs heap)))
        (ids_of (Ipq.jobs heap)))
      (persist_drain queue)

drain_lem :
    (m : Manager) (queue : String) (heap : Ipq)
    → Dict.get (m.shards (shard_index m queue)).queues queue ≡ some heap
    → drain m queue ≡ (drained m queue heap, Ipq.len heap)
unfolding drain
drain_lem m queue heap e = rw (e, drain) refl

queues-drop_unique_keys :
    (s : Shard) (queue : String) (jobs : List Job)
    → (drop_unique_keys s queue jobs).queues ≡ s.queues
unfolding drop_unique_keys
queues-drop_unique_keys s queue jobs = ground arith

queue-drained :
    (m : Manager) (queue : String) (heap : Ipq)
    → Dict.get ((drained m queue heap).shards (shard_index m queue)).queues queue ≡ none
unfolding write_shard
queue-drained m queue heap =
    let idx = shard_index m queue in
    ap (λ (s : Shard). Dict.get s.queues queue) (shards-write_shard m idx _)
    ∙ ap (λ d. Dict.get d queue)
        (queues-drop_unique_keys
          (record (m.shards idx) { queues = Dict.remove (m.shards idx).queues queue }) queue
          (Ipq.jobs heap))
    ∙ get-remove_self (m.shards idx).queues queue

count-none :
    (m : Manager) (queue : String)
    → Dict.get (m.shards (shard_index m queue)).queues queue ≡ none
    → count m queue ≡ 0
unfolding count
count-none m queue e = rw (e, count) refl

count-some :
    (m : Manager) (queue : String) (heap : Ipq)
    → Dict.get (m.shards (shard_index m queue)).queues queue ≡ some heap
    → count m queue ≡ Ipq.len heap
unfolding count
count-some m queue heap e = rw (e, count) refl

unindexed-drained :
    (m : Manager) (queue : String) (heap : Ipq) (id : ℕ)
    → contains (ids_of (Ipq.jobs heap)) id ≡ true
    → Dict.get (drained m queue heap).job_index id ≡ none
unfolding write_shard
unindexed-drained m queue heap id h =
    get-remove_keys m.job_index (ids_of (Ipq.jobs heap)) id ∙ rw h refl

All-ids_of :
    (P : ℕ → Type 0) (jobs : List Job) → All P (ids_of jobs) → All (λ (j : Job). P j.id) jobs
All-ids_of P [] h = tt
All-ids_of P (j ∷ jobs) h = (h.0, All-ids_of P jobs h.1)

-- A `drain` of a queue that exists answers with what `count` said before it; after it `count` says
-- zero, and `get_job` finds none of the queue's jobs, at any time.
pub drain_forgets :
    (m : Manager) (queue : String) (heap : Ipq) (later : ℕ)
    → Dict.get (m.shards (shard_index m queue)).queues queue ≡ some heap
    → let after = (drain m queue).0 in
      ((drain m queue).1 ≡ count m queue)
      × (count after queue ≡ 0)
      × All (λ (job : Job). get_job after job.id later ≡ (none, unknown)) (Ipq.jobs heap)
unfolding write_shard shard_index
drain_forgets m queue heap later e = rw (drain_lem m queue heap e) (
  sym (count-some m queue heap e),
  count-none (drained m queue heap) queue (queue-drained m queue heap),
  All-ids_of (λ id. get_job (drained m queue heap) id later ≡ (none, unknown)) (Ipq.jobs heap)
      (All-map (λ id. contains (ids_of (Ipq.jobs heap)) id ≡ true) _ (ids_of (Ipq.jobs heap))
        (λ id h. get_job-none (drained m queue heap) id later (unindexed-drained m queue heap id h))
        (contains_all (ids_of (Ipq.jobs heap)))),
)
