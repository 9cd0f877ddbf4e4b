-- ===== src/Ack/Buried.antt =====
-- Where a job is found that has no attempts left.
use flashq.Prelude.{
  ℕ, ◌≡◌, refl, sym, ap, ◌∙◌, subst, String, true, false, Option, none, some, List, [], ◌∷◌, ◌++◌,
  arith, nat_eq, string_eq,
}
use flashq.Dict
use flashq.Dict.Laws.{get-insert_self}
use flashq.Protocol.Job.{Job, JobEvent, failed, should_go_to_dlq}
use flashq.Result.{ok}
use flashq.Shard.{Shard, dlq, release_concurrency, release_group, set_state}
use flashq.Manager.{
  Manager, shard_index, processing_get, processing_drop, write_shard, index_job, emit,
  notify_subscribers, notify_waiters, persist_dlq, with_metrics, record_dlq, record_fail,
}
use flashq.Manager.Laws.{shards-write_shard}
use flashq.Query.{find_job, dlq_job, get_job, get_job_at}
use flashq.Ack.{
  job_event, release_slot_and_group, push_dlq, broadcast_if_heard, fail_to_dlq, fail_job, fail,
}
use flashq.Ack.Retry.{tried}

find_job_last :
    (jobs : List Job) (job : Job)
    → find_job jobs job.id ≡ none
    → find_job (jobs ++ job ∷ []) job.id ≡ some job
unfolding find_job
find_job_last [] job h = ground arith
find_job_last (j ∷ jobs) job h = ground (arith, find_job_last jobs job)

dlq-released :
    (s : Shard) (queue : String) (gid : Option String)
    → (release_group (release_concurrency s queue) queue gid).dlq ≡ s.dlq
unfolding release_group release_concurrency set_state
dlq-released s queue none = refl
dlq-released s queue (some g) = ground arith

dlq-release_slot_and_group :
    (m : Manager) (job : Job)
    → ((release_slot_and_group m job).shards (shard_index m job.queue)).dlq
      ≡ (m.shards (shard_index m job.queue)).dlq
unfolding release_slot_and_group
dlq-release_slot_and_group m job =
    ap (λ (s : Shard). s.dlq) (shards-write_shard m (shard_index m job.queue) _)
    ∙ dlq-released (m.shards (shard_index m job.queue)) job.queue job.group_id

-- A job at the end of the dead letter queue is found there, if no other job there has its id.
pub dlq_job-push_dlq :
    (m : Manager) (i : ℕ) (s : Shard) (queue : String) (job : Job)
    → m.shards i ≡ push_dlq s queue job
    → find_job (Dict.get_or s.dlq queue []) job.id ≡ none
    → dlq_job m i queue job.id ≡ some job
unfolding dlq_job push_dlq
dlq_job-push_dlq m i s queue job e h = ground (
  arith,
  ap (λ (t : Shard). Dict.get t.dlq queue) e,
  get-insert_self s.dlq queue (Dict.get_or s.dlq queue [] ++ job ∷ []),
  find_job_last (Dict.get_or s.dlq queue []) job h,
)

pub get_job-dlq :
    (m : Manager) (id i : ℕ) (queue : String) (job : Job) (t : ℕ)
    → Dict.get m.job_index id ≡ some (dlq i queue)
    → dlq_job m i queue id ≡ some job
    → get_job m id t ≡ (some job, failed)
unfolding get_job get_job_at
get_job-dlq m id i queue job t e h = rw (e, get_job, get_job_at, h) refl

-- The state before the last broadcast of `fail_to_dlq`.
index-fail_to_dlq :
    (m : Manager) (job : Job) (error : Option String) (now : ℕ)
    → Dict.get (fail_to_dlq m job error now).job_index job.id
      ≡ some (dlq (shard_index m job.queue) job.queue)
unfolding fail_to_dlq write_shard release_slot_and_group index_job
index-fail_to_dlq m job error now =
    ground (arith, get-insert_self m.job_index job.id (dlq (shard_index m job.queue) job.queue))

shards-broadcast_if_heard :
    (m : Manager) (e : JobEvent) → (broadcast_if_heard m e).shards ≡ m.shards
shards-broadcast_if_heard m e = ground arith

shard-fail_to_dlq :
    (m : Manager) (job : Job) (error : Option String) (now : ℕ)
    → (s : Shard) × (s.dlq ≡ (m.shards (shard_index m job.queue)).dlq)
      × ((fail_to_dlq m job error now).shards (shard_index m job.queue) ≡ push_dlq s job.queue job)
unfolding fail_to_dlq index_job shard_index
shard-fail_to_dlq m job error now =
    let idx = shard_index m job.queue in
    let indexed = emit (index_job m job.id (dlq idx job.queue)) (persist_dlq job error) in
    let released = release_slot_and_group indexed job in
    let stored = write_shard released idx (push_dlq (released.shards idx) job.queue job) in
    (
      released.shards idx,
      dlq-release_slot_and_group indexed job,
      ap (λ (f : ℕ → Shard). f idx)
            (shards-broadcast_if_heard
              (with_metrics stored (record_dlq (record_fail stored.metrics)))
              (job_event "failed" job now none error))
          ∙ shards-write_shard released idx (push_dlq (released.shards idx) job.queue job),
    )

dlq_job-fail_to_dlq :
    (m : Manager) (job : Job) (error : Option String) (now : ℕ)
    → find_job (Dict.get_or (m.shards (shard_index m job.queue)).dlq job.queue []) job.id ≡ none
    → dlq_job (fail_to_dlq m job error now) (shard_index m job.queue) job.queue job.id ≡ some job
dlq_job-fail_to_dlq m job error now h =
    let (s, same, e) = shard-fail_to_dlq m job error now in
    dlq_job-push_dlq (fail_to_dlq m job error now) (shard_index m job.queue) s job.queue job e
      (ap (λ d. find_job (Dict.get_or d job.queue []) job.id) same ∙ h)

abbrev told : Manager → Job → Manager
told m job =
    emit (emit m (notify_subscribers "failed" job.queue (tried job))) (notify_waiters job.id none)

fail_job_spent :
    (m : Manager) (job : Job) (error : Option String) (now : ℕ)
    → should_go_to_dlq (tried job) ≡ true
    → job.remove_on_fail ≡ false
    → fail_job m job error now ≡ fail_to_dlq (told m job) (tried job) error now
unfolding fail_job
fail_job_spent m job error now spent kept = ground arith

-- A `fail` of a job that is processing under its own id, has no attempts left and is not to be
-- removed succeeds, and in the state left `get_job` finds the job, with one attempt more, in the failed
-- state, unless an older job of that id lay in the dead letter queue of its queue before.
pub fail_buries :
    (m : Manager) (id : ℕ) (job : Job) (error : Option String) (now later : ℕ)
    → processing_get m id ≡ some job
    → job.id ≡ id
    → should_go_to_dlq (tried job) ≡ true
    → job.remove_on_fail ≡ false
    → find_job (Dict.get_or (m.shards (shard_index m job.queue)).dlq job.queue []) id ≡ none
    → ((fail m id error now).1 ≡ ok tt)
      × (get_job (fail m id error now).0 id later ≡ (some (tried job), failed))
unfolding fail processing_drop shard_index
fail_buries m id job error now later e own spent kept new =
    let n = told (processing_drop m id) job in
    let done : get_job (fail_to_dlq n (tried job) error now) job.id later
        ≡ (some (tried job), failed) =
      get_job-dlq (fail_to_dlq n (tried job) error now) job.id (shard_index m job.queue) job.queue
        (tried job) later (index-fail_to_dlq n (tried job) error now)
        (dlq_job-fail_to_dlq n (tried job) error now (
          subst
            (λ k.
              find_job (Dict.get_or (m.shards (shard_index m job.queue)).dlq job.queue []) k ≡ none)
            (sym own) new)) in
    rw (e, fail)
      (
        refl,
        ap (λ k. get_job k id later)
              (fail_job_spent (processing_drop m id) job error now spent kept)
            ∙ subst
                (λ k.
                  get_job (fail_to_dlq n (tried job) error now) k later
                  ≡ (some (tried job), failed))
                own done,
      )
