-- ===== src/Cleanup/Stale.antt =====
-- engine/src/queue/background/cleanup.rs: which entries `cleanup_stale_index_entries` removes.
use flashq.Prelude.{
  none-some, some_injective, ℕ, zero, suc, ◌≡◌, refl, sym, ap, ◌∙◌, String, true, false, Option,
  none, some, List, [], ◌∷◌, arith, nat_eq, nat_beq, string_eq, contains, leb, Bool-cases,
  Option-cases, inl, inr, length, map, ◌-◌, ◌/◌, ◌%◌, ◌<◌, ◌==◌,
}
use flashq.Dict
use flashq.Dict.{Dict}
use flashq.Dict.Unique.{Unique}
use flashq.Protocol.Job.{Job, JobState}
use flashq.Ipq
use flashq.Ipq.{Ipq}
use flashq.Shard.{JobLocation, in_queue, processing, dlq, waiting_deps, waiting_parents, done}
use flashq.Manager.{Manager, processing_get}
use flashq.Query.{find_job, get_job, get_job_at, queue_job, dlq_job}
use flashq.Query.Found.{get_job-some}
use flashq.Cleanup.{
  Locks, has_job, in_heaps, in_dlqs, is_processing, is_stale, stale_ids, forget_ids, max_index_size,
  cleanup_stale_index_entries,
}
use flashq.Cleanup.Removed.{get-remove_keys}

-- An id that is not in the index is not collected.
stale_ids-absent :
    (locks : Locks) (m : Manager) (target : ℕ) (entries : Dict ℕ JobLocation) (id : ℕ)
    → Dict.get entries id ≡ none
    → contains (stale_ids locks m target entries) id ≡ false
unfolding stale_ids contains Dict.get
stale_ids-absent locks m zero entries id e = refl
stale_ids-absent locks m (suc target) [] id e = refl
stale_ids-absent locks m (suc target) ((k, l) ∷ entries) id e = elim (Bool-cases (k == id)) [
  | inl same ↦ absurd (ground (arith))
  | inr other ↦ elim (Bool-cases (is_stale locks m k l)) [
    | inl s ↦
        rw (s, stale_ids)
          (rw (other, contains) (stale_ids-absent locks m target entries id (ground (arith))))
    | inr s ↦ rw (s, stale_ids) (stale_ids-absent locks m (suc target) entries id (ground (arith)))
  ]
]

-- Only stale ids are collected.
stale_ids-IsStale :
    (locks : Locks) (m : Manager) (target : ℕ) (entries : Dict ℕ JobLocation) (id : ℕ)
    (location : JobLocation)
    → Unique entries
    → Dict.get entries id ≡ some location
    → is_stale locks m id location ≡ false
    → contains (stale_ids locks m target entries) id ≡ false
unfolding stale_ids contains Dict.get
stale_ids-IsStale locks m zero entries id location u e s = refl
stale_ids-IsStale locks m (suc target) [] id location u e s = refl
stale_ids-IsStale locks m (suc target) ((k, l) ∷ entries) id location u e s =
    elim (Bool-cases (k == id)) [
      | inl same ↦
          let own : k ≡ id = (nat_eq.test_iff k id).0 same in
          let at : l ≡ location = some_injective (ground (arith)) in
          let fresh : is_stale locks m k l ≡ false =
            ap (λ i. is_stale locks m i l) own ∙ ap (is_stale locks m id) at ∙ s in
          rw (fresh, stale_ids)
            (stale_ids-absent locks m (suc target) entries id
              (ap (Dict.get entries) (sym own) ∙ u.0))
      | inr other ↦ elim (Bool-cases (is_stale locks m k l)) [
        | inl x ↦
            rw (x, stale_ids)
              (rw (other, contains)
                (stale_ids-IsStale locks m target entries id location u.1 (ground (arith)) s))
        | inr x ↦
            rw (x, stale_ids)
              (stale_ids-IsStale locks m (suc target) entries id location u.1 (ground (arith)) s)
      ]
    ]

-- Where a job is found, its entry is not stale.
in_heaps_found :
    (heaps : Dict String Ipq) (queue : String) (heap : Ipq) (id : ℕ)
    → Dict.get heaps queue ≡ some heap
    → has_job (Ipq.jobs heap) id ≡ true
    → in_heaps heaps id ≡ true
unfolding Dict.get
in_heaps_found [] queue heap id e h = absurd (ground (arith))
in_heaps_found ((k, other) ∷ heaps) queue heap id e h = elim (Bool-cases (k == queue)) [
  | inl same ↦ let at : other ≡ heap = some_injective (ground (arith)) in rw at (rw h refl)
  | inr apart ↦ ground (arith, in_heaps_found heaps queue heap id (ground (arith)) h)
]

has_job-indexed :
    (index : Dict ℕ (Job × ℕ)) (id : ℕ) (job : Job) (gen : ℕ)
    → Dict.get index id ≡ some (job, gen)
    → job.id ≡ id
    → has_job (map (λ (e : ℕ × (Job × ℕ)). e.1.0) index) id ≡ true
unfolding Dict.get
has_job-indexed [] id job gen e own = absurd (ground (arith))
has_job-indexed ((k, v) ∷ index) id job gen e own = elim (Bool-cases (k == id)) [
  | inl same ↦
      let at : v ≡ (job, gen) = some_injective (ground (arith)) in
      let own' : v.0.id ≡ id = ap (λ (x : Job × ℕ). x.0.id) at ∙ own in ground (arith, own')
  | inr apart ↦ ground (arith, has_job-indexed index id job gen (ground (arith)) own)
]

in_dlqs_found :
    (dlqs : Dict String (List Job)) (queue : String) (jobs : List Job) (id : ℕ)
    → Dict.get dlqs queue ≡ some jobs
    → has_job jobs id ≡ true
    → in_dlqs dlqs id ≡ true
unfolding Dict.get
in_dlqs_found [] queue jobs id e h = absurd (ground (arith))
in_dlqs_found ((k, other) ∷ dlqs) queue jobs id e h = elim (Bool-cases (k == queue)) [
  | inl same ↦ let at : other ≡ jobs = some_injective (ground (arith)) in rw at (rw h refl)
  | inr apart ↦ ground (arith, in_dlqs_found dlqs queue jobs id (ground (arith)) h)
]

has_job-find_job :
    (jobs : List Job) (id : ℕ) (job : Job) → find_job jobs id ≡ some job → has_job jobs id ≡ true
unfolding find_job
has_job-find_job [] id job e = absurd (ground (arith))
has_job-find_job (j ∷ jobs) id job e = ground (arith, has_job-find_job jobs id job)

is_processing_shard :
    (locks : Locks) (m : Manager) (n i id : ℕ)
    → i < n
    → locks.processing_free i ≡ true
    → Dict.contains_key (m.processing_shards i) id ≡ true
    → is_processing locks m n id ≡ true
is_processing_shard locks m zero i id lt f h = absurd (ground (arith))
is_processing_shard locks m (suc n) i id lt f h = elim (Bool-cases (nat_beq i n)) [
  | inl same ↦ let at : i ≡ n = ground (arith) in rw (sym at) (rw (f, h) refl)
  | inr apart ↦ ground (arith, is_processing_shard locks m n i id (ground (arith)) f h)
]

-- The lock of the shard in which an entry is looked up could be taken.
abbrev pub IsFree : Locks → ℕ → JobLocation → Type 0
IsFree locks id (in_queue i queue) = locks.shard_free i ≡ true
IsFree locks id processing = locks.processing_free (id % 32) ≡ true
IsFree locks id (dlq i queue) = locks.shard_free i ≡ true
IsFree locks id (waiting_deps i) = locks.shard_free i ≡ true
IsFree locks id (waiting_parents i) = locks.shard_free i ≡ true
IsFree locks id done = Unit

fresh_at :
    (locks : Locks) (m : Manager) (id t : ℕ) (job : Job) (location : JobLocation)
    → IsFree locks id location
    → (get_job_at m id t location).0 ≡ some job
    → job.id ≡ id
    → is_stale locks m id location ≡ false
unfolding get_job_at queue_job dlq_job processing_get is_stale Ipq.get Ipq.jobs
fresh_at locks m id t job (in_queue i queue) f h own =
    elim (Option-cases (Dict.get (m.shards i).queues queue)) [
      | inl e ↦ absurd (none-some (sym (rw (e, get_job_at) refl) ∙ h))
      | inr (heap, e) ↦ elim (Option-cases (Dict.get heap.index id)) [
        | inl e' ↦ absurd (none-some (sym (rw (e, get_job_at) (rw e' refl)) ∙ h))
        | inr ((found, gen), e') ↦
            let at : found ≡ job = some_injective (sym (rw (e, get_job_at) (rw e' refl)) ∙ h) in
            rw
              (
                f,
                in_heaps_found (m.shards i).queues queue heap id e
                    (has_job-indexed heap.index id found gen e' (ap (λ (j : Job). j.id) at ∙ own)),
              )
              refl
      ]
    ]
fresh_at locks m id t job processing f h own = elim (Option-cases (processing_get m id)) [
  | inl e ↦ absurd (none-some (sym (rw (e, get_job_at) refl) ∙ h))
  | inr (found, e) ↦
      rw
        (is_processing_shard locks m 32 (id % 32) id (omega arith) f
          (ap (λ (r : Option Job). elim r [ none ↦ false | some _ ↦ true ]) e))
        refl
]
fresh_at locks m id t job (dlq i queue) f h own =
    elim (Option-cases (Dict.get (m.shards i).dlq queue)) [
      | inl e ↦ absurd (none-some (sym (rw (e, get_job_at) refl) ∙ h))
      | inr (jobs, e) ↦ elim (Option-cases (find_job jobs id)) [
        | inl e' ↦ absurd (none-some (sym (rw (e, get_job_at) (rw e' refl)) ∙ h))
        | inr (found, e') ↦
            rw
              (
                f,
                in_dlqs_found (m.shards i).dlq queue jobs id e (has_job-find_job jobs id found e'),
              )
              refl
      ]
    ]
fresh_at locks m id t job (waiting_deps i) f h own = ground (arith)
fresh_at locks m id t job (waiting_parents i) f h own = ground (arith)
fresh_at locks m id t job done f h own = absurd (none-some h)

get_job_at-forget_ids :
    (m : Manager) (ids : List ℕ) (id t : ℕ) (location : JobLocation)
    → get_job_at (forget_ids m ids) id t location ≡ get_job_at m id t location
unfolding get_job_at queue_job dlq_job processing_get
get_job_at-forget_ids m ids id t (in_queue i queue) = refl
get_job_at-forget_ids m ids id t processing = refl
get_job_at-forget_ids m ids id t (dlq i queue) = refl
get_job_at-forget_ids m ids id t (waiting_deps i) = refl
get_job_at-forget_ids m ids id t (waiting_parents i) = refl
get_job_at-forget_ids m ids id t done = refl

forgotten :
    (locks : Locks) (m : Manager) (target id t : ℕ) (location : JobLocation)
    → Unique m.job_index
    → Dict.get m.job_index id ≡ some location
    → is_stale locks m id location ≡ false
    → get_job (forget_ids m (stale_ids locks m target m.job_index)) id t ≡ get_job m id t
forgotten locks m target id t location u e s =
    let ids = stale_ids locks m target m.job_index in
    get_job-some (forget_ids m ids) id t location (
      get-remove_keys m.job_index ids id
      ∙ rw (stale_ids-IsStale locks m target m.job_index id location u e s) e)
    ∙ get_job_at-forget_ids m ids id t location
    ∙ sym (get_job-some m id t location e)

-- The cleanup of the job index keeps what it could look at: a job that `get_job` finds under its own
-- id before the cleanup, in a shard whose lock could be taken, is found in the same state after it,
-- provided that each id stands once in the index.
pub cleanup_keeps_found :
    (locks : Locks) (m : Manager) (id t : ℕ) (job : Job) (location : JobLocation)
    → Unique m.job_index
    → Dict.get m.job_index id ≡ some location
    → IsFree locks id location
    → (get_job m id t).0 ≡ some job
    → job.id ≡ id
    → get_job (cleanup_stale_index_entries locks m) id t ≡ get_job m id t
unfolding cleanup_stale_index_entries
cleanup_keeps_found locks m id t job location u e f h own =
    let s =
      fresh_at locks m id t job location f
        (ap (λ (r : Option Job × JobState). r.0) (sym (get_job-some m id t location e)) ∙ h) own in
    elim (Bool-cases (leb (length m.job_index) max_index_size)) [
      | inl small ↦ rw (small, cleanup_stale_index_entries) refl
      | inr large ↦
          rw (large, cleanup_stale_index_entries)
            (forgotten locks m (length m.job_index - max_index_size / 2) id t location u e s)
    ]
