-- ===== src/Cleanup/Locked.antt =====
-- engine/src/queue/background/cleanup.rs: what `cleanup_stale_index_entries` does to shards whose lock
-- is held.
use flashq.Prelude.{
  ℕ, zero, suc, ◌≡◌, refl, sym, ◌∙◌, String, true, false, none, [], ◌∷◌, arith, nat_eq, string_eq,
  contains, leb, Bool-cases, inl, inr, length, ◌++◌, subst, ◌-◌, ◌/◌, ◌<◌,
}
use flashq.Dict.{Dict}
use flashq.Protocol.Job.{unknown}
use flashq.Shard.{JobLocation, in_queue}
use flashq.Manager.{Manager}
use flashq.Query.{get_job, queue_job}
use flashq.Query.Found.{get_job-none}
use flashq.Cleanup.{
  Locks, is_stale, stale_ids, forget_ids, max_index_size, cleanup_stale_index_entries,
}
use flashq.Cleanup.Removed.{get-remove_keys}

-- The first `target` entries hold all that is collected of them.
stale_ids-collects :
    (locks : Locks) (m : Manager) (target : ℕ) (before after : Dict ℕ JobLocation) (id : ℕ)
    (location : JobLocation)
    → length before < target
    → is_stale locks m id location ≡ true
    → contains (stale_ids locks m target (before ++ (id, location) ∷ after)) id ≡ true
unfolding stale_ids contains
stale_ids-collects locks m zero before after id location lt s = absurd (omega (arith, lt))
stale_ids-collects locks m (suc target) [] after id location lt s =
    rw (s, stale_ids) (ground (arith, nat_eq.test_iff id id))
stale_ids-collects locks m (suc target) ((k, l) ∷ before) after id location lt s =
    elim (Bool-cases (is_stale locks m k l)) [
      | inl x ↦
          rw (x, stale_ids)
            (ground (
              arith,
              stale_ids-collects locks m target before after id location (omega (arith, lt)) s,
            ))
      | inr x ↦
          rw (x, stale_ids)
            (stale_ids-collects locks m (suc target) before after id location (omega (arith, lt)) s)
    ]

-- Above its limit the cleanup forgets jobs that are there: a job in a queue of a shard whose lock is
-- held is not found any more, if fewer entries than the cleanup is to remove come before its own,
-- though it stays in its queue.
pub cleanup_drops_locked :
    (locks : Locks) (m : Manager) (id t i : ℕ) (queue : String) (before after : Dict ℕ JobLocation)
    → m.job_index ≡ before ++ (id, in_queue i queue) ∷ after
    → max_index_size < length m.job_index
    → length before < length m.job_index - max_index_size / 2
    → locks.shard_free i ≡ false
    → let left = cleanup_stale_index_entries locks m in
      (get_job left id t ≡ (none, unknown)) × (queue_job left i queue id ≡ queue_job m i queue id)
unfolding cleanup_stale_index_entries queue_job
cleanup_drops_locked locks m id t i queue before after e large lt held =
    let target = length m.job_index - max_index_size / 2 in
    let ids = stale_ids locks m target m.job_index in
    let stale : is_stale locks m id (in_queue i queue) ≡ true = rw (held, is_stale) refl in
    let hit : contains ids id ≡ true =
      subst (λ d. contains (stale_ids locks m target d) id ≡ true) (sym e)
        (stale_ids-collects locks m target before after id (in_queue i queue) lt stale) in
    let over : leb (length m.job_index) max_index_size ≡ false = ground (arith) in
    rw (over, cleanup_stale_index_entries)
      (
        get_job-none (forget_ids m ids) id t (get-remove_keys m.job_index ids id ∙ rw hit refl),
        refl,
      )
