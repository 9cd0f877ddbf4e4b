-- ===== src/Ipq/Order.antt =====
-- `impl Ord for HeapEntry`: where it is a strict order and where it is not.
use flashq.Prelude.{◌<◌, ◌≡◌, Ordering, true, false, arith}
use flashq.Ipq.{HeapEntry, cmp}

-- Among entries with one `lifo` flag, an entry greater than a second that is greater than a third is
-- greater than the third; entries compare as equal only if they have one id.
pub cmp_trans :
    (a b c : HeapEntry)
    → a.lifo ≡ b.lifo
    → b.lifo ≡ c.lifo
    → cmp a b ≡ Ordering.gt
    → cmp b c ≡ Ordering.gt
    → cmp a c ≡ Ordering.gt
unfolding cmp
cmp_trans a b c l m h k = ground arith

pub cmp-eq_ids : (a b : HeapEntry) → cmp a b ≡ Ordering.eq → a.job_id ≡ b.job_id
unfolding cmp
cmp-eq_ids a b h = ground arith

-- Whenever a LIFO job lies between two FIFO jobs by id, with one priority and one `run_at`, the
-- three entries form a cycle: each is greater than the next.
pub cmp_cycle :
    (old lifo new : HeapEntry)
    → old.priority ≡ lifo.priority
    → lifo.priority ≡ new.priority
    → old.run_at ≡ lifo.run_at
    → lifo.run_at ≡ new.run_at
    → old.lifo ≡ false
    → lifo.lifo ≡ true
    → new.lifo ≡ false
    → old.job_id < lifo.job_id
    → lifo.job_id < new.job_id
    → (cmp old new ≡ Ordering.gt) × (cmp new lifo ≡ Ordering.gt) × (cmp lifo old ≡ Ordering.gt)
unfolding cmp
cmp_cycle old lifo new p q r s f g h i j = ground arith
