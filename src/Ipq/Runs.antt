-- ===== src/Ipq/Runs.antt =====
-- The queue under any sequence of its operations.
use flashq.Prelude.{ℕ, Bool, List, [], ◌∷◌, nat_eq}
use flashq.Protocol.Job.{Job}
use flashq.Ipq.{Ipq, empty, push, pop, remove, update, retain, clear}
use flashq.Ipq.Invariant.{Inv, empty-Inv, push-Inv, remove-Inv, update-Inv, retain-Inv, clear-Inv}
use flashq.Ipq.Pop.{Popped, pop-Popped}

pub data Op : Type 0 where
  pushes updates : Job → Op
  pops clears : Op
  removes : ℕ → Op
  retains : (Job → Bool) → Op

unfoldable pub step : Ipq → Op → Ipq
step q (pushes job) = push q job
step q (updates job) = (update q job).1
step q pops = (pop q).1
step q clears = clear q
step q (removes id) = (remove q id).1
step q (retains f) = retain q f

unfoldable pub run : Ipq → List Op → Ipq
unfolding step
run q [] = q
run q (op ∷ ops) = run (step q op) ops

pub step-Inv : (q : Ipq) (op : Op) → Inv q → Inv (step q op)
unfolding step
step-Inv q (pushes job) v = push-Inv q job v
step-Inv q (updates job) v = update-Inv q job v
step-Inv q pops v = (pop-Popped q v).1
step-Inv q clears v = clear-Inv q
step-Inv q (removes id) v = remove-Inv q id v
step-Inv q (retains f) v = retain-Inv q f v

run_from-Inv : (q : Ipq) (ops : List Op) → Inv q → Inv (run q ops)
unfolding run
run_from-Inv q [] v = v
run_from-Inv q (op ∷ ops) v = run_from-Inv (step q op) ops (step-Inv q op v)

-- After any sequence of pushes, pops, removals, updates, `retain`s and `clear`s on a new queue, the
-- index and the heap agree: each indexed job has its entry in the heap, an entry of the index's
-- generation describes the indexed job, and all entries are older than the generation counter.
pub run-Inv : (ops : List Op) → Inv (run empty ops)
run-Inv ops = run_from-Inv empty ops empty-Inv

-- After any sequence of pushes, pops, removals, updates, `retain`s and `clear`s on a new queue, `pop` returns a job of the index that no other indexed job comes before
-- (by priority, then by `run_at`) and removes exactly that job, or it returns nothing and the index
-- is empty.
pub pop-run : (ops : List Op) → Popped (run empty ops) (pop (run empty ops))
pop-run ops = (pop-Popped (run empty ops) (run-Inv ops)).0
