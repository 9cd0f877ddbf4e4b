-- ===== src/Limiters/Slots.antt =====
-- The promise of the concurrency limiter over any run of calls.
use flashq.Prelude.{ℕ, suc, ◌+◌, ◌≤◌, ◌≡◌, refl, List, [], ◌∷◌, arith, if◌then◌else◌}
use flashq.Limiters.{ConcurrencyLimiter, new_concurrency, try_slot, release}

pub data Call : Type 0 where
  acquires releases : Call

-- The grants, the releases and the limiter after a run of calls.
pub record Tally : Type 0 where
  pub limiter : ConcurrencyLimiter
  pub granted : ℕ
  pub released : ℕ

unfoldable pub count_call : Tally → Call → Tally
count_call t acquires =
    let (c, ok) = try_slot t.limiter in
    record { limiter = c; granted = if ok then suc t.granted else t.granted; released = t.released }
count_call t releases = record t { limiter = release t.limiter; released = suc t.released }

unfoldable pub run : Tally → List Call → Tally
unfolding count_call
run t [] = t
run t (c ∷ cs) = run (count_call t c) cs

record Inv (limit : ℕ) (t : Tally) : Type 0 where
  same : t.limiter.limit ≡ limit
  within : t.limiter.current ≤ limit
  paid : t.granted ≤ t.limiter.current + t.released

count_call-Inv : (limit : ℕ) (t : Tally) (c : Call) → Inv limit t → Inv limit (count_call t c)
unfolding count_call try_slot release
count_call-Inv limit t acquires v = ground arith
count_call-Inv limit t releases v = ground arith

run-Inv : (limit : ℕ) (t : Tally) (cs : List Call) → Inv limit t → Inv limit (run t cs)
unfolding run
run-Inv limit t [] v = v
run-Inv limit t (c ∷ cs) v = run-Inv limit (count_call t c) cs (count_call-Inv limit t c v)

abbrev pub fresh : ℕ → Tally
fresh limit = record { limiter = new_concurrency limit; granted = 0; released = 0 }

-- From a new limiter, after any run of acquisitions and releases, the slots in use stay within the
-- limit, and the grants are no more than the limit and the releases together.
pub granted-run :
    (limit : ℕ) (cs : List Call)
    → let t = run (fresh limit) cs in (t.limiter.current ≤ limit) × (t.granted ≤ limit + t.released)
unfolding new_concurrency
granted-run limit cs =
    let v =
      run-Inv limit (fresh limit) cs
        (record { same = refl; within = omega arith; paid = omega arith }) in
    (v.within, omega arith)
