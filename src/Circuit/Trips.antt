-- ===== src/Circuit/Trips.antt =====
-- When the circuit breaker trips, how long it refuses, and how it recovers.
use flashq.Prelude.{
  ℕ, suc, ◌+◌, ◌≤◌, ◌<◌, ◌≡◌, true, false, List, [], ◌∷◌, arith, length, leb, if◌then◌else◌,
  u32_mod, u64_mod,
}
use flashq.Circuit.{
  Entry, closed, open_, half_open, should_allow, record_success, record_failure, try_half_open,
}

-- Deliveries that fail one after the other, at the given times.
unfoldable pub fail_all : Entry → ℕ → List ℕ → Entry
fail_all c threshold [] = c
fail_all c threshold (t ∷ ts) = fail_all (record_failure c t threshold) threshold ts

failure_open :
    (c : Entry) (t threshold : ℕ) → c.state ≡ open_ → (record_failure c t threshold).state ≡ open_
unfolding record_failure
failure_open c t threshold h = ground arith

fail_all_open :
    (c : Entry) (threshold : ℕ) (ts : List ℕ)
    → c.state ≡ open_
    → (fail_all c threshold ts).state ≡ open_
unfolding fail_all
fail_all_open c threshold [] h = h
fail_all_open c threshold (t ∷ ts) h =
    fail_all_open (record_failure c t threshold) threshold ts (failure_open c t threshold h)

failure_closed :
    (c : Entry) (t threshold : ℕ)
    → c.state ≡ closed
    → suc c.failures < u32_mod
    → let d = record_failure c t threshold in
      (d.failures ≡ suc c.failures)
      × (d.state ≡ (if leb threshold (suc c.failures) then open_ else closed))
unfolding record_failure
failure_closed c t threshold h k = ground arith

-- A closed circuit under an unbroken run of failures is open after them exactly if the failures it
-- had counted and those of the run reach the threshold, and closed if not. The threshold lies above
-- the count at the start, and the counter does not wrap.
pub fail_all_trips :
    (c : Entry) (threshold : ℕ) (ts : List ℕ)
    → c.state ≡ closed
    → c.failures < threshold
    → c.failures + length ts < u32_mod
    → (fail_all c threshold ts).state
      ≡ (if leb threshold (c.failures + length ts) then open_ else closed)
unfolding fail_all
fail_all_trips c threshold [] h lt w = ground arith
fail_all_trips c threshold (t ∷ ts) h lt w = ground (
  arith,
  failure_closed c t threshold,
  fail_all_open (record_failure c t threshold) threshold ts,
  fail_all_trips (record_failure c t threshold) threshold ts,
)

-- An open circuit refuses every delivery, and stays as it is when asked to half-open, until the
-- recovery time has passed since it opened.
pub open_refuses :
    (c : Entry) (now timeout : ℕ)
    → c.state ≡ open_
    → c.opened_at + timeout < u64_mod
    → now < c.opened_at + timeout
    → (should_allow c now timeout ≡ false) × (try_half_open c now timeout ≡ (c, false))
unfolding should_allow try_half_open
open_refuses c now timeout h w lt = ground arith

-- Once the recovery time has passed, an open circuit half-opens and lets deliveries pass; two successes close it with no failure
-- counted, and a failure first, or after one success, opens it again from that time on.
pub half_open_recovers :
    (c : Entry) (now timeout later threshold : ℕ)
    → c.state ≡ open_
    → c.opened_at + timeout < u64_mod
    → c.opened_at + timeout ≤ now
    → let h = (try_half_open c now timeout).0 in
      (should_allow h now timeout ≡ true)
      × ((record_success h).state ≡ half_open)
      × ((record_success (record_success h)).state ≡ closed)
      × ((record_success (record_success h)).failures ≡ 0)
      × ((record_failure h later threshold).state ≡ open_)
      × ((record_failure h later threshold).opened_at ≡ later)
      × ((record_failure (record_success h) later threshold).state ≡ open_)
      × ((record_failure (record_success h) later threshold).opened_at ≡ later)
unfolding should_allow try_half_open record_success record_failure
half_open_recovers c now timeout later threshold h w le = ground arith
