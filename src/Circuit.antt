-- ===== src/Circuit.antt =====
-- engine/src/queue/types/misc.rs: the circuit breaker that guards the deliveries to a webhook.
pub mod Trips
use flashq.Prelude.{ℕ, suc, ◌+◌, Bool, true, false, leb, if◌then◌else◌, add_u64, add_u32}

pub data CircuitState : Type 0 where
  closed open_ half_open : CircuitState

pub record Entry : Type 0 where
  pub state : CircuitState
  pub failures : ℕ
  pub successes : ℕ
  pub last_failure_at : ℕ
  pub opened_at : ℕ

unfoldable pub new_entry : Entry
new_entry = record {
  state = closed;
  failures = 0;
  successes = 0;
  last_failure_at = 0;
  opened_at = 0;
}

unfoldable pub should_allow_in : CircuitState → Entry → ℕ → ℕ → Bool
should_allow_in closed c now timeout = true
should_allow_in half_open c now timeout = true
should_allow_in open_ c now timeout = leb (add_u64 c.opened_at timeout) now

unfoldable pub should_allow : Entry → ℕ → ℕ → Bool
unfolding should_allow_in
should_allow c now timeout = should_allow_in c.state c now timeout

unfoldable pub record_success_in : CircuitState → Entry → Entry
record_success_in closed c = record c { failures = 0 }
record_success_in half_open c =
    let s = add_u32 c.successes 1 in
    if leb 2 s
    then record c { state = closed; failures = 0; successes = 0 }
    else record c { successes = s }
record_success_in open_ c = c

unfoldable pub record_success : Entry → Entry
unfolding record_success_in
record_success c = record_success_in c.state c

-- The `match` of `record_failure`, on an entry whose failure is already counted.
unfoldable pub record_failure_in : CircuitState → Entry → ℕ → ℕ → Entry
record_failure_in closed c now threshold =
    if leb threshold c.failures then record c { state = open_; opened_at = now } else c
record_failure_in half_open c now threshold = record c {
  state = open_;
  opened_at = now;
  successes = 0;
}
record_failure_in open_ c now threshold = record c { opened_at = now }

unfoldable pub record_failure : Entry → ℕ → ℕ → Entry
unfolding record_failure_in
record_failure c now threshold =
    record_failure_in c.state (record c { failures = add_u32 c.failures 1; last_failure_at = now })
      now threshold

abbrev is_open : CircuitState → Bool
is_open open_ = true
is_open _ = false

unfoldable pub try_half_open : Entry → ℕ → ℕ → Entry × Bool
try_half_open c now timeout =
    if is_open c.state
    then (if leb (add_u64 c.opened_at timeout) now
        then (record c { state = half_open; successes = 0 }, true)
        else (c, false))
    else (c, false)
