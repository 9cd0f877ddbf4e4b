-- ===== src/Limiters.antt =====
-- engine/src/queue/types/limiters.rs: the token bucket, the concurrency limiter and a queue's
-- state. The bucket's `f64` tokens are doubles as in Prelude/Doubles, with their rounding.
pub mod Bucket
pub mod Slots
use flashq.Prelude.Doubles.{one, of_u64, add_f64, sub_f64, mul_f64, div_f64}
use flashq.Prelude.{ℕ, ◌+◌, ◌-◌, ◌*◌, Bool, true, false, Option, none, min, ltb, leb, if◌then◌else◌}

pub record RateLimiter : Type 0 where
  pub limit : ℕ
  pub tokens : ℕ  -- a double
  pub last_update : ℕ

unfoldable pub new_rate : ℕ → ℕ → RateLimiter
unfolding of_u64
new_rate limit now = record { limit = limit; tokens = of_u64 limit; last_update = now }

-- `RateLimiter::try_acquire` at the time `now`; `saturating_sub` is `-` on ℕ.
unfoldable pub try_token : RateLimiter → ℕ → RateLimiter × Bool
unfolding of_u64 add_f64 sub_f64 mul_f64 div_f64
try_token l now =
    let elapsed = div_f64 (of_u64 (now - l.last_update)) 1000 in
    let tokens = min (add_f64 l.tokens (mul_f64 elapsed (of_u64 l.limit))) (of_u64 l.limit) in
    if leb one tokens
    then (record l { tokens = sub_f64 tokens one; last_update = now }, true)
    else (record l { tokens = tokens; last_update = now }, false)

pub record ConcurrencyLimiter : Type 0 where
  pub limit : ℕ
  pub current : ℕ

unfoldable pub new_concurrency : ℕ → ConcurrencyLimiter
new_concurrency limit = record { limit = limit; current = 0 }

-- `ConcurrencyLimiter::try_acquire`; below the `u32` limit the sum does not wrap.
unfoldable pub try_slot : ConcurrencyLimiter → ConcurrencyLimiter × Bool
try_slot c =
    if ltb c.current c.limit then (record c { current = c.current + 1 }, true) else (c, false)

unfoldable pub release : ConcurrencyLimiter → ConcurrencyLimiter
release c = record c { current = c.current - 1 }

pub record QueueState : Type 0 where
  pub paused : Bool
  pub rate_limiter : Option RateLimiter
  pub concurrency : Option ConcurrencyLimiter

abbrev pub new_state : QueueState
new_state = record { paused = false; rate_limiter = none; concurrency = none }
