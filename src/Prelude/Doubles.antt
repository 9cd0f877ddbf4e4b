-- ===== src/Prelude/Doubles.antt =====
-- Doubles that are not negative, as counts of 2^-62. Every value from 0.001 on is such a count, and so
-- are the sums and differences of such values; every result is rounded to 53 binary digits, to the
-- nearest and, where two are as near, to the even one, as `f64` does.
pub mod Bounds
use Prim.Native.Nat.{ℕ, zero, suc, ◌+◌, ◌-◌, ◌*◌, ◌/◌, ◌%◌, ◌^◌}
use mathlib.Core.Bool.{Bool, true, false, ◌&&◌, ◌||◌}
use flashq.Prelude.Tests.{ltb, nat_beq, if◌then◌else◌}

-- How many binary digits of the quotient are beyond 53.
unfoldable pub excess : ℕ → ℕ → ℕ → ℕ
excess zero num den = 0
excess (suc fuel) num den = elim (ltb num (den * 2 ^ 53)) [
  | true ↦ 0
  | false ↦ suc (excess fuel num (den * 2))
]

-- `num / den` to the nearest multiple of `scale`.
unfoldable pub round_by : ℕ → ℕ → ℕ → ℕ
round_by num den scale =
    let step = den * scale in
    let whole = num / step in
    let rest = num % step in
    let up = ltb step (2 * rest) || (nat_beq (2 * rest) step && nat_beq (whole % 2) 1) in
    (if up then whole + 1 else whole) * scale

-- The double nearest to `num / den` counts. Quotients here lie below 2^160.
unfoldable pub round_ratio : ℕ → ℕ → ℕ
round_ratio num den = round_by num den (2 ^ excess 128 num den)

abbrev pub one : ℕ
one = 2 ^ 62

-- `n as f64`
unfoldable pub of_u64 : ℕ → ℕ
of_u64 n = round_ratio (n * one) 1

unfoldable pub add_f64 : ℕ → ℕ → ℕ
add_f64 a b = round_ratio (a + b) 1

-- `a - b`, where `b` is not above `a`.
unfoldable pub sub_f64 : ℕ → ℕ → ℕ
sub_f64 a b = round_ratio (a - b) 1

unfoldable pub mul_f64 : ℕ → ℕ → ℕ
mul_f64 a b = round_ratio (a * b) one

-- `a / n`, by a small whole number.
unfoldable pub div_f64 : ℕ → ℕ → ℕ
div_f64 a n = round_ratio a n
