-- ===== src/Prelude/Doubles/Bounds.antt =====
-- How far rounding can raise a result.
use Prim.Native.Nat.{ℕ, zero, suc, ◌+◌, ◌*◌, ◌/◌, ◌%◌, ◌^◌, ◌≤◌}
use mathlib.Core.Path.{◌≡◌, refl}
use mathlib.Core.Bool.{Bool, true, false, ◌&&◌, ◌||◌}
use mathlib.Core.Logic.{inl, inr}
use native.Mathlib.Omega.{arith, pow_step, div_any}
use flashq.Prelude.Tests.{ltb, nat_beq, Bool-cases, if◌then◌else◌}
use flashq.Prelude.Doubles.{excess, round_by, round_ratio}

twice : (den k p : ℕ) → p ≡ 2 * k → den * 2 * k ≡ den * p
twice den k p e = rw e (omega arith)

-- The step of the grid is at most 2^-52 of the quotient, where there are digits to drop.
excess_large :
    (fuel num den : ℕ) → den * 2 ^ 52 ≤ num → 2 ^ 52 * (den * 2 ^ excess fuel num den) ≤ num
unfolding excess
excess_large zero num den h = omega (arith, h)
excess_large (suc fuel) num den h = elim (Bool-cases (ltb num (den * 2 ^ 53))) [
  | inl small ↦ rw (small, excess) (omega (arith, h))
  | inr large ↦
      let enough : den * 2 * 2 ^ 52 ≤ num = ground arith in
      let ih = excess_large fuel num (den * 2) enough in
      rw (large, excess)
        (omega (
          arith,
          ih,
          twice den (2 ^ excess fuel num (den * 2)) (2 ^ suc (excess fuel num (den * 2)))
              (pow_step 2 (excess fuel num (den * 2))),
        ))
]

excess_step : (fuel num den : ℕ) → 2 ^ 52 * (den * 2 ^ excess fuel num den) ≤ 2 ^ 52 * den + num
unfolding excess
excess_step zero num den = omega arith
excess_step (suc fuel) num den = elim (Bool-cases (ltb num (den * 2 ^ 53))) [
  | inl small ↦ rw (small, excess) (omega arith)
  | inr large ↦
      let enough : den * 2 ^ 52 ≤ num = ground arith in
      let all = excess_large (suc fuel) num den enough in omega (arith, all)
]

-- A quotient rounded to a grid is at most half a step above.
rounded :
    (num step : ℕ) (up : Bool)
    → (up ≡ true → step ≤ 2 * (num % step))
    → 2 * ((if up then num / step + 1 else num / step) * step) ≤ 2 * num + step
rounded num step true half =
    let whole = div_any num step in let h = half refl in omega (arith, whole, h)
rounded num step false half = let whole = div_any num step in omega (arith, whole)

round_by-le : (num den scale : ℕ) → 2 * (round_by num den scale * den) ≤ 2 * num + den * scale
unfolding round_by
round_by-le num den scale =
    let step = den * scale in
    let rest = num % step in
    let up = ltb step (2 * rest) || (nat_beq (2 * rest) step && nat_beq (num / step % 2) 1) in
    let q = if up then num / step + 1 else num / step in
    let r = rounded num step up (λ h. ground (arith, h)) in
    let assoc : q * scale * den ≡ q * step = omega arith in omega (arith, r, assoc)

-- Rounding raises a quotient by at most one part in 2^53 and half a count.
pub round_ratio-le :
    (num den : ℕ) → 2 ^ 53 * (round_ratio num den * den) ≤ (2 ^ 53 + 1) * num + 2 ^ 52 * den
unfolding round_ratio
round_ratio-le num den =
    let r = round_by-le num den (2 ^ excess 128 num den) in
    let e = excess_step 128 num den in omega (arith, r, e)
