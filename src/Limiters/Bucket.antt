-- ===== src/Limiters/Bucket.antt =====
-- The promise of the token bucket over any run of calls.
use flashq.Prelude.{ℕ, suc, ◌+◌, List, [], ◌∷◌, if◌then◌else◌}
use flashq.Limiters.{RateLimiter, try_token}

abbrev pub sum : List ℕ → ℕ
sum [] = 0
sum (d ∷ ds) = d + sum ds

-- The grants among calls of which each comes `d` milliseconds after the one before.
unfoldable pub grants : RateLimiter → List ℕ → ℕ
grants l [] = 0
grants l (d ∷ ds) =
    let (l', granted) = try_token l (l.last_update + d) in
    let rest = grants l' ds in if granted then suc rest else rest
