-- ===== src/Auth.antt =====
-- engine/src/queue/manager.rs: `constant_time_eq` and `verify_token`, on the bytes of the tokens.
pub mod Exact
use Prim.Native.Nat.{bit_xor, bit_or}
use flashq.Prelude.{ℕ, Bool, true, false, not, ◌||◌, List, [], ◌∷◌, length, nat_beq, if◌then◌else◌}

-- The loop: the differences of all bytes are collected in one.
unfoldable pub collect_diff : ℕ → List ℕ → List ℕ → ℕ
collect_diff result [] b = result
collect_diff result (x ∷ a) [] = result
collect_diff result (x ∷ a) (y ∷ b) = collect_diff (bit_or result (bit_xor x y)) a b

unfoldable pub constant_time_eq : List ℕ → List ℕ → Bool
unfolding collect_diff
constant_time_eq a b =
    if nat_beq (length a) (length b) then nat_beq (collect_diff 0 a b) 0 else false

-- The loop over the tokens does not stop at a match.
unfoldable pub any_token : Bool → List (List ℕ) → List ℕ → Bool
unfolding constant_time_eq
any_token found [] token = found
any_token found (valid ∷ tokens) token =
    any_token (found || constant_time_eq token valid) tokens token

unfoldable pub verify_token : List (List ℕ) → List ℕ → Bool
unfolding any_token
verify_token [] token = true
verify_token (t ∷ tokens) token = any_token false (t ∷ tokens) token
