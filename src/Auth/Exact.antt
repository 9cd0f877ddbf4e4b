-- ===== src/Auth/Exact.antt =====
-- engine/src/queue/manager.rs: which tokens `verify_token` lets in.
use Prim.Native.Nat.{bit_xor, bit_or, digits, bit_xor-bitwise, bit_or-bitwise, max, differ}
use flashq.Prelude.{
  false-true, ℕ, zero, suc, ◌/◌, ◌%◌, ◌≤◌, ◌≡◌, ◌↔◌, ◌⊎◌, inl, inr, refl, sym, ap, subst, ◌∙◌, true,
  false, List, [], ◌∷◌, arith, length, nat_beq, Bool-cases,
}
use flashq.Auth.{collect_diff, constant_time_eq, any_token, verify_token}

max_zero : (x y : ℕ) → max x y ≡ 0 → (x ≡ 0) × (y ≡ 0)
max_zero x y h = (omega (arith, h), omega (arith, h))

differ_zero : (x y : ℕ) → differ x y ≡ 0 → x ≡ y
differ_zero zero y h = sym h
differ_zero (suc x) zero h = h
differ_zero (suc x) (suc y) h = ap suc (differ_zero x y h)

differ_self : (x : ℕ) → differ x x ≡ 0
differ_self zero = refl
differ_self (suc x) = differ_self x

-- The digits of two numbers, taken together, are all zero only if both numbers are zero, or equal.
or_digits_zero : (n a b : ℕ) → a ≤ n → digits (λ c. c) max n a b ≡ 0 → (a ≡ 0) × (b ≡ 0)
or_digits_zero zero zero b le h = (refl, h)
or_digits_zero zero (suc a) b le h = absurd (omega arith)
or_digits_zero (suc n) zero b le h = (refl, h)
or_digits_zero (suc n) (suc a) b le h =
    let high : digits (λ c. c) max n (suc a / 2) (b / 2) ≡ 0 = omega (arith, h) in
    let low = max_zero (suc a % 2) (b % 2) (omega (arith, h)) in
    let (p, q) = or_digits_zero n (suc a / 2) (b / 2) (omega arith) high in
    (omega (arith, p, low.0), omega (arith, q, low.1))

xor_digits_zero : (n a b : ℕ) → a ≤ n → digits (λ c. c) differ n a b ≡ 0 → a ≡ b
xor_digits_zero zero zero b le h = sym h
xor_digits_zero zero (suc a) b le h = absurd (omega arith)
xor_digits_zero (suc n) zero b le h = sym h
xor_digits_zero (suc n) (suc a) b le h =
    let high : digits (λ c. c) differ n (suc a / 2) (b / 2) ≡ 0 = omega (arith, h) in
    let low = differ_zero (suc a % 2) (b % 2) (omega (arith, h)) in
    omega (arith, xor_digits_zero n (suc a / 2) (b / 2) (omega arith) high, low)

xor_digits_self : (n a : ℕ) → a ≤ n → digits (λ c. c) differ n a a ≡ 0
xor_digits_self zero zero le = refl
xor_digits_self zero (suc a) le = absurd (omega arith)
xor_digits_self (suc n) zero le = refl
xor_digits_self (suc n) (suc a) le =
    omega (arith, xor_digits_self n (suc a / 2) (omega arith), differ_self (suc a % 2))

or_zero : (a b : ℕ) → bit_or a b ≡ 0 → (a ≡ 0) × (b ≡ 0)
or_zero a b h = or_digits_zero a a b (omega arith) (sym (bit_or-bitwise a b) ∙ h)

xor_zero : (a b : ℕ) → bit_xor a b ≡ 0 → a ≡ b
xor_zero a b h = xor_digits_zero a a b (omega arith) (sym (bit_xor-bitwise a b) ∙ h)

xor_self : (a : ℕ) → bit_xor a a ≡ 0
xor_self a = bit_xor-bitwise a a ∙ xor_digits_self a a (omega arith)

-- The collected difference is zero only if it was and the bytes are the same.
collect_diff_zero :
    (acc : ℕ) (a b : List ℕ) → length a ≡ length b → collect_diff acc a b ≡ 0 → (acc ≡ 0) × (a ≡ b)
unfolding collect_diff
collect_diff_zero acc [] [] len h = (h, refl)
collect_diff_zero acc [] (y ∷ b) len h = absurd (omega (arith, len))
collect_diff_zero acc (x ∷ a) [] len h = absurd (omega (arith, len))
collect_diff_zero acc (x ∷ a) (y ∷ b) len h =
    let (none_yet, rest) =
      collect_diff_zero (bit_or acc (bit_xor x y)) a b (omega (arith, len)) h in
    let (p, q) = or_zero acc (bit_xor x y) none_yet in
    (p, ap (λ z. z ∷ a) (xor_zero x y q) ∙ ap (λ z. y ∷ z) rest)

collect_diff_self : (a : List ℕ) → collect_diff 0 a a ≡ 0
unfolding collect_diff
collect_diff_self [] = refl
collect_diff_self (x ∷ a) = rw (xor_self x) (collect_diff_self a)

nat_beq_self : (n : ℕ) → nat_beq n n ≡ true
nat_beq_self n = ground arith

-- `constant_time_eq` is equality of byte strings.
constant_time_eq_iff : (a b : List ℕ) → (constant_time_eq a b ≡ true) ↔ (a ≡ b)
unfolding constant_time_eq
constant_time_eq_iff a b = (
  λ h. elim (Bool-cases (nat_beq (length a) (length b))) [
    | inl same ↦ (collect_diff_zero 0 a b (ground (arith)) (ground (arith))).1
    | inr other ↦ absurd (ground (arith))
  ],
  λ p.
      subst (λ z. constant_time_eq a z ≡ true) p
        (rw (nat_beq_self (length a)) (rw (collect_diff_self a) refl)),
)

-- The token is one of the list.
abbrev pub IsMember : List ℕ → List (List ℕ) → Type 0
IsMember token [] = ⊥
IsMember token (valid ∷ tokens) = (token ≡ valid) ⊎ IsMember token tokens

any_token_found : (tokens : List (List ℕ)) (token : List ℕ) → any_token true tokens token ≡ true
unfolding any_token
any_token_found [] token = refl
any_token_found (valid ∷ tokens) token = any_token_found tokens token

any_token_iff :
    (tokens : List (List ℕ)) (token : List ℕ)
    → (any_token false tokens token ≡ true) ↔ IsMember token tokens
unfolding any_token
any_token_iff [] token = (λ h. false-true h refl, λ m. absurd m)
any_token_iff (valid ∷ tokens) token = elim (Bool-cases (constant_time_eq token valid)) [
  | inl same ↦ (
    λ _. inl ((constant_time_eq_iff token valid).0 same),
    λ _. rw (same, any_token) (any_token_found tokens token),
  )
  | inr other ↦ (
    λ h. inr ((any_token_iff tokens token).0 (rw (other, any_token) at h)),
    λ m.
        rw (other, any_token)
          (elim m [
            | inl p ↦ absurd (false-true ((constant_time_eq_iff token valid).1 p) other)
            | inr later ↦ (any_token_iff tokens token).1 later
          ]),
  )
]

-- With no token configured `verify_token` lets every token in; with some, it lets in exactly those
-- that are one of them, byte for byte.
pub verify_token_exact :
    (first : List ℕ) (tokens : List (List ℕ)) (token : List ℕ)
    → (verify_token [] token ≡ true)
      × ((verify_token (first ∷ tokens) token ≡ true) ↔ IsMember token (first ∷ tokens))
unfolding verify_token
verify_token_exact first tokens token = (refl, any_token_iff (first ∷ tokens) token)
