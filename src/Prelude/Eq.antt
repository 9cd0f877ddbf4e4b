-- ===== src/Prelude/Eq.antt =====
-- Equality of keys as an interface: Rust's `Eq` where the source uses it for map and set keys.
use Prim.Native.Nat.{ℕ}
use Prim.Native.String.{String}
use mathlib.Core.Path.{◌≡◌, refl, ap}
use mathlib.Core.Logic.{◌↔◌, inl, inr}
use mathlib.Core.Bool.{Bool, true, false, ◌||◌}
use mathlib.Core.List.{List, [], ◌∷◌}
use native.Mathlib.Omega.{arith}
use text.Mathlib.Text.{◌==◌ as str_eq}
use text.Mathlib.TextEquality.{eq_iff}
use flashq.Prelude.Tests.{nat_beq, nat_beq_iff, Bool-cases, if◌then◌else◌}

pub record KeyEq {ℓ} (A : Type ℓ) : Type ℓ where
  pub test : A → A → Bool
  pub test_iff : (x y : A) → (test x y ≡ true) ↔ (x ≡ y)

instance abbrev pub string_eq : KeyEq String
string_eq = record { test = str_eq; test_iff = eq_iff }

instance abbrev pub nat_eq : KeyEq ℕ
nat_eq = record { test = nat_beq; test_iff = nat_beq_iff }

infix 50 ◌==◌
abbrev pub ◌==◌ {ℓ} : {A : Type ℓ} ⦃e : KeyEq A⦄ → A → A → Bool
◌==◌ ⦃e⦄ = e.test

module _ {ℓ} {A : Type ℓ} ⦃e : KeyEq A⦄ where
  pub beq_refl : (a : A) → (a == a) ≡ true
  beq_refl a = (e.test_iff a a).1 refl

  -- A hash set as a list without order: `contains`, `insert` and `remove` of `HashSet`.
  unfoldable pub contains : List A → A → Bool
  contains [] a = false
  contains (x ∷ xs) a = (x == a) || contains xs a

  unfoldable pub set_insert : List A → A → List A
  set_insert xs a = if contains xs a then xs else a ∷ xs

  unfoldable pub set_remove : List A → A → List A
  set_remove [] a = []
  set_remove (x ∷ xs) a = let rest = set_remove xs a in if x == a then rest else x ∷ rest

  pub contains-set_insert :
      (xs : List A) (a b : A) → contains (set_insert xs a) b ≡ ((a == b) || contains xs b)
  unfolding contains set_insert
  contains-set_insert xs a b = elim (Bool-cases (a == b)) [
    | inl same ↦ ground (arith, (e.test_iff a b).0 same, ap (contains xs) ((e.test_iff a b).0 same))
    | inr other ↦ ground arith
  ]

  pub contains-set_remove :
      (xs : List A) (a b : A)
      → contains (set_remove xs a) b ≡ (if a == b then false else contains xs b)
  unfolding contains set_remove
  contains-set_remove [] a b = ground arith
  contains-set_remove (x ∷ xs) a b =
      ground (arith, contains-set_remove xs a b, e.test_iff x a, e.test_iff x b, e.test_iff a b)
