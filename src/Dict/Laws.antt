-- ===== src/Dict/Laws.antt =====
-- What a lookup finds after each change of a dictionary.
use flashq.Prelude.{
  ℕ, ◌≡◌, refl, ◌≢◌, ◌⊎◌, inl, inr, Bool-cases, Bool, true, false, not, ◌&&◌, Option, none, some,
  List, [], ◌∷◌, arith, KeyEq, ◌==◌, if◌then◌else◌, filter, beq_refl,
}
use flashq.Dict.{Dict, get, insert, remove}

module _ {ℓ κ} {K : Type ℓ} {V : Type κ} ⦃e : KeyEq K⦄ where
  pub get-insert :
      (d : Dict K V) (k j : K) (v : V) → get (insert d k v) j ≡ (if k == j then some v else get d j)
  unfolding get insert
  get-insert [] k j v = refl
  get-insert ((i, w) ∷ d) k j v =
      ground (arith, get-insert d k j v, e.test_iff i k, e.test_iff i j, e.test_iff k j)

  pub get-remove :
      (d : Dict K V) (k j : K) → get (remove d k) j ≡ (if k == j then none else get d j)
  unfolding get remove
  get-remove [] k j = ground arith
  get-remove ((i, w) ∷ d) k j =
      ground (arith, get-remove d k j, e.test_iff i k, e.test_iff i j, e.test_iff k j)

  pub get-insert_self : (d : Dict K V) (k : K) (v : V) → get (insert d k v) k ≡ some v
  get-insert_self d k v = simp (get-insert, beq_refl)

  pub get-remove_self : (d : Dict K V) (k : K) → get (remove d k) k ≡ none
  get-remove_self d k = simp (get-remove, beq_refl)

module _ {ℓ κ} {K : Type ℓ} {V : Type κ} ⦃e : KeyEq K⦄ where
  -- An entry found after an insertion is the new one or an old one under another key.
  pub get-insert-some :
      (d : Dict K V) (k j : K) (v w : V)
      → get (insert d k v) j ≡ some w
      → ((k ≡ j) × (v ≡ w)) ⊎ ((k ≢ j) × (get d j ≡ some w))
  get-insert-some d k j v w h = elim (Bool-cases (k == j)) [
    | inl same ↦ inl ((e.test_iff k j).0 same, ground (arith, get-insert d k j v))
    | inr other ↦
        inr (λ p. ground (arith, (e.test_iff k j).1 p), ground (arith, get-insert d k j v))
  ]

  pub get-remove-some :
      (d : Dict K V) (k j : K) (w : V) → get (remove d k) j ≡ some w → (k ≢ j) × (get d j ≡ some w)
  get-remove-some d k j w h = elim (Bool-cases (k == j)) [
    | inl same ↦ ground (arith, get-remove d k j)
    | inr other ↦ (λ p. ground (arith, (e.test_iff k j).1 p), ground (arith, get-remove d k j))
  ]

pub ruleset dict_laws = (get-insert, get-remove, beq_refl)
