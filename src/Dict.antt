-- ===== src/Dict.antt =====
-- `HashMap` and `DashMap` of engine/src/queue: a dictionary as a list of entries. An insertion
-- replaces the entry with an equal key in place. Iteration follows the list; no theorem depends
-- on that order.
pub mod Laws
pub mod Unique
use flashq.Prelude.{
  ℕ, Bool, true, false, not, Option, none, some, List, [], ◌∷◌, map, filter, length, KeyEq, ◌==◌,
  if◌then◌else◌,
}

abbrev pub Dict {ℓ κ} : Type ℓ → Type κ → Type (ℓ ⊔ κ)
Dict K V = List (K × V)

module _ {ℓ κ} {K : Type ℓ} {V : Type κ} ⦃e : KeyEq K⦄ where
  -- `map.get(&k).cloned()`
  unfoldable pub get : Dict K V → K → Option V
  get [] k = none
  get ((j, v) ∷ d) k = let rest = get d k in if j == k then some v else rest

  -- `map.insert(k, v)`
  unfoldable pub insert : Dict K V → K → V → Dict K V
  insert [] k v = (k, v) ∷ []
  insert ((j, w) ∷ d) k v = let rest = insert d k v in if j == k then (k, v) ∷ d else (j, w) ∷ rest

  -- `map.remove(&k)`, the map that it leaves
  unfoldable pub remove : Dict K V → K → Dict K V
  remove [] k = []
  remove ((j, w) ∷ d) k = let rest = remove d k in if j == k then rest else (j, w) ∷ rest

  -- `map.get(&k).unwrap_or(default)`, and the value that `entry(k).or_default()` refers to
  abbrev pub get_or : Dict K V → K → V → V
  get_or d k v = elim (get d k) [ none ↦ v | some w ↦ w ]

  abbrev pub contains_key : Dict K V → K → Bool
  contains_key d k = elim (get d k) [ none ↦ false | some _ ↦ true ]

module _ {ℓ κ} {K : Type ℓ} {V : Type κ} where
  -- `map.values()`, `map.keys()`, `map.len()` and `map.retain(f)`
  abbrev pub values : Dict K V → List V
  values = map (λ p. p.1)

  abbrev pub keys : Dict K V → List K
  keys = map (λ p. p.0)

  abbrev pub retain : (K → V → Bool) → Dict K V → Dict K V
  retain f = filter (λ p. f p.0 p.1)
