-- ===== src/Dict/Unique.antt =====
-- Dictionaries with one entry for each key, and what filtering one leaves.
use flashq.Prelude.{
  ◌≡◌, refl, sym, ap, ◌∙◌, ◌↔◌, inl, inr, Bool-cases, Bool, false, Option, none, some, [], ◌∷◌,
  arith, KeyEq, ◌==◌, if◌then◌else◌, filter, contains,
}
use flashq.Dict.{Dict, get, insert, remove, retain, keys}
use flashq.Dict.Laws.{get-insert, get-remove}

-- What a test leaves of an entry.
abbrev pub keep_if {ℓ} : {V : Type ℓ} → (V → Bool) → Option V → Option V
keep_if f none = none
keep_if f (some v) = if f v then some v else none

module _ {ℓ κ} {K : Type ℓ} {V : Type κ} ⦃e : KeyEq K⦄ where
  -- No entry is behind another of the same key.
  abbrev pub Unique : Dict K V → Type κ
  Unique [] = Unit
  Unique ((k, v) ∷ d) = (get d k ≡ none) × Unique d

  pub insert-Unique : (d : Dict K V) (k : K) (v : V) → Unique d → Unique (insert d k v)
  unfolding insert get
  insert-Unique [] k v u = (refl, tt)
  insert-Unique ((i, w) ∷ d) k v u = elim (Bool-cases (i == k)) [
    | inl same ↦ rw same (rw (sym ((e.test_iff i k).0 same)) u)
    | inr other ↦ rw other (
      get-insert d k i v ∙ ground (arith, e.test_iff i k, e.test_iff k i, u.0),
      insert-Unique d k v u.1,
    )
  ]

  pub remove-Unique : (d : Dict K V) (k : K) → Unique d → Unique (remove d k)
  unfolding remove get
  remove-Unique [] k u = tt
  remove-Unique ((i, w) ∷ d) k u = elim (Bool-cases (i == k)) [
    | inl same ↦ rw same (remove-Unique d k u.1)
    | inr other ↦ rw other (get-remove d k i ∙ ground (arith, u.0), remove-Unique d k u.1)
  ]

  get-filter-none :
      (p : K × V → Bool) (d : Dict K V) (k : K) → get d k ≡ none → get (filter p d) k ≡ none
  unfolding get filter
  get-filter-none p [] k h = refl
  get-filter-none p ((i, w) ∷ d) k h = ground (arith, get-filter-none p d k)

  -- A lookup after `retain`.
  pub get-retain :
      (f : K → V → Bool) (d : Dict K V) (k : K)
      → Unique d
      → get (retain f d) k ≡ keep_if (f k) (get d k)
  unfolding get filter
  get-retain f [] k u = refl
  get-retain f ((i, w) ∷ d) k u = elim (Bool-cases (i == k)) [
    | inl same ↦
        let p : i ≡ k = (e.test_iff i k).0 same in
        let gone : get d k ≡ none = ap (get d) (sym p) ∙ u.0 in
        ground (arith, same, ap (λ x. f x w) p, get-filter-none (λ x. f x.0 x.1) d k gone)
    | inr other ↦ ground (arith, other, get-retain f d k u.1)
  ]

  pub contains-keys : (d : Dict K V) (k : K) → (contains (keys d) k ≡ false) ↔ (get d k ≡ none)
  unfolding contains get
  contains-keys [] k = (λ h. refl, λ h. refl)
  contains-keys ((i, w) ∷ d) k = ground (arith, contains-keys d k)

  pub filter-Unique : (p : K × V → Bool) (d : Dict K V) → Unique d → Unique (filter p d)
  unfolding filter
  filter-Unique p [] u = tt
  filter-Unique p ((i, w) ∷ d) u = elim (Bool-cases (p (i, w))) [
    | inl keep ↦ rw keep (get-filter-none p d i u.0, filter-Unique p d u.1)
    | inr drop ↦ rw drop (filter-Unique p d u.1)
  ]
