-- ===== src/Cleanup/Removed.antt =====
-- What is left of a dictionary of which a list of keys was removed.
use flashq.Prelude.{
  ℕ, ◌≡◌, refl, true, none, List, [], ◌∷◌, arith, nat_eq, contains, if◌then◌else◌, All, All-map,
}
use flashq.Dict
use flashq.Dict.{Dict}
use flashq.Dict.Laws.{get-remove}
use flashq.Cleanup.{remove_keys}

pub get-remove_keys {ℓ} :
    {V : Type ℓ} (d : Dict ℕ V) (ids : List ℕ) (id : ℕ)
    → Dict.get (remove_keys d ids) id ≡ (if contains ids id then none else Dict.get d id)
unfolding remove_keys contains
get-remove_keys d [] id = refl
get-remove_keys d (gone ∷ ids) id =
    ground (arith, get-remove_keys (Dict.remove d gone) ids id, get-remove d gone id)

-- All members of a list are members.
pub contains_all : (ids : List ℕ) → All (λ id. contains ids id ≡ true) ids
unfolding contains
contains_all [] = tt
contains_all (id ∷ ids) = (
  ground (arith, nat_eq.test_iff id id),
  All-map (λ j. contains ids j ≡ true) (λ j. contains (id ∷ ids) j ≡ true) ids
      (λ j h. ground (arith, h)) (contains_all ids),
)
