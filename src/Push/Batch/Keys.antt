-- ===== src/Push/Batch/Keys.antt =====
-- engine/src/queue/push.rs: the unique keys of the jobs of a batch.
use flashq.Prelude.{
  false-true, ℕ, ◌≡◌, refl, subst, String, true, false, Option, none, some, List, [], ◌∷◌, ◌++◌,
  arith, string_eq, contains, set_insert, contains-set_insert, Bool-cases, Option-cases, inl, inr,
  All, All-append, All-map,
}
use flashq.Protocol.Builder.{JobInput}
use flashq.Push.Batch.{Registry, known_id, set_custom_id, drop_registered, register, register_all}

abbrev pub Entry : Type 0
Entry = ℕ × JobInput × ℕ

abbrev pub HasKey : Entry → String → Type 0
HasKey e key = e.1.unique_key ≡ some key

-- No two entries have one unique key.
abbrev pub Apart : Entry → Entry → Type 0
Apart a b = (key : String) → HasKey a key → HasKey b key → ⊥

abbrev pub AllApart : List Entry → Type 0
AllApart [] = Unit
AllApart (e ∷ es) = All (Apart e) es × AllApart es

AllApart-snoc :
    (es : List Entry) (e : Entry) → AllApart es → All (λ x. Apart x e) es → AllApart (es ++ e ∷ [])
AllApart-snoc [] e h k = (tt, tt)
AllApart-snoc (x ∷ es) e h k =
    (All-append (Apart x) es (e ∷ []) h.0 (k.0, tt), AllApart-snoc es e h.1 k.1)

abbrev Within : List String → Entry → Type 0
Within keys e = (key : String) → HasKey e key → contains keys key ≡ true

abbrev pub Without : List String → Entry → Type 0
Without keys e = (key : String) → HasKey e key → contains keys key ≡ false

-- What holds of the jobs to be made, where the queue had the keys `before`.
record Registered (before : List String) (keys : List String) (es : List Entry) : Type 0 where
  grown : (key : String) → contains before key ≡ true → contains keys key ≡ true
  within : All (Within keys) es
  new : All (Without before) es
  apart : AllApart es

keys-set_custom_id :
    (r : Registry) (c : Option String) (id : ℕ)
    → ((set_custom_id r c id).keys ≡ r.keys) × ((set_custom_id r c id).to_create ≡ r.to_create)
unfolding set_custom_id
keys-set_custom_id r none id = (refl, refl)
keys-set_custom_id r (some c) id = (refl, refl)

keys-drop_registered :
    (r : Registry) (c : Option String)
    → ((drop_registered r c).keys ≡ r.keys) × ((drop_registered r c).to_create ≡ r.to_create)
unfolding drop_registered
keys-drop_registered r none = (refl, refl)
keys-drop_registered r (some c) = (refl, refl)

-- A job without a key, or with a new one, is added.
add_keyless :
    (before keys : List String) (es : List Entry) (e : Entry)
    → e.1.unique_key ≡ none
    → Registered before keys es
    → Registered before keys (es ++ e ∷ [])
add_keyless before keys es e no_key v = record {
  grown = v.grown;
  within = All-append (Within keys) es (e ∷ []) v.within (λ k h. cc, tt);
  new = All-append (Without before) es (e ∷ []) v.new (λ k h. cc, tt);
  apart =
      AllApart-snoc es e v.apart
        (All-map (Within keys) (λ x. Apart x e) es (λ x w k h g. cc) v.within);
}

add_keyed :
    (before keys : List String) (es : List Entry) (e : Entry) (key : String)
    → e.1.unique_key ≡ some key
    → contains keys key ≡ false
    → Registered before keys es
    → Registered before (set_insert keys key) (es ++ e ∷ [])
add_keyed before keys es e key has free v =
    let more : (k : String) → contains keys k ≡ true → contains (set_insert keys key) k ≡ true =
      λ k h. ground (arith, contains-set_insert keys key k) in
    let own : (k : String) → HasKey e k → key ≡ k = λ k h. cc in
    record {
      grown = λ k h. more k (v.grown k h);
      within =
          All-append (Within (set_insert keys key)) es (e ∷ [])
            (All-map (Within keys) (Within (set_insert keys key)) es (λ x w k h. more k (w k h))
              v.within)
            (
              λ k h.
                  ground (arith, contains-set_insert keys key k, string_eq.test_iff key k, own k h),
              tt,
            );
      new = All-append (Without before) es (e ∷ []) v.new (
        λ k h. elim (Bool-cases (contains before k)) [
          | inl x ↦
              absurd
                (false-true (v.grown k x) (subst (λ z. contains keys z ≡ false) (own k h) free))
          | inr x ↦ x
        ],
        tt,
      );
      apart = AllApart-snoc es e v.apart (
          All-map (Within keys) (λ x. Apart x e) es
            (λ x w k h g. false-true (w k h) (subst (λ z. contains keys z ≡ false) (own k g) free))
            v.within);
    }

Registered-of :
    (before keys keys' : List String) (es es' : List Entry)
    → keys' ≡ keys
    → es' ≡ es
    → Registered before keys es
    → Registered before keys' es'
Registered-of before keys keys' es es' p q v = rw p (rw q v)

module _ (r : Registry) (i : ℕ) (input : JobInput) (id : ℕ) (before : List String)
    (v : Registered before r.keys r.to_create) where
  abbrev named : Registry
  named = set_custom_id r input.job_id id

  named-Registered : Registered before named.keys named.to_create
  named-Registered =
      let (p, q) = keys-set_custom_id r input.job_id id in
      Registered-of before r.keys named.keys r.to_create named.to_create p q v

  register-Registered :
      Registered before (register r i input id).keys (register r i input id).to_create
  unfolding register
  register-Registered = elim (Option-cases (known_id r input.job_id)) [
    | inr (existing, e) ↦ rw (e, register) v
    | inl e ↦ elim (Option-cases input.unique_key) [
      | inl k ↦
          rw (e, register)
            (rw (k, register)
              (add_keyless before named.keys named.to_create (i, input, id) k named-Registered))
      | inr (key, k) ↦ elim (Bool-cases (contains named.keys key)) [
        | inl dup ↦
            let (p, q) = keys-drop_registered named input.job_id in
            rw (e, register)
              (rw (k, register)
                (rw (dup, register)
                  (Registered-of before named.keys _ named.to_create _ p q named-Registered)))
        | inr free ↦
            rw (e, register)
              (rw (k, register)
                (rw (free, register)
                  (add_keyed before named.keys named.to_create (i, input, id) key k free
                    named-Registered)))
      ]
    ]
  ]

register_all-Registered :
    (before : List String) (inputs : List (ℕ × JobInput)) (ids : List ℕ) (r : Registry)
    → Registered before r.keys r.to_create
    → Registered before (register_all r inputs ids).keys (register_all r inputs ids).to_create
unfolding register_all
register_all-Registered before [] ids r v = v
register_all-Registered before (_ ∷ _) [] r v = v
register_all-Registered before ((i, input) ∷ inputs) (id ∷ ids) r v =
    register_all-Registered before inputs ids (register r i input id)
      (register-Registered r i input id before v)

-- Of the jobs that `push_batch` registers to be made, no two have one unique key, and none has a key
-- that the queue had taken before the batch. Nothing is registered at the start.
pub register_all_keys :
    (r : Registry) (inputs : List (ℕ × JobInput)) (ids : List ℕ)
    → r.to_create ≡ []
    → AllApart (register_all r inputs ids).to_create
      × All (Without r.keys) (register_all r inputs ids).to_create
register_all_keys r inputs ids e =
    let v = register_all-Registered r.keys inputs ids r (
      Registered-of r.keys r.keys r.keys [] r.to_create refl e
        (record { grown = λ k h. h; within = tt; new = tt; apart = tt })) in
    (v.apart, v.new)
