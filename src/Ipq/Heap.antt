-- ===== src/Ipq/Heap.antt =====
-- The binary heap of indexed_priority_queue.rs seen as a list: what `pop` takes out and leaves.
use flashq.Prelude.{
  suc, ◌≤◌, ◌≡◌, refl, ap, ◌⊎◌, inl, inr, Ordering, ◌≤ℤ◌, List, [], ◌∷◌, arith, length,
}
use flashq.Ipq.{HeapEntry, cmp, pop_from}

abbrev pub In : HeapEntry → List HeapEntry → Type 0
In e [] = ⊥
In e (x ∷ xs) = (e ≡ x) ⊎ In e xs

-- `y` comes no later than `x`: by priority, and by `run_at` where the priorities agree.
pub record Outranks (y x : HeapEntry) : Type 0 where
  pub priority : x.priority ≤ℤ y.priority
  pub run_at : y.priority ≤ℤ x.priority → y.run_at ≤ x.run_at

pub Outranks-refl : (x : HeapEntry) → Outranks x x
Outranks-refl x = omega arith

pub Outranks-trans : {x y z : HeapEntry} → Outranks z y → Outranks y x → Outranks z x
Outranks-trans p q = record {
  priority = omega arith;
  run_at = λ h. omega (arith, p.run_at (omega arith), q.run_at (omega arith));
}

pub Outranks-of_gt : (x y : HeapEntry) → cmp x y ≡ Ordering.gt → Outranks x y
unfolding cmp
Outranks-of_gt x y h = ground arith

pub Outranks-of_lt : (x y : HeapEntry) → cmp x y ≡ Ordering.lt → Outranks y x
unfolding cmp
Outranks-of_lt x y h = ground arith

pub Outranks-of_eq : (x y : HeapEntry) → cmp x y ≡ Ordering.eq → Outranks y x
unfolding cmp
Outranks-of_eq x y h = ground arith

-- The two ways a round of the walk goes.
abbrev Walk : HeapEntry → HeapEntry → List HeapEntry → HeapEntry × List HeapEntry → Type 0
Walk best e es r =
    ((cmp e best ≡ Ordering.gt) × (r ≡ ((pop_from e es).0, best ∷ (pop_from e es).1)))
    ⊎ (Outranks best e × (r ≡ ((pop_from best es).0, e ∷ (pop_from best es).1)))

Ordering-cases : (o : Ordering) → (o ≡ Ordering.gt) ⊎ ((o ≡ Ordering.lt) ⊎ (o ≡ Ordering.eq))
Ordering-cases Ordering.gt = inl refl
Ordering-cases Ordering.lt = inr (inl refl)
Ordering-cases Ordering.eq = inr (inr refl)

pop_from-Walk : (best e : HeapEntry) (es : List HeapEntry) → Walk best e es (pop_from best (e ∷ es))
unfolding pop_from
pop_from-Walk best e es = elim (Ordering-cases (cmp e best)) [
  | inl c ↦ inl (c, rw (c, pop_from))
  | inr (inl c) ↦ inr (Outranks-of_lt e best c, rw (c, pop_from))
  | inr (inr c) ↦ inr (Outranks-of_eq e best c, rw (c, pop_from))
]

pop_from-nil : (best : HeapEntry) → pop_from best [] ≡ (best, [])
unfolding pop_from
pop_from-nil best = refl

-- What the walk takes out outranks every entry.
pub pop_from-Outranks :
    (best : HeapEntry) (es : List HeapEntry) (x : HeapEntry)
    → In x (best ∷ es)
    → Outranks (pop_from best es).0 x
pop_from-Outranks best [] x (inl p) = rw (pop_from-nil best, p) (Outranks-refl best)
pop_from-Outranks best [] x (inr h) = absurd h
pop_from-Outranks best (e ∷ es) x h = elim (pop_from-Walk best e es) [
  | inl (c, r) ↦ rw r (elim h [
    | inl p ↦ rw p (Outranks-trans (pop_from-Outranks e es e (inl refl)) (Outranks-of_gt e best c))
    | inr k ↦ pop_from-Outranks e es x k
  ])
  | inr (c, r) ↦ rw r (elim h [
    | inl p ↦ rw p (pop_from-Outranks best es best (inl refl))
    | inr (inl p) ↦ rw p (Outranks-trans (pop_from-Outranks best es best (inl refl)) c)
    | inr (inr k) ↦ pop_from-Outranks best es x (inr k)
  ])
]

-- Every entry is taken out or left.
pub pop_from-In :
    (best : HeapEntry) (es : List HeapEntry) (x : HeapEntry)
    → In x (best ∷ es)
    → (x ≡ (pop_from best es).0) ⊎ In x (pop_from best es).1
pop_from-In best [] x (inl p) = rw (pop_from-nil best) (inl p)
pop_from-In best [] x (inr h) = absurd h
pop_from-In best (e ∷ es) x h = elim (pop_from-Walk best e es) [
  | inl (c, r) ↦ rw r (elim h [
    | inl p ↦ inr (inl p)
    | inr k ↦ elim (pop_from-In e es x k) [ inl p ↦ inl p | inr k' ↦ inr (inr k') ]
  ])
  | inr (c, r) ↦ rw r (elim h [
    | inl p ↦ elim (pop_from-In best es x (inl p)) [ inl q ↦ inl q | inr k ↦ inr (inr k) ]
    | inr (inl p) ↦ inr (inl p)
    | inr (inr k) ↦ elim (pop_from-In best es x (inr k)) [ inl q ↦ inl q | inr k' ↦ inr (inr k') ]
  ])
]

-- Nothing is made up: what is taken out and what is left were there.
pub In-pop_from :
    (best : HeapEntry) (es : List HeapEntry) (x : HeapEntry)
    → (x ≡ (pop_from best es).0) ⊎ In x (pop_from best es).1
    → In x (best ∷ es)
In-pop_from best [] x = rw (pop_from-nil best) (λ h. h)
In-pop_from best (e ∷ es) x = elim (pop_from-Walk best e es) [
  | inl (c, r) ↦ rw r (elim [
    | inl p ↦ inr (In-pop_from e es x (inl p))
    | inr (inl p) ↦ inl p
    | inr (inr k) ↦ inr (In-pop_from e es x (inr k))
  ])
  | inr (c, r) ↦ rw r (elim [
    | inl p ↦ elim (In-pop_from best es x (inl p)) [ inl q ↦ inl q | inr k ↦ inr (inr k) ]
    | inr (inl p) ↦ inr (inl p)
    | inr (inr k) ↦ elim (In-pop_from best es x (inr k)) [ inl q ↦ inl q | inr k' ↦ inr (inr k') ]
  ])
]

pub length-pop_from :
    (best : HeapEntry) (es : List HeapEntry) → length (pop_from best es).1 ≡ length es
length-pop_from best [] = rw (pop_from-nil best)
length-pop_from best (e ∷ es) = elim (pop_from-Walk best e es) [
  | inl (c, r) ↦ rw r (ap suc (length-pop_from e es))
  | inr (c, r) ↦ rw r (ap suc (length-pop_from best es))
]
