-- ===== src/Glob/Matching.antt =====
-- The matching relation of glob patterns, beside `glob_match`.
use flashq.Prelude.{
  ℕ, ◌+◌, ◌≡◌, ◌≢◌, refl, sym, ◌∙◌, ◌⊎◌, inl, inr, Bool, true, Option, some, List, [], ◌∷◌, arith,
  nat_beq, Bool-cases,
}
use flashq.Glob.{star_loop, step_question, step_literal, guarded, walk}

-- `*` stands for any run of characters, `?` for one, any other character for itself.
pub data Matches : List ℕ → List ℕ → Type 0 where
  matched : Matches [] []
  star_stops : {p : ℕ} {ps t : List ℕ} → p ≡ b'*' → Matches ps t → Matches (p ∷ ps) t
  star_goes : {p c : ℕ} {ps t : List ℕ} → p ≡ b'*' → Matches (p ∷ ps) t → Matches (p ∷ ps) (c ∷ t)
  one : {p c : ℕ} {ps t : List ℕ} → p ≡ b'?' → Matches ps t → Matches (p ∷ ps) (c ∷ t)
  literal :
      {p c : ℕ} {ps t : List ℕ}
      → p ≢ b'*'
      → p ≢ b'?'
      → c ≡ p
      → Matches ps t
      → Matches (p ∷ ps) (c ∷ t)

star_all : (p : ℕ) (t : List ℕ) → p ≡ b'*' → Matches (p ∷ []) t
star_all p [] e = star_stops e matched
star_all p (c ∷ t) e = star_goes e (star_all p t e)

star_loop-true :
    (inner : List ℕ → Option Bool) (c : ℕ) (t : List ℕ)
    → star_loop inner (c ∷ t) ≡ some true
    → (inner (c ∷ t) ≡ some true) ⊎ (star_loop inner t ≡ some true)
unfolding star_loop
star_loop-true inner c t h = ground arith

star_loop_nil : (inner : List ℕ → Option Bool) → star_loop inner [] ≡ inner []
unfolding star_loop
star_loop_nil inner = refl

star_loop-Matches :
    (p : ℕ) (ps : List ℕ) (inner : List ℕ → Option Bool)
    → p ≡ b'*'
    → ((r : List ℕ) → inner r ≡ some true → Matches ps r)
    → (t : List ℕ) → star_loop inner t ≡ some true
    → Matches (p ∷ ps) t
star_loop-Matches p ps inner e f [] h = star_stops e (f [] (sym (star_loop_nil inner) ∙ h))
star_loop-Matches p ps inner e f (c ∷ t) h = elim (star_loop-true inner c t h) [
  | inl k ↦ star_stops e (f (c ∷ t) k)
  | inr k ↦ star_goes e (star_loop-Matches p ps inner e f t k)
]

-- The ways a walk goes, by the pattern's first character.
pub data Kind (p : ℕ) : Type 0 where
  is_star : p ≡ b'*' → Kind p
  is_question : p ≢ b'*' → p ≡ b'?' → Kind p
  is_literal : p ≢ b'*' → p ≢ b'?' → Kind p

pub kind : (p : ℕ) → Kind p
kind p = elim (Bool-cases (nat_beq p b'*')) [
  | inl s ↦ is_star (ground arith)
  | inr n ↦ elim (Bool-cases (nat_beq p b'?')) [
    | inl q ↦ is_question (ground arith) (ground arith)
    | inr l ↦ is_literal (ground arith) (ground arith)
  ]
]

walk_nil : (d : ℕ) (t : List ℕ) → walk [] d t ≡ some true → t ≡ []
unfolding walk
walk_nil d [] h = refl
walk_nil d (c ∷ t) h = cc

pub walk_star :
    (p q : ℕ) (ps : List ℕ) (d : ℕ) (t : List ℕ)
    → p ≡ b'*'
    → walk (p ∷ q ∷ ps) d t ≡ star_loop (guarded (d + 1) (walk (q ∷ ps) (d + 1))) t
unfolding walk
walk_star p q ps d t e = rw e refl

pub walk_question :
    (p : ℕ) (ps : List ℕ) (d : ℕ) (t : List ℕ)
    → p ≢ b'*'
    → p ≡ b'?'
    → walk (p ∷ ps) d t ≡ step_question (walk ps d) t
unfolding walk
walk_question p ps d t n e = rw e refl

pub walk_literal :
    (p : ℕ) (ps : List ℕ) (d : ℕ) (t : List ℕ)
    → p ≢ b'*'
    → p ≢ b'?'
    → walk (p ∷ ps) d t ≡ step_literal p (walk ps d) t
unfolding walk
walk_literal p ps d t n m = ground arith

guarded-true :
    (d : ℕ) (f : List ℕ → Option Bool) (t : List ℕ) → guarded d f t ≡ some true → f t ≡ some true
guarded-true d f t h = ground arith

question_true :
    (p : ℕ) (ps : List ℕ) (f : List ℕ → Option Bool)
    → p ≡ b'?'
    → ((r : List ℕ) → f r ≡ some true → Matches ps r)
    → (t : List ℕ) → step_question f t ≡ some true
    → Matches (p ∷ ps) t
unfolding step_question
question_true p ps f e g [] h = cc
question_true p ps f e g (c ∷ t) h = one e (g t h)

literal_true :
    (p : ℕ) (ps : List ℕ) (f : List ℕ → Option Bool)
    → p ≢ b'*'
    → p ≢ b'?'
    → ((r : List ℕ) → f r ≡ some true → Matches ps r)
    → (t : List ℕ) → step_literal p f t ≡ some true
    → Matches (p ∷ ps) t
unfolding step_literal
literal_true p ps f n m g [] h = cc
literal_true p ps f n m g (c ∷ t) h = literal n m (ground arith) (g t (ground arith))

pub walk-Matches : (ps : List ℕ) (d : ℕ) (t : List ℕ) → walk ps d t ≡ some true → Matches ps t
walk-Matches [] d t h = rw (walk_nil d t h) matched
walk-Matches (p ∷ []) d t h = elim (kind p) [
  | is_star e ↦ star_all p t e
  | is_question n e ↦
      question_true p [] (walk [] d) e (walk-Matches [] d) t (sym (walk_question p [] d t n e) ∙ h)
  | is_literal n m ↦
      literal_true p [] (walk [] d) n m (walk-Matches [] d) t (sym (walk_literal p [] d t n m) ∙ h)
]
walk-Matches (p ∷ q ∷ ps) d t h = elim (kind p) [
  | is_star e ↦
      star_loop-Matches p (q ∷ ps) (guarded (d + 1) (walk (q ∷ ps) (d + 1))) e
        (λ r k. walk-Matches (q ∷ ps) (d + 1) r (guarded-true (d + 1) (walk (q ∷ ps) (d + 1)) r k))
        t (sym (walk_star p q ps d t e) ∙ h)
  | is_question n e ↦
      question_true p (q ∷ ps) (walk (q ∷ ps) d) e (walk-Matches (q ∷ ps) d) t
        (sym (walk_question p (q ∷ ps) d t n e) ∙ h)
  | is_literal n m ↦
      literal_true p (q ∷ ps) (walk (q ∷ ps) d) n m (walk-Matches (q ∷ ps) d) t
        (sym (walk_literal p (q ∷ ps) d t n m) ∙ h)
]
