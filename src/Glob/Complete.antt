-- ===== src/Glob/Complete.antt =====
-- engine/src/queue/kv.rs: when `glob_match` returns, and what it finds.
use flashq.Prelude.{
  ℕ, suc, ◌+◌, ◌≤◌, ◌<◌, ◌≡◌, ◌≢◌, refl, sym, ap, ◌∙◌, ◌↔◌, inl, inr, Bool, true, false, Option,
  none, some, List, [], ◌∷◌, arith, All, nat_beq, ltb, Bool-cases, if◌then◌else◌,
}
use flashq.Glob.{star_loop, step_question, step_literal, guarded, walk, glob_match}
use flashq.Glob.Matching.{
  Matches, matched, star_stops, star_goes, one, literal, kind, is_star, is_question, is_literal,
  walk_star, walk_question, walk_literal, walk-Matches,
}

abbrev pub stars : List ℕ → ℕ
stars [] = 0
stars (p ∷ ps) = let rest = stars ps in if nat_beq p b'*' then suc rest else rest

abbrev pub Ascii : List ℕ → Type 0
Ascii = All (λ c. c < 128)

-- The call returns: it does not panic.
abbrev pub Returns : Option Bool → Type 0
Returns r = (b : Bool) × (r ≡ some b)

star_loop_total :
    (inner : List ℕ → Option Bool)
    → ((t : List ℕ) → Ascii t → Returns (inner t))
    → (t : List ℕ) → Ascii t
    → Returns (star_loop inner t)
unfolding star_loop
star_loop_total inner f [] a = f [] a
star_loop_total inner f (c ∷ t) a =
    let (b, e) = f (c ∷ t) a in
    let (r, g) = star_loop_total inner f t a.1 in (if b then true else r, go b e r g)
  where
    go :
        (b : Bool)
        → inner (c ∷ t) ≡ some b
        → (r : Bool) → star_loop inner t ≡ some r
        → star_loop inner (c ∷ t) ≡ some (if b then true else r)
    go true e r g = rw (e, star_loop)
    go false e r g = rw (e, star_loop) (ground arith)

guarded_total :
    (d : ℕ) (f : List ℕ → Option Bool) (t : List ℕ) → Returns (f t) → Returns (guarded d f t)
guarded_total d f t (b, e) = elim (Bool-cases (ltb 10 d)) [
  | inl deep ↦ (false, rw deep)
  | inr fine ↦ (b, rw fine e)
]

question_total :
    (f : List ℕ → Option Bool)
    → ((t : List ℕ) → Ascii t → Returns (f t))
    → (t : List ℕ) → Ascii t
    → Returns (step_question f t)
unfolding step_question
question_total f g [] a = (false, refl)
question_total f g (c ∷ t) a = g t a.1

literal_total :
    (p : ℕ) (f : List ℕ → Option Bool)
    → ((t : List ℕ) → Ascii t → Returns (f t))
    → (t : List ℕ) → Ascii t
    → Returns (step_literal p f t)
unfolding step_literal
literal_total p f g [] a = (false, refl)
literal_total p f g (c ∷ t) a = elim (Bool-cases (nat_beq c p)) [
  | inl same ↦ rw same (g t a.1)
  | inr other ↦ (false, rw other)
]

walk_last_star : (p d : ℕ) (t : List ℕ) → p ≡ b'*' → walk (p ∷ []) d t ≡ some true
unfolding walk
walk_last_star p d t e = rw e refl

walk_nil_total : (d : ℕ) (t : List ℕ) → Returns (walk [] d t)
unfolding walk
walk_nil_total d [] = (true, refl)
walk_nil_total d (c ∷ t) = (false, refl)

walk_total : (ps : List ℕ) (d : ℕ) (t : List ℕ) → Ascii t → Returns (walk ps d t)
walk_total [] d t a = walk_nil_total d t
walk_total (p ∷ []) d t a = elim (kind p) [
  | is_star e ↦ (true, walk_last_star p d t e)
  | is_question n e ↦
      rw (walk_question p [] d t n e) (question_total (walk [] d) (walk_total [] d) t a)
  | is_literal n m ↦
      rw (walk_literal p [] d t n m) (literal_total p (walk [] d) (walk_total [] d) t a)
]
walk_total (p ∷ q ∷ ps) d t a = elim (kind p) [
  | is_star e ↦ rw (walk_star p q ps d t e) (
      star_loop_total (guarded (d + 1) (walk (q ∷ ps) (d + 1)))
        (λ r b. guarded_total (d + 1) (walk (q ∷ ps) (d + 1)) r (walk_total (q ∷ ps) (d + 1) r b)) t
        a)
  | is_question n e ↦
      rw (walk_question p (q ∷ ps) d t n e)
        (question_total (walk (q ∷ ps) d) (walk_total (q ∷ ps) d) t a)
  | is_literal n m ↦
      rw (walk_literal p (q ∷ ps) d t n m)
        (literal_total p (walk (q ∷ ps) d) (walk_total (q ∷ ps) d) t a)
]

star_loop_stops :
    (inner : List ℕ → Option Bool) (t : List ℕ)
    → inner t ≡ some true
    → star_loop inner t ≡ some true
unfolding star_loop
star_loop_stops inner [] h = h
star_loop_stops inner (c ∷ t) h = rw (h, star_loop)

star_loop_goes :
    (inner : List ℕ → Option Bool) (c : ℕ) (t : List ℕ)
    → c < 128
    → Returns (inner (c ∷ t))
    → star_loop inner t ≡ some true
    → star_loop inner (c ∷ t) ≡ some true
unfolding star_loop
star_loop_goes inner c t a (true, e) h = rw (e, star_loop)
star_loop_goes inner c t a (false, e) h = rw (e, star_loop) (ground arith)

-- The inner call of the star loop, below the depth limit.
abbrev inner_of : List ℕ → ℕ → List ℕ → Option Bool
inner_of ps d = guarded (d + 1) (walk ps (d + 1))

walk_of_loop :
    (p : ℕ) (ps : List ℕ) (d : ℕ) (t : List ℕ)
    → p ≡ b'*'
    → star_loop (inner_of ps d) t ≡ some true
    → walk (p ∷ ps) d t ≡ some true
walk_of_loop p [] d t e h = walk_last_star p d t e
walk_of_loop p (q ∷ ps) d t e h = walk_star p q ps d t e ∙ h

-- One step of `*` over a character.
walk_goes :
    (p c : ℕ) (ps : List ℕ) (d : ℕ) (t : List ℕ)
    → p ≡ b'*'
    → Ascii (c ∷ t)
    → walk (p ∷ ps) d t ≡ some true
    → walk (p ∷ ps) d (c ∷ t) ≡ some true
walk_goes p c [] d t e a h = walk_last_star p d (c ∷ t) e
walk_goes p c (q ∷ ps) d t e a h = walk_of_loop p (q ∷ ps) d (c ∷ t) e (
    star_loop_goes (inner_of (q ∷ ps) d) c t a.0
      (guarded_total (d + 1) (walk (q ∷ ps) (d + 1)) (c ∷ t)
        (walk_total (q ∷ ps) (d + 1) (c ∷ t) a))
      (sym (walk_star p q ps d t e) ∙ h))

guarded_fine :
    (d : ℕ) (f : List ℕ → Option Bool) (t : List ℕ)
    → d ≤ 10
    → f t ≡ some true
    → guarded d f t ≡ some true
guarded_fine d f t le h = ground arith

walk_done : (d : ℕ) → walk [] d [] ≡ some true
unfolding walk
walk_done d = refl

question_cons : (f : List ℕ → Option Bool) (c : ℕ) (t : List ℕ) → step_question f (c ∷ t) ≡ f t
unfolding step_question
question_cons f c t = refl

literal_cons :
    (p : ℕ) (f : List ℕ → Option Bool) (c : ℕ) (t : List ℕ) → c ≡ p → step_literal p f (c ∷ t) ≡ f t
unfolding step_literal
literal_cons p f c t e = ground arith

walk_complete :
    {ps t : List ℕ} (d : ℕ) → Matches ps t → Ascii t → d + stars ps ≤ 10 → walk ps d t ≡ some true
walk_complete d matched a le = walk_done d
walk_complete d (star_stops {p = p} {ps = ps} {t = t} e m) a le = walk_of_loop p ps d t e (
    star_loop_stops (inner_of ps d) t (
      guarded_fine (d + 1) (walk ps (d + 1)) t (ground arith)
        (walk_complete (d + 1) m a (ground arith))))
walk_complete d (star_goes {p = p} {c = c} {ps = ps} {t = t} e m) a le =
    walk_goes p c ps d t e a (walk_complete d m a.1 le)
walk_complete d (one {p = p} {c = c} {ps = ps} {t = t} e m) a le =
    walk_question p ps d (c ∷ t) (ground arith) e
    ∙ question_cons (walk ps d) c t
    ∙ walk_complete d m a.1 (ground arith)
walk_complete d (literal {p = p} {c = c} {ps = ps} {t = t} n q e m) a le =
    walk_literal p ps d (c ∷ t) n q
    ∙ literal_cons p (walk ps d) c t e
    ∙ walk_complete d m a.1 (ground arith)

-- On an ASCII text and a pattern of at most ten stars, `glob_match` returns, and it returns true
-- exactly if the pattern matches the text.
pub glob_match_decides :
    (pattern text : List ℕ)
    → Ascii text
    → stars pattern ≤ 10
    → (b : Bool) × (glob_match pattern text ≡ some b) × ((b ≡ true) ↔ Matches pattern text)
unfolding glob_match
glob_match_decides pattern text a le =
    let (b, e) = walk_total pattern 0 text a in
    (
      b,
      e,
      (
        λ h. walk-Matches pattern 0 text (e ∙ ap some h),
        λ m. ground (arith, e, walk_complete 0 m a (omega arith)),
      ),
    )

-- Whatever the text and the number of stars, an answer of true is a match.
pub glob_match_sound :
    (pattern text : List ℕ) → glob_match pattern text ≡ some true → Matches pattern text
unfolding glob_match
glob_match_sound pattern text h = walk-Matches pattern 0 text h

-- A star in front of an ordinary character panics on every text that is one character of more than
-- one byte, if that is not the character.
pub glob_match_panics :
    (p c : ℕ) → 128 ≤ c → p ≢ b'*' → p ≢ b'?' → c ≢ p → glob_match (b'*' ∷ p ∷ []) (c ∷ []) ≡ none
unfolding glob_match
glob_match_panics p c wide n m other = ground arith
