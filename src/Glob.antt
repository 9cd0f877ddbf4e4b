-- ===== src/Glob.antt =====
-- engine/src/queue/kv.rs: `glob_match`. Patterns and texts are lists of code points. `remaining[1..]`
-- cuts one byte off, which panics in front of a character of more bytes: `none` is that panic.
pub mod Matching
pub mod Complete
use flashq.Prelude.{
  ℕ, zero, suc, ◌+◌, Bool, true, false, Option, none, some, List, [], ◌∷◌, ltb, nat_beq,
  if◌then◌else◌,
}

abbrev pub max_glob_depth : ℕ
max_glob_depth = 10

abbrev pub is_empty : List ℕ → Bool
is_empty [] = true
is_empty (c ∷ t) = false

-- The `loop` over the remaining text; `inner` is the recursive call on the rest of the pattern.
unfoldable pub star_loop : (List ℕ → Option Bool) → List ℕ → Option Bool
star_loop inner [] = inner []
star_loop inner (c ∷ t) =
    let rest = star_loop inner t in
    elim (inner (c ∷ t)) [
      | none ↦ none
      | some true ↦ some true
      | some false ↦ if ltb c 128 then rest else none
    ]

-- What the first character of the text is checked for, with the walk on the rest.
unfoldable pub step_question : (List ℕ → Option Bool) → List ℕ → Option Bool
step_question next [] = some false
step_question next (c ∷ t) = next t

unfoldable pub step_literal : ℕ → (List ℕ → Option Bool) → List ℕ → Option Bool
step_literal p next [] = some false
step_literal p next (c ∷ t) = if nat_beq c p then next t else some false

-- The depth check at the head of `glob_match_inner`.
abbrev pub guarded : ℕ → (List ℕ → Option Bool) → List ℕ → Option Bool
guarded depth inner t = if ltb max_glob_depth depth then some false else inner t

-- The body of `glob_match_inner` below its depth check.
unfoldable pub walk : List ℕ → ℕ → List ℕ → Option Bool
unfolding star_loop step_question step_literal
walk [] depth t = some (is_empty t)
walk (p ∷ ps) depth t =
    if nat_beq p b'*'
    then (if is_empty ps
        then some true
        else star_loop (guarded (depth + 1) (walk ps (depth + 1))) t)
    else if nat_beq p b'?'
    then step_question (walk ps depth) t
    else step_literal p (walk ps depth) t

unfoldable pub glob_match : List ℕ → List ℕ → Option Bool
unfolding walk
glob_match pattern text = guarded 0 (walk pattern 0) text
