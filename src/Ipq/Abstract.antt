-- ===== src/Ipq/Abstract.antt =====
-- What the queue promises its users: a set of jobs by id, of which a first one is served. The heap,
-- the generations and the order of entries are forgotten.
use flashq.Prelude.{
  ℕ, ◌≡◌, refl, sym, ap, subst, ◌∙◌, inl, inr, Bool-cases, Option-cases, Bool, not, Option, none,
  some, List, [], ◌∷◌, arith, nat_eq, nat_beq, if◌then◌else◌, contains,
}
use flashq.Dict
use flashq.Dict.{Dict}
use flashq.Dict.Laws.{get-insert, get-remove}
use flashq.Dict.Unique.{Unique, keep_if, insert-Unique, remove-Unique, get-retain, contains-keys}
use flashq.Protocol.Job.{Job}
use flashq.Ipq.{Ipq, empty, push, pop, get, remove, update, clear, retain, remove_ids, removed_ids}
use flashq.Ipq.Invariant.{Inv, empty-Inv}
use flashq.Ipq.Pop.{Before, Popped, exhausted, found, pop-Popped}
use flashq.Ipq.Runs.{Op, pushes, updates, pops, clears, removes, retains, step, run, step-Inv}

-- The jobs by id.
abbrev pub View : Type 0
View = ℕ → Option Job

abbrev pub view : Ipq → View
view q id = get q id

-- One step of the specification.
pub data Served (a b : View) : Op → Type 0 where
  put :
      (job : Job)
      → ((id : ℕ) → b id ≡ (if nat_beq job.id id then some job else a id))
      → Served a b (pushes job)
  replaced :
      (job : Job)
      → ((id : ℕ) → b id ≡ (if nat_beq job.id id then some job else a id))
      → Served a b (updates job)
  taken :
      (job : Job)
      → a job.id ≡ some job
      → ((id : ℕ) (other : Job) → a id ≡ some other → Before job other)
      → ((id : ℕ) → b id ≡ (if nat_beq job.id id then none else a id))
      → Served a b pops
  none_left : ((id : ℕ) → a id ≡ none) → ((id : ℕ) → b id ≡ none) → Served a b pops
  emptied : ((id : ℕ) → b id ≡ none) → Served a b clears
  dropped :
      (gone : ℕ)
      → ((id : ℕ) → b id ≡ (if nat_beq gone id then none else a id))
      → Served a b (removes gone)
  kept : (f : Job → Bool) → ((id : ℕ) → b id ≡ keep_if f (a id)) → Served a b (retains f)

-- A run of the specification.
pub data Serves : View → List Op → View → Type 0 where
  here : {a : View} → Serves a [] a
  next :
      {op : Op} {ops : List Op} {a b c : View}
      → Served a b op
      → Serves b ops c
      → Serves a (op ∷ ops) c

get_eq : (q r : Ipq) (id : ℕ) → Dict.get q.index id ≡ Dict.get r.index id → get q id ≡ get r id
unfolding get
get_eq q r id e = ground (arith)

pub get-push :
    (q : Ipq) (job : Job) (id : ℕ)
    → get (push q job) id ≡ (if nat_beq job.id id then some job else get q id)
unfolding get push
get-push q job id = ground (arith, get-insert q.index job.id id (job, q.generation))

get-remove_lem :
    (q : Ipq) (gone id : ℕ)
    → get (remove q gone).1 id ≡ (if nat_beq gone id then none else get q id)
unfolding get remove
get-remove_lem q gone id = ground (arith, get-remove q.index gone id)

get-remove_ids :
    (q : Ipq) (ids : List ℕ) (id : ℕ)
    → get (remove_ids q ids) id ≡ (if contains ids id then none else get q id)
unfolding remove_ids contains
get-remove_ids q [] id = refl
get-remove_ids q (gone ∷ ids) id =
    ground (arith, get-remove_ids (remove q gone).1 ids id, get-remove_lem q gone id)

removed_ids_of :
    (index : Dict ℕ (Job × ℕ)) (f : Job → Bool) (id : ℕ) (job : Job) (gen : ℕ)
    → Unique index
    → Dict.get index id ≡ some (job, gen)
    → contains (removed_ids index f) id ≡ not (f job)
unfolding removed_ids
removed_ids_of index f id job gen u e =
    let r =
      get-retain (λ _ (v : Job × ℕ). not (f v.0)) index id u ∙ ap (keep_if (λ v. not (f v.0))) e in
    ground (
      arith,
      r,
      contains-keys (Dict.retain (λ _ (v : Job × ℕ). not (f v.0)) index) id,
      Bool-cases (f job),
      Bool-cases (contains (removed_ids index f) id),
    )

get-retain_lem :
    (q : Ipq) (f : Job → Bool) (id : ℕ)
    → Unique q.index
    → get (retain q f) id ≡ keep_if f (get q id)
unfolding retain get
get-retain_lem q f id u =
    get-remove_ids q (removed_ids q.index f) id ∙ elim (Option-cases (Dict.get q.index id)) [
      | inl e ↦ ground arith
      | inr ((job, gen), e) ↦ ground (arith, removed_ids_of q.index f id job gen u e)
    ]

remove_ids-Unique : (q : Ipq) (ids : List ℕ) → Unique q.index → Unique (remove_ids q ids).index
unfolding remove_ids remove
remove_ids-Unique q [] u = u
remove_ids-Unique q (id ∷ ids) u =
    remove_ids-Unique (remove q id).1 ids (remove-Unique q.index id u)

Popped-Unique : (q : Ipq) (r : Option Job × Ipq) → Popped q r → Unique q.index → Unique r.1.index
Popped-Unique q r (exhausted n nothing same) u = subst Unique (sym same) u
Popped-Unique q r (found job gen s indexed left first) u =
    subst Unique (sym left) (remove-Unique q.index job.id u)

step-Unique : (q : Ipq) (op : Op) → Inv q → Unique q.index → Unique (step q op).index
unfolding step push update remove clear retain
step-Unique q (pushes job) v u = insert-Unique q.index job.id (job, q.generation) u
step-Unique q (updates job) v u =
    insert-Unique (Dict.remove q.index job.id) job.id _ (remove-Unique q.index job.id u)
step-Unique q pops v u = Popped-Unique q (pop q) (pop-Popped q v).0 u
step-Unique q clears v u = tt
step-Unique q (removes id) v u = remove-Unique q.index id u
step-Unique q (retains f) v u = remove_ids-Unique q (removed_ids q.index f) u

pub indexed_get :
    (q : Ipq) (id : ℕ) (job : Job)
    → get q id ≡ some job
    → (gen : ℕ) × (Dict.get q.index id ≡ some (job, gen))
unfolding get
indexed_get q id job h = elim (Option-cases (Dict.get q.index id)) [
  | inl e ↦ absurd (ground (arith, e))
  | inr ((other, gen), e) ↦ (gen, ground (arith, e))
]

Popped-Served : (q : Ipq) (r : Option Job × Ipq) → Popped q r → Served (view q) (view r.1) pops
unfolding get
Popped-Served q r (exhausted n nothing same) =
    none_left (λ id. ground (arith, nothing id))
      (λ id. ground (arith, nothing id, ap (λ d. Dict.get d id) same))
Popped-Served q r (found job gen s indexed left first) =
    taken job (ground (arith, indexed))
      (λ id other h. let (g, e) = indexed_get q id other h in first id other g e)
      (λ id. ground (arith, ap (λ d. Dict.get d id) left, get-remove q.index job.id id))

cleared : (q : Ipq) (id : ℕ) → get (clear q) id ≡ none
unfolding get clear Dict.get
cleared q id = refl

step-Served : (q : Ipq) (op : Op) → Inv q → Unique q.index → Served (view q) (view (step q op)) op
unfolding step update
step-Served q (pushes job) v u = put job (get-push q job)
step-Served q (updates job) v u =
    replaced job
      (λ id. ground (arith, get-push (remove q job.id).1 job id, get-remove_lem q job.id id))
step-Served q pops v u = Popped-Served q (pop q) (pop-Popped q v).0
step-Served q clears v u = emptied (λ id. cleared q id)
step-Served q (removes id) v u = dropped id (get-remove_lem q id)
step-Served q (retains f) v u = kept f (λ id. get-retain_lem q f id u)

run_from-Serves :
    (q : Ipq) (ops : List Op) → Inv q → Unique q.index → Serves (view q) ops (view (run q ops))
unfolding run
run_from-Serves q [] v u = here
run_from-Serves q (op ∷ ops) v u =
    next (step-Served q op v u)
      (run_from-Serves (step q op) ops (step-Inv q op v) (step-Unique q op v u))

-- Every run of the queue's operations on a new queue is a run of the specification from no job:
-- seen as jobs by id, each `push` and `update` puts one job in place, `pop` takes a job that no
-- other comes before, or finds none left, `remove` and `retain` drop just the jobs that they name,
-- and `clear` drops all.
pub run-Serves : (ops : List Op) → Serves (view empty) ops (view (run empty ops))
unfolding empty
run-Serves ops = run_from-Serves empty ops empty-Inv tt
