-- ===== src/Timeouts/Moved.antt =====
-- Which waiting jobs of a shard the dependency check moves, and where to.
use flashq.Prelude.{
  ℕ, ◌≡◌, ◌≢◌, refl, sym, ap, subst, ◌∙◌, false, none, some, List, [], String, filter, ◌∷◌, arith,
  nat_eq, string_eq, nat_beq, contains, Bool-cases, Option-cases, inl, inr, none-some,
  some_injective, if◌then◌else◌,
}
use flashq.Dict
use flashq.Dict.{Dict}
use flashq.Dict.Laws.{get-remove, get-remove-some, get-insert_self}
use flashq.Dict.Unique.{Unique}
use flashq.Protocol.Job.{Job}
use flashq.Ipq
use flashq.Shard.{Shard}
use flashq.Push.{enqueue, all_completed}
use flashq.Query.Found.{get-push}
use flashq.Query.Others.{found_in, found_in-enqueue}
use flashq.Timeouts.{ready_ids, move_ready}

-- Of an id that waits once, the ready ids hold it if its dependencies are done.
ready_ids-absent :
    (completed : List ℕ) (waiting : Dict ℕ Job) (id : ℕ)
    → Dict.get waiting id ≡ none
    → contains (ready_ids completed waiting) id ≡ false
unfolding ready_ids contains Dict.get filter
ready_ids-absent completed [] id e = refl
ready_ids-absent completed ((k, j) ∷ waiting) id e = elim (Bool-cases (nat_beq k id)) [
  | inl same ↦ absurd (ground (arith))
  | inr other ↦ elim (Bool-cases (all_completed completed j.depends_on)) [
    | inl r ↦
        rw (r, ready_ids)
          (rw (other, contains) (ready_ids-absent completed waiting id (ground (arith))))
    | inr r ↦ rw (r, ready_ids) (ready_ids-absent completed waiting id (ground (arith)))
  ]
]

pub contains-ready_ids :
    (completed : List ℕ) (waiting : Dict ℕ Job) (id : ℕ) (job : Job)
    → Unique waiting
    → Dict.get waiting id ≡ some job
    → contains (ready_ids completed waiting) id ≡ all_completed completed job.depends_on
unfolding ready_ids contains Dict.get filter
contains-ready_ids completed [] id job u e = absurd (none-some e)
contains-ready_ids completed ((k, j) ∷ waiting) id job u e = elim (Bool-cases (nat_beq k id)) [
  | inl same ↦
      let own : k ≡ id = (nat_eq.test_iff k id).0 same in
      let at : j ≡ job = some_injective (ground (arith)) in
      let gone : Dict.get waiting id ≡ none = ap (Dict.get waiting) (sym own) ∙ u.0 in
      let same_deps = ap (λ (x : Job). all_completed completed x.depends_on) at in
      elim (Bool-cases (all_completed completed j.depends_on)) [
        | inl r ↦ rw (r, ready_ids) (rw (same, contains) (sym r ∙ same_deps))
        | inr r ↦ rw (r, ready_ids) (ready_ids-absent completed waiting id gone ∙ sym r ∙ same_deps)
      ]
  | inr other ↦ elim (Bool-cases (all_completed completed j.depends_on)) [
    | inl r ↦
        rw (r, ready_ids)
          (rw (other, contains) (contains-ready_ids completed waiting id job u.1 (ground (arith))))
    | inr r ↦ rw (r, ready_ids) (contains-ready_ids completed waiting id job u.1 (ground (arith)))
  ]
]

-- Every waiting job stands under its own id.
abbrev pub OwnIds : Shard → Type 0
OwnIds s = (k : ℕ) (j : Job) → Dict.get s.waiting_deps k ≡ some j → j.id ≡ k

-- A shard after one waiting job went to its queue.
abbrev moved : Shard → ℕ → Job → Shard
moved s k j = enqueue (record s { waiting_deps = Dict.remove s.waiting_deps k }) j.queue j

moved-OwnIds : (s : Shard) (k : ℕ) (j : Job) → OwnIds s → OwnIds (moved s k j)
unfolding enqueue
moved-OwnIds s k j own l x e = own l x (get-remove-some s.waiting_deps k l x e).1

waits-moved :
    (s : Shard) (k id : ℕ) (j : Job)
    → k ≢ id
    → Dict.get (moved s k j).waiting_deps id ≡ Dict.get s.waiting_deps id
unfolding enqueue
waits-moved s k id j apart = get-remove s.waiting_deps k id ∙ ground (arith, nat_eq.test_iff k id)

found-moved :
    (s : Shard) (k id : ℕ) (j : Job) (queue : String)
    → k ≢ id
    → j.id ≡ k
    → found_in (moved s k j) queue id ≡ found_in s queue id
found-moved s k id j queue apart own =
    found_in-enqueue (record s { waiting_deps = Dict.remove s.waiting_deps k }) j.queue queue j id
      (λ p. apart (sym own ∙ p))

found_in-enqueue_self :
    (s : Shard) (queue : String) (job : Job)
    → found_in (enqueue s queue job) queue job.id ≡ some job
unfolding enqueue
found_in-enqueue_self s queue job = ground (
  arith,
  get-insert_self s.queues queue (Ipq.push (Dict.get_or s.queues queue Ipq.empty) job),
  get-push (Dict.get_or s.queues queue Ipq.empty) job,
)

-- What does not wait is left alone.
move_ready-gone :
    (s : Shard) (ids : List ℕ) (id : ℕ) (queue : String)
    → OwnIds s
    → Dict.get s.waiting_deps id ≡ none
    → (Dict.get (move_ready s ids).waiting_deps id ≡ none)
      × (found_in (move_ready s ids) queue id ≡ found_in s queue id)
unfolding move_ready
move_ready-gone s [] id queue own e = (e, refl)
move_ready-gone s (k ∷ ids) id queue own e = elim (Option-cases (Dict.get s.waiting_deps k)) [
  | inl n ↦ rw (n, move_ready) (move_ready-gone s ids id queue own e)
  | inr (j, n) ↦
      let apart : k ≢ id = λ p. none-some (sym e ∙ ap (Dict.get s.waiting_deps) (sym p) ∙ n) in
      let (a, b) =
        move_ready-gone (moved s k j) ids id queue (moved-OwnIds s k j own)
          (waits-moved s k id j apart ∙ e) in
      rw (n, move_ready) (a, b ∙ found-moved s k id j queue apart (own k j n))
]

-- A waiting job goes to its queue if its id is one of the ids, and is left alone if not.
pub move_ready-waiting :
    (s : Shard) (ids : List ℕ) (id : ℕ) (job : Job)
    → OwnIds s
    → Dict.get s.waiting_deps id ≡ some job
    → (Dict.get (move_ready s ids).waiting_deps id ≡ (if contains ids id then none else some job))
      × (found_in (move_ready s ids) job.queue id
          ≡ (if contains ids id then some job else found_in s job.queue id))
unfolding move_ready contains
move_ready-waiting s [] id job own e = (e, refl)
move_ready-waiting s (k ∷ ids) id job own e = elim (Bool-cases (nat_beq k id)) [
  | inl same ↦
      let at : k ≡ id = (nat_eq.test_iff k id).0 same in
      let here : Dict.get s.waiting_deps k ≡ some job = ap (Dict.get s.waiting_deps) at ∙ e in
      let gone : Dict.get (moved s k job).waiting_deps id ≡ none =
        get-remove s.waiting_deps k id ∙ rw same refl in
      let (a, b) =
        move_ready-gone (moved s k job) ids id job.queue (moved-OwnIds s k job own) gone in
      let self : found_in (moved s k job) job.queue id ≡ some job =
        subst (λ i. found_in (moved s k job) job.queue i ≡ some job) (own id job e)
          (found_in-enqueue_self (record s { waiting_deps = Dict.remove s.waiting_deps k })
            job.queue job) in
      rw (here, move_ready) (rw (same, contains) (a, b ∙ self))
  | inr other ↦
      let apart : k ≢ id = λ p. ground (arith, (nat_eq.test_iff k id).1 p) in
      elim (Option-cases (Dict.get s.waiting_deps k)) [
        | inl n ↦ rw (n, move_ready) (rw (other, contains) (move_ready-waiting s ids id job own e))
        | inr (j, n) ↦
            let (a, b) =
              move_ready-waiting (moved s k j) ids id job (moved-OwnIds s k j own)
                (waits-moved s k id j apart ∙ e) in
            rw (n, move_ready)
              (rw (other, contains)
                (a, b ∙ ground (arith, found-moved s k id j job.queue apart (own k j n))))
      ]
]
