-- ===== src/Pull/Single.antt =====
-- One round of `pull`: who is let in, what is handed out, and what becomes of the slot.
use mathlib.Core.Option
use flashq.Prelude.{
  ℕ, ◌<◌, ◌≡◌, ◌≢◌, refl, sym, ap, subst, ◌∙◌, ◌⊎◌, inl, inr, String, false, Option, none, some,
  List, [], ◌∷◌, arith, All, nat_eq, string_eq, Bool-cases, Option-cases, ltb,
}
use flashq.Protocol.Job.{Job}
use flashq.Limiters.{QueueState, ConcurrencyLimiter, try_token, try_slot, release}
use flashq.Shard.{Shard, state_of, set_state, release_concurrency}
use flashq.Shard.Laws.{state_of-set_state, state_of_eq, state_of-release_concurrency}
use flashq.Pull.{
  PullResult, pulled, wait, Admission, admitted, paused, rate_limited, no_slot, groups_of,
  scan_queue, admit_slot, admit, pull_admitted, pull_after, pull_shard,
}
use flashq.Pull.Scan.{MayStart}
use flashq.Pull.Slots.{taken, scan_queue-state, scan_queue-Fair}

-- One slot more is in use, below the limit, or no limit is set.
pub data SlotTaken (before after : Option ConcurrencyLimiter) : Type 0 where
  unlimited : before ≡ none → after ≡ none → SlotTaken before after
  took :
      (c : ConcurrencyLimiter)
      → before ≡ some c
      → c.current < c.limit
      → after ≡ some (taken c 1)
      → SlotTaken before after

admit_slot-admitted :
    (state : QueueState)
    → (admit_slot state).1 ≡ admitted
    → SlotTaken state.concurrency (admit_slot state).0.concurrency
unfolding admit_slot try_slot
admit_slot-admitted state h = elim (Option-cases state.concurrency) [
  | inl e ↦ unlimited e (ground arith)
  | inr (c, e) ↦ elim (Bool-cases (ltb c.current c.limit)) [
    | inl room ↦ took c e (ground arith) (ground arith)
    | inr full ↦ absurd (ground arith)
  ]
]

-- Without a pause, the round comes down to the slot, after the token is taken where one is needed.
data Chain (state : QueueState) (now : ℕ) : Type 0 where
  refused : (admit state now).1 ≢ admitted → Chain state now
  at_slot :
      (state' : QueueState)
      → state.paused ≡ false
      → state'.concurrency ≡ state.concurrency
      → admit state now ≡ admit_slot state'
      → Chain state now

chain : (state : QueueState) (now : ℕ) → Chain state now
unfolding admit
chain state now = elim (Bool-cases state.paused) [
  | inl p ↦ refused (ground arith)
  | inr p ↦ elim (Option-cases state.rate_limiter) [
    | inl r ↦ at_slot state p refl (ground arith)
    | inr (l, r) ↦ elim (Bool-cases (try_token l now).1) [
      | inl t ↦
          at_slot (record state { rate_limiter = some (try_token l now).0 }) p refl (ground arith)
      | inr t ↦ refused (ground arith)
    ]
  ]
]

admit-admitted :
    (state : QueueState) (now : ℕ)
    → (admit state now).1 ≡ admitted
    → (state.paused ≡ false) × SlotTaken state.concurrency (admit state now).0.concurrency
admit-admitted state now h = elim (chain state now) [
  | refused n ↦ absurd (n h)
  | at_slot state' p same e ↦ (
    p,
    subst (λ c. SlotTaken c (admit state now).0.concurrency) same
        (subst (λ (r : QueueState × Admission). SlotTaken state'.concurrency r.0.concurrency)
          (sym e)
          (admit_slot-admitted state' (ap (λ (r : QueueState × Admission). r.1) (sym e) ∙ h))),
  )
]

List-cases {ℓ} :
    {A : Type ℓ} (xs : List A) → (xs ≡ []) ⊎ ((x : A) × (rest : List A) × (xs ≡ x ∷ rest))
List-cases [] = inl refl
List-cases (x ∷ xs) = inr (x, xs, refl)

pulled-injective : {a b : Job} → pulled a ≡ pulled b → a ≡ b
pulled-injective {a} {b} h = ap from h
  where
    from : PullResult → Job
    from (pulled j) = j
    from _ = a

-- The admitted round hands out the first job of the scan, or gives the slot back.
pull_admitted_cases :
    (s : Shard) (queue : String) (now : ℕ)
    → ((job : Job) × (pull_admitted s queue now ≡ ((scan_queue s queue 1 now).0, pulled job))
        × MayStart now (groups_of s queue) job)
      ⊎ (pull_admitted s queue now ≡ (release_concurrency (scan_queue s queue 1 now).0 queue, wait))
unfolding pull_admitted
pull_admitted_cases s queue now = elim (List-cases (scan_queue s queue 1 now).1) [
  | inl e ↦ inr (rw (e, pull_admitted) refl)
  | inr (job, rest, e) ↦ inl (
    job,
    rw (e, pull_admitted) refl,
    (subst (All (MayStart now (groups_of s queue))) e (scan_queue-Fair s queue 1 now).may_start).0,
  )
]

abbrev slots : Shard → String → Option ConcurrencyLimiter
slots s queue = (state_of s queue).concurrency

-- What a round comes to, by its result.
pub data Outcome (s : Shard) (queue : String) (now : ℕ) (r : Shard × PullResult) : Type 0 where
  hands_out :
      (job : Job)
      → r.1 ≡ pulled job
      → (state_of s queue).paused ≡ false
      → MayStart now (groups_of s queue) job
      → SlotTaken (state_of s queue).concurrency (state_of r.0 queue).concurrency
      → Outcome s queue now r
  waits :
      r.1 ≡ wait
      → (state_of r.0 queue).concurrency ≡ (state_of s queue).concurrency
      → Outcome s queue now r
  refuses : r.1 ≢ wait → ((job : Job) → r.1 ≢ pulled job) → Outcome s queue now r

released :
    (before after : Option ConcurrencyLimiter)
    → SlotTaken before after
    → Option.map release after ≡ before
unfolding release
released before after (unlimited e f) = rw (e, f) refl
released before after (took c e lt f) = rw (e, f) (ground arith)

abbrev let_in : Shard → String → ℕ → Shard
let_in s queue now = set_state s queue (admit (state_of s queue) now).0

scanned_slots :
    (s : Shard) (queue : String) (now : ℕ)
    → state_of (scan_queue (let_in s queue now) queue 1 now).0 queue
      ≡ (admit (state_of s queue) now).0
scanned_slots s queue now =
    state_of_eq (let_in s queue now) (scan_queue (let_in s queue now) queue 1 now).0 queue
      (scan_queue-state (let_in s queue now) queue 1 now)
    ∙ state_of-set_state s queue (admit (state_of s queue) now).0

admitted-Outcome :
    (s : Shard) (queue : String) (now : ℕ)
    → (admit (state_of s queue) now).1 ≡ admitted
    → Outcome s queue now (pull_admitted (let_in s queue now) queue now)
unfolding set_state
admitted-Outcome s queue now h =
    let (p, slot) = admit-admitted (state_of s queue) now h in
    elim (pull_admitted_cases (let_in s queue now) queue now) [
      | inl (job, e, ok) ↦ rw e (
          hands_out job refl p ok (
            subst (SlotTaken (state_of s queue).concurrency)
              (sym (ap (λ (st : QueueState). st.concurrency) (scanned_slots s queue now))) slot))
      | inr e ↦ rw e (
          waits refl (
            ap (λ (st : QueueState). st.concurrency)
              (state_of-release_concurrency (scan_queue (let_in s queue now) queue 1 now).0 queue)
            ∙ ap (λ (st : QueueState). Option.map release st.concurrency)
                (scanned_slots s queue now)
            ∙ released (state_of s queue).concurrency (admit (state_of s queue) now).0.concurrency
                slot))
    ]

after-Outcome :
    (s : Shard) (queue : String) (now : ℕ) (a : Admission)
    → (admit (state_of s queue) now).1 ≡ a
    → Outcome s queue now (pull_after a (let_in s queue now) queue now)
unfolding pull_admitted
after-Outcome s queue now admitted h = admitted-Outcome s queue now h
after-Outcome s queue now paused h = refuses (λ e. cc) (λ job e. cc)
after-Outcome s queue now rate_limited h = refuses (λ e. cc) (λ job e. cc)
after-Outcome s queue now no_slot h = refuses (λ e. cc) (λ job e. cc)

-- One round of `pull` on any shard hands out a job, waits, or is refused. A job is handed out only
-- from a queue that is not paused; it has not expired, is ready, is of no busy group, is stamped,
-- and where a concurrency limit is set, one slot more is in use, which was free. A round that waits
-- leaves the slots as they were.
pub pull_shard-Outcome :
    (s : Shard) (queue : String) (now : ℕ) → Outcome s queue now (pull_shard s queue now)
unfolding pull_shard
pull_shard-Outcome s queue now = after-Outcome s queue now (admit (state_of s queue) now).1 refl
