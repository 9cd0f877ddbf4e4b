-- ===== src/Cron/Limits.antt =====
-- engine/src/queue/background/cron.rs: how often limited cron jobs run.
use flashq.Prelude.{
  ℕ, ◌+◌, ◌-◌, ◌≤◌, String, Bool, Option, none, some, List, [], ◌∷◌, arith, string_eq, leb, ◌==◌,
  inl, inr, Bool-cases, Option-cases,
}
use flashq.Dict
use flashq.Dict.{Dict}
use flashq.Protocol.Job.{CronJob}
use flashq.Cron.{is_due, advance, round, remove_names}

-- The runs that a cron job has left, if it has a limit.
abbrev pub left : CronJob → ℕ
left cron = elim cron.limit [ none ↦ 0 | some limit ↦ limit - cron.executions ]

abbrev pub all_left : Dict String CronJob → ℕ
all_left [] = 0
all_left ((_, cron) ∷ crons) = left cron + all_left crons

-- How many of the cron jobs have a limit.
abbrev pub limited : List CronJob → ℕ
limited [] = 0
limited (cron ∷ crons) = elim cron.limit [ none ↦ limited crons | some _ ↦ limited crons + 1 ]

all_left-remove :
    (d : Dict String CronJob) (name : String) → all_left (Dict.remove d name) ≤ all_left d
unfolding Dict.remove
all_left-remove [] name = omega arith
all_left-remove ((k, cron) ∷ d) name = elim (Bool-cases (k == name)) [
  | inl same ↦ rw same (omega (arith, all_left-remove d name))
  | inr other ↦ rw other (omega (arith, all_left-remove d name))
]

all_left-remove_names :
    (d : Dict String CronJob) (names : List String) → all_left (remove_names d names) ≤ all_left d
all_left-remove_names d [] = omega arith
all_left-remove_names d (name ∷ names) =
    omega (arith, all_left-remove_names (Dict.remove d name) names, all_left-remove d name)

module _ (is_cron : String → Bool) (next_occurrence : String → ℕ → Option ℕ) where
  limited-round :
      (d : Dict String CronJob) (now : ℕ)
      → limited (round is_cron next_occurrence d now).ran
          + all_left (round is_cron next_occurrence d now).crons
        ≤ all_left d
  unfolding round advance
  limited-round [] now = omega arith
  limited-round ((name, cron) ∷ d) now = elim (Bool-cases (is_due cron now)) [
    | inr early ↦ rw (early, round) (omega (arith, limited-round d now))
    | inl due ↦ elim (Option-cases cron.limit) [
      | inl e ↦ rw (due, round) (rw (e, round) (omega (arith, limited-round d now)))
      | inr (limit, e) ↦ elim (Bool-cases (leb limit cron.executions)) [
        | inl spent ↦
            rw (due, round) (rw (e, round) (rw (spent, round) (omega (arith, limited-round d now))))
        | inr room ↦
            rw (due, round) (rw (e, round) (rw (room, round) (ground (arith, limited-round d now))))
      ]
    ]
  ]

  -- The cron jobs after rounds at the given times, and how many runs of limited ones there were.
  unfoldable pub rounds : Dict String CronJob → List ℕ → Dict String CronJob × ℕ
  rounds d [] = (d, 0)
  rounds d (now ∷ times) =
      let r = round is_cron next_occurrence d now in
      let (d', n) = rounds (remove_names r.crons r.spent) times in (d', limited r.ran + n)

  -- Whatever cron jobs there are, and at whatever times their rounds come: the runs of those that
  -- have a limit are together at most what was left of their limits, and what is left after the
  -- rounds is at most the rest.
  pub rounds_limited :
      (d : Dict String CronJob) (times : List ℕ)
      → (rounds d times).1 + all_left (rounds d times).0 ≤ all_left d
  unfolding rounds
  rounds_limited d [] = omega arith
  rounds_limited d (now ∷ times) =
      let r = round is_cron next_occurrence d now in
      omega (
        arith,
        rounds_limited (remove_names r.crons r.spent) times,
        all_left-remove_names r.crons r.spent,
        limited-round d now,
      )
