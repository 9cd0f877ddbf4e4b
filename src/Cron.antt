-- ===== src/Cron.antt =====
-- engine/src/queue/cron.rs and background/cron.rs: cron jobs. Cron expressions are croner's: whether
-- one is valid, and the next time after a given one in seconds, are parameters.
pub mod Limits
use Prim.Native.Char.{Char}
use Prim.Native.String
use flashq.Prelude.{
  ℕ, ◌+◌, ◌-◌, ◌*◌, ◌/◌, String, ℤ, Bool, true, false, ◌&&◌, ◌||◌, not, Option, none, some, List,
  [], ◌∷◌, ◌++◌, ltb, leb, nat_beq, string_eq, if◌then◌else◌, add_u64, mul_u64, u64_mod, codes,
}
use flashq.Dict
use flashq.Dict.{Dict}
use flashq.Protocol.Json.{Value}
use flashq.Protocol.Job.{CronJob}
use flashq.Protocol.Builder.{JobInput, new_input}
use flashq.Result.{Result, ok, err, schedule_too_long, bad_interval, bad_schedule, no_schedule}
use flashq.Manager.{Manager, persist_cron, persist_cron_next_run, persist_cron_delete, emit}
use flashq.Push.{push}

-- `strip_prefix("*/")`, on the code points of the schedule.
abbrev pub strip_star : List ℕ → Option (List ℕ)
strip_star (a ∷ b ∷ rest) = if nat_beq a b'*' && nat_beq b b'/' then some rest else none
strip_star _ = none

-- The digits of `parse::<u64>`; a value past the range fails.
unfoldable pub parse_digits : ℕ → List ℕ → Option ℕ
parse_digits n [] = some n
parse_digits n (c ∷ cs) =
    let next = n * 10 + (c - b'0') in
    let rest = parse_digits next cs in
    if (leb b'0' c && leb c b'9') && ltb next u64_mod then rest else none

-- `str::parse::<u64>`: one `+` may stand in front, and a digit must follow.
unfoldable pub parse_u64 : List ℕ → Option ℕ
unfolding parse_digits
parse_u64 [] = none
parse_u64 (c ∷ []) = parse_digits 0 (c ∷ [])
parse_u64 (c ∷ d ∷ cs) =
    if nat_beq c b'+' then parse_digits 0 (d ∷ cs) else parse_digits 0 (c ∷ d ∷ cs)

abbrev pub max_cron_schedule_length : ℕ
max_cron_schedule_length = 256

-- The cron jobs after a round, and what the round collects: the jobs to push (as the cron jobs
-- that ran), and the names of those that have used up their limit.
pub record Round : Type 0 where
  pub crons : Dict String CronJob
  pub ran : List CronJob
  pub spent : List String

abbrev pub used_up : CronJob → Bool
used_up cron = elim cron.limit [ none ↦ false | some limit ↦ leb limit cron.executions ]

abbrev pub is_due : CronJob → ℕ → Bool
is_due cron now = leb cron.next_run now

module _ (is_cron : String → Bool) (next_occurrence : String → ℕ → Option ℕ) where
  unfoldable pub validate_cron : String → Result (Unit {0})
  unfolding parse_u64
  validate_cron schedule =
      if ltb max_cron_schedule_length (String.len schedule)
      then err schedule_too_long
      else elim (strip_star (codes schedule)) [
        | some interval ↦ elim (parse_u64 interval) [ none ↦ err bad_interval | some _ ↦ ok tt ]
        | none ↦ if is_cron schedule then ok tt else err bad_schedule
      ]

  -- `croner`'s next occurrence, or a minute later.
  unfoldable pub next_by_expression : String → ℕ → ℕ
  next_by_expression schedule now = elim (next_occurrence schedule (now / 1000)) [
    | some seconds ↦ mul_u64 seconds 1000
    | none ↦ add_u64 now 60000
  ]

  unfoldable pub parse_next_cron_run : String → ℕ → ℕ
  unfolding next_by_expression parse_u64
  parse_next_cron_run schedule now = elim (strip_star (codes schedule)) [
    | none ↦ next_by_expression schedule now
    | some interval ↦ elim (parse_u64 interval) [
      | some secs ↦ add_u64 now (mul_u64 secs 1000)
      | none ↦ next_by_expression schedule now
    ]
  ]

  abbrev pub store_cron : Manager → CronJob → Manager
  store_cron m cron =
      let told = emit m (persist_cron cron) in
      record told { cron_jobs = Dict.insert told.cron_jobs cron.name cron }

  unfoldable pub add_cron :
      Manager → String → String → Value → String → ℤ → ℕ → Manager × Result (Unit {0})
  unfolding validate_cron parse_next_cron_run
  add_cron m name queue payload schedule priority now = elim (validate_cron schedule) [
    | err e ↦ (m, err e)
    | ok _ ↦ (
      store_cron m (record {
        name = name;
        queue = queue;
        payload = payload;
        schedule = some schedule;
        repeat_every = none;
        priority = priority;
        next_run = parse_next_cron_run schedule now;
        executions = 0;
        limit = none;
      }),
      ok tt,
    )
  ]

  -- The validity of the schedule and the first run, for what `add_cron_with_repeat` is given.
  unfoldable pub first_run : Option String → Option ℕ → ℕ → Result ℕ
  unfolding validate_cron parse_next_cron_run
  first_run none none now = err no_schedule
  first_run none (some interval) now = ok (add_u64 now interval)
  first_run (some schedule) repeat_every now = elim (validate_cron schedule) [
    | err e ↦ err e
    | ok _ ↦ elim repeat_every [
      | some interval ↦ ok (add_u64 now interval)
      | none ↦ ok (parse_next_cron_run schedule now)
    ]
  ]

  unfoldable pub add_cron_with_repeat :
      Manager
      → String
      → String
      → Value
      → Option String
      → Option ℕ
      → ℤ
      → Option ℕ
      → ℕ
      → Manager × Result (Unit {0})
  unfolding first_run
  add_cron_with_repeat m name queue payload schedule repeat_every priority limit now =
      elim (first_run schedule repeat_every now) [
        | err e ↦ (m, err e)
        | ok next_run ↦ (
          store_cron m (record {
            name = name;
            queue = queue;
            payload = payload;
            schedule = schedule;
            repeat_every = repeat_every;
            priority = priority;
            next_run = next_run;
            executions = 0;
            limit = limit;
          }),
          ok tt,
        )
      ]

  unfoldable pub next_run_of : CronJob → ℕ → ℕ
  unfolding parse_next_cron_run
  next_run_of cron now = elim cron.repeat_every [
    | some interval ↦ add_u64 now interval
    | none ↦ elim cron.schedule [
      | some schedule ↦ parse_next_cron_run schedule now
      | none ↦ add_u64 now 60000
    ]
  ]

  -- The executions stay below 2^64.
  unfoldable pub advance : CronJob → ℕ → CronJob
  unfolding next_run_of
  advance cron now = record cron {
    executions = cron.executions + 1;
    next_run = next_run_of cron now;
  }

  unfoldable pub round : Dict String CronJob → ℕ → Round
  unfolding advance
  round [] now = record { crons = []; ran = []; spent = [] }
  round ((name, cron) ∷ crons) now =
      let rest = round crons now in
      if is_due cron now
      then (if used_up cron
          then record rest { crons = (name, cron) ∷ rest.crons; spent = cron.name ∷ rest.spent }
          else record rest {
            crons = (name, advance cron now) ∷ rest.crons;
            ran = advance cron now ∷ rest.ran;
          })
      else record rest { crons = (name, cron) ∷ rest.crons }

abbrev pub remove_names : Dict String CronJob → List String → Dict String CronJob
remove_names d [] = d
remove_names d (name ∷ names) = remove_names (Dict.remove d name) names

abbrev pub persist_next_runs : Manager → List CronJob → Manager
persist_next_runs m [] = m
persist_next_runs m (cron ∷ crons) =
    persist_next_runs (emit m (persist_cron_next_run cron.name cron.next_run)) crons

abbrev pub persist_deletes : Manager → List String → Manager
persist_deletes m [] = m
persist_deletes m (name ∷ names) = persist_deletes (emit m (persist_cron_delete name)) names

unfoldable pub push_cron_jobs : (Char → Bool) → Manager → List CronJob → ℕ → Manager
push_cron_jobs is_alphanumeric m [] now = m
push_cron_jobs is_alphanumeric m (cron ∷ crons) now =
    push_cron_jobs is_alphanumeric
      (push is_alphanumeric m cron.queue
        (record (new_input cron.payload) { priority = cron.priority }) now).0
      crons now

module _ (is_cron : String → Bool) (next_occurrence : String → ℕ → Option ℕ) where
  unfoldable pub run_cron_jobs : (Char → Bool) → Manager → ℕ → Manager
  unfolding round push_cron_jobs
  run_cron_jobs is_alphanumeric m now =
      let r = round is_cron next_occurrence m.cron_jobs now in
      let advanced = record m { cron_jobs = remove_names r.crons r.spent } in
      push_cron_jobs is_alphanumeric (persist_deletes (persist_next_runs advanced r.ran) r.spent)
        r.ran now

unfoldable pub delete_cron : Manager → String → Manager × Bool
delete_cron m name =
    if Dict.contains_key m.cron_jobs name
    then (let gone = record m { cron_jobs = Dict.remove m.cron_jobs name } in
        (emit gone (persist_cron_delete name), true))
    else (m, false)

unfoldable pub list_crons : Manager → List CronJob
list_crons m = Dict.values m.cron_jobs
