-- ===== src/Ack/Retry.antt =====
-- Where a failed job is found again.
use flashq.Prelude.{
  ℕ, ◌+◌, ◌*◌, ◌%◌, ◌^◌, min, nat_beq, none, if◌then◌else◌, String, Option, some, nat_eq, string_eq,
  add_u32,
}
use flashq.Dict
use flashq.Protocol.Job.{Job}
use flashq.Manager.{Manager}

abbrev pub tried : Job → Job
tried job = record job { attempts = add_u32 job.attempts 1 }

-- The job one attempt later, delayed by its backoff: the backoff doubles with each attempt up to the
-- tenth, and a backoff of nothing leaves the time as it was.
abbrev pub next_try : Job → Option String → ℕ → Job
next_try job error now =
    let attempts = (job.attempts + 1) % 2 ^ 32 in
    let delay = job.backoff * 2 ^ min attempts 10 % 2 ^ 64 in
    record job {
      attempts = attempts;
      run_at = if nat_beq delay 0 then job.run_at else (now + delay) % 2 ^ 64;
      started_at = 0;
      progress_msg = elim error [ none ↦ job.progress_msg | some text ↦ some text ];
    }
