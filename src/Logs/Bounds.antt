-- ===== src/Logs/Bounds.antt =====
-- How many log entries a job keeps.
use flashq.Prelude.{
  ℕ, ◌≤◌, String, List, [], ◌∷◌, arith, length, length-append, Bool-cases, inl, inr, not, nat_eq,
}
use flashq.Dict
use flashq.Dict.Laws.{get-insert_self}
use flashq.Protocol.Job.{JobLogEntry}
use flashq.Manager.{Manager}
use flashq.Logs.{append_log, add_job_log, get_job_logs}

length-append_log :
    (logs : List JobLogEntry) (entry : JobLogEntry)
    → length logs ≤ 100
    → length (append_log logs entry) ≤ 100
unfolding append_log
length-append_log [] entry le = ground arith
length-append_log (l ∷ logs) entry le =
    ground (arith, length-append (l ∷ logs) (entry ∷ []), length-append logs (entry ∷ []))

-- If a job has at most 100 log entries, it has at most 100 after `add_job_log`.
pub logs_bounded :
    (m : Manager) (id : ℕ) (message level : String) (now : ℕ)
    → length (get_job_logs m id) ≤ 100
    → length (get_job_logs (add_job_log m id message level now).0 id) ≤ 100
unfolding get_job_logs add_job_log
logs_bounded m id message level now le =
    elim (Bool-cases (not (Dict.contains_key m.job_index id))) [
      | inl e ↦ rw (e, add_job_log) le
      | inr e ↦
          rw (e, add_job_log)
            (rw (get-insert_self m.job_logs id _, Dict.get_or)
              (length-append_log (get_job_logs m id)
                (record { timestamp = now; message = message; level = level }) le))
    ]
