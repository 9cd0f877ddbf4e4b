-- ===== src/Logs.antt =====
-- engine/src/queue/logs.rs: the log of each job, and the debounce cache's expiry.
pub mod Bounds
use flashq.Prelude.{
  ℕ, String, Bool, true, false, not, List, [], ◌∷◌, ◌++◌, length, ltb, map, nat_eq, if◌then◌else◌,
}
use flashq.Dict
use flashq.Dict.{Dict}
use flashq.Protocol.Job.{JobLogEntry}
use flashq.Result.{Result, ok, err, not_found}
use flashq.Manager.{Manager}

abbrev pub pop_front {ℓ} : {A : Type ℓ} → List A → List A
pop_front [] = []
pop_front (x ∷ xs) = xs

-- `push_back`, then `pop_front` past 100 entries.
unfoldable pub append_log : List JobLogEntry → JobLogEntry → List JobLogEntry
append_log logs entry =
    let longer = logs ++ entry ∷ [] in if ltb 100 (length longer) then pop_front longer else longer

unfoldable pub add_job_log : Manager → ℕ → String → String → ℕ → Manager × Result (Unit {0})
unfolding append_log
add_job_log m id message level now =
    if not (Dict.contains_key m.job_index id)
    then (m, err (not_found id))
    else let entry : JobLogEntry = record { timestamp = now; message = message; level = level } in
      (
        record m {
          job_logs = Dict.insert m.job_logs id (append_log (Dict.get_or m.job_logs id []) entry);
        },
        ok tt,
      )

unfoldable pub get_job_logs : Manager → ℕ → List JobLogEntry
get_job_logs m id = Dict.get_or m.job_logs id []

-- The inner maps keep what has not expired, and empty ones go.
unfoldable pub live_entries : ℕ → Dict String ℕ → Dict String ℕ
live_entries now = Dict.retain (λ _ expiry. ltb now expiry)

abbrev pub is_nonempty {ℓ} : {A : Type ℓ} → List A → Bool
is_nonempty [] = false
is_nonempty (x ∷ xs) = true

unfoldable pub cleanup_debounce_cache : Manager → ℕ → Manager
unfolding live_entries
cleanup_debounce_cache m now = record m {
  debounce_cache =
      Dict.retain (λ _ queue_map. is_nonempty queue_map)
        (map (λ (e : String × Dict String ℕ). (e.0, live_entries now e.1)) m.debounce_cache);
}
