-- ===== src/Examples/Sessions.antt =====
-- The theorem on refused connections, applied to a server with one token.
use flashq.Prelude.{
  ◌≡◌, refl, true, false, none, some, List, [], ◌∷◌, codes, All, subst, some_injective, none-some,
}
use flashq.Auth
use flashq.Engine.{Engine}
use flashq.Server.Command.{auth_command, drain_command, pause_command}
use flashq.Server.Outside.{Outside}
use flashq.Server.Session.{ConnectionState, auth_token}
use flashq.Server.Session.Guard.{Origin, ours, theirs, serve, others, IsError, stranger_refused}
use flashq.Examples.{queued}

abbrev plain : Outside
plain = record {
  is_alphanumeric = λ c. true;
  is_cron = λ s. true;
  next_occurrence = λ s t. none;
  json_len = λ v. 4;
  to_lowercase = λ s. s;
  as_bytes = codes;
}

abbrev guarded : Engine
guarded = record {
  manager = queued;
  kv_store = [];
  hooks = record { webhooks = []; circuits = [] };
  workers = [];
  auth_tokens = "secret" ∷ [];
  queue_defaults = record { timeout = none; max_attempts = none; backoff = none; ttl = none };
  cleanup_settings = record {
    max_completed_jobs = 50000;
    max_job_results = 5000;
    cleanup_interval_secs = 60;
    metrics_history_size = 60;
  };
  tcp_connection_count = 2;
}

abbrev stranger : ConnectionState
stranger = record { authenticated = false }

abbrev visits : List Origin
visits =
    ours (record {
      request = record { req_id = none; command = auth_command "secred" };
      now = 1000;
      wakes = [];
    })
    ∷ theirs (record { authenticated = true })
        (record {
          request = record { req_id = none; command = pause_command "mail" };
          now = 1001;
          wakes = [];
        })
    ∷ ours (record {
      request = record { req_id = some "2"; command = drain_command "mail" };
      now = 1002;
      wakes = [];
    })
    ∷ []

stranger_refused_example :
    let (e', own', answers) = serve plain guarded stranger visits in
    (e' ≡ (serve plain guarded stranger (others visits)).0)
    × (own' ≡ stranger)
    × All IsError answers
unfolding Auth.verify_token Auth.any_token Auth.constant_time_eq Auth.collect_diff auth_token
stranger_refused_example = stranger_refused plain guarded stranger visits refl refl (
  (λ token p.
      subst (λ t. Auth.verify_token (codes "secret" ∷ []) (codes t) ≡ false) (some_injective p)
        refl),
  ((λ token p. absurd (none-some p)), tt),
)
