-- ===== src/Result.antt =====
-- The errors that the operations of engine/src/queue return. The source's are texts; here each
-- text is a constructor with the values that it shows.
use flashq.Prelude.{ℕ, String}

pub data Error : Type 0 where
  queue_name_empty queue_name_too_long queue_name_invalid : Error
  job_data_too_large : ℕ → Error
  debounced duplicate_key storage_failed : String → Error
  not_found not_found_in_processing not_found_in_queue not_found_in_dlq : ℕ → Error
  not_found_in_waiting_deps not_found_in_waiting_children not_in_processing : ℕ → Error
  not_delayed cannot_be_cancelled cannot_change_priority : ℕ → Error
  empty_flow schedule_too_long bad_interval bad_schedule no_schedule : Error
  invalid_url bad_scheme no_host localhost_url private_ip internal_url : Error
  invalid_token authentication_required cron_not_found invalid_state : Error
  not_kv_command unknown_command : Error
  parent_not_found : ℕ → Error
  key_empty key_too_long value_too_large too_many_entries not_an_integer not_a_number : Error

pub data Result {ℓ} (A : Type ℓ) : Type ℓ where
  ok : A → Result A
  err : Error → Result A
