-- ===== src/Server/KvHandler.antt =====
-- engine/src/server/handler/kv.rs. The answer `none` is a panic.
use mathlib.Core.Option
use flashq.Prelude.{ℕ, Bool, true, false, Option, some, map}
use flashq.Result.{ok, err, not_kv_command}
use flashq.Kv.{
  Store, kv_set, kv_get, kv_del, kv_mget, kv_mset, kv_exists, kv_expire, kv_ttl, kv_keys, kv_incr,
}
use flashq.Engine.{Engine}
use flashq.Server.Command.{
  Command, KvEntry, kv_set_command, kv_get_command, kv_del_command, kv_mget_command,
  kv_mset_command, kv_exists_command, kv_expire_command, kv_ttl_command, kv_keys_command,
  kv_incr_command,
}
use flashq.Server.Response.{
  Response, ok_or_error, count_response, error_response, kv_value_response, kv_values_response,
  kv_keys_response, kv_exists_response, kv_ttl_response, kv_incr_response,
}
use flashq.Server.Outside.{Outside}

abbrev pub stored : Engine → Store → Response → Engine × Option Response
stored e s r = (record e { kv_store = s }, some r)

unfoldable pub is_kv_command : Command → Bool
is_kv_command (kv_set_command _ _ _) = true
is_kv_command (kv_get_command _) = true
is_kv_command (kv_del_command _) = true
is_kv_command (kv_mget_command _) = true
is_kv_command (kv_mset_command _) = true
is_kv_command (kv_exists_command _) = true
is_kv_command (kv_expire_command _ _) = true
is_kv_command (kv_ttl_command _) = true
is_kv_command (kv_keys_command _) = true
is_kv_command (kv_incr_command _ _) = true
is_kv_command _ = false

module _ (outside : Outside) where
  unfoldable pub handle_kv_command : Engine → Command → ℕ → Engine × Option Response
  handle_kv_command e (kv_set_command key v ttl) now =
      let (s, result) = kv_set outside.json_len e.kv_store key v ttl now in
      stored e s (ok_or_error result)
  handle_kv_command e (kv_get_command key) now =
      (e, some (kv_value_response (kv_get e.kv_store key now)))
  handle_kv_command e (kv_del_command key) now =
      let (s, deleted) = kv_del e.kv_store key in stored e s (kv_exists_response deleted)
  handle_kv_command e (kv_mget_command keys) now =
      (e, some (kv_values_response (kv_mget e.kv_store keys now)))
  handle_kv_command e (kv_mset_command entries) now =
      let triples = map (λ (x : KvEntry). (x.key, x.value, x.ttl)) entries in
      let (s, result) = kv_mset outside.json_len e.kv_store triples now in
      stored e s (elim result [ ok n ↦ count_response n | err x ↦ error_response x ])
  handle_kv_command e (kv_exists_command key) now =
      (e, some (kv_exists_response (kv_exists e.kv_store key now)))
  handle_kv_command e (kv_expire_command key ttl) now =
      let (s, success) = kv_expire e.kv_store key ttl now in stored e s (kv_exists_response success)
  handle_kv_command e (kv_ttl_command key) now =
      (e, some (kv_ttl_response (kv_ttl e.kv_store key now)))
  handle_kv_command e (kv_keys_command pattern) now =
      (e, Option.map kv_keys_response (kv_keys e.kv_store pattern now))
  handle_kv_command e (kv_incr_command key by) now =
      let (s, result) = kv_incr e.kv_store key by now in
      stored e s (elim result [ ok v ↦ kv_incr_response v | err x ↦ error_response x ])
  handle_kv_command e _ now = (e, some (error_response not_kv_command))
