-- ===== src/Kv/Expiry.antt =====
-- What is read back from the key-value store.
use flashq.Prelude.{
  ℕ, ◌+◌, ◌<◌, ◌≡◌, ap, ◌∙◌, String, true, false, Option, none, some, arith, ltb, string_eq,
  if◌then◌else◌, u64_mod, negsuc, pos, ◌-◌, ◌^◌,
}
use flashq.Dict
use flashq.Dict.Laws.{get-insert_self}
use flashq.Protocol.Json.{Value}
use flashq.Result.{ok}
use flashq.Kv.{Store, new_value, is_expired, live, kv_set, kv_get, kv_exists, kv_ttl, remaining_ttl}

kv_set-stored :
    (json_len : Value → ℕ) (s : Store) (key : String) (v : Value) (ttl : Option ℕ) (now : ℕ)
    → (kv_set json_len s key v ttl now).1 ≡ ok tt
    → (kv_set json_len s key v ttl now).0 ≡ Dict.insert s key (new_value v ttl now)
unfolding kv_set
kv_set-stored json_len s key v ttl now h = ground arith

-- What the reads say of an entry with an expiry.
reads :
    (s : Store) (key : String) (v : Value) (d now t : ℕ)
    → now + d < u64_mod
    → Dict.get s key ≡ some (new_value v (some d) now)
    → (kv_get s key t ≡ (if ltb (now + d) t then none else some v))
      × (kv_exists s key t ≡ (if ltb (now + d) t then false else true))
      × (kv_ttl s key t ≡ (
          if ltb (now + d) t
          then negsuc 1
          else if ltb (now + d - t) (2 ^ 63)
          then pos (now + d - t)
          else negsuc (2 ^ 64 - (now + d - t) - 1)))
unfolding kv_get kv_exists kv_ttl live is_expired remaining_ttl new_value
reads s key v d now t fits e =
    (rw (e, kv_get) (ground arith), rw (e, kv_exists) (ground arith), rw (e, kv_ttl) (ground arith))

-- A `kv_set` with a time to live that succeeds, at a time whose sum with it fits a `u64`, is read
-- back as the value up to the end of that time and as nothing after it; `kv_exists` and `kv_ttl`
-- agree with that at all times, but a rest of 2^63 milliseconds or more is answered as that number
-- less 2^64, which is negative.
pub kv_set_lives :
    (json_len : Value → ℕ) (s : Store) (key : String) (v : Value) (d now t : ℕ)
    → now + d < u64_mod
    → (kv_set json_len s key v (some d) now).1 ≡ ok tt
    → let s' = (kv_set json_len s key v (some d) now).0 in
      (kv_get s' key t ≡ (if ltb (now + d) t then none else some v))
      × (kv_exists s' key t ≡ (if ltb (now + d) t then false else true))
      × (kv_ttl s' key t ≡ (
          if ltb (now + d) t
          then negsuc 1
          else if ltb (now + d - t) (2 ^ 63)
          then pos (now + d - t)
          else negsuc (2 ^ 64 - (now + d - t) - 1)))
kv_set_lives json_len s key v d now t fits h =
    reads (kv_set json_len s key v (some d) now).0 key v d now t fits (
      ap (λ r. Dict.get r key) (kv_set-stored json_len s key v (some d) now h)
      ∙ get-insert_self s key (new_value v (some d) now))
