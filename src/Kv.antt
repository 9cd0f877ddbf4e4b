-- ===== src/Kv.antt =====
-- engine/src/queue/kv.rs: the key-value store. The length of a value's JSON text is serde_json's: it
-- is a parameter.
pub mod Expiry
use Prim.Native.String.{len}
use mathlib.Core.Option
use flashq.Prelude.{
  ℕ, suc, ◌+◌, ◌-◌, ◌^◌, ◌%◌, String, ℤ, pos, negsuc, Bool, true, false, not, ◌&&◌, ◌||◌, Option,
  none, some, List, [], ◌∷◌, map, length, take, filter, codes, ltb, nat_beq, nat_eq, string_eq,
  if◌then◌else◌, add_u64, u64_mod,
}
use flashq.Dict
use flashq.Glob.{glob_match}
use flashq.Dict.{Dict}
use flashq.Protocol.Json.{Value, null, number, int, float}
use flashq.Result.{
  Result, ok, err, key_empty, key_too_long, value_too_large, too_many_entries, not_an_integer,
  not_a_number,
}

abbrev pub max_key_length : ℕ
max_key_length = 1024

abbrev pub max_value_size : ℕ
max_value_size = 10_485_760

abbrev pub max_batch_size : ℕ
max_batch_size = 1000

pub record KvValue : Type 0 where
  pub value : Value
  pub expires_at : Option ℕ

abbrev pub Store : Type 0
Store = Dict String KvValue

unfoldable pub new_value : Value → Option ℕ → ℕ → KvValue
new_value v ttl now = record { value = v; expires_at = Option.map (λ t. add_u64 now t) ttl }

unfoldable pub is_expired : KvValue → ℕ → Bool
is_expired entry now = elim entry.expires_at [ none ↦ false | some exp ↦ ltb exp now ]

-- A `u64` cast to `i64`.
abbrev pub of_word : ℕ → ℤ
of_word w = if ltb w (2 ^ 63) then pos w else negsuc (u64_mod - 1 - w)

unfoldable pub remaining_ttl : KvValue → ℕ → ℤ
remaining_ttl entry now = elim entry.expires_at [
  | none ↦ negsuc 0
  | some exp ↦ if ltb exp now then pos 0 else of_word (exp - now)
]

module _ (json_len : Value → ℕ) where
  unfoldable pub kv_set : Store → String → Value → Option ℕ → ℕ → Store × Result (Unit {0})
  kv_set s key v ttl now =
      if nat_beq (len key) 0
      then (s, err key_empty)
      else if ltb max_key_length (len key)
      then (s, err key_too_long)
      else if ltb max_value_size (json_len v)
      then (s, err value_too_large)
      else (Dict.insert s key (new_value v ttl now), ok tt)

  -- The loop of `kv_mset`: entries that are not valid are passed over.
  unfoldable pub mset_loop : Store → List (String × Value × Option ℕ) → ℕ → Store × ℕ
  mset_loop s [] now = (s, 0)
  mset_loop s ((key, v, ttl) ∷ es) now =
      let valid =
        not (nat_beq (len key) 0 || ltb max_key_length (len key))
        && not (ltb max_value_size (json_len v)) in
      let (s', count) =
        mset_loop (if valid then Dict.insert s key (new_value v ttl now) else s) es now in
      (s', if valid then suc count else count)

  unfoldable pub kv_mset : Store → List (String × Value × Option ℕ) → ℕ → Store × Result ℕ
  unfolding mset_loop
  kv_mset s es now =
      if ltb max_batch_size (length es)
      then (s, err too_many_entries)
      else let (s', count) = mset_loop s es now in (s', ok count)

-- A found entry counts while it has not expired.
unfoldable pub live : Option KvValue → ℕ → Option KvValue
unfolding is_expired
live none now = none
live (some entry) now = if is_expired entry now then none else some entry

unfoldable pub kv_get : Store → String → ℕ → Option Value
unfolding live
kv_get s key now = Option.map (λ (e : KvValue). e.value) (live (Dict.get s key) now)

unfoldable pub kv_del : Store → String → Store × Bool
kv_del s key = (Dict.remove s key, Dict.contains_key s key)

unfoldable pub kv_mget : Store → List String → ℕ → List (Option Value)
unfolding kv_get
kv_mget s keys now = map (λ key. kv_get s key now) (take max_batch_size keys)

unfoldable pub kv_exists : Store → String → ℕ → Bool
unfolding live
kv_exists s key now = elim (live (Dict.get s key) now) [ none ↦ false | some _ ↦ true ]

unfoldable pub kv_expire : Store → String → ℕ → ℕ → Store × Bool
unfolding live
kv_expire s key ttl now = elim (live (Dict.get s key) now) [
  | none ↦ (s, false)
  | some entry ↦ (Dict.insert s key (record entry { expires_at = some (add_u64 now ttl) }), true)
]

unfoldable pub kv_ttl : Store → String → ℕ → ℤ
unfolding live remaining_ttl
kv_ttl s key now = elim (live (Dict.get s key) now) [
  | none ↦ negsuc 1
  | some entry ↦ remaining_ttl entry now
]

-- `i64` addition on two's complement.
abbrev pub to_word : ℤ → ℕ
to_word (pos n) = n % u64_mod
to_word (negsuc n) = u64_mod - 1 - n

unfoldable pub add_i64 : ℤ → ℤ → ℤ
add_i64 a b = of_word ((to_word a + to_word b) % u64_mod)

-- What `kv_incr` counts from: `as_i64` fails above the `i64` range and on doubles.
unfoldable pub current_of : Value → Result ℤ
current_of (number (int (pos n))) = if ltb n (2 ^ 63) then ok (pos n) else err not_an_integer
current_of (number (int (negsuc n))) = ok (negsuc n)
current_of (number (float bits)) = err not_an_integer
current_of null = ok (pos 0)
current_of _ = err not_a_number

-- An expired entry counts as new, an entry that has not expired keeps its expiry.
unfoldable pub kv_incr : Store → String → ℤ → ℕ → Store × Result ℤ
unfolding is_expired current_of add_i64
kv_incr s key by now = elim (Dict.get s key) [
  | none ↦ (Dict.insert s key (record { value = number (int by); expires_at = none }), ok by)
  | some entry ↦
      if is_expired entry now
      then (Dict.insert s key (record { value = number (int by); expires_at = none }), ok by)
      else elim (current_of entry.value) [
        | err e ↦ (s, err e)
        | ok current ↦ (
          Dict.insert s key (record entry { value = number (int (add_i64 current by)) }),
          ok (add_i64 current by),
        )
      ]
]

unfoldable pub cleanup_expired_kv : Store → ℕ → Store
unfolding is_expired
cleanup_expired_kv s now = Dict.retain (λ _ entry. not (is_expired entry now)) s

-- The keys that have not expired and match; `none` where a match panics.
unfoldable pub kv_keys : Store → Option String → ℕ → Option (List String)
unfolding is_expired glob_match
kv_keys [] pattern now = some []
kv_keys ((key, entry) ∷ s) pattern now =
    let rest = kv_keys s pattern now in
    if is_expired entry now then rest else elim pattern [
      | none ↦ Option.map (λ l. key ∷ l) rest
      | some p ↦ elim (glob_match (codes p) (codes key)) [
        | none ↦ none
        | some true ↦ Option.map (λ l. key ∷ l) rest
        | some false ↦ rest
      ]
    ]

unfoldable pub kv_stats : Store → ℕ → ℕ × ℕ
unfolding is_expired
kv_stats s now = (
  length s,
  length (
      filter
        (λ (e : String × KvValue). elim e.1.expires_at [
          | none ↦ false
          | some _ ↦ not (is_expired e.1 now)
        ])
        s),
)
