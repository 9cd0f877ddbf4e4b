-- ===== src/Validation.antt =====
-- engine/src/queue/validation.rs. `char::is_alphanumeric` reads Unicode tables: it is a parameter
-- of the check of queue names.
use Prim.Native.Char.{Char, code}
use Prim.Native.String.{len}
use flashq.Prelude.{ℕ, ◌+◌, ◌-◌, String, Bool, true, false, ◌&&◌, ◌||◌, nat_beq, ltb, if◌then◌else◌}
use flashq.Protocol.Json.{
  Number, int, float, Value, Items, Fields, null, bool, number, string, array, object, nil, cons,
  end, field,
}
use flashq.Result.{
  Result, ok, err, queue_name_empty, queue_name_too_long, queue_name_invalid, job_data_too_large,
}

abbrev pub max_job_data_size : ℕ
max_job_data_size = 10_485_760

abbrev pub max_queue_name_length : ℕ
max_queue_name_length = 256

abbrev pub max_batch_size : ℕ
max_batch_size = 1000

unfoldable pub name_char : (Char → Bool) → Char → Bool
name_char is_alphanumeric c =
    is_alphanumeric c || (nat_beq (code c) b'_' || (nat_beq (code c) b'-' || nat_beq (code c) b'.'))

unfoldable pub all_chars : (Char → Bool) → String → Bool
all_chars p String.[] = true
all_chars p (String.◌∷◌ c s) = p c && all_chars p s

abbrev is_empty : String → Bool
is_empty s = nat_beq (len s) 0

-- `name.len()` counts bytes.
unfoldable pub validate_queue_name : (Char → Bool) → String → Result (Unit {0})
unfolding name_char all_chars
validate_queue_name is_alphanumeric name =
    if is_empty name
    then err queue_name_empty
    else if ltb max_queue_name_length (len name)
    then err queue_name_too_long
    else if all_chars (name_char is_alphanumeric) name
    then ok tt
    else err queue_name_invalid

abbrev pub number_size : Number → ℕ
number_size (int n) = 20
number_size (float bits) = 24

-- The sums over arrays and objects, with the lengths that the separators take.
unfoldable mutual
  pub estimate_json_size : Value → ℕ
  estimate_json_size null = 4
  estimate_json_size (bool true) = 4
  estimate_json_size (bool false) = 5
  estimate_json_size (number n) = number_size n
  estimate_json_size (string s) = len s + 2
  estimate_json_size (array xs) = 2 + (items_len xs - 1) + items_size xs
  estimate_json_size (object fs) = 2 + (fields_len fs - 1) + fields_size fs

  pub items_len : Items → ℕ
  items_len nil = 0
  items_len (cons x xs) = 1 + items_len xs

  pub items_size : Items → ℕ
  items_size nil = 0
  items_size (cons x xs) = estimate_json_size x + items_size xs

  pub fields_len : Fields → ℕ
  fields_len end = 0
  fields_len (field k v fs) = 1 + fields_len fs

  pub fields_size : Fields → ℕ
  fields_size end = 0
  fields_size (field k v fs) = (len k + 3 + estimate_json_size v) + fields_size fs

unfoldable pub validate_job_data : Value → Result (Unit {0})
unfolding estimate_json_size
validate_job_data v =
    if ltb max_job_data_size (estimate_json_size v)
    then err (job_data_too_large (estimate_json_size v))
    else ok tt
