-- ===== src/Protocol/Json.antt =====
-- The JSON values (serde_json's `Value`) that jobs and the key-value store carry.
use flashq.Prelude.{ℕ, String, ℤ, Bool}

-- `Number`: an integer (i64 or u64), or a double kept as its bit pattern and never computed with.
pub data Number : Type 0 where
  int : ℤ → Number
  float : ℕ → Number

mutual
  pub data Value : Type 0 where
    null : Value
    bool : Bool → Value
    number : Number → Value
    string : String → Value
    array : Items → Value
    object : Fields → Value

  pub data Items : Type 0 where
    nil : Items
    cons : Value → Items → Items

  pub data Fields : Type 0 where
    end : Fields
    field : String → Value → Fields → Fields
