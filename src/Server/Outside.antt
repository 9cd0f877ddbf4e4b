-- ===== src/Server/Outside.antt =====
-- What engine/src/server/handler and what it calls ask of libraries.
use Prim.Native.Char.{Char}
use flashq.Prelude.{ℕ, String, Bool, Option, List}
use flashq.Protocol.Json.{Value}

-- What the code calls of its libraries.
pub record Outside : Type 0 where
  pub is_alphanumeric : Char → Bool
  pub is_cron : String → Bool
  pub next_occurrence : String → ℕ → Option ℕ
  pub json_len : Value → ℕ
  pub to_lowercase : String → String
  pub as_bytes : String → List ℕ
