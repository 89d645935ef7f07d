-- ===== src/Providers/Types.antt =====
-- society/providers/types.py. A worker is a parameter: it reads and changes a world of type `W`.
-- Money is counted in whole units of 10^-9 USD.
use society_harness.Prelude.{ℕ, Text, List, Option}
use society_harness.Json.{Json, Fields}

pub record NodeInput : Type 0 where
  pub node_id : Text
  pub agent : Text
  pub system_prompt : Text
  pub task : Text
  pub context : Fields
  pub tools : List Text
  pub workspace : Text
  pub output_schema : Option Json
  pub attempt : ℕ
  pub run_id : Text

pub data ErrorKind : Type 0 where
  provider task : ErrorKind

pub record NodeOutput : Type 0 where
  pub node_id : Text
  pub agent : Text
  pub provider_name : Text
  pub model : Text
  pub text : Text
  pub result : Option Json
  pub files_written : List Text
  pub input_tokens : ℕ
  pub output_tokens : ℕ
  pub cost_usd : ℕ
  pub duration_ms : ℕ
  pub error : Option Text
  pub error_kind : Option ErrorKind
  pub fallback_from : Option Text

pub record Worker (W : Type 0) : Type 0 where
  pub name : Text
  pub model : Text
  pub run : NodeInput → W → NodeOutput × W
