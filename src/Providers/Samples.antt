-- ===== src/Providers/Samples.antt =====
-- society/providers/types.py: values that the tests share.
use society_harness.Prelude.{ℕ, suc, Text, codes, [], Option, none}
use society_harness.Providers.Types.{NodeOutput, Worker, ErrorKind}

-- A report with nothing but an error, if any.
abbrev pub report : Text → Option Text → Option ErrorKind → NodeOutput
report name error kind = record {
  node_id = codes "n1";
  agent = codes "backend";
  provider_name = name;
  model = codes "m";
  text = [];
  result = none;
  files_written = [];
  input_tokens = 0;
  output_tokens = 0;
  cost_usd = 0;
  duration_ms = 0;
  error = error;
  error_kind = kind;
  fallback_from = none;
}

-- The world counts the calls.
abbrev pub worker : Text → Option Text → Option ErrorKind → Worker ℕ
worker name error kind = record {
  name = name;
  model = codes "m";
  run = λ node calls. (report name error kind, suc calls);
}
