-- ===== src/Harness/Governed.antt =====
-- society/harness/governed.py: `GovernedWorker` and `GovernedCommandGate`. What a call of the gateway
-- does to the world of type `W`, which holds the gateway with all else, is an argument of which nothing
-- is assumed: other tasks move the world while `acquire` waits. The inner worker and the command of a
-- gate may raise. Times are ticks; `random.uniform` is a draw in millionths.
pub mod Units
mod Examples
use society_harness.Prelude.{
  ℕ, zero, suc, ◌+◌, ◌*◌, ◌/◌, ◌≡◌, ◌⊎◌, inl, inr, min, Bool, true, false, not, ◌||◌, Text, codes,
  same, List, [], ◌∷◌, ◌++◌, Option, none, some, if◌then◌else◌, ◌==◌,
}
use society_harness.Prelude.Results.{Exception, Result, ok, raise}
use society_harness.Providers.Types.{NodeInput, NodeOutput, ErrorKind, provider}
use society_harness.Gates.Types.{GateResult, GateContext}

pub record ProviderError : Type 0 where
  pub kind : Text
  pub retry_after : ℕ
  pub message : Text

-- The arguments of `acquire`.
pub record Ask : Type 0 where
  pub sid : Text
  pub resource : Text
  pub kind : Text
  pub run_id : Text
  pub node_id : Text
  pub agent : Text
  pub attempt : ℕ
  pub tenant : Text

-- The arguments of `release`.
pub record Use : Type 0 where
  pub tokens_in : ℕ
  pub tokens_out : ℕ
  pub outcome : Text
  pub rejected : Bool
  pub reject_gate : Option Text

pub data Answer (G : Type 0) : Type 0 where
  granted : G → Answer G
  refused : ProviderError → Answer G
  broke : Exception → Answer G

-- How `release` ends: it returns, or raises the ProviderError of a bill or another exception.
pub data Released : Type 0 where
  released : Released
  unpaid : ProviderError → Released
  failed : Exception → Released

-- How a call of the worker or of the gate ends.
pub data Ending (A : Type 0) : Type 0 where
  returned : A → Ending A
  raised : Exception → Ending A
  raised_error : ProviderError → Ending A

pub record Calls (W G : Type 0) : Type 0 where
  pub acquire : Ask → W → Answer G × W
  pub release : G → Use → W → Released × W
  pub sleep : ℕ → W → W
  pub uniform : W → ℕ × W

-- An exception that `release` raises takes the place of what would have come.
abbrev pub unless_raised : {A : Type 0} → Released → Ending A → Ending A
unless_raised released ending = ending
unless_raised (unpaid e) ending = raised_error e
unless_raised (failed e) ending = raised e

abbrev pub no_use : Text → Use
no_use outcome = record {
  tokens_in = 0;
  tokens_out = 0;
  outcome = outcome;
  rejected = false;
  reject_gate = none;
}

-- SDK_RETRIES
abbrev pub sdk_retries : ℕ
sdk_retries = 2

pub record GovernedWorker (W : Type 0) : Type 0 where
  pub inner : NodeInput → W → Result NodeOutput × W
  pub resource : Text
  pub tenant_of : Text → Text
  pub name : Text
  pub model : Text

abbrev pub is_some : {A : Type 0} → Option A → Bool
is_some none = false
is_some (some a) = true

abbrev pub is_rejected : NodeOutput → Bool
is_rejected out = is_some out.error || not (is_some out.result)

abbrev pub usage_of : NodeOutput → Use
usage_of out = record {
  tokens_in = out.input_tokens;
  tokens_out = out.output_tokens;
  outcome = codes "ok";
  rejected = is_rejected out;
  reject_gate = if is_rejected out then some (codes "no_error") else none;
}

module _ {W G : Type 0} (gw : Calls W G) (second : ℕ) where
  -- `_error`, which `provider_errors` counts.
  unfoldable pub error_output : GovernedWorker W → NodeInput → ProviderError → NodeOutput
  error_output worker node e = record {
    node_id = node.node_id;
    agent = node.agent;
    provider_name = worker.name;
    model = worker.model;
    text = [];
    result = none;
    files_written = [];
    input_tokens = 0;
    output_tokens = 0;
    cost_usd = 0;
    duration_ms = 0;
    error = some (e.kind ++ (codes ": " ++ e.message));
    error_kind = some provider;
    fallback_from = none;
  }

  unfoldable pub ask_of : GovernedWorker W → NodeInput → Ask
  ask_of worker node = record {
    sid = node.run_id ++ (codes "/" ++ node.node_id);
    resource = worker.resource;
    kind = codes "chat";
    run_id = node.run_id;
    node_id = node.node_id;
    agent = node.agent;
    attempt = node.attempt;
    tenant = worker.tenant_of node.run_id;
  }

  -- The wait before the next attempt, in the world after the draw where one is made.
  unfoldable pub wait_of : ProviderError → ℕ → W → ℕ × W
  wait_of e delay w =
      let (factor, w') = gw.uniform w in
      if e.retry_after == 0 then (delay * factor / 1000000, w') else (e.retry_after, w)

  -- The loop over `acquire`, with the retries that are left.
  unfoldable pub acquire_loop : ℕ → ℕ → Ask → W → Answer G × W
  acquire_loop zero delay a w = gw.acquire a w
  acquire_loop (suc left) delay a w =
      let (answer, w1) = gw.acquire a w in
      elim answer [
        | granted g ↦ (granted g, w1)
        | refused e ↦
            let (wait, w2) = wait_of e delay w1 in
            let rest = acquire_loop left (min (8 * second) (delay * 2)) a (gw.sleep wait w2) in
            if same e.kind (codes "budget") || same e.kind (codes "timeout")
            then (refused e, w1)
            else rest
        | broke e ↦ (broke e, w1)
      ]

  -- The call once it has its unit: how it ends, and how many provider errors were counted.
  unfoldable pub call_with : GovernedWorker W → NodeInput → G → W → (Ending NodeOutput × ℕ) × W
  call_with worker node g w =
      let (result, w1) = worker.inner node w in
      elim result [
        | raise e ↦
            let (after, w2) = gw.release g (no_use (codes "error")) w1 in
            ((unless_raised after (raised e), 0), w2)
        | ok out ↦
            let (after, w2) = gw.release g (usage_of out) w1 in
            elim after [
              | released ↦ ((returned out, 0), w2)
              | unpaid e ↦ ((returned (error_output worker node e), 1), w2)
              | failed e ↦ ((raised e, 0), w2)
            ]
      ]

  unfoldable pub govern : GovernedWorker W → NodeInput → W → (Ending NodeOutput × ℕ) × W
  govern worker node w =
      let (answer, w1) = acquire_loop sdk_retries (second / 2) (ask_of worker node) w in
      elim answer [
        | refused e ↦ ((returned (error_output worker node e), 1), w1)
        | broke e ↦ ((raised e, 0), w1)
        | granted g ↦ call_with worker node g w1
      ]

  unfoldable pub gate_ask : Text → (Text → Text) → GateContext → Ask
  gate_ask name tenant_of ctx = record {
    sid = ctx.run_id ++ (codes "/" ++ ctx.node.node_id);
    resource = codes "sandbox.cpu";
    kind = codes "gate:" ++ name;
    run_id = ctx.run_id;
    node_id = ctx.node.node_id;
    agent = ctx.node.agent;
    attempt = ctx.attempt;
    tenant = tenant_of ctx.run_id;
  }

  abbrev pub ending_of : {A : Type 0} → Result A → Ending A
  ending_of (ok a) = returned a
  ending_of (raise e) = raised e

  -- `GovernedCommandGate.check`: what the gateway raises is raised, and the unit goes back whatever the
  -- command did.
  unfoldable pub govern_gate :
      (GateContext → W → Result GateResult × W)
      → Text
      → (Text → Text)
      → GateContext
      → W
      → Ending GateResult × W
  govern_gate check name tenant_of ctx w =
      let (answer, w1) = gw.acquire (gate_ask name tenant_of ctx) w in
      elim answer [
        | refused e ↦ (raised_error e, w1)
        | broke e ↦ (raised e, w1)
        | granted g ↦
            let (result, w2) = check ctx w1 in
            let (after, w3) = gw.release g (no_use (codes "ok")) w2 in
            (unless_raised after (ending_of result), w3)
      ]
