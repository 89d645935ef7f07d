-- ===== src/Gates/Executor/Outputs.antt =====
-- society/gates/executor.py: the outputs of an attempt, the gates and the promotion.
use society_harness.Prelude.{ℕ, true, false, Text, codes, List, [], ◌∷◌, ◌++◌}
use society_harness.Prelude.Results.{Exception, Result, ok, raise}
use society_harness.Json.{Json, null}
use society_harness.Memory.Kv.{Store, put_attempt, promote, exists, attempt_key}
use society_harness.Memory.Lineage.{is_approved}
use society_harness.Providers.Types.{NodeOutput}
use society_harness.Gates.Types.{GateResult, GateContext, Gate}
use society_harness.Gates.Executor.Types.{Extracted, value, failed, Extractor}
use society_harness.Gates.Executor.Feedback.{or_error}

abbrev pub run_dtype : Text
run_dtype = codes "_run"

-- The keys written, the output and the store while the extractors run; or the exception that
-- `put_attempt` raised, with the store as it was then.
pub data Written : Type 0 where
  wrote : List Text → NodeOutput → Store → Written
  write_failed : Exception → Store → Written

abbrev pub after_put : List Text → NodeOutput → Store → Result (Store × Text) → Written
after_put keys out kv (ok (kv', k)) = wrote (keys ++ k ∷ []) out kv'
after_put keys out kv (raise e) = write_failed e kv

module _ (now : ℕ) (run agent : Text) (attempt : ℕ) where
  abbrev pub write_value : Text → Json → List Text → NodeOutput → Store → Written
  write_value dtype null keys out kv = wrote keys out kv
  write_value dtype v keys out kv =
      after_put keys out kv (put_attempt now kv run agent dtype attempt v)

  abbrev pub write_extracted : Text → Extracted → List Text → NodeOutput → Store → Written
  write_extracted dtype (value v) keys out kv = write_value dtype v keys out kv
  write_extracted dtype (failed e) keys out kv =
      wrote keys
        (record out {
          error = or_error (codes "extractor " ++ (dtype ++ (codes " failed: " ++ e))) out.error;
        })
        kv

  -- The loop over `outputs`.
  unfoldable pub write_outputs : List (Text × Extractor) → List Text → NodeOutput → Store → Written
  write_outputs [] keys out kv = wrote keys out kv
  write_outputs ((dtype, extract) ∷ rest) keys out kv =
      elim (write_extracted dtype (extract out) keys out kv) [
        | wrote keys' out' kv' ↦ write_outputs rest keys' out' kv'
        | write_failed e kv' ↦ write_failed e kv'
      ]

  -- The attempts that were written are promoted.
  unfoldable pub promote_all : List Text → Store → Result Store
  promote_all [] kv = ok kv
  promote_all (dtype ∷ rest) kv = elim (exists kv (attempt_key run agent dtype attempt)) [
    | true ↦ elim (promote now kv run agent dtype attempt) [
      | ok (kv', k) ↦ promote_all rest kv'
      | raise e ↦ raise e
    ]
    | false ↦ promote_all rest kv
  ]

module _ {W : Type 0} where
  -- The gates in order, up to the first that does not approve.
  unfoldable pub run_gates : List (Gate W) → GateContext → W → List GateResult × W
  run_gates [] ctx w = (ctx.prior, w)
  run_gates (g ∷ gs) ctx w =
      let (res, w') = g.check ctx w in
      let results = ctx.prior ++ res ∷ [] in
      elim (is_approved res.verdict) [
        | true ↦ run_gates gs (record ctx { prior = results }) w'
        | false ↦ (results, w')
      ]
