-- ===== src/Gates/Executor/Feedback.antt =====
-- society/gates/executor.py: the task of a retry, and the parts of a record. The gate that comes before
-- all others is `NoErrorGate` of society/gates/deterministic.py.
use society_harness.Prelude.{
  ℕ, zero, suc, ◌-◌, Text, codes, List, [], ◌∷◌, ◌++◌, Option, none, some, if◌then◌else◌, length,
}
use society_harness.Prelude.Decimal.{show}
use society_harness.Json.{end, field, Fields}
use society_harness.Memory.Lineage.{is_approved}
use society_harness.Gates.Types.{GateResult, Gate, approve, reject}

newline : Text
newline = 10 ∷ []

feedback_lines : List GateResult → Text
unfolding newline
feedback_lines [] = []
feedback_lines (g ∷ gs) =
    newline ++ (codes "- " ++ (g.gate ++ (codes ": " ++ (g.reason ++ feedback_lines gs))))

unfoldable pub feedback_task : Text → ℕ → List GateResult → Text
unfolding feedback_lines
feedback_task task attempt failures =
    task
    ++ (newline
        ++ (newline
            ++ (codes "[Retry — attempt "
                ++ (show attempt
                    ++ (codes "] Your previous attempt was rejected by the quality gate:"
                        ++ (feedback_lines failures
                            ++ (newline
                                ++ (codes
                                      "Your workspace still contains the files from that attempt. Start by reading the files named in the "
                                    ++ (codes
                                          "failure (and the failing test) with read_file; then change only what the failure indicates, re-run "
                                        ++ (codes
                                              "the check yourself, and only then report. Do not rewrite everything from scratch and do not repeat "
                                            ++ codes "the same mistake."))))))))))

-- `output.error` as a truth value.
abbrev pub error_text : Option Text → Text
error_text none = []
error_text (some e) = e

abbrev pub or_error : Text → Option Text → Option Text
or_error message none = some message
or_error message (some []) = some message
or_error message (some (c ∷ cs)) = some (c ∷ cs)

abbrev pub no_error_result : Text → GateResult
no_error_result [] = approve (codes "no_error") (codes "worker completed") end
no_error_result (c ∷ cs) = reject (codes "no_error") (c ∷ cs)

unfoldable pub no_error_gate : {W : Type 0} → Gate W
no_error_gate = record {
  name = codes "no_error";
  check = λ ctx w. (no_error_result (error_text ctx.output.error), w);
}

unfoldable pub failures : List GateResult → List GateResult
failures [] = []
failures (g ∷ gs) = if is_approved g.verdict then failures gs else g ∷ failures gs

unfoldable pub get_last : List GateResult → Option GateResult
get_last [] = none
get_last (g ∷ []) = some g
get_last (g ∷ h ∷ gs) = get_last (h ∷ gs)

abbrev pub drop : ℕ → Text → Text
drop zero cs = cs
drop (suc n) [] = []
drop (suc n) (c ∷ cs) = drop n cs

abbrev pub last_chars : ℕ → Text → Text
last_chars n cs = drop (length cs - n) cs

unfoldable pub context_keys : Fields → List Text
context_keys end = []
context_keys (field k v fs) = k ∷ context_keys fs
