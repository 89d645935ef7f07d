-- ===== src/Gates/Checks/Schemas/Approval.antt =====
-- society/gates/deterministic.py: what `SchemaDiffGate` approves.
use society_harness.Prelude.{
  ◌≡◌, ◌≢◌, ◌↔◌, refl, sym, ap, Text, List, ◌∙◌, codes, [], ◌∷◌, Option, none, some,
}
use society_harness.Prelude.Results.{ok, >>=-eq-ok}
use society_harness.Json.{Json, null, bool, num, str, arr, obj, Fields, get_field}
use society_harness.Memory.Kv.{get_current}
use society_harness.Memory.Lineage.{approved}
use society_harness.Gates.Types.{GateResult, GateContext}
use society_harness.Gates.Checks.{fields_of}
use society_harness.Gates.Checks.Schemas.{Schema, read_schema, diff_schemas}
use society_harness.Gates.Checks.Schemas.Gate.{
  SchemaDiffGate, diff_verdict, compare_schemas, against, published, schema_diff_gate,
}
use society_harness.Gates.Checks.Schemas.Reading.{ReadsAs, read_schema_iff}
use society_harness.Gates.Checks.Schemas.Matches.{Matches, diff_schemas_iff}

no_diffs :
    (diffs : List Text) (r : GateResult)
    → ok (diff_verdict diffs) ≡ ok r
    → r.verdict ≡ approved
    → diffs ≡ []
unfolding diff_verdict
no_diffs [] r judged v = refl
no_diffs (f ∷ fs) r judged v = absurd cc

compare_schemas-Matches :
    (c d : Option Text) (x y : Json) (r : GateResult)
    → compare_schemas c d x y ≡ ok r
    → r.verdict ≡ approved
    → (c ≡ none)
      × (d ≡ none)
      × ((e : Schema) × (a : Schema) × ReadsAs x e × ReadsAs y a × Matches e a)
unfolding compare_schemas
compare_schemas-Matches (some m) d x y r h v = absurd cc
compare_schemas-Matches none (some m) x y r h v = absurd cc
compare_schemas-Matches none none x y r h v =
    let (e, is_e, h1) = >>=-eq-ok (read_schema x) _ h in
    let (a, is_a, h2) = >>=-eq-ok (read_schema y) _ h1 in
    let (diffs, compared, judged) = >>=-eq-ok (diff_schemas e a (codes "$")) _ h2 in
    let clean = no_diffs diffs r judged v in
    (
      refl,
      refl,
      (
        e,
        a,
        (read_schema_iff x e).0 is_e,
        (read_schema_iff y a).0 is_a,
        (diff_schemas_iff e a (codes "$")).0 (compared ∙ ap ok clean),
      ),
    )

module _ (check_schema : Json → Option Text) where
  -- What is published and the dict that was used are accepted by the validator, and they are schemas
  -- that match.
  abbrev pub Agree : SchemaDiffGate → GateContext → Type 0
  Agree g ctx =
      (expected : Json) × (fs : Fields) × (e a : Schema) × (get_current ctx.kv ctx.run_id
          g.producer_agent g.producer_dtype
        ≡ ok expected)
      × (expected ≢ null)
      × (get_field g.consumer_result_key (fields_of ctx.output.result) ≡ some (obj fs))
      × (check_schema expected ≡ none)
      × (check_schema (obj fs) ≡ none)
      × ReadsAs expected e
      × ReadsAs (obj fs) a
      × Matches e a

  published-eq-against :
      (g : SchemaDiffGate) (ctx : GateContext) (expected : Json)
      → expected ≢ null
      → published check_schema g ctx expected
        ≡ against check_schema g expected
            (get_field g.consumer_result_key (fields_of ctx.output.result))
  unfolding published
  published-eq-against g ctx null h = absurd (h refl)
  published-eq-against g ctx (bool b) h = refl
  published-eq-against g ctx (num n) h = refl
  published-eq-against g ctx (str t) h = refl
  published-eq-against g ctx (arr xs) h = refl
  published-eq-against g ctx (obj fs) h = refl

  published-ne-null :
      (g : SchemaDiffGate) (ctx : GateContext) (expected : Json) (r : GateResult)
      → published check_schema g ctx expected ≡ ok r
      → r.verdict ≡ approved
      → expected ≢ null
  unfolding published
  published-ne-null g ctx null r h v = absurd cc
  published-ne-null g ctx (bool b) r h v = λ e. cc
  published-ne-null g ctx (num n) r h v = λ e. cc
  published-ne-null g ctx (str t) r h v = λ e. cc
  published-ne-null g ctx (arr xs) r h v = λ e. cc
  published-ne-null g ctx (obj fs) r h v = λ e. cc

  against-Object :
      (g : SchemaDiffGate) (expected : Json) (o : Option Json) (r : GateResult)
      → against check_schema g expected o ≡ ok r
      → r.verdict ≡ approved
      → (fs : Fields) × (o ≡ some (obj fs))
        × (compare_schemas (check_schema expected) (check_schema (obj fs)) expected (obj fs) ≡ ok r)
  unfolding against
  against-Object g expected (some (obj fs)) r h v = (fs, refl, h)
  against-Object g expected none r h v = absurd cc
  against-Object g expected (some null) r h v = absurd cc
  against-Object g expected (some (bool b)) r h v = absurd cc
  against-Object g expected (some (num n)) r h v = absurd cc
  against-Object g expected (some (str t)) r h v = absurd cc
  against-Object g expected (some (arr xs)) r h v = absurd cc

  schema_diff_gate-Agree :
      (g : SchemaDiffGate) (ctx : GateContext) (r : GateResult)
      → schema_diff_gate check_schema g ctx ≡ ok r
      → r.verdict ≡ approved
      → Agree g ctx
  unfolding schema_diff_gate
  schema_diff_gate-Agree g ctx r h v =
      let (expected, stored, judged) =
        >>=-eq-ok (get_current ctx.kv ctx.run_id g.producer_agent g.producer_dtype)
          (published check_schema g ctx) h in
      let some_value = published-ne-null g ctx expected r judged v in
      let (fs, used, compared) =
        against-Object g expected (get_field g.consumer_result_key (fields_of ctx.output.result)) r
          (sym (published-eq-against g ctx expected some_value) ∙ judged) v in
      let (fine, fine', (e, a, is_e, is_a, matched)) =
        compare_schemas-Matches (check_schema expected) (check_schema (obj fs)) expected (obj fs) r
          compared v in
      (expected, fs, e, a, stored, some_value, used, fine, fine', is_e, is_a, matched)

  Agree-schema_diff_gate :
      (g : SchemaDiffGate) (ctx : GateContext)
      → Agree g ctx
      → (r : GateResult) × (schema_diff_gate check_schema g ctx ≡ ok r) × (r.verdict ≡ approved)
  unfolding schema_diff_gate against compare_schemas diff_verdict
  Agree-schema_diff_gate g ctx
        (expected, fs, e, a, stored, some_value, used, fine, fine', is_e, is_a, matched) =
      (
        diff_verdict [],
        rw stored (
            published-eq-against g ctx expected some_value
            ∙ rw used (
                rw fine (
                  rw fine' (
                    rw ((read_schema_iff expected e).1 is_e) (
                      rw ((read_schema_iff (obj fs) a).1 is_a)
                        (rw ((diff_schemas_iff e a (codes "$")).1 matched) refl)))))),
        refl,
      )

-- SchemaDiffGate returns an approval if and only if a value other than null is published for the
-- producer, the result of the consumer has a dict under the key, `check_schema` finds no fault in either,
-- and the two are schemas, by what their dicts have under `type`, `required`, `properties` and `items`,
-- that match: the same type, the same required fields, matching properties under the same names, and
-- items that match or are absent from both, with no truth value among them.
pub schema_diff_gate_iff :
    (check_schema : Json → Option Text) (g : SchemaDiffGate) (ctx : GateContext)
    → ((r : GateResult) × (schema_diff_gate check_schema g ctx ≡ ok r) × (r.verdict ≡ approved))
      ↔ Agree check_schema g ctx
schema_diff_gate_iff check_schema g ctx = (
  λ (r, h, v). schema_diff_gate-Agree check_schema g ctx r h v,
  Agree-schema_diff_gate check_schema g ctx,
)
