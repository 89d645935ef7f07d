-- ===== src/Runner/Refs/Examples.antt =====
-- society/runner/spec.py: tests and witnesses.
use society_harness.Prelude.{◌≡◌, ◌↔◌, refl, codes}
use society_harness.Prelude.Results.{ok, raise, value_error}
use society_harness.Runner.Refs.{parse_ref, partition, IsRef, parse_ref_iff}

splits_at_the_first : parse_ref (codes "api:schema:v2") ≡ ok (codes "api", codes "schema:v2")
unfolding parse_ref partition
splits_at_the_first = refl

refuses_an_empty_dtype : parse_ref (codes "api:") ≡ raise value_error
unfolding parse_ref partition
refuses_an_empty_dtype = refl

parse_ref_iff_example :
    (parse_ref (codes "api:schema") ≡ ok (codes "api", codes "schema"))
    ↔ IsRef (codes "api:schema") (codes "api") (codes "schema")
parse_ref_iff_example = parse_ref_iff (codes "api:schema") (codes "api") (codes "schema")
