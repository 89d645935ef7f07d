-- ===== src/Runner/Refs.antt =====
-- society/runner/spec.py: `parse_ref` on texts `agent:dtype`.
mod Examples
use society_harness.Prelude.{
  ℕ, ◌≡◌, ◌≢◌, ◌↔◌, refl, Bool, true, false, Text, List, [], ◌∷◌, ◌++◌, arith, ◌==◌, if◌then◌else◌,
}
use society_harness.Prelude.Results.{Result, ok, raise, value_error}

abbrev pub colon : Text
colon = b':' ∷ []

-- `ref.partition(":")` without the separator.
unfoldable pub partition : Text → Text × Text
partition [] = ([], [])
partition (c ∷ cs) =
    let (head, tail) = partition cs in if c == b':' then ([], cs) else (c ∷ head, tail)

abbrev refuse_empty : Text × Text → Result (Text × Text)
refuse_empty ([], dtype) = raise value_error
refuse_empty ((c ∷ cs), []) = raise value_error
refuse_empty ((c ∷ cs), (d ∷ ds)) = ok ((c ∷ cs), (d ∷ ds))

unfoldable pub parse_ref : Text → Result (Text × Text)
parse_ref ref = refuse_empty (partition ref)

-- A text without the separator.
abbrev pub has_colon : Text → Bool
has_colon [] = false
has_colon (c ∷ cs) = if c == b':' then true else has_colon cs

partition-join :
    (agent dtype : Text)
    → has_colon agent ≡ false
    → partition (agent ++ (colon ++ dtype)) ≡ (agent, dtype)
unfolding partition
partition-join [] dtype h = ground arith
partition-join (c ∷ cs) dtype h = ground (arith, partition-join cs dtype)

-- A second part that is not empty stands behind the first separator.
partition-split :
    (ref : Text) (d : ℕ) (ds : Text)
    → (partition ref).1 ≡ d ∷ ds
    → (ref ≡ (partition ref).0 ++ (colon ++ (d ∷ ds))) × (has_colon (partition ref).0 ≡ false)
unfolding partition
partition-split [] d ds e = cc
partition-split (c ∷ cs) d ds e = ground (arith, partition-split cs d ds)

abbrev pub IsRef : Text → Text → Text → Type 0
IsRef ref agent dtype =
    (ref ≡ agent ++ (colon ++ dtype)) × (has_colon agent ≡ false) × (agent ≢ []) × (dtype ≢ [])

refuse_empty-ok :
    (parts : Text × Text) (agent dtype : Text)
    → refuse_empty parts ≡ ok (agent, dtype)
    → (parts ≡ (agent, dtype)) × (agent ≢ []) × (dtype ≢ [])
refuse_empty-ok ([], t) agent dtype e = cc
refuse_empty-ok ((c ∷ cs), []) agent dtype e = cc
refuse_empty-ok ((c ∷ cs), (d ∷ ds)) agent dtype e = (cc, λ h. cc, λ h. cc)

refuse_empty-of_parts :
    (agent dtype : Text) → agent ≢ [] → dtype ≢ [] → refuse_empty (agent, dtype) ≡ ok (agent, dtype)
refuse_empty-of_parts [] dtype h k = absurd (h refl)
refuse_empty-of_parts (c ∷ cs) [] h k = absurd (k refl)
refuse_empty-of_parts (c ∷ cs) (d ∷ ds) h k = refl

IsRef-of_partition :
    (ref agent dtype : Text)
    → partition ref ≡ (agent, dtype)
    → agent ≢ []
    → dtype ≢ []
    → IsRef ref agent dtype
IsRef-of_partition ref agent [] e h k = absurd (k refl)
IsRef-of_partition ref agent (d ∷ ds) e h k =
    let (whole, free) = partition-split ref d ds cc in (cc, cc, h, k)

-- `parse_ref` returns an agent and a dtype exactly on the texts `agent:dtype` with neither part empty
-- and no further `:` in the agent.
pub parse_ref_iff :
    (ref agent dtype : Text) → (parse_ref ref ≡ ok (agent, dtype)) ↔ IsRef ref agent dtype
unfolding parse_ref
parse_ref_iff ref agent dtype = (
  λ e.
      let (parts, h, k) = refuse_empty-ok (partition ref) agent dtype e in
      IsRef-of_partition ref agent dtype parts h k,
  λ (whole, free, h, k).
      rw whole (rw (partition-join agent dtype free) (refuse_empty-of_parts agent dtype h k)),
)
