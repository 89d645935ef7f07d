-- ===== src/Gates/Checks/Files.antt =====
-- society/gates/deterministic.py: what `FilesWrittenGate` approves.
use society_harness.Prelude.{
  ◌≡◌, ◌↔◌, refl, true, Text, same, same_iff, same_refl, mem, starts_with, starts_with_iff, List,
  [], ◌∷◌, ◌++◌, arith, Bool-cases, inl, inr,
}
use society_harness.Memory.Lineage.{approved}
use society_harness.Gates.Types.{GateContext}
use society_harness.Gates.Checks.{any_under, missing_prefixes, files_verdict, files_written_gate}

-- For each required prefix some written file begins with it.
abbrev pub Wrote : List Text → List Text → Type 0
Wrote required written =
    (prefix : Text)
    → mem prefix required ≡ true
    → (file : Text) × (mem file written ≡ true) × ((rest : Text) × (file ≡ prefix ++ rest))

any_under-File :
    (prefix : Text) (written : List Text)
    → any_under prefix written ≡ true
    → (file : Text) × (mem file written ≡ true) × ((rest : Text) × (file ≡ prefix ++ rest))
unfolding any_under mem
any_under-File prefix [] h = absurd cc
any_under-File prefix (f ∷ fs) h = elim (Bool-cases (starts_with prefix f)) [
  | inl under ↦ (f, rw (same_refl f) refl, (starts_with_iff prefix f).0 under)
  | inr other ↦
      let (file, found, under) = any_under-File prefix fs (ground arith) in
      (file, ground arith, under)
]

File-any_under :
    (prefix file : Text) (written : List Text)
    → mem file written ≡ true
    → starts_with prefix file ≡ true
    → any_under prefix written ≡ true
unfolding any_under mem
File-any_under prefix file [] m h = absurd cc
File-any_under prefix file (f ∷ fs) m h = elim (Bool-cases (same f file)) [
  | inl here ↦
      let first : f ≡ file = (same_iff f file).0 here in
      let under : starts_with prefix f ≡ true = rw first h in rw under refl
  | inr elsewhere ↦
      let later = File-any_under prefix file fs (rw elsewhere at m) h in ground (arith, later)
]

any_under_iff :
    (prefix : Text) (written : List Text)
    → (any_under prefix written ≡ true)
      ↔ ((file : Text) × (mem file written ≡ true) × ((rest : Text) × (file ≡ prefix ++ rest)))
any_under_iff prefix written = (
  any_under-File prefix written,
  λ (file, found, under).
      File-any_under prefix file written found ((starts_with_iff prefix file).1 under),
)

missing_prefixes-nil :
    (required written : List Text)
    → missing_prefixes required written ≡ []
    → (prefix : Text) → mem prefix required ≡ true
    → any_under prefix written ≡ true
unfolding missing_prefixes mem
missing_prefixes-nil [] written e prefix m = absurd cc
missing_prefixes-nil (p ∷ ps) written e prefix m = elim (Bool-cases (any_under p written)) [
  | inr missing ↦ absurd (ground arith)
  | inl found ↦ elim (Bool-cases (same p prefix)) [
    | inl here ↦ let first : p ≡ prefix = (same_iff p prefix).0 here in rw (← first) found
    | inr elsewhere ↦ missing_prefixes-nil ps written (rw found at e) prefix (rw elsewhere at m)
  ]
]

nil-missing_prefixes :
    (required written : List Text)
    → ((prefix : Text) → mem prefix required ≡ true → any_under prefix written ≡ true)
    → missing_prefixes required written ≡ []
unfolding missing_prefixes mem
nil-missing_prefixes [] written all = refl
nil-missing_prefixes (p ∷ ps) written all =
    let here : any_under p written ≡ true = all p (rw (same_refl p) refl) in
    let later = nil-missing_prefixes ps written (λ prefix m. all prefix (ground (arith, m))) in
    rw here later

approved_iff_nil :
    (repr_list : List Text → Text) (written missing : List Text)
    → ((files_verdict repr_list written missing).verdict ≡ approved) ↔ (missing ≡ [])
unfolding files_verdict
approved_iff_nil repr_list written [] = (λ a. refl, λ e. refl)
approved_iff_nil repr_list written (p ∷ ps) = (λ a. absurd cc, λ e. absurd cc)

-- The gate approves exactly the outputs that wrote a file under each of the required prefixes.
pub files_written_gate_iff :
    (repr_list : List Text → Text) (required : List Text) (ctx : GateContext)
    → ((files_written_gate repr_list required ctx).verdict ≡ approved)
      ↔ Wrote required ctx.output.files_written
unfolding files_written_gate
files_written_gate_iff repr_list required ctx =
    let written = ctx.output.files_written in
    let missing = missing_prefixes required written in
    (
      λ a prefix m. (any_under_iff prefix written).0 (
          missing_prefixes-nil required written ((approved_iff_nil repr_list written missing).0 a)
            prefix m),
      λ wrote. (approved_iff_nil repr_list written missing).1 (
          nil-missing_prefixes required written
            (λ prefix m. (any_under_iff prefix written).1 (wrote prefix m))),
    )
