-- ===== src/Application/Entry/Extra.antt =====
-- internal/application/install_inspect.go, internal/core/domain/operation.go: the evidence that a derived
-- artifact brings besides that of its reports.
use heliopause.Application.Entry.{inspect_acquired_dependency}
use heliopause.Application.Entry.Begun.{inspect_acquired_dependency-Ensures_of}
use heliopause.Application.Entry.Judged.{judge_entry-Ensures_of}
use heliopause.Application.Workflow.{History, InstallPorts, World}
use heliopause.Application.Workflow.Ensures.{IsOrderly, Keeps, OnOk}
use heliopause.Base.{
  Bool-cases, List, Result, [], arith, contains, err, false, inl, inr, is_ok, length, length-append,
  length-map, list_eq, map, nat_eq, ok, refl, ◌++◌, ◌+◌, ◌∷◌, ◌≡◌, ◌≤◌,
}
use heliopause.Domain.Artifact.{AcquiredArtifact}
use heliopause.Domain.Check.{CheckExecution}
use heliopause.Domain.Evidence.{Evidence, EvidenceId, EvidenceReference, evidence_id_eq}
use heliopause.Domain.Graph.{LockedDependency}
use heliopause.Domain.Identifier.{OperationId, RunId}
use heliopause.Domain.Operation.{PolicyInput, distinct_ids, new_policy_input}
use heliopause.Domain.Report.{InspectionReport, VerificationReport}

length-distinct_ids :
    (seen ids : List EvidenceId) → length (distinct_ids seen ids) ≤ length seen + length ids
unfolding distinct_ids
length-distinct_ids seen [] = omega arith
length-distinct_ids seen (id ∷ ids) = elim (Bool-cases (contains id seen)) [
  | inl met ↦ rw met (omega (arith, length-distinct_ids seen ids))
  | inr new ↦ rw new (omega (arith, length-distinct_ids (id ∷ seen) ids))
]

sized_input :
    (run_id : RunId) (artifact : AcquiredArtifact) (verification : VerificationReport)
    (inspection : InspectionReport) (references : List EvidenceReference) (input : PolicyInput)
    → new_policy_input run_id artifact verification inspection references ≡ ok input
    → length references
      ≡ length
          (distinct_ids [] (map (λ item. item.id) (verification.evidence ++ inspection.evidence)))
unfolding new_policy_input
sized_input run_id artifact verification inspection references input h = ground arith

-- More references than there are items in the reports are refused.
unreferenced :
    (run_id : RunId) (artifact : AcquiredArtifact) (verification : VerificationReport)
    (inspection : InspectionReport) (references : List EvidenceReference) (input : PolicyInput)
    (item : Evidence) (evidence : List Evidence)
    → new_policy_input run_id artifact verification inspection references ≡ ok input
    → length references
      ≡ length (verification.evidence ++ (inspection.evidence ++ (item ∷ evidence)))
    → ⊥
unreferenced run_id artifact verification inspection references input item evidence h l = omega (
  arith,
  sized_input run_id artifact verification inspection references input h,
  l,
  length-distinct_ids [] (map (λ item. item.id) (verification.evidence ++ inspection.evidence)),
  length-map (verification.evidence ++ inspection.evidence) (λ item. item.id),
  length-append verification.evidence inspection.evidence,
  length-append verification.evidence (inspection.evidence ++ (item ∷ evidence)),
  length-append inspection.evidence (item ∷ evidence),
)

-- One reference for each item, as the stores of internal/evidence return.
abbrev pub RecordsEach : InstallPorts → Type 0
RecordsEach p =
    (h : History) (run_id : RunId) (items : List Evidence) (references : List EvidenceReference)
    → p.record_evidence h run_id items ≡ ok references
    → length references ≡ length items

inspect_acquired_dependency-extra :
    (p : InstallPorts) (operation_id : OperationId) (dependency : LockedDependency)
    (artifact : AcquiredArtifact) (checks : List CheckExecution) (item : Evidence)
    (evidence : List Evidence)
    → RecordsEach p
    → Keeps 0
        (OnOk (λ _. ⊥))
        (inspect_acquired_dependency p operation_id dependency artifact checks (item ∷ evidence))
inspect_acquired_dependency-extra p operation_id dependency artifact checks item evidence each =
    inspect_acquired_dependency-Ensures_of p operation_id dependency _ artifact checks
      (item ∷ evidence)
      λ run_id run a i.
        judge_entry-Ensures_of p dependency run_id artifact _ run checks (item ∷ evidence) a
          λ verification inspection references input decision kept e j. absurd (
            unreferenced run_id artifact verification inspection references input item evidence e
              (each kept.0 run_id _ references kept.1))

not_ok : {A : Type 0} (r : Result A) → OnOk (λ _. ⊥) r → is_ok r ≡ false
not_ok (ok a) h = absurd h
not_ok (err e) h = refl

-- From a world without a call of the manifest, the staging or the promotion, where every run that
-- was created is finalized, and with a store that returns one reference for each item of evidence,
-- the inspection of an acquired artifact that brings evidence besides that of its reports never
-- succeeds.
pub inspect_acquired_dependency-refused :
    (p : InstallPorts) (operation_id : OperationId) (dependency : LockedDependency)
    (artifact : AcquiredArtifact) (checks : List CheckExecution) (item : Evidence)
    (evidence : List Evidence) (w : World)
    → RecordsEach p
    → IsOrderly 0 w
    → is_ok
        (inspect_acquired_dependency p operation_id dependency artifact checks
          (item ∷ evidence)
          w).value
      ≡ false
inspect_acquired_dependency-refused p operation_id dependency artifact checks item evidence w each
      o =
    not_ok _
      ((inspect_acquired_dependency-extra p operation_id dependency artifact checks item evidence
          each).at
        w o).1
