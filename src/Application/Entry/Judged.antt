-- ===== src/Application/Entry/Judged.antt =====
-- internal/application/install_inspect.go: what the inspection of one dependency ensures.
use heliopause.Application.Entry.{Entry, closed_run, fail_dependency_run, judge_entry, step_run}
use heliopause.Application.Workflow.{History, InstallPorts, Workflow}
use heliopause.Application.Workflow.Ensures.{
  Ensures, Ensures-put_away, Ensures-try, Keeps, Keeps-ask, Keeps-pure, OnOk,
}
use heliopause.Base.{
  List, Result, Result-cases, [], ap, arith, err, inl, inr, ok, refl, sym, true, ◌++◌, ◌>>=◌, ◌∙◌,
  ◌∷◌, ◌≡◌,
}
use heliopause.Domain.Artifact.{AcquiredArtifact}
use heliopause.Domain.Check.{CheckExecution}
use heliopause.Domain.Evidence.{Evidence, EvidenceReference}
use heliopause.Domain.Graph.{DependencyNodeId, LockedDependency}
use heliopause.Domain.Identifier.{RunId}
use heliopause.Domain.Inspected.{DependencyInspection, new_dependency_inspection}
use heliopause.Domain.Operation.{PolicyInput, new_policy_input}
use heliopause.Domain.Operation.Input.{new_policy_input-covers}
use heliopause.Domain.Report.{InspectionReport, VerificationReport}
use heliopause.Domain.Run.{
  InspectionRun, PolicyDecision, active, finalize_completed, finalize_failed, finalized,
}
use heliopause.Text.{Text, codes}
use heliopause.Text.Pattern.{failure_code_pattern}

-- The inspection of a dependency is what the entry policy decided on an input of its own parts.
pub record IsEntryJudged (p : InstallPorts) (dependency : LockedDependency)
    (i : DependencyInspection) : Type 0 where
  pub input : PolicyInput
  pub judges : p.evaluate input ≡ ok i.decision
  pub same_run : input.run_id ≡ i.run_id
  pub same_artifact : input.artifact ≡ i.artifact
  pub same_evidence : input.evidence ≡ i.evidence
  pub same_node : i.node ≡ dependency.node
  pub same_identity : i.artifact.identity ≡ dependency.artifact.identity

pub entry_codes :
    (failure_code_pattern (codes "RUN_ACTIVATION_FAILED") ≡ true)
    × (failure_code_pattern (codes "ARTIFACT_ACQUIRE_FAILED") ≡ true)
    × (failure_code_pattern (codes "ARTIFACT_BINDING_FAILED") ≡ true)
    × (failure_code_pattern (codes "VERIFICATION_PROVIDER_FAILED") ≡ true)
    × (failure_code_pattern (codes "INSPECTION_PROVIDER_FAILED") ≡ true)
    × (failure_code_pattern (codes "EVIDENCE_RECORD_FAILED") ≡ true)
    × (failure_code_pattern (codes "POLICY_INPUT_INVALID") ≡ true)
    × (failure_code_pattern (codes "POLICY_EVALUATION_FAILED") ≡ true)
    × (failure_code_pattern (codes "RUN_FINALIZATION_FAILED") ≡ true)
unfolding failure_code_pattern
entry_codes = (refl, refl, refl, refl, refl, refl, refl, refl, refl)

-- A run that is active can be failed.
pub closed_run-failed :
    (run : InspectionRun) (why : Text)
    → run.lifecycle ≡ active
    → failure_code_pattern why ≡ true
    → (closed_run run (finalize_failed why run)).lifecycle ≡ finalized
unfolding finalize_failed
closed_run-failed run why a k = rw (a, k)

pub finalize_completed-finalized :
    (d : PolicyDecision) (run done : InspectionRun)
    → finalize_completed d run ≡ ok done
    → done.lifecycle ≡ finalized
unfolding finalize_completed
finalize_completed-finalized d run done h = ground arith

-- A step of the one run in use.
pub step_run-Ensures {ℓ} :
    {A B : Type ℓ} (Q : A → Type ℓ) (P : B → Type ℓ) (run : InspectionRun) (why : Text)
    (m : Workflow (Result A)) (next : A → Workflow (Result B))
    → run.lifecycle ≡ active
    → failure_code_pattern why ≡ true
    → Keeps 1 (OnOk Q) m
    → ((a : A) → Q a → Ensures 1 (λ _. 0) (OnOk P) (next a))
    → Ensures 1 (λ _. 0) (OnOk P) (step_run run why m next)
unfolding fail_dependency_run
step_run-Ensures Q P run why m next a k em en =
    Ensures-try (λ _. 1) Q (λ _. 0) (OnOk P) m _ next em
      (λ e.
        Ensures-put_away _ (OnOk P) (closed_run run (finalize_failed why run) ∷ []) (err e) refl
          (closed_run-failed run why a k, tt) tt)
      en

-- What a record is made of.
new_dependency_inspection-kept :
    (node : DependencyNodeId) (run_id : RunId) (artifact : AcquiredArtifact)
    (checks : List CheckExecution) (evidence : List EvidenceReference) (decision : PolicyDecision)
    (i : DependencyInspection)
    → new_dependency_inspection node run_id artifact checks evidence decision ≡ ok i
    → (i.node ≡ node)
      × (i.run_id ≡ run_id)
      × (i.artifact ≡ artifact)
      × (i.evidence ≡ evidence)
      × (i.decision ≡ decision)
unfolding new_dependency_inspection
new_dependency_inspection-kept node run_id artifact checks evidence decision i h = ground arith

new_policy_input-kept :
    (run_id : RunId) (artifact : AcquiredArtifact) (verification : VerificationReport)
    (inspection : InspectionReport) (references : List EvidenceReference) (input : PolicyInput)
    → new_policy_input run_id artifact verification inspection references ≡ ok input
    → (input.run_id ≡ run_id) × (input.artifact ≡ artifact) × (input.evidence ≡ references)
new_policy_input-kept run_id artifact verification inspection references input h =
    let same =
      (new_policy_input-covers run_id artifact verification inspection references input h).0 in
    (ap (λ t. t.run_id) same, ap (λ t. t.artifact) same, ap (λ t. t.evidence) same)

-- The record of an artifact that was judged.
pub inspection-IsEntryJudged :
    (p : InstallPorts) (dependency : LockedDependency) (run_id : RunId)
    (artifact : AcquiredArtifact) (verification : VerificationReport)
    (inspection : InspectionReport) (references : List EvidenceReference) (input : PolicyInput)
    (checks : List CheckExecution) (decision : PolicyDecision) (i : DependencyInspection)
    → artifact.identity ≡ dependency.artifact.identity
    → new_policy_input run_id artifact verification inspection references ≡ ok input
    → p.evaluate input ≡ ok decision
    → new_dependency_inspection dependency.node run_id artifact checks references decision ≡ ok i
    → IsEntryJudged p dependency i
inspection-IsEntryJudged p dependency run_id artifact verification inspection references input
      checks decision i s e j n =
    let (node, run, kept, evidence, decided) =
      new_dependency_inspection-kept dependency.node run_id artifact checks references decision i
        n in
    let (run', kept', evidence') =
      new_policy_input-kept run_id artifact verification inspection references input e in
    record {
      input = input;
      judges = j ∙ ap ok (sym decided);
      same_run = run' ∙ sym run;
      same_artifact = kept' ∙ sym kept;
      same_evidence = evidence' ∙ sym evidence;
      same_node = node;
      same_identity = ap (λ t. t.identity) kept ∙ s;
    }

module _ (p : InstallPorts) (dependency : LockedDependency) (run_id : RunId)
    (artifact : AcquiredArtifact) where
  -- The record of a judged artifact, if what is known of its parts gives `P` of it.
  pub judge_entry-Ensures_of :
      (P : Entry → Type 0) (run : InspectionRun) (checks : List CheckExecution)
      (evidence : List Evidence)
      → run.lifecycle ≡ active
      → ((verification : VerificationReport) (inspection : InspectionReport)
            (references : List EvidenceReference) (input : PolicyInput) (decision : PolicyDecision)
          → ((h : History) × (p.record_evidence h run_id
                  (verification.evidence ++ (inspection.evidence ++ evidence))
                ≡ ok references))
          → new_policy_input run_id artifact verification inspection references ≡ ok input
          → p.evaluate input ≡ ok decision
          → OnOk P (
              new_dependency_inspection dependency.node run_id artifact
                (verification.execution ∷ (inspection.executions ++ checks))
                references
                decision
              >>= λ record_. ok (record { inspection = record_; findings = inspection.findings })))
      → Ensures 1 (λ _. 0) (OnOk P) (judge_entry p dependency run_id artifact run checks evidence)
  unfolding judge_entry
  judge_entry-Ensures_of P run checks evidence a known =
      step_run-Ensures _ _ run _ _ _ a entry_codes.3 (Keeps-ask _ _ refl) λ verification _.
        step_run-Ensures _ _ run _ _ _ a entry_codes.4 (Keeps-ask _ _ refl) λ inspection _.
          step_run-Ensures _ _ run _ _ _ a entry_codes.5 (Keeps-ask _ _ refl) λ references kept.
            step_run-Ensures _ _ run _ _ _ a entry_codes.6
              (Keeps-pure (new_policy_input run_id artifact verification inspection references))
              λ input e.
                step_run-Ensures _ _ run _ _ _ a entry_codes.7 (Keeps-pure (p.evaluate input))
                  λ decision j.
                    step_run-Ensures _ _ run _ _ _ a entry_codes.8
                      (Keeps-pure (finalize_completed decision run))
                      λ done f.
                        Ensures-put_away _ _ (done ∷ []) _ refl
                          (finalize_completed-finalized decision run done f, tt)
                          (known verification inspection references input decision kept e j)

  recorded-IsEntryJudged :
      (verification : VerificationReport) (inspection : InspectionReport)
      (references : List EvidenceReference) (input : PolicyInput) (checks : List CheckExecution)
      (decision : PolicyDecision)
      → artifact.identity ≡ dependency.artifact.identity
      → new_policy_input run_id artifact verification inspection references ≡ ok input
      → p.evaluate input ≡ ok decision
      → OnOk
          (λ (e : Entry). IsEntryJudged p dependency e.inspection)
          (new_dependency_inspection dependency.node run_id artifact checks references decision
            >>= λ record_. ok (record { inspection = record_; findings = inspection.findings }))
  recorded-IsEntryJudged verification inspection references input checks decision s e j =
      elim (Result-cases
        (new_dependency_inspection dependency.node run_id artifact checks references decision)) [
          | inr (x, n) ↦ rw n tt
          | inl (i, n) ↦ rw n (
              inspection-IsEntryJudged p dependency run_id artifact verification inspection
                references input checks decision i s e j n)
        ]

  pub judge_entry-Ensures :
      (run : InspectionRun) (checks : List CheckExecution) (evidence : List Evidence)
      → run.lifecycle ≡ active
      → artifact.identity ≡ dependency.artifact.identity
      → Ensures 1
          (λ _. 0)
          (OnOk (λ (e : Entry). IsEntryJudged p dependency e.inspection))
          (judge_entry p dependency run_id artifact run checks evidence)
  judge_entry-Ensures run checks evidence a s =
      judge_entry-Ensures_of _ run checks evidence a
        λ verification inspection references input decision _ e j.
          recorded-IsEntryJudged verification inspection references input _ decision s e j
