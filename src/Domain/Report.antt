-- ===== src/Domain/Report.antt =====
-- internal/core/domain/check.go: the reports of verification and inspection.
pub mod Supported
use heliopause.Base.{
  Bool, List, Result, [], any, err, false, is_empty, list_eq, nat_eq, not, ok, reject, true, ◌&&◌,
  ◌++◌, ◌==◌, ◌>>=◌, ◌>>◌, ◌||◌, ◌∷◌,
}
use heliopause.Domain.Check.{
  CheckExecution, InspectionDiagnostic, is_completed, is_inspection, is_verification,
  new_inspection_diagnostic,
}
use heliopause.Domain.Evidence.{CheckId, Evidence, EvidenceId, Finding, check_id_eq, evidence_id_eq}
use heliopause.Text.{Text}

pub data VerificationOutcome : Type 0 where
  verified mismatch unset : VerificationOutcome
  other : Text → VerificationOutcome

pub record VerificationReport : Type 0 where
  pub execution : CheckExecution
  pub outcome : VerificationOutcome
  pub findings : List Finding
  pub evidence : List Evidence

-- The rest of a report belongs to its check.
unfoldable pub validate_evidence_for_check : CheckId → List Evidence → Result (Unit {0})
validate_evidence_for_check id evidence =
    reject (any (λ item. is_empty item.id.value || not (item.check_id == id)) evidence)
      "evidence does not belong to check"

abbrev pub is_evidence_id : List Evidence → EvidenceId → Bool
is_evidence_id evidence id = any (λ item. item.id == id) evidence

-- The loop over the findings stops at the first that is invalid or refers outside its report.
unfoldable pub validate_findings_for_evidence : List Finding → List Evidence → Result (Unit {0})
validate_findings_for_evidence [] evidence = ok tt
validate_findings_for_evidence (finding ∷ findings) evidence = do
  reject (is_empty finding.code || is_empty finding.evidence_ids) "finding is invalid"
  reject (any (λ id. not (is_evidence_id evidence id)) finding.evidence_ids)
      "finding references Evidence outside its report"
  validate_findings_for_evidence findings evidence

abbrev pub is_verified : VerificationOutcome → Bool
is_verified verified = true
is_verified _ = false

abbrev pub is_mismatch : VerificationOutcome → Bool
is_mismatch mismatch = true
is_mismatch _ = false

abbrev pub is_unset : VerificationOutcome → Bool
is_unset unset = true
is_unset _ = false

-- The first tests of the constructor, on the outcome that the status allows.
abbrev pub check_outcome :
    Bool → VerificationOutcome → List Finding → List Evidence → Result (Unit {0})
check_outcome true outcome findings evidence = do
  reject (not (is_verified outcome) && not (is_mismatch outcome))
      "completed verification requires an interpretable outcome"
  reject (is_empty evidence) "completed verification requires Evidence"
  reject (is_verified outcome && not (is_empty findings))
      "verified verification cannot claim Findings"
check_outcome false outcome findings evidence = do
  reject (not (is_unset outcome)) "non-completed verification cannot claim an outcome"
  reject (not (is_empty findings)) "non-completed verification cannot claim final Findings"

unfoldable pub new_verification_report_with_findings :
    CheckExecution → VerificationOutcome → List Finding → List Evidence → Result VerificationReport
new_verification_report_with_findings execution outcome findings evidence = do
  reject (not (is_verification execution.kind)) "verification report requires a Verification check"
  check_outcome (is_completed execution.status) outcome findings evidence
  validate_evidence_for_check execution.id evidence
  validate_findings_for_evidence findings evidence
  ok (record { execution = execution; outcome = outcome; findings = findings; evidence = evidence })

unfoldable pub new_verification_report :
    CheckExecution → VerificationOutcome → List Evidence → Result VerificationReport
new_verification_report execution outcome evidence =
    new_verification_report_with_findings execution outcome [] evidence

pub record InspectionReport : Type 0 where
  pub execution : CheckExecution
  pub executions : List CheckExecution
  pub findings : List Finding
  pub evidence : List Evidence
  pub diagnostics : List InspectionDiagnostic

unfoldable pub validate_diagnostics : List InspectionDiagnostic → Result (Unit {0})
validate_diagnostics [] = ok tt
validate_diagnostics (d ∷ ds) = do
  new_inspection_diagnostic d.cause d.stage
  validate_diagnostics ds

-- The tests on one of the combined reports.
unfoldable pub validate_inspection : InspectionReport → Result (Unit {0})
validate_inspection report = do
  reject (not (is_inspection report.execution.kind))
      "inspection report requires an Inspection check"
  reject (not (is_completed report.execution.status) && not (is_empty report.findings))
      "non-completed inspection cannot claim final Findings"
  reject (is_completed report.execution.status && is_empty report.evidence)
      "completed inspection requires Evidence"
  validate_evidence_for_check report.execution.id report.evidence
  validate_findings_for_evidence report.findings report.evidence
  validate_diagnostics report.diagnostics

-- What the loop has gathered from the reports.
pub record Gathered : Type 0 where
  pub executions : List CheckExecution
  pub findings : List Finding
  pub evidence : List Evidence
  pub diagnostics : List InspectionDiagnostic

unfoldable pub gather_reports : Gathered → List InspectionReport → Result Gathered
gather_reports g [] = ok g
gather_reports g (report ∷ reports) =
    let next : Gathered = record {
      executions = g.executions ++ report.execution ∷ [];
      findings = g.findings ++ report.findings;
      evidence = g.evidence ++ report.evidence;
      diagnostics = g.diagnostics ++ report.diagnostics;
    } in
    validate_inspection report >> gather_reports next reports

unfoldable pub new_composite_inspection_report : List InspectionReport → Result InspectionReport
new_composite_inspection_report [] = err "inspection report requires at least one check"
new_composite_inspection_report (first ∷ rest) = do
  g ←
      gather_reports (record { executions = []; findings = []; evidence = []; diagnostics = [] })
        (first ∷ rest)
  ok (record {
    execution = first.execution;
    executions = g.executions;
    findings = g.findings;
    evidence = g.evidence;
    diagnostics = g.diagnostics;
  })

unfoldable pub new_inspection_report :
    CheckExecution → List Finding → List Evidence → Result InspectionReport
new_inspection_report execution findings evidence = new_composite_inspection_report (
    record {
      execution = execution;
      executions = execution ∷ [];
      findings = findings;
      evidence = evidence;
      diagnostics = [];
    }
    ∷ [])

unfoldable pub new_inspection_report_with_diagnostic :
    CheckExecution → List Finding → List Evidence → InspectionDiagnostic → Result InspectionReport
new_inspection_report_with_diagnostic execution findings evidence diagnostic =
    new_composite_inspection_report (
      record {
        execution = execution;
        executions = execution ∷ [];
        findings = findings;
        evidence = evidence;
        diagnostics = diagnostic ∷ [];
      }
      ∷ [])
