-- ===== src/Tests/Releases.antt =====
-- A static inspection, and a release asset.
use heliopause.Base.{[], false, ok, refl, true, ◌↔◌, ◌∷◌, ◌≡◌}
use heliopause.Domain.Artifact.{validate_normalized_identifier}
use heliopause.Domain.Operation.{PolicyInput, is_valid_input}
use heliopause.Domain.Report.{
  new_verification_report_with_findings, validate_evidence_for_check,
  validate_findings_for_evidence,
}
use heliopause.Domain.Run.{PolicyDecision, is_allow, manual_review, new_policy_decision}
use heliopause.Policy.{decide_with, is_incomplete_required}
use heliopause.Policy.M2.{m2_decision, m2_evaluate, m2_findings}
use heliopause.Policy.M6.{m6_decision, m6_evaluate, m6_finding, m6_findings}
use heliopause.Policy.Release.{M6Allows, m2_evaluate-not_allow, m6_evaluate-M6Allows}
use heliopause.Policy.Verified.{IsReleaseInput, IsVerifiedInput, m6_evaluate-IsVerifiedInput}
use heliopause.Tests.Data.{
  allowing, sample_artifact, sample_identity, sample_input, sample_verification,
}
use heliopause.Text.{codes}
use heliopause.Text.Pattern.{failure_code_pattern, normalized_identifier}
use heliopause.Text.Utf8.{is_valid_string}

abbrev m2_reviewed : PolicyDecision
m2_reviewed = record {
  decision = manual_review;
  policy_id = codes "m2-npm-static-inspect";
  version = 1;
  reasons = codes "M2_DYNAMIC_INSPECTION_UNAVAILABLE" ∷ [];
}

m2_evaluated : m2_evaluate sample_input ≡ ok m2_reviewed
unfolding m2_evaluate m2_findings m2_decision decide_with new_policy_decision
    validate_normalized_identifier is_valid_string normalized_identifier failure_code_pattern
    is_valid_input is_incomplete_required
m2_evaluated = refl

m2_evaluate-not_allow_example : is_allow m2_reviewed.decision ≡ false
m2_evaluate-not_allow_example = m2_evaluate-not_allow sample_input m2_reviewed m2_evaluated

abbrev release_input : PolicyInput
release_input = record sample_input {
  artifact = record (sample_artifact (codes "tool")) {
    identity = record (sample_identity (codes "tool")) {
      source = record { value = codes "github-release" };
    };
  };
}

abbrev m6_allowed : PolicyDecision
m6_allowed = allowing (codes "m6-github-release") (codes "M6_REQUIRED_CHECKS_COMPLETED")

m6_evaluated : m6_evaluate release_input ≡ ok m6_allowed
unfolding m6_evaluate m6_findings m6_finding m6_decision decide_with new_policy_decision
    validate_normalized_identifier is_valid_string normalized_identifier failure_code_pattern
    is_valid_input is_incomplete_required
m6_evaluated = refl

m6_evaluate-M6Allows_example : (is_allow m6_allowed.decision ≡ true) ↔ M6Allows release_input
m6_evaluate-M6Allows_example = m6_evaluate-M6Allows release_input m6_allowed m6_evaluated

release_verification_built :
    new_verification_report_with_findings sample_verification.execution sample_verification.outcome
      sample_verification.findings sample_verification.evidence
    ≡ ok release_input.verification
unfolding new_verification_report_with_findings validate_evidence_for_check
    validate_findings_for_evidence
release_verification_built = refl

m6_evaluate-IsVerifiedInput_example :
    (is_allow m6_allowed.decision ≡ true)
    ↔ (IsReleaseInput release_input × IsVerifiedInput release_input)
m6_evaluate-IsVerifiedInput_example =
    m6_evaluate-IsVerifiedInput sample_verification.execution sample_verification.outcome
      sample_verification.findings sample_verification.evidence release_input m6_allowed
      release_verification_built (refl, (refl, tt)) m6_evaluated
