-- ===== src/Policy/Verified.antt =====
-- When the rules of one artifact allow it, where each of its checks is required, as the checks of
-- internal/verification and of the npm, PyPI and GitHub Release adapters of internal/inspection are.
use heliopause.Base.{
  All, List, [], any, arith, false, is_empty, not, ok, refl, true, ◌&&◌, ◌↔◌, ◌∷◌, ◌≡◌,
}
use heliopause.Domain.Check.{CheckExecution, is_completed, is_supported}
use heliopause.Domain.Evidence.{Evidence, Finding}
use heliopause.Domain.Operation.{PolicyInput, is_valid_input}
use heliopause.Domain.Report.{
  VerificationOutcome, VerificationReport, is_mismatch, is_verified,
  new_verification_report_with_findings,
}
use heliopause.Domain.Run.{PolicyDecision, is_allow}
use heliopause.Policy.{is_incomplete_required}
use heliopause.Policy.M3.{m3_evaluate}
use heliopause.Policy.M6.{has_kind, is_github, m6_evaluate}
use heliopause.Policy.Release.{M6Allows, m6_evaluate-M6Allows}
use heliopause.Policy.Rules.{M3Allows, m3_evaluate-M3Allows}
use heliopause.Text.{codes}

abbrev IsRequired : CheckExecution → Type 0
IsRequired c = c.required ≡ true

abbrev IsDone : CheckExecution → Type 0
IsDone c = (is_supported c.capability ≡ true) × (is_completed c.status ≡ true)

required_checks-IsDone :
    (checks : List CheckExecution)
    → All IsRequired checks
    → any is_incomplete_required checks ≡ false
    → All IsDone checks
unfolding is_incomplete_required
required_checks-IsDone [] r h = tt
required_checks-IsDone (c ∷ checks) r h = ground (arith, required_checks-IsDone checks)

done_checks_complete :
    (checks : List CheckExecution) → All IsDone checks → any is_incomplete_required checks ≡ false
unfolding is_incomplete_required
done_checks_complete [] d = refl
done_checks_complete (c ∷ checks) d = ground (arith, done_checks_complete checks)

-- The artifact's bytes were verified, with evidence, its inspection found nothing, and each of its
-- checks is supported and completed.
pub record IsVerifiedInput (input : PolicyInput) : Type 0 where
  pub valid : is_valid_input input ≡ true
  pub verified : is_verified input.verification.outcome ≡ true
  pub has_evidence : is_empty input.verification.evidence ≡ false
  pub no_findings : input.inspection.findings ≡ []
  pub checks_done : All IsDone (input.verification.execution ∷ input.inspection.executions)

verified-not_mismatch :
    (outcome : VerificationOutcome) → is_verified outcome ≡ true → is_mismatch outcome ≡ false
verified-not_mismatch VerificationOutcome.verified h = refl
verified-not_mismatch VerificationOutcome.mismatch h = cc h
verified-not_mismatch VerificationOutcome.unset h = refl
verified-not_mismatch (VerificationOutcome.other s) h = refl

-- A completed verification that is no mismatch verified the artifact, with evidence.
completed-verified :
    (execution : CheckExecution) (outcome : VerificationOutcome) (findings : List Finding)
    (evidence : List Evidence) (report : VerificationReport)
    → new_verification_report_with_findings execution outcome findings evidence ≡ ok report
    → is_completed report.execution.status ≡ true
    → is_mismatch report.outcome ≡ false
    → (is_verified report.outcome ≡ true) × (is_empty report.evidence ≡ false)
unfolding new_verification_report_with_findings
completed-verified execution outcome findings evidence report h c m = ground arith

-- What allows an input, apart from its validity and what its inspection found.
verified-iff-no_mismatch :
    (execution : CheckExecution) (outcome : VerificationOutcome) (findings : List Finding)
    (evidence : List Evidence) (input : PolicyInput)
    → new_verification_report_with_findings execution outcome findings evidence
      ≡ ok input.verification
    → All IsRequired (input.verification.execution ∷ input.inspection.executions)
    → IsVerifiedInput input ↔ M3Allows input
verified-iff-no_mismatch execution outcome findings evidence input h r = (to, from)
  where
    checks : List CheckExecution
    checks = input.verification.execution ∷ input.inspection.executions

    to : IsVerifiedInput input → M3Allows input
    to v = record {
      valid = v.valid;
      no_mismatch = verified-not_mismatch input.verification.outcome v.verified;
      no_findings = v.no_findings;
      checks_complete = done_checks_complete checks v.checks_done;
    }

    from : M3Allows input → IsVerifiedInput input
    from v =
        let done : All IsDone checks = required_checks-IsDone checks r v.checks_complete in
        let match : (is_verified input.verification.outcome ≡ true)
            × (is_empty input.verification.evidence ≡ false) =
          completed-verified execution outcome findings evidence input.verification h done.0.1
            v.no_mismatch in
        record {
          valid = v.valid;
          verified = match.0;
          has_evidence = match.1;
          no_findings = v.no_findings;
          checks_done = done;
        }

-- When the verification of an input is a report that the constructor returned, and each of its
-- checks, of verification and of inspection, is required, a decision of the npm rule allows exactly
-- if the input is valid, the verification verified the artifact and has evidence, the inspection
-- has no finding, and each check is supported and completed.
pub m3_evaluate-IsVerifiedInput :
    (execution : CheckExecution) (outcome : VerificationOutcome) (findings : List Finding)
    (evidence : List Evidence) (input : PolicyInput) (d : PolicyDecision)
    → new_verification_report_with_findings execution outcome findings evidence
      ≡ ok input.verification
    → All IsRequired (input.verification.execution ∷ input.inspection.executions)
    → m3_evaluate input ≡ ok d
    → (is_allow d.decision ≡ true) ↔ IsVerifiedInput input
m3_evaluate-IsVerifiedInput execution outcome findings evidence input d h r e =
    let rule : (is_allow d.decision ≡ true) ↔ M3Allows input = m3_evaluate-M3Allows input d e in
    let same : IsVerifiedInput input ↔ M3Allows input =
      verified-iff-no_mismatch execution outcome findings evidence input h r in
    (λ a. same.1 (rule.0 a), λ v. rule.1 (same.0 v))

-- A GitHub Release asset, with dynamic evidence where there is static evidence of an ELF file.
pub record IsReleaseInput (input : PolicyInput) : Type 0 where
  pub is_release : is_github input.artifact ≡ true
  pub run_in_sandbox :
      has_kind (codes "github-release-elf-static") input.inspection.evidence
        && not (has_kind (codes "github-release-elf-dynamic") input.inspection.evidence)
      ≡ false

-- When the verification of an input is a report that the constructor returned, and each of its
-- checks, of verification and of inspection, is required, a decision of the release rule allows
-- exactly if the input is valid and of a GitHub Release, the verification verified the artifact and
-- has evidence, the inspection has no finding, each check is supported and completed, and, where
-- there is static evidence of an ELF file, there is dynamic evidence too.
pub m6_evaluate-IsVerifiedInput :
    (execution : CheckExecution) (outcome : VerificationOutcome) (findings : List Finding)
    (evidence : List Evidence) (input : PolicyInput) (d : PolicyDecision)
    → new_verification_report_with_findings execution outcome findings evidence
      ≡ ok input.verification
    → All IsRequired (input.verification.execution ∷ input.inspection.executions)
    → m6_evaluate input ≡ ok d
    → (is_allow d.decision ≡ true) ↔ (IsReleaseInput input × IsVerifiedInput input)
m6_evaluate-IsVerifiedInput execution outcome findings evidence input d h r e =
    let rule : (is_allow d.decision ≡ true) ↔ M6Allows input = m6_evaluate-M6Allows input d e in
    let same : IsVerifiedInput input ↔ M3Allows input =
      verified-iff-no_mismatch execution outcome findings evidence input h r in
    (
      λ a.
          let v : M6Allows input = rule.0 a in
          (
            record { is_release = v.is_release; run_in_sandbox = v.run_in_sandbox },
            same.1 (record {
              valid = v.valid;
              no_mismatch = v.no_mismatch;
              no_findings = v.no_findings;
              checks_complete = v.checks_complete;
            }),
          ),
      λ v.
          let m : M3Allows input = same.0 v.1 in
          rule.1 (record {
            valid = m.valid;
            is_release = v.0.is_release;
            no_mismatch = m.no_mismatch;
            no_findings = m.no_findings;
            checks_complete = m.checks_complete;
            run_in_sandbox = v.0.run_in_sandbox;
          }),
    )
