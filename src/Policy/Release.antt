-- ===== src/Policy/Release.antt =====
-- internal/policy/m2.go and m6.go: static inspections, and release assets.
use heliopause.Base.{
  List, Result, [], any, arith, false, if◌then◌else◌, not, ok, refl, true, ◌&&◌, ◌↔◌, ◌∷◌, ◌≡◌,
}
use heliopause.Domain.Evidence.{Finding}
use heliopause.Domain.Operation.{PolicyInput, is_valid_input}
use heliopause.Domain.Report.{is_mismatch}
use heliopause.Domain.Run.{Decision, PolicyDecision, is_allow, manual_review}
use heliopause.Policy.{is_incomplete_required}
use heliopause.Policy.M2.{m2_decision, m2_evaluate, m2_findings}
use heliopause.Policy.M6.{has_kind, is_github, m6_decision, m6_evaluate, m6_finding, m6_findings}
use heliopause.Policy.Rules.{decide_with-eq_ok, not_allow}
use heliopause.Text.{Text, codes}

m2_findings-not_allow :
    (findings : List Finding) (rest : Result PolicyDecision) (d : PolicyDecision)
    → (rest ≡ ok d → is_allow d.decision ≡ false)
    → m2_findings findings rest ≡ ok d
    → is_allow d.decision ≡ false
unfolding m2_findings m2_decision
m2_findings-not_allow [] rest d r h = r h
m2_findings-not_allow (f ∷ findings) rest d r h =
    not_allow (codes "m2-npm-static-inspect") Decision.block f.code d refl h

-- No decision of the static npm rule allows.
pub m2_evaluate-not_allow :
    (input : PolicyInput) (d : PolicyDecision)
    → m2_evaluate input ≡ ok d
    → is_allow d.decision ≡ false
unfolding m2_evaluate m2_decision
m2_evaluate-not_allow input d h = ground (
  arith,
  not_allow (codes "m2-npm-static-inspect") Decision.block (codes "M2_INTEGRITY_MISMATCH") d refl,
  m2_findings-not_allow input.inspection.findings verdict d last,
)
  where
    verdict : Result PolicyDecision
    verdict =
        if any is_incomplete_required
          (input.verification.execution ∷ input.inspection.execution ∷ [])
        then m2_decision manual_review (codes "M2_REQUIRED_CHECK_INCOMPLETE")
        else m2_decision manual_review (codes "M2_DYNAMIC_INSPECTION_UNAVAILABLE")

    last : verdict ≡ ok d → is_allow d.decision ≡ false
    last e = ground (
      arith,
      not_allow (codes "m2-npm-static-inspect") manual_review (codes "M2_REQUIRED_CHECK_INCOMPLETE")
          d refl,
      not_allow (codes "m2-npm-static-inspect") manual_review
          (codes "M2_DYNAMIC_INSPECTION_UNAVAILABLE") d refl,
    )

-- What the release rule asks of an input before it allows it.
pub record M6Allows (input : PolicyInput) : Type 0 where
  pub valid : is_valid_input input ≡ true
  pub is_release : is_github input.artifact ≡ true
  pub no_mismatch : is_mismatch input.verification.outcome ≡ false
  pub no_findings : input.inspection.findings ≡ []
  pub checks_complete :
      any is_incomplete_required (input.verification.execution ∷ input.inspection.executions)
      ≡ false
  pub run_in_sandbox :
      has_kind (codes "github-release-elf-static") input.inspection.evidence
        && not (has_kind (codes "github-release-elf-dynamic") input.inspection.evidence)
      ≡ false

m6_finding-not_allow :
    (code : Text) (d : PolicyDecision) → m6_finding code ≡ ok d → is_allow d.decision ≡ false
unfolding m6_finding m6_decision
m6_finding-not_allow why d h = ground (
  arith,
  not_allow (codes "m6-github-release") Decision.block why d refl,
  not_allow (codes "m6-github-release") manual_review why d refl,
)

m6_findings-allow :
    (findings : List Finding) (rest : Result PolicyDecision) (d : PolicyDecision)
    → m6_findings findings rest ≡ ok d
    → is_allow d.decision ≡ true
    → (findings ≡ []) × (rest ≡ ok d)
unfolding m6_findings
m6_findings-allow [] rest d h a = (refl, h)
m6_findings-allow (f ∷ findings) rest d h a = cc (a, m6_finding-not_allow f.code d h)

-- A decision of the release rule allows exactly if the input is valid and of a GitHub Release, the
-- outcome of its verification is not a mismatch, its inspection has no finding, each of its checks
-- that is required is supported and completed, and, where there is static evidence of an ELF file,
-- there is dynamic evidence too. A check that is not required need not have run.
pub m6_evaluate-M6Allows :
    (input : PolicyInput) (d : PolicyDecision)
    → m6_evaluate input ≡ ok d
    → (is_allow d.decision ≡ true) ↔ M6Allows input
unfolding m6_evaluate m6_decision
m6_evaluate-M6Allows input d h = (allowed, allows)
  where
    m6_id : Text
    m6_id = codes "m6-github-release"

    verdict : Result PolicyDecision
    verdict =
        if any is_incomplete_required (input.verification.execution ∷ input.inspection.executions)
        then m6_decision manual_review (codes "M6_REQUIRED_CHECK_INCOMPLETE")
        else if has_kind (codes "github-release-elf-static") input.inspection.evidence
            && not (has_kind (codes "github-release-elf-dynamic") input.inspection.evidence)
        then m6_decision manual_review (codes "M6_DYNAMIC_INSPECTION_REQUIRED")
        else m6_decision Decision.allow (codes "M6_REQUIRED_CHECKS_COMPLETED")

    allowed : is_allow d.decision ≡ true → M6Allows input
    allowed a = ground (
      arith,
      not_allow m6_id Decision.block (codes "M6_INTEGRITY_MISMATCH") d refl,
      not_allow m6_id manual_review (codes "M6_REQUIRED_CHECK_INCOMPLETE") d refl,
      not_allow m6_id manual_review (codes "M6_DYNAMIC_INSPECTION_REQUIRED") d refl,
      m6_findings-allow input.inspection.findings verdict d,
    )

    allows : M6Allows input → is_allow d.decision ≡ true
    allows v =
        let last : m6_decision Decision.allow (codes "M6_REQUIRED_CHECKS_COMPLETED") ≡ ok d =
          unfold m6_findings in
          rw
            (
              v.valid, v.is_release, v.no_mismatch, v.no_findings, v.checks_complete,
              v.run_in_sandbox,
            )
            at h in
        rw (decide_with-eq_ok m6_id Decision.allow (codes "M6_REQUIRED_CHECKS_COMPLETED") d last).0
