-- ===== src/Policy/Rules.antt =====
-- When the rules of one artifact allow it.
use heliopause.Base.{
  List, Result, [], any, arith, false, if◌then◌else◌, list_eq, nat_eq, ok, refl, true, ◌↔◌, ◌∷◌,
  ◌≡◌,
}
use heliopause.Domain.Evidence.{Finding}
use heliopause.Domain.Operation.{PolicyInput, is_valid_input}
use heliopause.Domain.Report.{is_mismatch}
use heliopause.Domain.Run.{Decision, PolicyDecision, is_allow, manual_review, new_policy_decision}
use heliopause.Policy.{decide_with, is_incomplete_required}
use heliopause.Policy.M3.{m3_decision, m3_evaluate, m3_finding, m3_findings}
use heliopause.Text.{Text, codes}

-- A decision carries what it was made with.
pub decide_with-eq_ok :
    (policy_id : Text) (decision : Decision) (reason : Text) (d : PolicyDecision)
    → decide_with policy_id decision reason ≡ ok d
    → (d.decision ≡ decision) × (d.policy_id ≡ policy_id) × (d.reasons ≡ reason ∷ [])
unfolding decide_with new_policy_decision
decide_with-eq_ok policy_id decision reason d h = ground arith

-- A verdict that does not allow stays one, whatever its reason.
pub not_allow :
    (policy_id : Text) (decision : Decision) (reason : Text) (d : PolicyDecision)
    → is_allow decision ≡ false
    → decide_with policy_id decision reason ≡ ok d
    → is_allow d.decision ≡ false
not_allow policy_id decision reason d n h = rw (decide_with-eq_ok policy_id decision reason d h).0 n

-- What the npm rule asks of an input before it allows it.
pub record M3Allows (input : PolicyInput) : Type 0 where
  pub valid : is_valid_input input ≡ true
  pub no_mismatch : is_mismatch input.verification.outcome ≡ false
  pub no_findings : input.inspection.findings ≡ []
  pub checks_complete :
      any is_incomplete_required (input.verification.execution ∷ input.inspection.executions)
      ≡ false

m3_finding-not_allow :
    (code : Text) (d : PolicyDecision) → m3_finding code ≡ ok d → is_allow d.decision ≡ false
unfolding m3_finding m3_decision
m3_finding-not_allow why d h = ground (
  arith,
  not_allow (codes "m3-npm-dynamic-inspect") Decision.block why d refl,
  not_allow (codes "m3-npm-dynamic-inspect") manual_review why d refl,
)

m3_findings-allow :
    (findings : List Finding) (rest : Result PolicyDecision) (d : PolicyDecision)
    → m3_findings findings rest ≡ ok d
    → is_allow d.decision ≡ true
    → (findings ≡ []) × (rest ≡ ok d)
unfolding m3_findings
m3_findings-allow [] rest d h a = (refl, h)
m3_findings-allow (f ∷ findings) rest d h a = cc (a, m3_finding-not_allow f.code d h)

-- A decision of the npm rule allows exactly if the input is valid, the outcome of its verification
-- is not a mismatch, its inspection has no finding, and each of its checks that is required is
-- supported and completed. A check that is not required need not have run.
pub m3_evaluate-M3Allows :
    (input : PolicyInput) (d : PolicyDecision)
    → m3_evaluate input ≡ ok d
    → (is_allow d.decision ≡ true) ↔ M3Allows input
unfolding m3_evaluate m3_decision
m3_evaluate-M3Allows input d h = (allowed, allows)
  where
    m3_id : Text
    m3_id = codes "m3-npm-dynamic-inspect"

    verdict : Result PolicyDecision
    verdict =
        if any is_incomplete_required (input.verification.execution ∷ input.inspection.executions)
        then m3_decision manual_review (codes "M3_REQUIRED_CHECK_INCOMPLETE")
        else m3_decision Decision.allow (codes "M3_REQUIRED_CHECKS_COMPLETED")

    allowed : is_allow d.decision ≡ true → M3Allows input
    allowed a = ground (
      arith,
      not_allow m3_id Decision.block (codes "M3_INTEGRITY_MISMATCH") d refl,
      not_allow m3_id manual_review (codes "M3_REQUIRED_CHECK_INCOMPLETE") d refl,
      m3_findings-allow input.inspection.findings verdict d,
    )

    allows : M3Allows input → is_allow d.decision ≡ true
    allows v =
        let last : m3_decision Decision.allow (codes "M3_REQUIRED_CHECKS_COMPLETED") ≡ ok d =
          unfold m3_findings in
          rw (v.valid, v.no_mismatch, v.no_findings, v.checks_complete) at h in
        rw (decide_with-eq_ok m3_id Decision.allow (codes "M3_REQUIRED_CHECKS_COMPLETED") d last).0
