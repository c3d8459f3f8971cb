-- ===== src/Policy/M1.antt =====
-- internal/policy/m1.go
use heliopause.Base.{Result, [], any, err, if◌then◌else◌, list_eq, nat_eq, not, ◌==◌, ◌∷◌}
use heliopause.Domain.Operation.{PolicyInput, is_valid_input}
use heliopause.Domain.Run.{Decision, PolicyDecision, allow, block, manual_review}
use heliopause.Policy.{decide_with, is_incomplete_required}
use heliopause.Text.{Text, codes}

unfoldable pub m1_decision : Decision → Text → Result PolicyDecision
m1_decision = decide_with (codes "m1-fake-inspect")

unfoldable pub m1_evaluate : PolicyInput → Result PolicyDecision
m1_evaluate input =
    if not (is_valid_input input)
    then err "valid Policy input is required"
    else if any (λ f. f.code == codes "M1_BLOCK_FINDING") input.inspection.findings
    then m1_decision block (codes "M1_BLOCK_FINDING")
    else if any is_incomplete_required
        (input.verification.execution ∷ input.inspection.execution ∷ [])
    then m1_decision manual_review (codes "M1_REQUIRED_CHECK_INCOMPLETE")
    else m1_decision allow (codes "M1_REQUIRED_CHECKS_COMPLETED")
