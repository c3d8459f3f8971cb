-- ===== src/Policy/M2.antt =====
-- internal/policy/m2.go
use heliopause.Base.{List, Result, [], any, err, if◌then◌else◌, list_eq, nat_eq, not, ◌∷◌}
use heliopause.Domain.Evidence.{Finding}
use heliopause.Domain.Operation.{PolicyInput, is_valid_input}
use heliopause.Domain.Report.{is_mismatch}
use heliopause.Domain.Run.{Decision, PolicyDecision, block, manual_review}
use heliopause.Policy.{decide_with, is_incomplete_required}
use heliopause.Text.{Text, codes}

unfoldable pub m2_decision : Decision → Text → Result PolicyDecision
m2_decision = decide_with (codes "m2-npm-static-inspect")

-- The loop over the findings returns at its first.
unfoldable pub m2_findings : List Finding → Result PolicyDecision → Result PolicyDecision
m2_findings [] rest = rest
m2_findings (f ∷ findings) rest = m2_decision block f.code

unfoldable pub m2_evaluate : PolicyInput → Result PolicyDecision
m2_evaluate input =
    if not (is_valid_input input)
    then err "valid Policy input is required"
    else if is_mismatch input.verification.outcome
    then m2_decision block (codes "M2_INTEGRITY_MISMATCH")
    else m2_findings input.inspection.findings (
        if any is_incomplete_required
          (input.verification.execution ∷ input.inspection.execution ∷ [])
        then m2_decision manual_review (codes "M2_REQUIRED_CHECK_INCOMPLETE")
        else m2_decision manual_review (codes "M2_DYNAMIC_INSPECTION_UNAVAILABLE"))
