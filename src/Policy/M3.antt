-- ===== src/Policy/M3.antt =====
-- internal/policy/m3.go
use Prim.Native.Char.{code}
use heliopause.Base.{
  List, Result, [], any, err, if◌then◌else◌, list_eq, nat_eq, not, ◌==◌, ◌||◌, ◌∷◌,
}
use heliopause.Domain.Evidence.{Finding}
use heliopause.Domain.Operation.{PolicyInput, is_valid_input}
use heliopause.Domain.Report.{is_mismatch}
use heliopause.Domain.Run.{Decision, PolicyDecision, allow, block, manual_review}
use heliopause.Policy.{decide_with, is_incomplete_required}
use heliopause.Text.{Text, codes}

unfoldable pub m3_decision : Decision → Text → Result PolicyDecision
m3_decision = decide_with (codes "m3-npm-dynamic-inspect")

-- The `switch` on the first finding's code.
unfoldable pub m3_finding : Text → Result PolicyDecision
m3_finding code =
    if code == codes "M3_HONEYTOKEN_ACCESS" || code == codes "M3_FILESYSTEM_VIOLATION"
    then m3_decision block code
    else if code == codes "M3_NETWORK_ATTEMPT" || code == codes "M3_UNEXPECTED_PROCESS"
    then m3_decision manual_review code
    else m3_decision block code

-- The loop over the findings returns at its first.
unfoldable pub m3_findings : List Finding → Result PolicyDecision → Result PolicyDecision
m3_findings [] rest = rest
m3_findings (f ∷ findings) rest = m3_finding f.code

unfoldable pub m3_evaluate : PolicyInput → Result PolicyDecision
m3_evaluate input =
    if not (is_valid_input input)
    then err "valid Policy input is required"
    else if is_mismatch input.verification.outcome
    then m3_decision block (codes "M3_INTEGRITY_MISMATCH")
    else m3_findings input.inspection.findings (
        if any is_incomplete_required (input.verification.execution ∷ input.inspection.executions)
        then m3_decision manual_review (codes "M3_REQUIRED_CHECK_INCOMPLETE")
        else m3_decision allow (codes "M3_REQUIRED_CHECKS_COMPLETED"))
