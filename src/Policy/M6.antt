-- ===== src/Policy/M6.antt =====
-- internal/policy/m6.go: the policy of one GitHub Release asset.
use Prim.Native.Char.{code}
use heliopause.Base.{
  Bool, List, Result, [], any, err, if◌then◌else◌, length, list_eq, nat_eq, not, ◌&&◌, ◌==◌, ◌||◌,
  ◌∷◌,
}
use heliopause.Domain.Artifact.{AcquiredArtifact}
use heliopause.Domain.Evidence.{Evidence, Finding}
use heliopause.Domain.Inspected.{DependencyInspection, InspectedDependencySet, is_valid_set}
use heliopause.Domain.Operation.{PolicyInput, is_valid_input}
use heliopause.Domain.Report.{is_mismatch}
use heliopause.Domain.Run.{Decision, PolicyDecision, allow, block, is_allow, manual_review}
use heliopause.Policy.{decide_with, is_incomplete_required}
use heliopause.Text.{Text, codes}

unfoldable pub m6_decision : Decision → Text → Result PolicyDecision
m6_decision = decide_with (codes "m6-github-release")

abbrev pub is_github : AcquiredArtifact → Bool
is_github a = a.identity.source.value == codes "github-release"

-- The set has one node, and so one inspection; the branch without is where Go would panic.
unfoldable pub m6_entry : List DependencyInspection → Result PolicyDecision
m6_entry [] = err "index out of range"
m6_entry (i ∷ inspections) =
    if not (is_github i.artifact)
    then err "GitHub Release inspection is required"
    else if not (is_allow i.decision.decision)
    then m6_decision i.decision.decision (codes "M6_RELEASE_REVIEW_REQUIRED")
    else m6_decision allow (codes "M6_VERIFIED_SET_COMPLETED")

unfoldable pub m6_evaluate_set : InspectedDependencySet → Result PolicyDecision
m6_evaluate_set set =
    if not (is_valid_set set) || not (length set.graph.nodes == 1)
    then err "one complete GitHub Release inspection is required"
    else m6_entry set.inspections

-- The `switch` on the first finding's code.
unfoldable pub m6_finding : Text → Result PolicyDecision
m6_finding code =
    if code == codes "M6_FORMAT_UNSUPPORTED"
      || code == codes "M6_FORMAT_NAME_MISMATCH"
      || code == codes "M6_ELF_PLATFORM_UNSUPPORTED"
    then m6_decision manual_review code
    else m6_decision block code

unfoldable pub m6_findings : List Finding → Result PolicyDecision → Result PolicyDecision
m6_findings [] rest = rest
m6_findings (f ∷ findings) rest = m6_finding f.code

abbrev pub has_kind : Text → List Evidence → Bool
has_kind kind evidence = any (λ e. e.kind == kind) evidence

unfoldable pub m6_evaluate : PolicyInput → Result PolicyDecision
m6_evaluate input =
    if not (is_valid_input input) || not (is_github input.artifact)
    then err "valid GitHub Release Policy input is required"
    else if is_mismatch input.verification.outcome
    then m6_decision block (codes "M6_INTEGRITY_MISMATCH")
    else m6_findings input.inspection.findings (
        if any is_incomplete_required (input.verification.execution ∷ input.inspection.executions)
        then m6_decision manual_review (codes "M6_REQUIRED_CHECK_INCOMPLETE")
        else if has_kind (codes "github-release-elf-static") input.inspection.evidence
            && not (has_kind (codes "github-release-elf-dynamic") input.inspection.evidence)
        then m6_decision manual_review (codes "M6_DYNAMIC_INSPECTION_REQUIRED")
        else m6_decision allow (codes "M6_REQUIRED_CHECKS_COMPLETED"))
