-- ===== src/Policy/M4.antt =====
-- internal/policy/m4.go: the policy of a complete dependency set.
use heliopause.Base.{List, Result, [], any, err, if◌then◌else◌, list_eq, nat_eq, not, ◌∷◌}
use heliopause.Domain.Inspected.{DependencyInspection, InspectedDependencySet, is_valid_set}
use heliopause.Domain.Project.{InspectedProjectSet, is_valid_project_set}
use heliopause.Domain.Run.{
  Decision, PolicyDecision, allow, block, is_allow, is_block, manual_review,
}
use heliopause.Policy.{decide_with, is_incomplete_required}
use heliopause.Text.{Text, codes}

unfoldable pub m4_decision : Decision → Text → Result PolicyDecision
m4_decision = decide_with (codes "m4-npm-install-promotion")

-- The loop over the entries: each must be allowed, with its required checks completed.
unfoldable pub m4_entries : List DependencyInspection → Result PolicyDecision
m4_entries [] = m4_decision allow (codes "M4_VERIFIED_SET_COMPLETED")
m4_entries (i ∷ inspections) =
    let rest = m4_entries inspections in
    if not (is_allow i.decision.decision)
    then m4_decision manual_review (codes "M4_DEPENDENCY_REVIEW_REQUIRED")
    else if any is_incomplete_required i.checks
    then m4_decision manual_review (codes "M4_REQUIRED_CHECK_INCOMPLETE")
    else rest

unfoldable pub m4_evaluate_set : InspectedDependencySet → Result PolicyDecision
m4_evaluate_set set =
    if not (is_valid_set set)
    then err "complete inspected dependency set is required"
    else if any (λ i. is_block i.decision.decision) set.inspections
    then m4_decision block (codes "M4_DEPENDENCY_BLOCKED")
    else if any (λ n. n.host_install_action) set.graph.nodes
    then m4_decision manual_review (codes "M4_HOST_LIFECYCLE_UNSUPPORTED")
    else m4_entries set.inspections

-- `EvaluateProjectSet`: the same, of a project without a primary artifact.
unfoldable pub m4_evaluate_project_set : InspectedProjectSet → Result PolicyDecision
m4_evaluate_project_set set =
    if not (is_valid_project_set set)
    then err "complete inspected project set is required"
    else if any (λ i. is_block i.decision.decision) set.inspections
    then m4_decision block (codes "M4_DEPENDENCY_BLOCKED")
    else m4_entries set.inspections
