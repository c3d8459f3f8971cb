-- ===== src/Tests/Promotions.antt =====
-- Graphs, inspected sets and policies at the sample install.
use mathlib.Core.List.{Perm}
use heliopause.Base.{
  All, List, [], contains, false, list_eq, nat_eq, ok, refl, some, true, ◌↔◌, ◌∷◌, ◌≡◌,
}
use heliopause.Base.Coverage.{Distinct}
use heliopause.Base.Order.{sort}
use heliopause.Domain.Artifact.{validate_normalized_identifier}
use heliopause.Domain.Check.{not_executed, verification}
use heliopause.Domain.Graph.{
  DependencyNodeId, new_graph, node_id_eq, node_ids, scan_derivations, scan_edges, scan_nodes,
  search_from, successors, visit, visit_one,
}
use heliopause.Domain.Graph.Accepted.{IsAccepted, new_graph-IsAccepted}
use heliopause.Domain.Graph.Reach.{Reachable}
use heliopause.Domain.Graph.Visited.{search_from-exact}
use heliopause.Domain.Inspected.{
  check_inspection, check_inspections, is_valid_set, locked_node, matches_locked,
  new_inspected_dependency_set,
}
use heliopause.Domain.Inspected.Coverage.{
  Inspects, inspected_ids, new_inspected_dependency_set-covers,
}
use heliopause.Domain.Operation.{PolicyInput, is_valid_input}
use heliopause.Domain.Report.{
  VerificationOutcome, VerificationReport, new_verification_report_with_findings,
  validate_evidence_for_check, validate_findings_for_evidence,
}
use heliopause.Domain.Run.{PolicyDecision, is_allow, new_policy_decision}
use heliopause.Domain.Verified.{new_verified_set}
use heliopause.Policy.{decide_with, is_incomplete_required}
use heliopause.Policy.M3.{m3_decision, m3_evaluate, m3_finding, m3_findings}
use heliopause.Policy.M4.{m4_decision, m4_entries, m4_evaluate_set}
use heliopause.Policy.Promotion.{
  M4Allows, m4_evaluate_set-M4Allows, m4_evaluate_set-total, m4_evaluate_set-verified,
}
use heliopause.Policy.Rules.{M3Allows, m3_evaluate-M3Allows}
use heliopause.Policy.Verified.{IsVerifiedInput, m3_evaluate-IsVerifiedInput}
use heliopause.Tests.Data.{
  m3_allowed, m4_allowed, sample_check, sample_edges, sample_evidence_reference, sample_graph,
  sample_input, sample_inspected, sample_node, sample_nodes, sample_set, sample_verification,
}
use heliopause.Text.{codes}
use heliopause.Text.Pattern.{failure_code_pattern, normalized_identifier}
use heliopause.Text.Utf8.{is_valid_string}

m4_evaluated : m4_evaluate_set sample_set ≡ ok m4_allowed
unfolding m4_evaluate_set m4_entries m4_decision decide_with new_policy_decision
    validate_normalized_identifier is_valid_string normalized_identifier failure_code_pattern
    is_valid_set is_incomplete_required
m4_evaluated = refl

m4_evaluate_set-verified_example :
    new_verified_set sample_set m4_allowed
    ≡ ok (record { inspected = sample_set; decision = m4_allowed })
m4_evaluate_set-verified_example = m4_evaluate_set-verified sample_set m4_allowed m4_evaluated refl

m4_evaluate_set-M4Allows_example : (is_allow m4_allowed.decision ≡ true) ↔ M4Allows sample_set
m4_evaluate_set-M4Allows_example = m4_evaluate_set-M4Allows sample_set m4_allowed m4_evaluated

sample_set_valid : is_valid_set sample_set ≡ true
unfolding is_valid_set
sample_set_valid = refl

m4_evaluate_set-total_example : (d : PolicyDecision) × (m4_evaluate_set sample_set ≡ ok d)
m4_evaluate_set-total_example = m4_evaluate_set-total sample_set sample_set_valid

m3_evaluated : m3_evaluate sample_input ≡ ok m3_allowed
unfolding m3_evaluate m3_findings m3_finding m3_decision decide_with new_policy_decision
    validate_normalized_identifier is_valid_string normalized_identifier failure_code_pattern
    is_valid_input is_incomplete_required
m3_evaluated = refl

m3_evaluate-M3Allows_example : (is_allow m3_allowed.decision ≡ true) ↔ M3Allows sample_input
m3_evaluate-M3Allows_example = m3_evaluate-M3Allows sample_input m3_allowed m3_evaluated

built_graph : new_graph sample_nodes sample_edges [] ≡ ok sample_graph
unfolding new_graph scan_nodes scan_edges search_from visit visit_one successors scan_derivations
    sort
built_graph = refl

new_graph-IsAccepted_example : IsAccepted sample_nodes sample_edges sample_graph
new_graph-IsAccepted_example =
    new_graph-IsAccepted sample_nodes sample_edges [] sample_graph built_graph

search_from-exact_example :
    (r : List DependencyNodeId) × (search_from 2 sample_edges
        (sample_node (codes "lib") ∷ [])
        (sample_node (codes "lib") ∷ [])
      ≡ some r)
    × ((n : DependencyNodeId)
        → (contains n r ≡ true) ↔ Reachable sample_edges (sample_node (codes "lib")) n)
    × Distinct r
search_from-exact_example = search_from-exact sample_edges (sample_node (codes "lib"))

built_set :
    new_inspected_dependency_set sample_graph
      (sample_inspected (codes "lib") ∷ sample_inspected (codes "dep") ∷ [])
    ≡ ok sample_set
unfolding new_inspected_dependency_set check_inspections check_inspection locked_node matches_locked
    sort
built_set = refl

new_inspected_dependency_set-covers_example :
    (sample_set.graph ≡ sample_graph)
    × Perm sample_set.inspections
        (sample_inspected (codes "lib") ∷ sample_inspected (codes "dep") ∷ [])
    × All (Inspects sample_graph.nodes) sample_set.inspections
    × Distinct
        (inspected_ids (sample_inspected (codes "lib") ∷ sample_inspected (codes "dep") ∷ []))
    × ((k : DependencyNodeId)
        → contains k (node_ids sample_graph.nodes) ≡ true
        → contains k
            (inspected_ids (sample_inspected (codes "lib") ∷ sample_inspected (codes "dep") ∷ []))
          ≡ true)
new_inspected_dependency_set-covers_example =
    new_inspected_dependency_set-covers sample_graph
      (sample_inspected (codes "lib") ∷ sample_inspected (codes "dep") ∷ []) sample_set built_set

sample_verification_built :
    new_verification_report_with_findings sample_verification.execution sample_verification.outcome
      sample_verification.findings sample_verification.evidence
    ≡ ok sample_verification
unfolding new_verification_report_with_findings validate_evidence_for_check
    validate_findings_for_evidence
sample_verification_built = refl

m3_evaluate-IsVerifiedInput_example :
    (is_allow m3_allowed.decision ≡ true) ↔ IsVerifiedInput sample_input
m3_evaluate-IsVerifiedInput_example =
    m3_evaluate-IsVerifiedInput sample_verification.execution sample_verification.outcome
      sample_verification.findings sample_verification.evidence sample_input m3_allowed
      sample_verification_built (refl, (refl, tt)) m3_evaluated

-- A verification that is not required was not executed, and has no outcome.
abbrev skipped_verification : VerificationReport
skipped_verification = record {
  execution = record (sample_check verification) {
    required = false;
    status = not_executed;
    limitation = codes "SKIPPED";
  };
  outcome = VerificationOutcome.unset;
  findings = [];
  evidence = [];
}

abbrev skipped_input : PolicyInput
skipped_input = record sample_input {
  verification = skipped_verification;
  evidence = sample_evidence_reference (codes "two") ∷ [];
}

-- Such a report is accepted, and the npm rule allows its input: the rule asks only for the checks
-- that are required.
skipped_verification_built :
    new_verification_report_with_findings skipped_verification.execution VerificationOutcome.unset
      [] []
    ≡ ok skipped_verification
unfolding new_verification_report_with_findings validate_evidence_for_check
    validate_findings_for_evidence
skipped_verification_built = refl

skipped_verification_allowed : m3_evaluate skipped_input ≡ ok m3_allowed
unfolding m3_evaluate m3_findings m3_finding m3_decision decide_with new_policy_decision
    validate_normalized_identifier is_valid_string normalized_identifier failure_code_pattern
    is_valid_input is_incomplete_required
skipped_verification_allowed = refl
