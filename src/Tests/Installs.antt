-- ===== src/Tests/Installs.antt =====
-- Installs of a graph of two nodes.
use heliopause.Application.Diagnostic.{
  DependencyPolicyDiagnostic, InspectedInstall, InstallRequest, dynamic_codes,
  dynamic_failure_parts, new_dependency_policy_diagnostic, new_inspected_install,
}
use heliopause.Application.Diagnostic.Codes.{
  finding_codes, is_dynamic, new_dependency_policy_diagnostic-codes,
}
use heliopause.Application.Entry.{inspect_acquired_dependency, locked_reference}
use heliopause.Application.Entry.Extra.{RecordsEach, inspect_acquired_dependency-refused}
use heliopause.Application.GraphInspect.{
  acquire_all, acquire_pending, acquired_matches_locked, artifacts_of, bind_pending, finish_graph,
  inspect_graph_aware, judge_all, judge_pending, pending_at, record_judged,
}
use heliopause.Application.GraphReports.{
  dynamic_install_diagnostics, graph_dynamic_install_diagnostics, graph_static_diagnostics,
  report_at, validate_graph_reports,
}
use heliopause.Application.Install.{
  first_world, inspect_install, inspect_nodes, inspect_resolution, install,
}
use heliopause.Application.Install.Gate.{
  AllFinalized, HandsOn, install-AllFinalized, install-HandsOn,
}
use heliopause.Application.Install.Inspected.{
  IsInspected, first_world-IsOrderly, inspect_install-IsInspected,
}
use heliopause.Application.Install.Phases.{Ended, install-Ended}
use heliopause.Application.Install.Promotes.{Answers, IsPromoted, install-IsPromoted}
use heliopause.Application.SetInspect.{decide_set, derive_if}
use heliopause.Application.Workflow.{InstallPorts, after, ask, create, pure, put_away, try}
use heliopause.Application.Workflow.Ensures.{is_gate}
use heliopause.Base.{
  All, List, [], arith, contains, false, is_ok, length, length-map, list_eq, map, nat_eq, none, ok,
  refl, some, subst, ◌&&◌, ◌∷◌, ◌≡◌,
}
use heliopause.Base.Coverage.{Distinct}
use heliopause.Base.Order.{sort}
use heliopause.Domain.Artifact.{
  AcquiredArtifact, ResolvedArtifactIdentity, new_artifact_reference, text_is_bounded,
  validate_bounded_text, validate_normalized_identifier,
}
use heliopause.Domain.Check.{inspection, verification}
use heliopause.Domain.Evidence.{Evidence, EvidenceReference, Finding}
use heliopause.Domain.Graph.{primary, transitive}
use heliopause.Domain.Inspected.{
  DependencyInspection, DependencyResolution, check_inspection, check_inspections, is_valid_set,
  locked_node, matches_locked, new_dependency_inspection, new_inspected_dependency_set,
}
use heliopause.Domain.Install.{is_valid_context, npm_project}
use heliopause.Domain.Operation.{check_references, distinct_ids, new_policy_input}
use heliopause.Domain.Report.{InspectionReport, VerificationReport}
use heliopause.Domain.Run.{
  Decision, activate, bind_acquired_artifact, finalize_completed, new_inspection_run,
  new_policy_decision,
}
use heliopause.Domain.Verified.{VerifiedBundle, VerifiedSet}
use heliopause.Policy.{decide_with, is_incomplete_required}
use heliopause.Policy.M4.{m4_decision, m4_entries, m4_evaluate_set}
use heliopause.Tests.Data.{
  m3_allowed, m4_allowed, sample_artifact, sample_check, sample_digest, sample_evidence,
  sample_evidence_reference, sample_graph, sample_identity, sample_inspection, sample_locked,
  sample_node, sample_operation_id, sample_reference, sample_run_id, sample_source,
  sample_verification,
}
use heliopause.Text.{Text, codes, cut_prefix}
use heliopause.Text.Pattern.{failure_code_pattern, normalized_identifier}
use heliopause.Text.Utf8.{ends_in_space, is_control, is_valid_string, runes, starts_with_space}

abbrev installed_artifact : Text → AcquiredArtifact
installed_artifact name = record (sample_artifact name) { handle = codes "intake:run_1:tgz" }

abbrev installed_evidence : ResolvedArtifactIdentity → Text → Evidence
installed_evidence identity id = record (sample_evidence id) { identity = identity }

abbrev pub installed_verification : ResolvedArtifactIdentity → VerificationReport
installed_verification identity = record sample_verification {
  evidence = installed_evidence identity (codes "one") ∷ [];
}

abbrev installed_report : ResolvedArtifactIdentity → InspectionReport
installed_report identity = record sample_inspection {
  evidence = installed_evidence identity (codes "two") ∷ [];
}

abbrev sample_request : InstallRequest
sample_request = record {
  reference = sample_reference;
  context = record { target = record { value = codes "/work/app" }; mode = npm_project };
}

abbrev installed_resolution : DependencyResolution
installed_resolution = record {
  graph = sample_graph;
  runtime_identity = codes "node";
  lockfile_digest = sample_digest;
}

abbrev referred : List Evidence → List EvidenceReference
referred = map (λ e. sample_evidence_reference e.id.value)

-- A bundle of a verified set, with documents of one byte.
abbrev installed_bundle : VerifiedSet → VerifiedBundle
installed_bundle v = record {
  manifest_id = sample_digest;
  set = v;
  manifest_document = 1 ∷ [];
  sbom_document = 1 ∷ [];
}

abbrev pub installing_ports : InstallPorts
installing_ports = record {
  new_operation_id = λ h. ok sample_operation_id;
  new_run_id = λ h. ok sample_run_id;
  resolve_dependencies = λ h r c. ok installed_resolution;
  acquire = λ h id r. ok (installed_artifact r.identity.name);
  verify = λ h a. ok (installed_verification a.identity);
  inspect = λ h a. ok (installed_report a.identity);
  inspect_graph = some (λ h g artifacts.
      ok (
        map (λ d. record { node = d.node; report = installed_report d.artifact.identity })
          g.nodes));
  record_evidence = λ h id es. ok (referred es);
  derive = none;
  evaluate = λ input. ok m3_allowed;
  evaluate_set = m4_evaluate_set;
  build_manifest = λ h op context resolution v. ok (installed_bundle v);
  stage = λ h bundle. ok (record { manifest_id = bundle.manifest_id; handle = codes "staged" });
  promote = λ h set bundle context.
      ok (record { manifest_id = set.manifest_id; target = context.target });
}

answering_ports : Answers installing_ports
answering_ports = record {
  builds_all = λ h op context resolution v. refl;
  stages_all = λ h bundle. refl;
  promotes_all = λ h set bundle context. refl;
}

abbrev installed_inspection : Text → DependencyInspection
installed_inspection name = record {
  node = sample_node name;
  run_id = sample_run_id;
  artifact = installed_artifact name;
  checks = sample_check verification ∷ sample_check inspection ∷ [];
  evidence = sample_evidence_reference (codes "one") ∷ sample_evidence_reference (codes "two") ∷ [];
  decision = m3_allowed;
}

abbrev installed_diagnostic : Text → DependencyPolicyDiagnostic
installed_diagnostic name = record {
  node = sample_node name;
  package_name = name;
  version = codes "1.0.0";
  source = sample_source;
  decision = Decision.allow;
  reasons = m3_allowed.reasons;
  dynamic_finding_codes = [];
}

abbrev inspected_install : InspectedInstall
inspected_install = record {
  operation_id = sample_operation_id;
  request = sample_request;
  resolution = some installed_resolution;
  set = some (record {
    graph = sample_graph;
    inspections = installed_inspection (codes "dep") ∷ installed_inspection (codes "lib") ∷ [];
  });
  decision = m4_allowed;
  diagnostics = [];
  dynamic_diagnostics = [];
  policy_diagnostics = installed_diagnostic (codes "dep") ∷ installed_diagnostic (codes "lib") ∷ [];
}

inspected_sample :
    (inspect_install installing_ports sample_request first_world).value
    ≡ record { install = some inspected_install; error = none }
unfolding inspect_install try pure ask put_away create after inspect_resolution inspect_nodes
    inspect_graph_aware acquire_all acquire_pending bind_pending locked_reference
    new_artifact_reference new_inspection_run activate bind_acquired_artifact
    acquired_matches_locked artifacts_of pending_at validate_graph_reports report_at judge_all
    judge_pending new_policy_input distinct_ids check_references finalize_completed record_judged
    new_dependency_inspection new_dependency_policy_diagnostic dynamic_codes finish_graph derive_if
    decide_set new_inspected_dependency_set check_inspections check_inspection locked_node
    matches_locked m4_evaluate_set m4_entries m4_decision decide_with new_policy_decision
    validate_normalized_identifier normalized_identifier is_valid_string failure_code_pattern
    graph_static_diagnostics graph_dynamic_install_diagnostics dynamic_install_diagnostics
    dynamic_failure_parts cut_prefix new_inspected_install is_valid_context is_valid_set
    text_is_bounded validate_bounded_text runes starts_with_space ends_in_space is_control sort
    is_incomplete_required
inspected_sample = refl

install-Ended_example :
    Ended installing_ports sample_request
      (install installing_ports sample_request first_world).world.history
      (install installing_ports sample_request first_world).value
install-Ended_example = install-Ended installing_ports sample_request

install-HandsOn_example :
    All
      (HandsOn installing_ports sample_request)
      (install installing_ports sample_request first_world).world.history
install-HandsOn_example = install-HandsOn installing_ports sample_request

install-AllFinalized_example :
    AllFinalized (install installing_ports sample_request first_world).world
install-AllFinalized_example = install-AllFinalized installing_ports sample_request

install-IsPromoted_example : IsPromoted (install installing_ports sample_request first_world)
install-IsPromoted_example =
    install-IsPromoted installing_ports sample_request inspected_install (λ s. refl) answering_ports
      inspected_sample refl

inspect_install-IsInspected_example :
    IsInspected installing_ports sample_request inspected_install
    × All
        (λ c. is_gate c ≡ false)
        (inspect_install installing_ports sample_request first_world).world.history
inspect_install-IsInspected_example =
    inspect_install-IsInspected installing_ports sample_request inspected_install inspected_sample

referred-each : RecordsEach installing_ports
referred-each h run_id items references e =
    let same : referred items ≡ references = ground arith in
    subst (λ t. length t ≡ length items) same
      (length-map items (λ e. sample_evidence_reference e.id.value))

inspect_acquired_dependency-refused_example :
    is_ok
      (inspect_acquired_dependency installing_ports sample_operation_id
        (sample_locked transitive (codes "dep"))
        (installed_artifact (codes "dep"))
        []
        (installed_evidence (sample_identity (codes "dep")) (codes "built") ∷ [])
        first_world).value
    ≡ false
inspect_acquired_dependency-refused_example =
    inspect_acquired_dependency-refused installing_ports sample_operation_id
      (sample_locked transitive (codes "dep")) (installed_artifact (codes "dep")) []
      (installed_evidence (sample_identity (codes "dep")) (codes "built")) [] first_world
      referred-each first_world-IsOrderly

-- Findings of the third policy, one of them twice, and one of another.
abbrev coded : Text → Finding
coded name = record { code = name; evidence_ids = [] }

abbrev mixed_findings : List Finding
mixed_findings =
    coded (codes "M3_NETWORK")
    ∷ coded (codes "M2_SCRIPT")
    ∷ coded (codes "M3_PROCESS")
    ∷ coded (codes "M3_NETWORK")
    ∷ []

abbrev mixed_diagnostic : DependencyPolicyDiagnostic
mixed_diagnostic = record (installed_diagnostic (codes "lib")) {
  dynamic_finding_codes = codes "M3_NETWORK" ∷ codes "M3_PROCESS" ∷ [];
}

diagnosed_sample :
    new_dependency_policy_diagnostic (sample_locked primary (codes "lib")) m3_allowed mixed_findings
    ≡ ok mixed_diagnostic
unfolding new_dependency_policy_diagnostic dynamic_codes cut_prefix
diagnosed_sample = refl

new_dependency_policy_diagnostic-codes_example :
    Distinct mixed_diagnostic.dynamic_finding_codes
    × ((k : Text)
        → contains k mixed_diagnostic.dynamic_finding_codes
          ≡ (contains k (finding_codes mixed_findings) && is_dynamic k))
new_dependency_policy_diagnostic-codes_example =
    new_dependency_policy_diagnostic-codes (sample_locked primary (codes "lib")) m3_allowed
      mixed_findings mixed_diagnostic diagnosed_sample
