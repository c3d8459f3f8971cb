-- ===== src/Tests/Data.antt =====
-- A small npm install: a library and the package that it depends on, and one inspection of each.
use heliopause.Application.Inspect.{InspectPorts, no_error}
use heliopause.Base.{List, [], false, none, ok, true, ◌∷◌}
use heliopause.Domain.Artifact.{
  AcquiredArtifact, ArtifactReference, ContentDigest, ResolvedArtifact, ResolvedArtifactIdentity,
  SourceId,
}
use heliopause.Domain.Check.{
  CheckExecution, CheckKind, ExecutionStatus, inspection, supported, verification,
}
use heliopause.Domain.Evidence.{Evidence, EvidenceReference}
use heliopause.Domain.Graph.{
  DependencyEdge, DependencyNodeId, DependencyRole, LockedDependency, LockedDependencyGraph,
  primary, transitive,
}
use heliopause.Domain.Identifier.{OperationId, RunId}
use heliopause.Domain.Inspected.{DependencyInspection, InspectedDependencySet}
use heliopause.Domain.Operation.{OperationResult, OperationStatus, PolicyInput}
use heliopause.Domain.Report.{InspectionReport, VerificationReport, verified}
use heliopause.Domain.Run.{
  Decision, InspectionRun, PolicyDecision, RunOutcome, created, zero_decision,
}
use heliopause.Text.{Text, codes}

abbrev pub sample_source : SourceId
sample_source = record { value = codes "npm" }

abbrev pub sample_digest : ContentDigest
sample_digest = record {
  value = codes "6b86b273ff34fce19d6b804eff5a3f5747ada4eaa22f1d49c01e52ddb7875b4b";
}

abbrev pub sample_identity : Text → ResolvedArtifactIdentity
sample_identity name = record {
  source = sample_source;
  name = name;
  version = codes "1.0.0";
  variant = codes "tgz";
}

abbrev pub sample_artifact : Text → AcquiredArtifact
sample_artifact name = record {
  identity = sample_identity name;
  digest = sample_digest;
  handle = codes "handle";
  size = 512;
  declared_integrity = codes "sha512-x";
  observed_integrity = [];
}

abbrev pub sample_resolved : Text → ResolvedArtifact
sample_resolved name = record {
  identity = sample_identity name;
  acquisition_locator = codes "https://registry.npmjs.org/x.tgz";
  declared_integrity = codes "sha512-x";
}

abbrev pub sample_reference : ArtifactReference
sample_reference = record { source = sample_source; locator = codes "npm:lib@1.0.0" }

abbrev pub sample_check : CheckKind → CheckExecution
sample_check kind = record {
  id = record { value = codes "integrity" };
  kind = kind;
  required = true;
  capability = supported;
  status = ExecutionStatus.completed;
  limitation = [];
}

abbrev pub sample_evidence : Text → Evidence
sample_evidence id = record {
  id = record { value = id };
  check_id = record { value = codes "integrity" };
  identity = sample_identity (codes "lib");
  digest = sample_digest;
  kind = codes "integrity";
  summary = codes "matches";
}

abbrev pub sample_evidence_reference : Text → EvidenceReference
sample_evidence_reference id = record { id = record { value = id }; handle = codes "evidence" }

abbrev pub sample_verification : VerificationReport
sample_verification = record {
  execution = sample_check verification;
  outcome = verified;
  findings = [];
  evidence = sample_evidence (codes "one") ∷ [];
}

abbrev pub sample_inspection : InspectionReport
sample_inspection = record {
  execution = sample_check inspection;
  executions = sample_check inspection ∷ [];
  findings = [];
  evidence = sample_evidence (codes "two") ∷ [];
  diagnostics = [];
}

abbrev pub sample_references : List EvidenceReference
sample_references =
    sample_evidence_reference (codes "two") ∷ sample_evidence_reference (codes "one") ∷ []

abbrev pub sample_run_id : RunId
sample_run_id = record { value = codes "run_1" }

abbrev pub sample_operation_id : OperationId
sample_operation_id = record { value = codes "op_1" }

abbrev pub sample_input : PolicyInput
sample_input = record {
  run_id = sample_run_id;
  artifact = sample_artifact (codes "lib");
  verification = sample_verification;
  inspection = sample_inspection;
  evidence = sample_references;
}

abbrev pub allowing : Text → Text → PolicyDecision
allowing policy reason = record {
  decision = Decision.allow;
  policy_id = policy;
  version = 1;
  reasons = reason ∷ [];
}

abbrev pub m3_allowed : PolicyDecision
m3_allowed = allowing (codes "m3-npm-dynamic-inspect") (codes "M3_REQUIRED_CHECKS_COMPLETED")

abbrev pub m4_allowed : PolicyDecision
m4_allowed = allowing (codes "m4-npm-install-promotion") (codes "M4_VERIFIED_SET_COMPLETED")

abbrev pub sample_node : Text → DependencyNodeId
sample_node name = record { value = name }

abbrev pub sample_locked : DependencyRole → Text → LockedDependency
sample_locked role name = record {
  node = sample_node name;
  role = role;
  artifact = sample_resolved name;
  record_path = name;
  host_install_action = false;
}

abbrev pub sample_nodes : List LockedDependency
sample_nodes = sample_locked primary (codes "lib") ∷ sample_locked transitive (codes "dep") ∷ []

abbrev pub sample_edges : List DependencyEdge
sample_edges = record { from = sample_node (codes "lib"); to = sample_node (codes "dep") } ∷ []

-- The nodes in the order of their identifiers.
abbrev pub sample_graph : LockedDependencyGraph
sample_graph = record {
  primary = sample_node (codes "lib");
  nodes = sample_locked transitive (codes "dep") ∷ sample_locked primary (codes "lib") ∷ [];
  edges = sample_edges;
  derivations = [];
}

abbrev pub sample_inspected : Text → DependencyInspection
sample_inspected name = record {
  node = sample_node name;
  run_id = sample_run_id;
  artifact = sample_artifact name;
  checks = sample_check verification ∷ sample_check inspection ∷ [];
  evidence = sample_references;
  decision = m3_allowed;
}

abbrev pub sample_set : InspectedDependencySet
sample_set = record {
  graph = sample_graph;
  inspections = sample_inspected (codes "dep") ∷ sample_inspected (codes "lib") ∷ [];
}

abbrev pub sample_ports : InspectPorts
sample_ports = record {
  new_operation_id = ok sample_operation_id;
  new_run_id = ok sample_run_id;
  resolve = λ r. ok (sample_resolved (codes "lib"));
  acquire = λ id r. ok (sample_artifact (codes "lib"));
  verify = λ a. ok sample_verification;
  inspect = λ a. ok sample_inspection;
  record_evidence = λ id es. ok sample_references;
  evaluate = λ input. ok m3_allowed;
}

abbrev pub sample_run : InspectionRun
sample_run = record {
  id = sample_run_id;
  operation_id = sample_operation_id;
  reference = sample_reference;
  identity = sample_identity (codes "lib");
  lifecycle = created;
  artifact = none;
  outcome = RunOutcome.unset;
  decision = zero_decision;
  failure_code = [];
}

abbrev pub sample_result : OperationResult
sample_result = record {
  operation_id = sample_operation_id;
  status = OperationStatus.completed;
  reference = sample_reference;
  resolved_identity = sample_identity (codes "lib");
  digest = sample_digest;
  run_id = sample_run_id;
  run_outcome = RunOutcome.completed;
  checks = [];
  evidence = sample_references;
  decision = m3_allowed;
  operational_error = no_error;
}
