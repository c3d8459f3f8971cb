-- ===== src/Application/Diagnostic.antt =====
-- internal/application/install.go: the request and the result of an install inspection, and its bounded
-- diagnostics, with the limitation codes of install_inspect.go that they are read from.
pub mod Codes
use heliopause.Base.{
  Bool, List, Option, Result, [], contains, if◌then◌else◌, is_empty, list_eq, nat_eq, none, not, ok,
  reject, some, ◌&&◌, ◌++◌, ◌>>◌, ◌||◌, ◌∷◌,
}
use heliopause.Domain.Artifact.{ArtifactReference, SourceId}
use heliopause.Domain.Check.{
  InspectionDiagnostic, InspectionDiagnosticCause, InspectionDiagnosticStage,
  new_inspection_diagnostic,
}
use heliopause.Domain.Evidence.{Finding}
use heliopause.Domain.Graph.{DependencyNodeId, LockedDependency}
use heliopause.Domain.Identifier.{OperationId}
use heliopause.Domain.Inspected.{DependencyResolution, InspectedDependencySet}
use heliopause.Domain.Install.{InstallContext, is_valid_context}
use heliopause.Domain.Run.{Decision, PolicyDecision, zero_decision}
use heliopause.Text.{Text, codes, cut_prefix, has_prefix}

pub record InstallRequest : Type 0 where
  pub reference : ArtifactReference
  pub context : InstallContext

unfoldable pub new_install_request : ArtifactReference → InstallContext → Result InstallRequest
new_install_request reference context = do
  reject (is_empty reference.source.value || not (is_valid_context context))
      "install request requires Artifact Reference and supported Install Context"
  ok (record { reference = reference; context = context })

pub record DependencyPolicyDiagnostic : Type 0 where
  pub node : DependencyNodeId
  pub package_name : Text
  pub version : Text
  pub source : SourceId
  pub decision : Decision
  pub reasons : List Text
  pub dynamic_finding_codes : List Text

-- The loop over the findings: each code of the third policy once, in the order of its first finding.
unfoldable pub dynamic_codes : List Text → List Finding → List Text
dynamic_codes seen [] = []
dynamic_codes seen (f ∷ findings) =
    let kept = f.code ∷ dynamic_codes (f.code ∷ seen) findings in
    let rest = dynamic_codes seen findings in
    if has_prefix f.code (codes "M3_") && not (contains f.code seen) then kept else rest

unfoldable pub new_dependency_policy_diagnostic :
    LockedDependency → PolicyDecision → List Finding → Result DependencyPolicyDiagnostic
new_dependency_policy_diagnostic dependency decision findings = do
  reject
      (is_empty dependency.node.value
        || is_empty dependency.artifact.identity.name
        || is_empty dependency.artifact.identity.version
        || is_empty dependency.artifact.identity.source.value
        || is_empty decision.policy_id
        || is_empty decision.reasons)
      "dependency policy diagnostic is invalid"
  ok (record {
    node = dependency.node;
    package_name = dependency.artifact.identity.name;
    version = dependency.artifact.identity.version;
    source = dependency.artifact.identity.source;
    decision = decision.decision;
    reasons = decision.reasons;
    dynamic_finding_codes = dynamic_codes [] findings;
  })

pub record GraphStaticDiagnostic : Type 0 where
  pub node : DependencyNodeId
  pub package_name : Text
  pub version : Text
  pub source : SourceId
  pub variant : Text
  pub cause : InspectionDiagnosticCause
  pub stage : InspectionDiagnosticStage

-- The parts of an identity that both graph diagnostics need.
abbrev pub lacks_identity : LockedDependency → Bool
lacks_identity d =
    is_empty d.node.value
    || is_empty d.artifact.identity.name
    || is_empty d.artifact.identity.version
    || is_empty d.artifact.identity.source.value
    || is_empty d.artifact.identity.variant

unfoldable pub new_graph_static_diagnostic :
    LockedDependency → InspectionDiagnostic → Result GraphStaticDiagnostic
new_graph_static_diagnostic dependency diagnostic = do
  reject (lacks_identity dependency) "graph static diagnostic identity is invalid"
  new_inspection_diagnostic diagnostic.cause diagnostic.stage
  ok (record {
    node = dependency.node;
    package_name = dependency.artifact.identity.name;
    version = dependency.artifact.identity.version;
    source = dependency.artifact.identity.source;
    variant = dependency.artifact.identity.variant;
    cause = diagnostic.cause;
    stage = diagnostic.stage;
  })

-- `dynamicReason…`: what failed, for the reader of a diagnostic; the constants are their names.
pub data DynamicReason : Type 0 where
  install_failed import_failed observer_failed : DynamicReason

pub record DynamicFailure : Type 0 where
  pub reason : DynamicReason
  pub phase : Text
  pub failure_class : Text

abbrev pub observer_phases : List Text
observer_phases = codes "START" ∷ codes "FINALIZE" ∷ codes "COLLECT" ∷ codes "NEXT_SESSION" ∷ []

-- The loop over the phases of the observer.
unfoldable pub observer_failure : Text → List Text → Option DynamicFailure
observer_failure remaining [] = none
observer_failure remaining (phase ∷ phases) = elim (cut_prefix remaining (phase ++ b'_' ∷ [])) [
  | some rest ↦ some (record { reason = observer_failed; phase = phase; failure_class = rest })
  | none ↦ observer_failure remaining phases
]

unfoldable pub dynamic_failure_parts : Text → Option DynamicFailure
dynamic_failure_parts limitation =
    elim (cut_prefix limitation (codes "M5_PYPI_DYNAMIC_INSTALL_FAILED_")) [
      | some rest ↦ some (record { reason = install_failed; phase = []; failure_class = rest })
      | none ↦ elim (cut_prefix limitation (codes "M5_PYPI_DYNAMIC_IMPORT_FAILED_")) [
        | some rest ↦ some (record { reason = import_failed; phase = []; failure_class = rest })
        | none ↦ elim (cut_prefix limitation (codes "M5_PYPI_DYNAMIC_OBSERVER_FAILED_")) [
          | some rest ↦ observer_failure rest observer_phases
          | none ↦ none
        ]
      ]
    ]

abbrev pub install_failure_classes : List Text
install_failure_classes =
    codes "PIP_ARGUMENT_ERROR"
    ∷ codes "WHEEL_PLATFORM_REJECTED"
    ∷ codes "WHEEL_METADATA_REJECTED"
    ∷ codes "PACKAGE_CONFLICT"
    ∷ codes "DUPLICATE_DISTRIBUTION"
    ∷ codes "ENOSPC"
    ∷ codes "MEMORY_LIMIT"
    ∷ codes "TIMEOUT"
    ∷ codes "PERMISSION"
    ∷ codes "SANDBOX_RUNTIME"
    ∷ codes "OTHER"
    ∷ []

abbrev pub import_failure_classes : List Text
import_failure_classes =
    codes "MISSING_SHARED_LIBRARY"
    ∷ codes "DLOPEN_PERMISSION"
    ∷ codes "ELF_LOADER"
    ∷ codes "SYMBOL_VERSION"
    ∷ codes "PYTHON_ABI"
    ∷ codes "IMPORT_EXCEPTION"
    ∷ codes "MEMORY_LIMIT"
    ∷ codes "CPU_LIMIT"
    ∷ codes "PID_LIMIT"
    ∷ codes "TIMEOUT"
    ∷ codes "SANDBOX_RUNTIME"
    ∷ codes "OTHER"
    ∷ []

abbrev pub observer_failure_classes : List Text
observer_failure_classes =
    codes "PREVIOUS_TRACE_NOT_FINALIZED"
    ∷ codes "HELPER_UNAVAILABLE"
    ∷ codes "HELPER_CRASHED"
    ∷ codes "EVENT_LIMIT"
    ∷ codes "BYTE_LIMIT"
    ∷ codes "SESSION_LIMIT"
    ∷ codes "TRACE_COLLECTION_FAILED"
    ∷ codes "CLEANUP_ORDERING"
    ∷ codes "LIFECYCLE_ERROR"
    ∷ codes "OTHER"
    ∷ []

unfoldable pub valid_dynamic_failure : DynamicFailure → Bool
valid_dynamic_failure f = elim f.reason [
  | install_failed ↦ is_empty f.phase && contains f.failure_class install_failure_classes
  | import_failed ↦ is_empty f.phase && contains f.failure_class import_failure_classes
  | observer_failed ↦
      contains f.phase observer_phases && contains f.failure_class observer_failure_classes
]

pub record GraphDynamicInstallDiagnostic : Type 0 where
  pub node : DependencyNodeId
  pub package_name : Text
  pub version : Text
  pub source : SourceId
  pub variant : Text
  pub failure : DynamicFailure

unfoldable pub new_graph_dynamic_install_diagnostic :
    LockedDependency → DynamicFailure → Result GraphDynamicInstallDiagnostic
new_graph_dynamic_install_diagnostic dependency failure = do
  reject (lacks_identity dependency || not (valid_dynamic_failure failure))
      "graph dynamic install diagnostic is invalid"
  ok (record {
    node = dependency.node;
    package_name = dependency.artifact.identity.name;
    version = dependency.artifact.identity.version;
    source = dependency.artifact.identity.source;
    variant = dependency.artifact.identity.variant;
    failure = failure;
  })

pub record InspectedInstall : Type 0 where
  pub operation_id : OperationId
  pub request : InstallRequest
  pub resolution : Option DependencyResolution
  pub set : Option InspectedDependencySet
  pub decision : PolicyDecision
  pub diagnostics : List GraphStaticDiagnostic
  pub dynamic_diagnostics : List GraphDynamicInstallDiagnostic
  pub policy_diagnostics : List DependencyPolicyDiagnostic

-- `newPartialInspectedInstall`: an `Option` that is `none` is the zero value.
unfoldable pub new_partial_inspected_install :
    OperationId → InstallRequest → Option DependencyResolution → InspectedInstall
new_partial_inspected_install operation_id request resolution = record {
  operation_id = operation_id;
  request = request;
  resolution = resolution;
  set = none;
  decision = zero_decision;
  diagnostics = [];
  dynamic_diagnostics = [];
  policy_diagnostics = [];
}

unfoldable pub new_inspected_install :
    OperationId
    → InstallRequest
    → DependencyResolution
    → InspectedDependencySet
    → PolicyDecision
    → InspectedInstall
new_inspected_install operation_id request resolution set decision = record {
  operation_id = operation_id;
  request = request;
  resolution = some resolution;
  set = some set;
  decision = decision;
  diagnostics = [];
  dynamic_diagnostics = [];
  policy_diagnostics = [];
}
