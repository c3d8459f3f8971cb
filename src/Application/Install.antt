-- ===== src/Application/Install.antt =====
-- internal/application/install_inspect.go, install_promote.go: the inspection of an install, and the
-- install, whose order of calls this file decides. A nil or cancelled context is left out.
pub mod Inspected
pub mod Phases
pub mod Gate
pub mod Promotes
use heliopause.Application.Diagnostic.{
  InspectedInstall, InstallRequest, new_inspected_install, new_partial_inspected_install,
}
use heliopause.Application.GraphInspect.{inspect_graph_aware}
use heliopause.Application.SetInspect.{decide_set, derive_dependencies, inspect_dependencies}
use heliopause.Application.Workflow.{
  GraphReport, History, InstallPorts, Workflow, World, after, ask, builds, generates_operation,
  promotes, pure, resolves, stages, try,
}
use heliopause.Base.{
  List, Option, Result, String, [], err, if◌then◌else◌, is_empty, map, none, not, ok, reject, some,
  ◌>>=◌, ◌||◌,
}
use heliopause.Domain.Artifact.{AcquiredArtifact}
use heliopause.Domain.Graph.{LockedDependencyGraph}
use heliopause.Domain.Identifier.{OperationId}
use heliopause.Domain.Inspected.{DependencyResolution}
use heliopause.Domain.Install.{is_valid_context}
use heliopause.Domain.Report.{verified}
use heliopause.Domain.Run.{is_allow}
use heliopause.Domain.Verified.{
  PromotedInstall, StagedSet, VerifiedBundle, VerifiedSet, new_verified_set,
}
use heliopause.Text.{Text, codes}

-- What `Inspect` returns: no install stands for the zero value.
pub record InspectOutcome : Type 0 where
  pub install : Option InspectedInstall
  pub error : Option String

abbrev pub concluded : InspectedInstall → Result InspectedInstall → InspectOutcome
concluded partial_ (ok install) = record { install = some install; error = none }
concluded partial_ (err e) = record { install = some partial_; error = some e }

-- `Inspect` from the loop over the nodes on.
unfoldable pub inspect_nodes :
    InstallPorts
    → OperationId
    → InstallRequest
    → DependencyResolution
    → Workflow (Result InspectedInstall)
inspect_nodes p operation_id request resolution =
    try (inspect_dependencies p operation_id resolution.graph.nodes) (λ e. pure (err e))
      λ entries.
        try (derive_dependencies p operation_id resolution.graph (map (λ e. e.inspection) entries))
          (λ e. pure (err e))
          λ g. pure (
            decide_set p g >>= λ decided.
            ok
              (record (new_inspected_install operation_id request resolution decided.set
                decided.decision) { policy_diagnostics = map (λ e. e.diagnostic) entries }))

-- The whole graph at once, where the inspection can and there is an edge.
unfoldable pub inspect_resolution :
    InstallPorts
    → Option (History → LockedDependencyGraph → List AcquiredArtifact → Result (List GraphReport))
    → OperationId
    → InstallRequest
    → DependencyResolution
    → Workflow (Result InspectedInstall)
inspect_resolution p none operation_id request resolution =
    inspect_nodes p operation_id request resolution
inspect_resolution p (some inspector) operation_id request resolution =
    if is_empty resolution.graph.edges
    then inspect_nodes p operation_id request resolution
    else inspect_graph_aware p inspector operation_id request resolution

-- `Inspect`
unfoldable pub inspect_install : InstallPorts → InstallRequest → Workflow InspectOutcome
inspect_install p request =
    try
      (pure (
        reject (is_empty request.reference.source.value || not (is_valid_context request.context))
          "validated Install request is required"))
      (λ e. pure (record { install = none; error = some e }))
      λ valid.
        try (ask generates_operation p.new_operation_id)
          (λ e. pure (record { install = none; error = some e }))
          λ operation_id.
            try
              (ask (resolves request.reference request.context)
                (λ h. p.resolve_dependencies h request.reference request.context))
              (λ e. pure (record {
                install = some (new_partial_inspected_install operation_id request none);
                error = some e;
              }))
              λ resolution.
                after (inspect_resolution p p.inspect_graph operation_id request resolution)
                  λ inspected. pure (
                    concluded (new_partial_inspected_install operation_id request (some resolution))
                      inspected)

-- `InstallOutcome`: an `Option` that is `none` is the zero value.
pub record InstallOutcome : Type 0 where
  pub inspection : Option InspectedInstall
  pub bundle : Option VerifiedBundle
  pub staged : Option StagedSet
  pub promoted : Option PromotedInstall
  pub failure_code : Text

pub record InstallResult : Type 0 where
  pub outcome : InstallOutcome
  pub error : Option String

-- The outcome of an inspection alone.
abbrev pub inspected_outcome : Option InspectedInstall → InstallOutcome
inspected_outcome i = record {
  inspection = i;
  bundle = none;
  staged = none;
  promoted = none;
  failure_code = [];
}

abbrev pub fail_install : InstallOutcome → Text → String → Workflow InstallResult
fail_install outcome why e =
    pure (record { outcome = record outcome { failure_code = why }; error = some e })

-- `NewVerifiedSet` on the set of an install, which it refuses if that is the zero value.
abbrev pub verified_of : InspectedInstall → Result VerifiedSet
verified_of i = elim i.set [
  | none ↦ err "verified set requires a complete inspected set and set-level ALLOW"
  | some set ↦ new_verified_set set i.decision
]

-- `Install` from the verified set on.
unfoldable pub hand_on : InstallPorts → InstallRequest → InspectedInstall → Workflow InstallResult
hand_on p request inspected =
    let outcome = inspected_outcome (some inspected) in
    let operation_id = inspected.operation_id in
    let resolution = inspected.resolution in
    try (pure (verified_of inspected)) (fail_install outcome (codes "VERIFIED_SET_INVALID"))
      λ verified.
        try
          (ask (builds operation_id request.context resolution verified)
            (λ h. p.build_manifest h operation_id request.context resolution verified))
          (fail_install outcome (codes "MANIFEST_GENERATION_FAILED"))
          λ bundle.
            let built = record outcome { bundle = some bundle } in
            try (ask (stages bundle) (λ h. p.stage h bundle))
              (fail_install built (codes "STAGING_FAILED"))
              λ staged.
                let kept = record built { staged = some staged } in
                try
                  (ask (promotes staged bundle request.context)
                    (λ h. p.promote h staged bundle request.context))
                  (fail_install kept (codes "PROMOTION_FAILED"))
                  λ promoted.
                    pure
                      (record { outcome = record kept { promoted = some promoted }; error = none })

-- `Install` after the inspection.
unfoldable pub install_inspected :
    InstallPorts → InstallRequest → Option InspectedInstall → Option String → Workflow InstallResult
install_inspected p request i (some e) =
    fail_install (inspected_outcome i) (codes "INSTALL_INSPECTION_FAILED") e
install_inspected p request none none =
    pure (record { outcome = inspected_outcome none; error = none })
install_inspected p request (some i) none =
    if is_allow i.decision.decision
    then hand_on p request i
    else pure (record { outcome = inspected_outcome (some i); error = none })

-- `Install`
unfoldable pub install : InstallPorts → InstallRequest → Workflow InstallResult
install p request =
    after (inspect_install p request) λ o. install_inspected p request o.install o.error

abbrev pub first_world : World
first_world = record { history = []; begun = 0; runs = [] }
