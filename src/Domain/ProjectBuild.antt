-- ===== src/Domain/ProjectBuild.antt =====
-- internal/core/domain/project_build.go: the inputs, the observation, the report and the approval of a
-- guarded build. The zero value of an artifact or a binding is one with empty texts.
pub mod Approved
use heliopause.Base.{
  Bool, List, Result, [], all, any, contains, err, false, if◌then◌else◌, is_empty, leb, length,
  list_eq, nat_eq, not, ok, or_error, reject, true, ℕ, ◌&&◌, ◌++◌, ◌==◌, ◌>>=◌, ◌>>◌, ◌||◌, ◌∷◌,
}
use heliopause.Domain.Artifact.{
  AcquiredArtifact, ContentDigest, content_digest_eq, identity_eq, source_id_eq, text_is_bounded,
}
use heliopause.Domain.Graph.{DerivationBinding}
use heliopause.Domain.Identifier.{RunId, parse_run_id}
use heliopause.Domain.Report.{InspectionReport}
use heliopause.Domain.Sandbox.{SandboxResult, SandboxStatus}
use heliopause.Domain.Snapshot.{ProjectDependencySnapshot, is_valid_snapshot}
use heliopause.Text.{Text, codes, has_prefix}

-- `strings.TrimSuffix`, of a suffix that is not empty.
unfoldable pub trim_suffix : Text → Text → Text
trim_suffix suffix [] = []
trim_suffix suffix (c ∷ s) =
    let rest = trim_suffix suffix s in if c ∷ s == suffix then [] else c ∷ rest

-- `strings.Split`, at one byte.
unfoldable pub split_on : ℕ → Text → List Text
split_on separator [] = [] ∷ []
split_on separator (c ∷ s) = elim (split_on separator s) [
  | [] ↦ (c ∷ []) ∷ []
  | part ∷ parts ↦ if c == separator then [] ∷ part ∷ parts else (c ∷ part) ∷ parts
]

pub record ProjectBuildInputs : Type 0 where
  pub snapshot : ProjectDependencySnapshot
  pub source : AcquiredArtifact
  pub cache : AcquiredArtifact
  pub run_id : RunId
  pub selector : Text

-- `validProjectBuildKind`; a rune beyond ASCII has bytes above `z`.
unfoldable pub valid_project_build_kind : Text → Bool
valid_project_build_kind kind =
    not (is_empty kind) && leb (length kind) 64 && all (λ c. leb b'a' c && leb c b'z') kind

-- `Kind`
abbrev pub build_kind : AcquiredArtifact → Text
build_kind source = trim_suffix (codes "-source") source.identity.variant

abbrev pub project_local : Text
project_local = codes "project-local"

-- The parts of a handle.
unfoldable pub check_transport_handle : Text → List Text → Result (Unit {0})
check_transport_handle variant (scheme ∷ run ∷ last ∷ []) =
    reject (not (scheme == codes "intake") || not (last == variant))
      "project build transport binding is invalid"
    >> (or_error (parse_run_id run) "project build transport handle is invalid" >>= λ _. ok tt)
check_transport_handle variant _ = err "project build transport binding is invalid"

abbrev pub is_bound : AcquiredArtifact → Bool
is_bound a =
    not (is_empty a.digest.value)
    && not (a.size == 0)
    && not (is_empty a.declared_integrity)
    && a.declared_integrity == codes "sha256:" ++ a.digest.value

-- The body of the loop over the two artifacts.
unfoldable pub check_transport : AcquiredArtifact → Result (Unit {0})
check_transport a =
    reject (not (is_bound a)) "project build transport binding is invalid"
    >> check_transport_handle a.identity.variant (split_on b':' a.handle)

abbrev pub is_selector_char : ℕ → Bool
is_selector_char c = not (c == 0x5C || c == b':' || c == b'@')

unfoldable pub check_selector : Text → Result (Unit {0})
check_selector selector = do
  reject
      (not (text_is_bounded selector 256)
        || has_prefix selector (codes "-")
        || has_prefix selector (codes "/")
        || not (all is_selector_char selector))
      "project build package selector is invalid"
  reject (any (λ part. is_empty part || part == codes "..") (split_on b'/' selector))
      "project build package selector is invalid"

unfoldable pub new_project_build_inputs :
    ProjectDependencySnapshot
    → AcquiredArtifact
    → AcquiredArtifact
    → RunId
    → Text
    → Result ProjectBuildInputs
new_project_build_inputs snapshot source cache run_id selector = do
  let kind = build_kind source
  reject
      (not (is_valid_snapshot snapshot)
        || not (valid_project_build_kind kind)
        || not (source.identity.variant == kind ++ codes "-source")
        || is_empty run_id.value
        || not (source.identity.source.value == project_local)
        || not (cache.identity.source.value == project_local)
        || not (cache.identity.variant == kind ++ codes "-cache")
        || not (cache.identity.version == snapshot.graph_digest.value))
      "project build inputs are invalid"
  check_transport source
  check_transport cache
  check_selector selector
  ok (record {
    snapshot = snapshot;
    source = source;
    cache = cache;
    run_id = run_id;
    selector = selector;
  })

-- `Valid`
unfoldable pub is_valid_build_inputs : ProjectBuildInputs → Bool
is_valid_build_inputs i =
    is_valid_snapshot i.snapshot
    && not (is_empty i.run_id.value)
    && not (is_empty i.source.digest.value)
    && not (is_empty i.cache.digest.value)
    && not (is_empty i.selector)

-- The keys of the map of input digests.
unfoldable pub distinct_inputs : List ContentDigest → List ContentDigest → List ContentDigest
distinct_inputs seen [] = seen
distinct_inputs seen (d ∷ digests) =
    distinct_inputs (if contains d seen then seen else d ∷ seen) digests

-- `validProjectBuildOutput`
unfoldable pub valid_project_build_output :
    ProjectBuildInputs → AcquiredArtifact → DerivationBinding → Bool
valid_project_build_output inputs output binding =
    let kind = build_kind inputs.source in
    let seen = distinct_inputs [] binding.input_digests in
    output.identity.source == inputs.source.identity.source
    && output.identity.name == inputs.source.identity.name
    && output.identity.variant == kind ++ codes "-output"
    && output.identity.version == inputs.run_id.value
    && is_bound output
    && output.handle
      == codes "intake:" ++ (inputs.run_id.value ++ (b':' ∷ (kind ++ codes "-output")))
    && binding.source_digest == inputs.source.digest
    && binding.executor == kind ++ codes "-build-linux-amd64"
    && not (is_empty binding.config_digest.value)
    && length seen == 2
    && contains inputs.cache.digest seen
    && contains inputs.snapshot.graph_digest seen

pub record ProjectBuildObservation : Type 0 where
  pub inputs : ProjectBuildInputs
  pub result : SandboxResult
  pub output : AcquiredArtifact
  pub binding : DerivationBinding

abbrev pub is_completed_sandbox : SandboxStatus → Bool
is_completed_sandbox SandboxStatus.completed = true
is_completed_sandbox _ = false

unfoldable pub new_project_build_observation :
    ProjectBuildInputs
    → SandboxResult
    → AcquiredArtifact
    → DerivationBinding
    → Result ProjectBuildObservation
new_project_build_observation inputs result output binding = do
  reject (not (is_valid_build_inputs inputs) || is_empty result.session_id.value)
      "project build observation is invalid"
  let retains = not (is_empty output.digest.value) || not (is_empty binding.source_digest.value)
  reject (not (is_completed_sandbox result.status) && retains)
      "incomplete project build cannot retain output"
  reject
      (is_completed_sandbox result.status && not (valid_project_build_output inputs output binding))
      "completed project build output binding is invalid"
  ok (record { inputs = inputs; result = result; output = output; binding = binding })

pub record ProjectBuildReport : Type 0 where
  pub inputs : ProjectBuildInputs
  pub output : AcquiredArtifact
  pub binding : DerivationBinding
  pub inspection : InspectionReport

unfoldable pub new_project_build_report :
    ProjectBuildObservation → InspectionReport → Result ProjectBuildReport
new_project_build_report o report = do
  reject
      (not (is_valid_build_inputs o.inputs)
        || not (is_completed_sandbox o.result.status)
        || not (valid_project_build_output o.inputs o.output o.binding)
        || not (length report.executions == 1)
        || not (report.execution.id.value == codes "project-build-observation")
        || not report.execution.required)
      "project build report is invalid"
  reject
      (any
        (λ e.
          not (e.identity == o.inputs.source.identity) || not (e.digest == o.inputs.source.digest))
        report.evidence)
      "project build evidence subject differs"
  ok (record { inputs = o.inputs; output = o.output; binding = o.binding; inspection = report })

-- `BuildBindingSummary`
unfoldable pub build_binding_summary :
    ProjectBuildInputs → AcquiredArtifact → DerivationBinding → Text
build_binding_summary inputs output binding =
    codes "graph_sha256="
    ++ (inputs.snapshot.graph_digest.value
        ++ (codes " cache_sha256="
            ++ (inputs.cache.digest.value
                ++ (codes " output_sha256="
                    ++ (output.digest.value
                        ++ (codes " recipe_sha256=" ++ binding.config_digest.value))))))
