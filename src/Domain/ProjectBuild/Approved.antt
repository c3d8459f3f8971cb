-- ===== src/Domain/ProjectBuild/Approved.antt =====
-- internal/core/domain/project_build.go: the approval and the publication of a build.
use heliopause.Base.{
  ==→≡, >>=-eq-ok, All, Bool, List, Result, [], arith, false, is_empty, is_ok, length, list_eq,
  nat_eq, not, ok, refl, reject, reject-eq-ok, subst, sym, true, ◌&&◌, ◌++◌, ◌==◌, ◌>>=◌, ◌>>◌,
  ◌||◌, ◌∷◌, ◌≡◌,
}
use heliopause.Domain.Artifact.{AcquiredArtifact, content_digest_eq, identity_eq}
use heliopause.Domain.Check.{
  Capability, CheckExecution, CheckKind, ExecutionStatus, is_completed, is_supported,
}
use heliopause.Domain.Evidence.{check_id_eq}
use heliopause.Domain.Graph.{DerivationBinding}
use heliopause.Domain.Identifier.{run_id_eq}
use heliopause.Domain.Operation.{OperationResult, is_completed_status, new_policy_input}
use heliopause.Domain.Operation.Input.{IsReferenced, new_policy_input-covers}
use heliopause.Domain.ProjectBuild.{
  ProjectBuildInputs, ProjectBuildReport, is_valid_build_inputs, valid_project_build_output,
}
use heliopause.Domain.Report.{VerificationReport, is_verified}
use heliopause.Domain.Run.{is_allow, is_completed_outcome}
use heliopause.Text.{Text, codes}

pub record ApprovedProjectBuild : Type 0 where
  pub report : ProjectBuildReport
  pub verification : VerificationReport
  pub result : OperationResult

-- A constant by a number, and a further string by its text.
abbrev kind_key : CheckKind → Text
kind_key CheckKind.verification = 1 ∷ []
kind_key CheckKind.inspection = 2 ∷ []
kind_key (CheckKind.other s) = 0 ∷ s

abbrev capability_key : Capability → Text
capability_key Capability.supported = 1 ∷ []
capability_key Capability.unsupported = 2 ∷ []
capability_key (Capability.other s) = 0 ∷ s

abbrev status_key : ExecutionStatus → Text
status_key ExecutionStatus.completed = 1 ∷ []
status_key ExecutionStatus.failed = 2 ∷ []
status_key ExecutionStatus.incomplete = 3 ∷ []
status_key ExecutionStatus.not_executed = 4 ∷ []
status_key ExecutionStatus.unavailable = 5 ∷ []
status_key (ExecutionStatus.other s) = 0 ∷ s

abbrev same_flag : Bool → Bool → Bool
same_flag true b = b
same_flag false b = not b

-- `==` on checks.
abbrev pub same_check : CheckExecution → CheckExecution → Bool
same_check c d =
    c.id == d.id
    && kind_key c.kind == kind_key d.kind
    && same_flag c.required d.required
    && capability_key c.capability == capability_key d.capability
    && status_key c.status == status_key d.status
    && c.limitation == d.limitation

abbrev pub is_closed_check : CheckExecution → Bool
is_closed_check c = c.required && is_supported c.capability && is_completed c.status

-- The loop over the checks, of which there are as many on both sides.
unfoldable pub match_checks : List CheckExecution → List CheckExecution → Result (Unit {0})
match_checks [] actual = ok tt
match_checks (c ∷ checks) [] = ok tt
match_checks (c ∷ checks) (d ∷ actual) =
    reject (not (same_check c d) || not (is_closed_check c))
      "project build has incomplete or substituted checks"
    >> match_checks checks actual

-- The result is of the run and of the source of the report.
abbrev pub is_of_build : ProjectBuildReport → OperationResult → Bool
is_of_build report r =
    is_completed_status r.status
    && not (is_empty r.run_id.value)
    && r.run_id == report.inputs.run_id
    && is_completed_outcome r.run_outcome
    && not (is_empty r.resolved_identity.source.value)
    && r.resolved_identity == report.inputs.source.identity
    && not (is_empty r.digest.value)
    && r.digest == report.inputs.source.digest
    && not (is_empty r.decision.policy_id)
    && is_allow r.decision.decision

abbrev pub is_clean_build : ProjectBuildReport → VerificationReport → Bool
is_clean_build report v =
    v.execution.id.value == codes "project-build-input-binding"
    && is_verified v.outcome
    && is_empty v.findings
    && is_empty report.inspection.findings

unfoldable pub new_approved_project_build :
    ProjectBuildReport → VerificationReport → OperationResult → Result ApprovedProjectBuild
new_approved_project_build report v result = do
  reject
      (not (is_valid_build_inputs report.inputs)
        || not (valid_project_build_output report.inputs report.output report.binding)
        || not (is_of_build report result)
        || not (is_clean_build report v))
      "project build requires completed exact Run and ALLOW"
  input ←
      new_policy_input report.inputs.run_id report.inputs.source v report.inspection result.evidence
  let checks = v.execution ∷ report.inspection.executions
  reject (not (length checks == length result.checks)) "project build check coverage differs"
  match_checks checks result.checks
  ok (record { report = report; verification = v; result = result })

-- `Valid`
unfoldable pub is_valid_approved : ApprovedProjectBuild → Bool
is_valid_approved b =
    is_valid_build_inputs b.report.inputs
    && is_completed_status b.result.status
    && not (is_empty b.result.decision.policy_id)
    && is_allow b.result.decision.decision

pub record PublishedProjectBuild : Type 0 where
  pub build : ApprovedProjectBuild

unfoldable pub new_published_project_build : ApprovedProjectBuild → Result PublishedProjectBuild
new_published_project_build build = do
  reject (not (is_valid_approved build)) "published project build requires approval"
  ok (record { build = build })

-- `RelativeDirectory`
unfoldable pub relative_directory : PublishedProjectBuild → Text
relative_directory b = codes ".heliopause/builds/" ++ b.build.report.inputs.run_id.value

-- What was approved: a completed result with ALLOW of the run and the source of the report, whose output
-- is bound to them, with evidence that covers both reports and none but closed checks.
pub record IsApprovedBuild (report : ProjectBuildReport) (v : VerificationReport)
    (result : OperationResult) : Type 0 where
  pub same_run : result.run_id ≡ report.inputs.run_id
  pub same_identity : result.resolved_identity ≡ report.inputs.source.identity
  pub same_digest : result.digest ≡ report.inputs.source.digest
  pub allowed : is_allow result.decision.decision ≡ true
  pub output_run : report.output.identity.version ≡ report.inputs.run_id.value
  pub output_source : report.binding.source_digest ≡ report.inputs.source.digest
  pub no_finding : (v.findings ≡ []) × (report.inspection.findings ≡ [])
  pub referenced :
      All
        (IsReferenced report.inputs.source result.evidence)
        (v.evidence ++ report.inspection.evidence)
  pub closed_checks :
      All (λ c. is_closed_check c ≡ true) (v.execution ∷ report.inspection.executions)
  pub as_many : length result.checks ≡ length (v.execution ∷ report.inspection.executions)

match_checks-closed :
    (checks actual : List CheckExecution)
    → length checks ≡ length actual
    → match_checks checks actual ≡ ok tt
    → All (λ c. is_closed_check c ≡ true) checks
unfolding match_checks
match_checks-closed [] actual l h = tt
match_checks-closed (c ∷ checks) [] l h = absurd (omega arith)
match_checks-closed (c ∷ checks) (d ∷ actual) l h =
    (ground arith, match_checks-closed checks actual (omega (arith, l)) (ground arith))

output-bound :
    (inputs : ProjectBuildInputs) (output : AcquiredArtifact) (binding : DerivationBinding)
    → valid_project_build_output inputs output binding ≡ true
    → (output.identity.version ≡ inputs.run_id.value)
      × (binding.source_digest ≡ inputs.source.digest)
unfolding valid_project_build_output
output-bound inputs output binding h = (
  ==→≡ output.identity.version inputs.run_id.value (ground arith),
  ==→≡ binding.source_digest inputs.source.digest (ground arith),
)

is_of_build-same :
    (report : ProjectBuildReport) (r : OperationResult)
    → is_of_build report r ≡ true
    → (r.run_id ≡ report.inputs.run_id)
      × (r.resolved_identity ≡ report.inputs.source.identity)
      × (r.digest ≡ report.inputs.source.digest)
      × (is_allow r.decision.decision ≡ true)
is_of_build-same report r h = (
  ==→≡ r.run_id report.inputs.run_id (ground arith),
  ==→≡ r.resolved_identity report.inputs.source.identity (ground arith),
  ==→≡ r.digest report.inputs.source.digest (ground arith),
  ground arith,
)

is_empty-eq {ℓ} : {A : Type ℓ} (xs : List A) → is_empty xs ≡ true → xs ≡ []
is_empty-eq [] h = refl
is_empty-eq (x ∷ xs) h = cc

is_clean_build-empty :
    (report : ProjectBuildReport) (v : VerificationReport)
    → is_clean_build report v ≡ true
    → (v.findings ≡ []) × (report.inspection.findings ≡ [])
is_clean_build-empty report v h =
    (is_empty-eq v.findings (ground arith), is_empty-eq report.inspection.findings (ground arith))

four-true :
    (a b c d : Bool)
    → (not a || not b || not c || not d) ≡ false
    → (a ≡ true) × (b ≡ true) × (c ≡ true) × (d ≡ true)
four-true a b c d h = ground arith

not-false : (a : Bool) → not a ≡ false → a ≡ true
not-false a h = ground arith

ok-injective {ℓ} : {A : Type ℓ} (a b : A) → ok a ≡ ok b → a ≡ b
ok-injective a b h = ground arith

published :
    (report : ProjectBuildReport) (v : VerificationReport) (result : OperationResult)
    → is_valid_build_inputs report.inputs ≡ true
    → is_of_build report result ≡ true
    → is_ok (
        new_published_project_build (record { report = report; verification = v; result = result }))
      ≡ true
unfolding new_published_project_build is_valid_approved
published report v result i o = ground arith

-- A build that was approved keeps its report, verification and result, and can be published; the
-- result allows, and has the run, identity and digest of the report's source, to which the output
-- and the binding belong; neither report has findings, its evidence is about the source and
-- referred to by the result, and each check is required, supported and completed, with as many
-- checks in the result.
pub new_approved_project_build-IsApprovedBuild :
    (report : ProjectBuildReport) (v : VerificationReport) (result : OperationResult)
    (b : ApprovedProjectBuild)
    → new_approved_project_build report v result ≡ ok b
    → IsApprovedBuild report v result
      × (b ≡ record { report = report; verification = v; result = result })
      × is_ok (new_published_project_build b) ≡ true
unfolding new_approved_project_build
new_approved_project_build-IsApprovedBuild report v result b h =
    let (_, first, h1) = >>=-eq-ok (reject refused _) _ h in
    let (input, made, h2) =
      >>=-eq-ok
        (new_policy_input report.inputs.run_id report.inputs.source v report.inspection
          result.evidence)
        _ h1 in
    let (_, sized, h3) = >>=-eq-ok (reject (not (length checks == length result.checks)) _) _ h2 in
    let (_, closed, h4) = >>=-eq-ok (match_checks checks result.checks) _ h3 in
    let kept = ok-injective (record { report = report; verification = v; result = result }) b h4 in
    let as_many : length checks ≡ length result.checks =
      ==→≡ (length checks) (length result.checks) (not-false _ (reject-eq-ok _ _ sized)) in
    let (valid, output, of_build, clean) =
      four-true (is_valid_build_inputs report.inputs)
        (valid_project_build_output report.inputs report.output report.binding)
        (is_of_build report result) (is_clean_build report v) (reject-eq-ok refused _ first) in
    let (_, referenced, _) =
      new_policy_input-covers report.inputs.run_id report.inputs.source v report.inspection
        result.evidence input made in
    let (version, digest) = output-bound report.inputs report.output report.binding output in
    let (run, identity, same_digest, allowed) = is_of_build-same report result of_build in
    (
      record {
        same_run = run;
        same_identity = identity;
        same_digest = same_digest;
        allowed = allowed;
        output_run = version;
        output_source = digest;
        no_finding = is_clean_build-empty report v clean;
        referenced = referenced;
        closed_checks = match_checks-closed checks result.checks as_many closed;
        as_many = sym as_many;
      },
      sym kept,
      subst (λ t. is_ok (new_published_project_build t) ≡ true) kept
          (published report v result valid of_build),
    )
  where
    checks : List CheckExecution
    checks = v.execution ∷ report.inspection.executions

    refused : Bool
    refused =
        not (is_valid_build_inputs report.inputs)
        || not (valid_project_build_output report.inputs report.output report.binding)
        || not (is_of_build report result)
        || not (is_clean_build report v)
