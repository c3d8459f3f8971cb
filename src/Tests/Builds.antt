-- ===== src/Tests/Builds.antt =====
-- A guarded build of a Go module.
use heliopause.Base.{[], is_ok, ok, refl, true, ◌++◌, ◌∷◌, ◌≡◌}
use heliopause.Domain.Artifact.{AcquiredArtifact, ContentDigest}
use heliopause.Domain.Check.{CheckExecution, CheckKind, inspection, verification}
use heliopause.Domain.Evidence.{Evidence}
use heliopause.Domain.Install.{is_valid_context}
use heliopause.Domain.Operation.{OperationResult, check_references, distinct_ids, new_policy_input}
use heliopause.Domain.ProjectBuild.{
  ProjectBuildInputs, ProjectBuildReport, distinct_inputs, is_valid_build_inputs, trim_suffix,
  valid_project_build_output,
}
use heliopause.Domain.ProjectBuild.Approved.{
  ApprovedProjectBuild, IsApprovedBuild, match_checks, new_approved_project_build,
  new_approved_project_build-IsApprovedBuild, new_published_project_build,
}
use heliopause.Domain.Report.{InspectionReport, VerificationReport}
use heliopause.Domain.Snapshot.{is_valid_snapshot}
use heliopause.Tests.Data.{
  sample_check, sample_digest, sample_evidence, sample_result, sample_run_id, sample_verification,
}
use heliopause.Tests.Projects.{sample_snapshot}
use heliopause.Text.{Text, codes}

abbrev build_artifact : Text → Text → ContentDigest → AcquiredArtifact
build_artifact version variant digest = record {
  identity = record {
    source = record { value = codes "project-local" };
    name = codes "app";
    version = version;
    variant = variant;
  };
  digest = digest;
  handle = codes "intake:run_1:" ++ variant;
  size = 1;
  declared_integrity = codes "sha256:" ++ digest.value;
  observed_integrity = [];
}

abbrev cache_digest : ContentDigest
cache_digest = record {
  value = codes "d4735e3a265e16eee03f59718b9b5d03019c07d8b6c51f90da3a666eec13ab35";
}

abbrev build_source : AcquiredArtifact
build_source = build_artifact (codes "tree") (codes "go-source") sample_digest

abbrev build_inputs : ProjectBuildInputs
build_inputs = record {
  snapshot = sample_snapshot;
  source = build_source;
  cache = build_artifact sample_digest.value (codes "go-cache") cache_digest;
  run_id = sample_run_id;
  selector = codes "cmd/app";
}

abbrev build_evidence : Text → Evidence
build_evidence id = record (sample_evidence id) { identity = build_source.identity }

abbrev build_check : CheckKind → Text → CheckExecution
build_check kind id = record (sample_check kind) { id = record { value = id } }

abbrev build_verification : VerificationReport
build_verification = record {
  execution = build_check verification (codes "project-build-input-binding");
  outcome = sample_verification.outcome;
  findings = [];
  evidence = build_evidence (codes "one") ∷ [];
}

abbrev build_inspection : InspectionReport
build_inspection = record {
  execution = build_check inspection (codes "project-build-observation");
  executions = build_check inspection (codes "project-build-observation") ∷ [];
  findings = [];
  evidence = build_evidence (codes "two") ∷ [];
  diagnostics = [];
}

abbrev build_report : ProjectBuildReport
build_report = record {
  inputs = build_inputs;
  output = build_artifact sample_run_id.value (codes "go-output") cache_digest;
  binding = record {
    source_digest = sample_digest;
    input_digests = cache_digest ∷ sample_digest ∷ [];
    executor = codes "go-build-linux-amd64";
    config_digest = cache_digest;
  };
  inspection = build_inspection;
}

abbrev build_result : OperationResult
build_result = record sample_result {
  resolved_identity = build_source.identity;
  checks = build_verification.execution ∷ build_inspection.executions;
}

abbrev approved_build : ApprovedProjectBuild
approved_build = record {
  report = build_report;
  verification = build_verification;
  result = build_result;
}

approved_sample :
    new_approved_project_build build_report build_verification build_result ≡ ok approved_build
unfolding new_approved_project_build is_valid_build_inputs is_valid_snapshot is_valid_context
    valid_project_build_output trim_suffix distinct_inputs new_policy_input distinct_ids
    check_references match_checks
approved_sample = refl

new_approved_project_build-IsApprovedBuild_example :
    IsApprovedBuild build_report build_verification build_result
    × (approved_build ≡ record {
      report = build_report;
      verification = build_verification;
      result = build_result;
    })
    × (is_ok (new_published_project_build approved_build) ≡ true)
new_approved_project_build-IsApprovedBuild_example =
    new_approved_project_build-IsApprovedBuild build_report build_verification build_result
      approved_build approved_sample
