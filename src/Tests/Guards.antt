-- ===== src/Tests/Guards.antt =====
-- Workflows under the guard of a sample project.
use heliopause.Application.Diagnostic.{dynamic_codes, new_dependency_policy_diagnostic}
use heliopause.Application.Entry.{
  begin_run, fail_dependency_run, inspect_dependency, judge_entry, locked_reference,
}
use heliopause.Application.Install.{first_world}
use heliopause.Application.ProjectGuard.{
  ProjectPorts, approve_project, execute_project_update, find_control, guarded_snapshot,
  guarded_update, index_controls, match_controls, resolve_project_snapshot, with_guard,
}
use heliopause.Application.ProjectGuard.Retained.{
  IsGuarded, IsRetained, resolve_project_snapshot-IsGuarded,
}
use heliopause.Application.ProjectGuard.Updated.{IsCommitted, execute_project_update-IsGuarded}
use heliopause.Application.ProjectInspect.{
  ProjectOutcome, decide_project, inspect_project, inspect_snapshot, project_decided,
  project_verified,
}
use heliopause.Application.ProjectInspect.Verified.{OnProject, inspect_project-OnProject}
use heliopause.Application.Workflow.{InstallPorts, after, ask, begins, create, pure, put_away, try}
use heliopause.Application.Workflow.Ensures.{IsOrderly}
use heliopause.Base.{Bool, List, [], false, length, ok, refl, true, ℕ, ◌%◌, ◌++◌, ◌+◌, ◌∷◌, ◌≡◌}
use heliopause.Base.Order.{sort}
use heliopause.Domain.Artifact.{
  new_artifact_reference, text_is_bounded, validate_bounded_text, validate_normalized_identifier,
}
use heliopause.Domain.Check.{verification}
use heliopause.Domain.Graph.{
  new_dependency_node_id, new_locked_dependency, new_locked_dependency_with_record_path,
}
use heliopause.Domain.Inspected.{new_dependency_inspection}
use heliopause.Domain.Install.{is_valid_context}
use heliopause.Domain.Operation.{check_references, distinct_ids, new_policy_input}
use heliopause.Domain.Project.{
  ProjectVerifiedSet, StagedProjectSet, check_approved, check_entries, check_entry, find_entry,
  is_valid_project_set, lock_entries, new_inspected_project_set, new_project_verified_set,
  project_dependency_node_id, scan_checks,
}
use heliopause.Domain.Project.Update.{is_valid_update}
use heliopause.Domain.Run.{
  activate, bind_acquired_artifact, finalize_completed, new_inspection_run, new_policy_decision,
}
use heliopause.Domain.Snapshot.{is_valid_snapshot}
use heliopause.Policy.{decide_with, is_incomplete_required}
use heliopause.Policy.M4.{m4_decision, m4_entries, m4_evaluate_project_set}
use heliopause.Tests.Data.{
  m4_allowed, sample_artifact, sample_check, sample_digest, sample_reference,
}
use heliopause.Tests.Installs.{installed_verification, installing_ports}
use heliopause.Tests.Projects.{sample_context, sample_project, sample_snapshot, sample_update}
use heliopause.Text.{Text, codes}
use heliopause.Text.Pattern.{failure_code_pattern, normalized_identifier}
use heliopause.Text.Utf8.{ends_in_space, is_control, is_valid_string, runes, starts_with_space}

abbrev staged_sample : ProjectVerifiedSet → StagedProjectSet
staged_sample v = record { set = v; handle = codes "cache"; digest = sample_digest }

abbrev verified_sample : ProjectVerifiedSet
verified_sample = record { inspected = sample_project; decision = m4_allowed }

abbrev guarding_ports : ProjectPorts
guarding_ports = record {
  begin_guard = λ h c. ok true;
  resolve_project = λ h c. ok sample_snapshot;
  resolve_update = λ h r c files. ok sample_update;
  controls = λ h. sample_update.original;
  verify_unchanged = λ h. ok tt;
  inspect_complete = λ h s. ok verified_sample;
  stage_project = λ h v. ok (staged_sample v);
  commit_snapshot = λ h s staged. ok tt;
  commit_update = λ h u staged. ok tt;
  close_guard = λ h. ok tt;
}

-- The workflows reach the commit with these ports.
retained_sample :
    (resolve_project_snapshot guarding_ports sample_context (codes "npm") first_world).value
    ≡ ok sample_snapshot
unfolding resolve_project_snapshot with_guard guarded_snapshot approve_project match_controls
    index_controls find_control is_valid_snapshot is_valid_context try pure ask after
retained_sample = refl

updated_sample :
    (execute_project_update guarding_ports sample_reference sample_context
      (codes "npm")
      first_world).value
    ≡ ok sample_update.resolution
unfolding execute_project_update with_guard guarded_update approve_project is_valid_update
    is_valid_snapshot is_valid_context try pure ask after
updated_sample = refl

valid_context : is_valid_context sample_context ≡ true
unfolding is_valid_context
valid_context = refl

resolve_project_snapshot-IsGuarded_example :
    IsGuarded guarding_ports sample_context
      (IsRetained guarding_ports sample_context (codes "npm") (begins sample_context ∷ []))
      (resolve_project_snapshot guarding_ports sample_context (codes "npm") first_world)
resolve_project_snapshot-IsGuarded_example =
    resolve_project_snapshot-IsGuarded guarding_ports sample_context (codes "npm") valid_context
      refl

execute_project_update-IsGuarded_example :
    IsGuarded guarding_ports sample_context
      (IsCommitted guarding_ports sample_reference sample_context (begins sample_context ∷ []))
      (execute_project_update guarding_ports sample_reference sample_context
        (codes "npm")
        first_world)
execute_project_update-IsGuarded_example =
    execute_project_update-IsGuarded guarding_ports sample_reference sample_context (codes "npm")
      refl valid_context refl

-- A hash that tells texts of different lengths apart.
abbrev length_sha256 : List ℕ → Text
length_sha256 bytes = (b'0' + (length bytes % 10)) ∷ []

-- Ports that give each run its own identifier and each check its own name.
abbrev project_ports : InstallPorts
project_ports = record installing_ports {
  new_run_id = λ h. ok (record { value = codes "run_" ++ (b'0' + (length h % 50)) ∷ [] });
  acquire = λ h id r. ok (record (sample_artifact r.identity.name) {
    handle = codes "intake:" ++ id.value ++ codes ":tgz";
  });
  verify = λ h a. ok (record (installed_verification a.identity) {
    execution = record (sample_check verification) { id = record { value = codes "digest" } };
  });
}

abbrev is_verified : ProjectOutcome → Bool
is_verified (project_verified set) = true
is_verified _ = false

verified_project :
    is_verified
      (inspect_project project_ports length_sha256 m4_evaluate_project_set sample_snapshot
        first_world).value
    ≡ true
unfolding inspect_project inspect_snapshot decide_project project_decided project_dependency_node_id
    new_dependency_node_id new_locked_dependency new_locked_dependency_with_record_path
    inspect_dependency begin_run judge_entry fail_dependency_run try pure ask put_away create after
    locked_reference new_artifact_reference new_inspection_run activate bind_acquired_artifact
    new_policy_input distinct_ids check_references finalize_completed new_dependency_inspection
    new_dependency_policy_diagnostic dynamic_codes new_inspected_project_set lock_entries find_entry
    scan_checks check_entry check_entries new_project_verified_set check_approved
    is_valid_project_set is_valid_snapshot is_valid_context m4_evaluate_project_set m4_entries
    m4_decision decide_with new_policy_decision validate_normalized_identifier is_valid_string
    normalized_identifier failure_code_pattern is_incomplete_required sort text_is_bounded
    validate_bounded_text runes starts_with_space ends_in_space is_control
verified_project = refl

inspect_project-OnProject_example :
    IsOrderly 0
      (inspect_project project_ports length_sha256 m4_evaluate_project_set sample_snapshot
        first_world).world
    × OnProject project_ports m4_evaluate_project_set sample_snapshot
        (inspect_project project_ports length_sha256 m4_evaluate_project_set sample_snapshot
          first_world).value
inspect_project-OnProject_example =
    inspect_project-OnProject project_ports length_sha256 m4_evaluate_project_set sample_snapshot
