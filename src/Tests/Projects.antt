-- ===== src/Tests/Projects.antt =====
-- A project of two packages, its inspections and its approval.
use mathlib.Core.List.{Perm}
use heliopause.Base.{
  All, List, [], any, false, is_ok, length, list_eq, map, nat_eq, ok, refl, true, ℕ, ◌%◌, ◌+◌, ◌∷◌,
  ◌≡◌,
}
use heliopause.Base.Coverage.{Distinct}
use heliopause.Base.Order.{sort}
use heliopause.Domain.Artifact.{ResolvedArtifact, validate_normalized_identifier}
use heliopause.Domain.Check.{CheckExecution, CheckKind, inspection, verification}
use heliopause.Domain.Graph.{new_dependency_node_id, node_id_eq, primary}
use heliopause.Domain.Identifier.{run_id_eq}
use heliopause.Domain.Inspected.{DependencyInspection, DependencyResolution}
use heliopause.Domain.Install.{InstallContext, is_valid_context, npm_project}
use heliopause.Domain.Project.{
  InspectedProjectSet, check_entries, check_entry, find_entry, intake_handle, is_subject,
  is_valid_project_set, lock_entries, new_inspected_project_set, new_project_verified_set,
  project_dependency_node_id, scan_checks,
}
use heliopause.Domain.Project.Coverage.{new_inspected_project_set-covers}
use heliopause.Domain.Project.Update.{
  ProjectControlFile, ProjectDependencyUpdate, find_dependency, new_project_dependency_update,
}
use heliopause.Domain.Project.Update.Selected.{
  IsOfSnapshot, new_project_dependency_update-IsOfSnapshot,
}
use heliopause.Domain.Run.{new_policy_decision}
use heliopause.Domain.Snapshot.{ProjectDependencySnapshot, is_valid_snapshot, new_snapshot}
use heliopause.Policy.{decide_with, is_incomplete_required}
use heliopause.Policy.M4.{m4_decision, m4_entries, m4_evaluate_project_set}
use heliopause.Policy.Promotion.{m4_evaluate_project_set-verified}
use heliopause.Tests.Data.{
  m3_allowed, m4_allowed, sample_artifact, sample_check, sample_digest, sample_graph, sample_locked,
  sample_node, sample_references, sample_resolved, sample_source,
}
use heliopause.Text.{Text, codes}
use heliopause.Text.Pattern.{failure_code_pattern, normalized_identifier}
use heliopause.Text.Utf8.{is_valid_string}

-- A hash that tells texts of different lengths apart.
abbrev sample_sha256 : List ℕ → Text
sample_sha256 bytes = (b'0' + (length bytes % 10)) ∷ []

abbrev pub sample_context : InstallContext
sample_context = record { target = record { value = codes "/work/app" }; mode = npm_project }

abbrev pub sample_snapshot : ProjectDependencySnapshot
sample_snapshot = record {
  context = sample_context;
  source = sample_source;
  controls = record { name = codes "package.json"; digest = sample_digest } ∷ [];
  dependencies = sample_resolved (codes "lib") ∷ sample_resolved (codes "pads") ∷ [];
  graph_digest = sample_digest;
  dependency_free = false;
}

abbrev named_check : CheckKind → Text → CheckExecution
named_check kind id = record (sample_check kind) { id = record { value = id } }

abbrev sample_entry : Text → Text → Text → DependencyInspection
sample_entry node run name = record {
  node = sample_node node;
  run_id = record { value = run };
  artifact = record (sample_artifact name) {
    handle = intake_handle (record { value = run }) (codes "tgz");
  };
  checks =
      named_check verification (codes "integrity") ∷ named_check inspection (codes "static") ∷ [];
  evidence = sample_references;
  decision = m3_allowed;
}

-- `npm`, `lib`, `1.0.0` and `tgz` with three separators are 17 bytes.
abbrev sample_entries : List DependencyInspection
sample_entries =
    sample_entry (codes "p7") (codes "run_1") (codes "lib")
    ∷ sample_entry (codes "p8") (codes "run_2") (codes "pads")
    ∷ []

abbrev pub sample_project : InspectedProjectSet
sample_project = record { snapshot = sample_snapshot; inspections = sample_entries }

built_project :
    new_inspected_project_set sample_sha256 sample_snapshot sample_entries ≡ ok sample_project
unfolding new_inspected_project_set is_valid_snapshot is_valid_context lock_entries
    project_dependency_node_id new_dependency_node_id validate_normalized_identifier is_valid_string
    normalized_identifier check_entries check_entry find_entry scan_checks sort
built_project = refl

new_inspected_project_set-covers_example :
    (sample_snapshot ≡ sample_snapshot)
    × Perm sample_entries sample_entries
    × All (λ a. any (λ i. is_subject a i) sample_entries ≡ true) sample_snapshot.dependencies
    × Distinct (map (λ i. i.node) sample_entries)
    × Distinct (map (λ i. i.run_id) sample_entries)
new_inspected_project_set-covers_example =
    new_inspected_project_set-covers sample_sha256 sample_snapshot sample_entries sample_project
      built_project

evaluated_project : m4_evaluate_project_set sample_project ≡ ok m4_allowed
unfolding m4_evaluate_project_set is_valid_project_set is_valid_snapshot is_valid_context m4_entries
    m4_decision decide_with new_policy_decision validate_normalized_identifier is_valid_string
    normalized_identifier failure_code_pattern is_incomplete_required
evaluated_project = refl

m4_evaluate_project_set-verified_example :
    new_project_verified_set sample_project m4_allowed
    ≡ ok (record { inspected = sample_project; decision = m4_allowed })
m4_evaluate_project_set-verified_example =
    m4_evaluate_project_set-verified sample_project m4_allowed evaluated_project refl

-- Two identities with one sorting key, the first of them twice.
abbrev versioned : Text → Text → ResolvedArtifact
versioned name version = record (sample_resolved name) {
  identity = record {
    source = sample_source;
    name = name;
    version = version;
    variant = codes "tgz";
  };
}

abbrev repeated_dependencies : List ResolvedArtifact
repeated_dependencies =
    versioned (codes "a") (codes "b@c")
    ∷ versioned (codes "a@b") (codes "c")
    ∷ versioned (codes "a") (codes "b@c")
    ∷ []

repeated_accepted :
    is_ok (
      new_snapshot sample_context sample_source sample_snapshot.controls repeated_dependencies
        sample_digest false)
    ≡ true
unfolding new_snapshot is_valid_context sort
repeated_accepted = refl

-- An update of the lockfile of the sample project.
abbrev sample_file : Text → List ℕ → ProjectControlFile
sample_file name body = record {
  name = name;
  body = body;
  is_present = true;
  digest = sample_digest;
}

abbrev sample_resolution : DependencyResolution
sample_resolution = record {
  graph = record sample_graph { nodes = sample_locked primary (codes "lib") ∷ []; edges = [] };
  runtime_identity = codes "npm 10";
  lockfile_digest = sample_digest;
}

abbrev pub sample_update : ProjectDependencyUpdate
sample_update = record {
  original = sample_file (codes "package.json") (1 ∷ []) ∷ [];
  selected = sample_file (codes "package.json") (2 ∷ []) ∷ [];
  snapshot = sample_snapshot;
  resolution = sample_resolution;
}

built_update :
    new_project_dependency_update sample_update.original sample_update.selected sample_snapshot
      sample_resolution
    ≡ ok sample_update
unfolding new_project_dependency_update is_valid_snapshot is_valid_context find_dependency sort
built_update = refl

new_project_dependency_update-IsOfSnapshot_example :
    IsOfSnapshot sample_update.original sample_update.selected sample_update
    × (sample_snapshot ≡ sample_snapshot)
    × (sample_resolution ≡ sample_resolution)
new_project_dependency_update-IsOfSnapshot_example =
    new_project_dependency_update-IsOfSnapshot sample_update.original sample_update.selected
      sample_snapshot sample_resolution sample_update built_update
