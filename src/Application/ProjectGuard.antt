-- ===== src/Application/ProjectGuard.antt =====
-- internal/application/project_snapshot.go, project_update.go: the two workflows that hold the guard of a
-- project from the first read to the commit. A nil or cancelled context, and a nil port, are left out.
pub mod Retained
pub mod Updated
use heliopause.Application.Workflow.{
  History, PortCall, Workflow, after, ask, begins, checks_unchanged, closes, commits_snapshot,
  commits_update, inspects_project, pure, reads_controls, resolves_project, resolves_update,
  stages_project, try,
}
use heliopause.Base.{
  Bool, List, Option, Result, [], any, contains, err, false, if◌then◌else◌, length, list_eq, nat_eq,
  none, not, ok, reject, some, ◌&&◌, ◌==◌, ◌>>◌, ◌||◌, ◌∷◌,
}
use heliopause.Domain.Artifact.{ArtifactReference, content_digest_eq, source_id_eq}
use heliopause.Domain.Inspected.{DependencyResolution}
use heliopause.Domain.Install.{
  InstallContext, InstallMode, is_valid_context, new_target, npm_project, python_venv,
}
use heliopause.Domain.Project.{ProjectVerifiedSet, StagedProjectSet}
use heliopause.Domain.Project.Update.{ProjectControlFile, ProjectDependencyUpdate, is_valid_update}
use heliopause.Domain.Report.{verified}
use heliopause.Domain.Snapshot.{ProjectControlDigest, ProjectDependencySnapshot, is_valid_snapshot}
use heliopause.Text.{Text, codes}

-- The ports of both; whether `Begin` gave a guard is its answer.
pub record ProjectPorts : Type 0 where
  pub begin_guard : History → InstallContext → Result Bool
  pub resolve_project : History → InstallContext → Result ProjectDependencySnapshot
  pub resolve_update :
      History
      → ArtifactReference
      → InstallContext
      → List ProjectControlFile
      → Result ProjectDependencyUpdate
  pub controls : History → List ProjectControlFile
  pub verify_unchanged : History → Result (Unit {0})
  pub inspect_complete : History → ProjectDependencySnapshot → Result ProjectVerifiedSet
  pub stage_project : History → ProjectVerifiedSet → Result StagedProjectSet
  pub commit_snapshot : History → ProjectDependencySnapshot → StagedProjectSet → Result (Unit {0})
  pub commit_update : History → ProjectDependencyUpdate → StagedProjectSet → Result (Unit {0})
  pub close_guard : History → Result (Unit {0})

-- `errors.Join` of the result with the error of `Close`; a result with an error is the zero value.
abbrev pub joined {ℓ} : {A : Type ℓ} → Result A → Result (Unit {0}) → Result A
joined (ok a) (ok closed) = ok a
joined (ok a) (err e) = err e
joined (err e) closed = err e

-- `Begin`, and the deferred `Close`.
unfoldable pub with_guard {ℓ} :
    {A : Type ℓ} → ProjectPorts → InstallContext → Workflow (Result A) → Workflow (Result A)
with_guard p context body =
    try (ask (begins context) (λ h. p.begin_guard h context)) (λ e. pure (err e))
      λ has_guard.
        if has_guard
        then (after body λ r. after (ask closes p.close_guard) λ c. pure (joined r c))
        else pure (err "project mutation returned no guard")

-- From the first `VerifyUnchanged` to the commit.
unfoldable pub approve_project :
    ProjectPorts
    → ProjectDependencySnapshot
    → (StagedProjectSet → PortCall)
    → (History → StagedProjectSet → Result (Unit {0}))
    → Workflow (Result (Unit {0}))
approve_project p snapshot commits commit =
    try (ask checks_unchanged p.verify_unchanged) (λ e. pure (err e))
      λ before.
        try (ask (inspects_project snapshot) (λ h. p.inspect_complete h snapshot))
          (λ e. pure (err e))
          λ verified.
            try (ask checks_unchanged p.verify_unchanged) (λ e. pure (err e))
              λ unchanged.
                try (ask (stages_project verified) (λ h. p.stage_project h verified))
                  (λ e. pure (err e)) λ staged. ask (commits staged) (λ h. commit h staged)

-- `byName` and the loop that fills it.
unfoldable pub index_controls : List Text → List ProjectControlFile → Result (Unit {0})
index_controls seen [] = ok tt
index_controls seen (c ∷ controls) =
    reject (contains c.name seen) "project guard returned repeated controls"
    >> index_controls (c.name ∷ seen) controls

unfoldable pub find_control : Text → List ProjectControlFile → Option ProjectControlFile
find_control name [] = none
find_control name (c ∷ controls) = if c.name == name then some c else find_control name controls

abbrev pub is_guarded : List ProjectControlFile → ProjectControlDigest → Bool
is_guarded controls d = elim (find_control d.name controls) [
  | none ↦ false
  | some file ↦ d.digest == file.digest
]

-- The tests on the controls of the guard.
unfoldable pub match_controls :
    List ProjectControlFile → List ProjectControlDigest → Result (Unit {0})
match_controls controls digests = do
  reject (not (length controls == length digests))
      "project download control coverage differs from guard"
  index_controls [] controls
  reject (any (λ d. not (is_guarded controls d)) digests)
      "project download controls differ from guard"

-- A mode by a number, and by its text if it is a further one.
abbrev pub mode_key : InstallMode → Text
mode_key InstallMode.unset = []
mode_key new_target = 1 ∷ []
mode_key npm_project = 2 ∷ []
mode_key python_venv = 3 ∷ []
mode_key (InstallMode.other s) = 0 ∷ s

-- `==` on contexts.
abbrev pub same_context : InstallContext → InstallContext → Bool
same_context a b = a.target.value == b.target.value && mode_key a.mode == mode_key b.mode

-- `resolveProjectSnapshot` under the guard.
unfoldable pub guarded_snapshot :
    ProjectPorts → InstallContext → Text → Workflow (Result ProjectDependencySnapshot)
guarded_snapshot p context source =
    try (ask (resolves_project context) (λ h. p.resolve_project h context)) (λ e. pure (err e))
      λ snapshot.
        try
          (pure (
            reject
              (not (is_valid_snapshot snapshot)
                || not (same_context snapshot.context context)
                || not (snapshot.source.value == source))
              "project resolver returned an invalid snapshot"))
          (λ e. pure (err e))
          λ valid. after (ask reads_controls p.controls) λ controls.
            try (pure (match_controls controls snapshot.controls)) (λ e. pure (err e))
              λ same.
                try
                  (approve_project p snapshot (commits_snapshot snapshot)
                    (λ h staged. p.commit_snapshot h snapshot staged))
                  (λ e. pure (err e)) λ done. pure (ok snapshot)

-- `resolveProjectSnapshot`
unfoldable pub resolve_project_snapshot :
    ProjectPorts → InstallContext → Text → Workflow (Result ProjectDependencySnapshot)
resolve_project_snapshot p context source =
    try
      (pure
        (reject (not (is_valid_context context)) "valid project resolution request is required"))
      (λ e. pure (err e)) λ valid. with_guard p context (guarded_snapshot p context source)

-- `executeProjectUpdate` under the guard.
unfoldable pub guarded_update :
    ProjectPorts → ArtifactReference → InstallContext → Workflow (Result DependencyResolution)
guarded_update p reference context = after (ask reads_controls p.controls) λ controls.
    try
      (ask (resolves_update reference context controls)
        (λ h. p.resolve_update h reference context controls))
      (λ e. pure (err e))
      λ update.
        try
          (pure (
            reject
              (not (is_valid_update update)
                || not (same_context update.snapshot.context context)
                || not (update.snapshot.source == reference.source))
              "resolver returned an invalid project update"))
          (λ e. pure (err e))
          λ valid.
            try
              (approve_project p update.snapshot (commits_update update)
                (λ h staged. p.commit_update h update staged))
              (λ e. pure (err e)) λ done. pure (ok update.resolution)

-- `executeProjectUpdate`
unfoldable pub execute_project_update :
    ProjectPorts
    → ArtifactReference
    → InstallContext
    → Text
    → Workflow (Result DependencyResolution)
execute_project_update p reference context source =
    try
      (pure (
        reject (not (reference.source.value == source) || not (is_valid_context context))
          "valid project update request is required"))
      (λ e. pure (err e)) λ valid. with_guard p context (guarded_update p reference context)

-- `CargoAddService.Resolve`, `GoModuleGetService.Get` and `GoModuleProjectResolutionService.Resolve`
unfoldable pub cargo_add :
    ProjectPorts → ArtifactReference → InstallContext → Workflow (Result DependencyResolution)
cargo_add p reference context = execute_project_update p reference context (codes "crates-io")

unfoldable pub go_module_get :
    ProjectPorts → ArtifactReference → InstallContext → Workflow (Result DependencyResolution)
go_module_get p reference context = execute_project_update p reference context (codes "go-proxy")

unfoldable pub go_module_resolve :
    ProjectPorts → InstallContext → Workflow (Result ProjectDependencySnapshot)
go_module_resolve p context = resolve_project_snapshot p context (codes "go-proxy")
