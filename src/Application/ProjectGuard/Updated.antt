-- ===== src/Application/ProjectGuard/Updated.antt =====
-- internal/application/project_update.go: what an update commits.
use heliopause.Application.Install.{first_world}
use heliopause.Application.Install.Phases.{try-cases}
use heliopause.Application.ProjectGuard.{
  ProjectPorts, approve_project, execute_project_update, guarded_update, same_context,
}
use heliopause.Application.ProjectGuard.Retained.{
  Holds, IsApproved, IsGuarded, OnOkAt, Unclosed, approve_project-Holds, with_guard-IsGuarded,
}
use heliopause.Application.Workflow.{
  History, Workflow, World, after, ask, begins, commits_update, pure, reads_controls,
  resolves_update, try,
}
use heliopause.Base.{Result, [], arith, list_eq, nat_eq, ok, refl, subst, true, ◌==◌, ◌∷◌, ◌≡◌}
use heliopause.Domain.Artifact.{ArtifactReference, source_id_eq}
use heliopause.Domain.Inspected.{DependencyResolution}
use heliopause.Domain.Install.{InstallContext, is_valid_context}
use heliopause.Domain.Project.{StagedProjectSet}
use heliopause.Domain.Project.Update.{ProjectDependencyUpdate, is_valid_update}
use heliopause.Text.{Text}

-- An update that was committed: it is the resolver's, from the controls that the guard holds, and its
-- snapshot was approved.
pub record IsCommitted (p : ProjectPorts) (reference : ArtifactReference) (context : InstallContext)
    (start : History) (resolution : DependencyResolution) (h : History) : Type 0 where
  pub update : ProjectDependencyUpdate
  pub resolves :
      p.resolve_update (reads_controls ∷ start) reference context (p.controls start) ≡ ok update
  pub valid : is_valid_update update ≡ true
  pub in_context : same_context update.snapshot.context context ≡ true
  pub of_source : (update.snapshot.source == reference.source) ≡ true
  pub gives : resolution ≡ update.resolution
  pub approved :
      IsApproved p update.snapshot
        (commits_update update)
        (λ h staged. p.commit_update h update staged)
        (resolves_update reference context (p.controls start) ∷ reads_controls ∷ start)
        h

guarded_update-Holds :
    (p : ProjectPorts) (reference : ArtifactReference) (context : InstallContext) (w : World)
    → Unclosed w.history
    → Holds (IsCommitted p reference context w.history) (guarded_update p reference context w)
unfolding guarded_update pure ask after
guarded_update-Holds p reference context w u =
    try-cases (Holds _) _ _ _ _ (λ e _. ((refl, (refl, u)), tt))
      λ update r.
        try-cases (Holds _) _ _ _ _ (λ e _. ((refl, (refl, u)), tt))
          λ valid v.
            let h0 : History =
              resolves_update reference context (p.controls w.history)
              ∷ reads_controls
              ∷ w.history in
            let commit : History → StagedProjectSet → Result (Unit {0}) =
              λ h staged. p.commit_update h update staged in
            let approve : Workflow (Result (Unit {0})) =
              approve_project p update.snapshot (commits_update update) commit in
            let (unclosed, approved) =
              approve_project-Holds p update.snapshot (commits_update update) commit
                (record w { history = h0 }) (λ staged. refl) (refl, (refl, u)) in
            let accepted : (is_valid_update update ≡ true)
                × (same_context update.snapshot.context context ≡ true)
                × ((update.snapshot.source == reference.source) ≡ true) =
              ground arith in
            try-cases (Holds _) _ _ _ _ (λ e x. (unclosed, tt))
              λ done d. (
                unclosed,
                record {
                  update = update;
                  resolves = r;
                  valid = accepted.0;
                  in_context = accepted.1;
                  of_source = accepted.2;
                  gives = refl;
                  approved =
                      subst
                        (λ t.
                          OnOkAt
                            (λ _. IsApproved p update.snapshot (commits_update update) commit h0) t
                            (approve (record w { history = h0 })).world.history)
                        d approved;
                },
              )

-- With a reference of the source, a valid context and a port that gives a guard, the update of a
-- project from a world without calls ends with the close of the guard, its only close, and returns
-- the result of the work before it unless the close fails; and a result of that work is the
-- resolution of the resolver's update from the guard's controls, valid and of the context and the
-- source, which was committed with the staged form of what the inspection verified of its snapshot,
-- where the guard said before and after the inspection that the project is unchanged.
pub execute_project_update-IsGuarded :
    (p : ProjectPorts) (reference : ArtifactReference) (context : InstallContext) (source : Text)
    → (reference.source.value == source) ≡ true
    → is_valid_context context ≡ true
    → p.begin_guard [] context ≡ ok true
    → IsGuarded p context
        (IsCommitted p reference context (begins context ∷ []))
        (execute_project_update p reference context source first_world)
unfolding execute_project_update try pure
execute_project_update-IsGuarded p reference context source s v b =
    rw (s, v)
      (with_guard-IsGuarded p context _ (guarded_update p reference context) first_world b (
        guarded_update-Holds p reference context
          (record first_world { history = begins context ∷ [] }) (refl, tt)))
