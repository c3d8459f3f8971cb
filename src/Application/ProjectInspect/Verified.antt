-- ===== src/Application/ProjectInspect/Verified.antt =====
-- internal/application/project_inspect.go: what the inspection of a project ensures.
use heliopause.Application.Entry.Begun.{inspect_dependency-Ensures}
use heliopause.Application.Install.{first_world}
use heliopause.Application.Install.Inspected.{first_world-IsOrderly}
use heliopause.Application.ProjectInspect.{
  ProjectOutcome, decide_project, inspect_project, inspect_snapshot, project_decided, project_error,
  project_refused, project_verified, verified_outcome,
}
use heliopause.Application.SetInspect.Judged.{IsJudgedNode}
use heliopause.Application.Workflow.{InstallPorts}
use heliopause.Application.Workflow.Ensures.{
  Ensures-pure, Ensures-try, IsOrderly, Keeps, Keeps-ask, Keeps-on, Keeps-pure, Keeps-try, OnOk,
}
use heliopause.Base.{
  All, All-map, Bool, Bool-cases, List, Result, Result-cases, [], any, arith, err, false, inl, inr,
  ok, refl, subst, true, ℕ, ◌∙◌, ◌∷◌, ◌≡◌,
}
use heliopause.Base.Order.{any-sort, sort, sort-All}
use heliopause.Domain.Artifact.{ResolvedArtifact}
use heliopause.Domain.Graph.{new_locked_dependency, transitive}
use heliopause.Domain.Identifier.{OperationId}
use heliopause.Domain.Inspected.{DependencyInspection}
use heliopause.Domain.Project.{
  InspectedProjectSet, ProjectVerifiedSet, check_approved, is_subject, new_inspected_project_set,
  new_project_verified_set, project_dependency_node_id,
}
use heliopause.Domain.Project.Coverage.{new_inspected_project_set-covers}
use heliopause.Domain.Run.{PolicyDecision, is_allow}
use heliopause.Domain.Snapshot.{ProjectDependencySnapshot}
use heliopause.Text.{Text, text_lt}

-- A project set whose every inspection the entry policy judged, which the set policy decided on, and
-- which is about every dependency of the snapshot.
pub record IsProjectJudged (p : InstallPorts)
    (evaluate_project : InspectedProjectSet → Result PolicyDecision)
    (snapshot : ProjectDependencySnapshot) (set : InspectedProjectSet) (decision : PolicyDecision)
    : Type 0 where
  pub judges : evaluate_project set ≡ ok decision
  pub same_snapshot : set.snapshot ≡ snapshot
  pub entries : All (IsJudgedNode p) set.inspections
  pub covers : All (λ a. any (λ i. is_subject a i) set.inspections ≡ true) snapshot.dependencies

-- The outcome of an inspection.
abbrev pub OnProject :
    InstallPorts
    → (InspectedProjectSet → Result PolicyDecision)
    → ProjectDependencySnapshot
    → ProjectOutcome
    → Type 0
OnProject p evaluate_project snapshot (project_error e) = Unit
OnProject p evaluate_project snapshot (project_refused set decision) =
    IsProjectJudged p evaluate_project snapshot set decision × (is_allow decision.decision ≡ false)
OnProject p evaluate_project snapshot (project_verified v) =
    IsProjectJudged p evaluate_project snapshot v.inspected v.decision
    × (is_allow v.decision.decision ≡ true)
    × All (λ i. is_allow i.decision.decision ≡ true) v.inspected.inspections

inspect_snapshot-Ensures :
    (p : InstallPorts) (sha256 : List ℕ → Text) (operation_id : OperationId)
    (dependencies : List ResolvedArtifact)
    → Keeps 0 (OnOk (All (IsJudgedNode p))) (inspect_snapshot p sha256 operation_id dependencies)
unfolding inspect_snapshot
inspect_snapshot-Ensures p sha256 operation_id [] = Ensures-pure _ _ _ refl tt
inspect_snapshot-Ensures p sha256 operation_id (artifact ∷ dependencies) =
    Keeps-try _ _ (λ _. 0) _ _
      (Keeps-on _ (Keeps-pure (project_dependency_node_id sha256 artifact.identity)))
      λ node _.
        Keeps-try _ _ (λ _. 0) _ _
          (Keeps-on _ (Keeps-pure (new_locked_dependency node transitive artifact)))
          λ dependency _.
            Keeps-try _ _ (λ _. 0) _ _
              (Keeps-on _ (inspect_dependency-Ensures p operation_id dependency))
              λ entry j.
                Keeps-try _ _ (λ _. 0) _ _
                  (Keeps-on _ (inspect_snapshot-Ensures p sha256 operation_id dependencies))
                  λ more js. Ensures-pure _ _ _ refl ((dependency, j), js)

check_approved-allowed :
    (is : List DependencyInspection)
    → check_approved is ≡ ok tt
    → All (λ i. is_allow i.decision.decision ≡ true) is
unfolding check_approved
check_approved-allowed [] h = tt
check_approved-allowed (i ∷ is) h = ((ground arith), check_approved-allowed is (ground arith))

new_project_verified_set-kept :
    (set : InspectedProjectSet) (decision : PolicyDecision) (v : ProjectVerifiedSet)
    → new_project_verified_set set decision ≡ ok v
    → (record { inspected = set; decision = decision } ≡ v)
      × (check_approved set.inspections ≡ ok tt)
unfolding new_project_verified_set
new_project_verified_set-kept set decision v h = ground arith

abbrev by_node : DependencyInspection → DependencyInspection → Bool
by_node a b = text_lt a.node.value b.node.value

new_inspected_project_set-sorts :
    (sha256 : List ℕ → Text) (snapshot : ProjectDependencySnapshot) (is : List DependencyInspection)
    (set : InspectedProjectSet)
    → new_inspected_project_set sha256 snapshot is ≡ ok set
    → set.inspections ≡ sort by_node is
unfolding new_inspected_project_set
new_inspected_project_set-sorts sha256 snapshot is set h = ground arith

module _ (p : InstallPorts) (sha256 : List ℕ → Text)
    (evaluate_project : InspectedProjectSet → Result PolicyDecision)
    (snapshot : ProjectDependencySnapshot) where
  new_inspected_project_set-IsProjectJudged :
      (inspections : List DependencyInspection) (set : InspectedProjectSet)
      (decision : PolicyDecision)
      → All (IsJudgedNode p) inspections
      → new_inspected_project_set sha256 snapshot inspections ≡ ok set
      → evaluate_project set ≡ ok decision
      → IsProjectJudged p evaluate_project snapshot set decision
  new_inspected_project_set-IsProjectJudged inspections set decision js made j =
      let (same, _, covered, _, _) =
        new_inspected_project_set-covers sha256 snapshot inspections set made in
      let sorted = new_inspected_project_set-sorts sha256 snapshot inspections set made in
      record {
        judges = j;
        same_snapshot = same;
        entries = rw sorted (sort-All by_node (IsJudgedNode p) inspections js);
        covers = rw sorted (
            All-map (λ a e. any-sort by_node (λ i. is_subject a i) inspections ∙ e)
              snapshot.dependencies covered);
      }

  verified-OnProject :
      (set : InspectedProjectSet) (decision : PolicyDecision)
      → IsProjectJudged p evaluate_project snapshot set decision
      → is_allow decision.decision ≡ true
      → OnProject p evaluate_project snapshot
          (verified_outcome (new_project_verified_set set decision))
  verified-OnProject set decision judged a =
      elim (Result-cases (new_project_verified_set set decision)) [
        | inr (x, e) ↦ rw e tt
        | inl (v, e) ↦
            let (same, approved) = new_project_verified_set-kept set decision v e in
            rw e (
              subst (λ t. OnProject p evaluate_project snapshot (project_verified t)) same
                (judged, a, check_approved-allowed set.inspections approved))
      ]

  project_decided-OnProject :
      (set : InspectedProjectSet) (r : Result PolicyDecision)
      → ((decision : PolicyDecision)
          → r ≡ ok decision
          → IsProjectJudged p evaluate_project snapshot set decision)
      → OnProject p evaluate_project snapshot (project_decided set r)
  unfolding project_decided
  project_decided-OnProject set (err e) h = tt
  project_decided-OnProject set (ok decision) h = elim (Bool-cases (is_allow decision.decision)) [
    | inl a ↦ rw a (verified-OnProject set decision (h decision refl) a)
    | inr d ↦ rw d (h decision refl, d)
  ]

  decide_project-OnProject :
      (inspections : List DependencyInspection) (r : Result InspectedProjectSet)
      → All (IsJudgedNode p) inspections
      → new_inspected_project_set sha256 snapshot inspections ≡ r
      → OnProject p evaluate_project snapshot (decide_project evaluate_project r)
  unfolding decide_project
  decide_project-OnProject inspections (err e) js made = tt
  decide_project-OnProject inspections (ok set) js made =
      project_decided-OnProject set (evaluate_project set)
        λ decision j. new_inspected_project_set-IsProjectJudged inspections set decision js made j

pub inspect_project-Ensures :
    (p : InstallPorts) (sha256 : List ℕ → Text)
    (evaluate_project : InspectedProjectSet → Result PolicyDecision)
    (snapshot : ProjectDependencySnapshot)
    → Keeps 0
        (OnProject p evaluate_project snapshot)
        (inspect_project p sha256 evaluate_project snapshot)
unfolding inspect_project
inspect_project-Ensures p sha256 evaluate_project snapshot =
    Ensures-try (λ _. 0) _ _ _ _ _ _ (Keeps-pure _) (λ e. Ensures-pure _ _ _ refl tt)
      λ valid _.
        Ensures-try (λ _. 0) _ _ _ _ _ _ (Keeps-ask _ _ refl) (λ e. Ensures-pure _ _ _ refl tt)
          λ operation_id _.
            Ensures-try (λ _. 0) _ _ _ _ _ _
              (inspect_snapshot-Ensures p sha256 operation_id snapshot.dependencies)
              (λ e. Ensures-pure _ _ _ refl tt)
              λ inspections js.
                Ensures-pure _ _ _ refl (
                  decide_project-OnProject p sha256 evaluate_project snapshot inspections _ js refl)

-- An inspection of a project from a world without calls ends with each run finalized that it
-- created, and passes nothing to the manifest, the staging or the promotion of an install. A set
-- that it verifies, or refuses, is of the snapshot, the set policy gave the decision on it, it has
-- an inspection of every dependency of the snapshot, and the entry policy judged each inspection;
-- it is verified only if the decision and every inspection's is ALLOW, and refused only if the
-- decision is not.
pub inspect_project-OnProject :
    (p : InstallPorts) (sha256 : List ℕ → Text)
    (evaluate_project : InspectedProjectSet → Result PolicyDecision)
    (snapshot : ProjectDependencySnapshot)
    → IsOrderly 0 (inspect_project p sha256 evaluate_project snapshot first_world).world
      × OnProject p evaluate_project snapshot
          (inspect_project p sha256 evaluate_project snapshot first_world).value
inspect_project-OnProject p sha256 evaluate_project snapshot =
    (inspect_project-Ensures p sha256 evaluate_project snapshot).at first_world
      first_world-IsOrderly
