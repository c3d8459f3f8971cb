-- ===== src/Application/Install/Inspected.antt =====
-- internal/application/install_inspect.go: what the inspection of an install ensures.
use heliopause.Application.Diagnostic.{InspectedInstall, InstallRequest, new_inspected_install}
use heliopause.Application.Entry.Judged.{entry_codes}
use heliopause.Application.GraphInspect.{
  JudgedDependencyInspection, artifacts_of, finish_graph, inspect_graph_aware, record_judged,
}
use heliopause.Application.GraphInspect.Ensures.{acquire_all-Ensures}
use heliopause.Application.GraphInspect.Judged.{IsDecided, judge_all-Ensures, record_judged-judges}
use heliopause.Application.GraphInspect.Pending.{graph_codes, pending-Actives, step_pending}
use heliopause.Application.GraphReports.{
  graph_dynamic_install_diagnostics, graph_static_diagnostics, validate_graph_reports,
}
use heliopause.Application.Install.{
  InspectOutcome, concluded, first_world, inspect_install, inspect_nodes, inspect_resolution,
  install,
}
use heliopause.Application.SetInspect.{decide_set}
use heliopause.Application.SetInspect.Judged.{
  IsSetJudged, decide_set-IsSetJudged, derive_if-Ensures, inspect_dependencies-Ensures,
}
use heliopause.Application.Workflow.{GraphReport, History, InstallPorts}
use heliopause.Application.Workflow.Ensures.{
  >>=-OnOk, Ensures-after, Ensures-closed, Ensures-pure, Ensures-try, IsOrderly, Keeps, Keeps-ask,
  Keeps-on, Keeps-pure, Keeps-try, OnOk, is_gate,
}
use heliopause.Base.{
  All, Bool-cases, List, Option, Result, String, [], err, false, inl, inr, is_empty, length,
  length-map, map, map-All, none, ok, refl, some, subst, ◌≡◌,
}
use heliopause.Domain.Artifact.{AcquiredArtifact}
use heliopause.Domain.Graph.{LockedDependencyGraph}
use heliopause.Domain.Identifier.{OperationId}
use heliopause.Domain.Inspected.{DependencyResolution, InspectedDependencySet}

-- The resolver gave the resolution for the request.
abbrev pub IsResolved : InstallPorts → InstallRequest → DependencyResolution → Type 0
IsResolved p request resolution =
    (h : History) × (p.resolve_dependencies h request.reference request.context ≡ ok resolution)

-- An install of the request with the resolver's resolution, whose set and decision are of what was
-- inspected.
pub record IsInspected (p : InstallPorts) (request : InstallRequest) (i : InspectedInstall)
    : Type 0 where
  pub same_request : i.request ≡ request
  pub resolution : DependencyResolution
  pub resolved : IsResolved p request resolution
  pub resolves : i.resolution ≡ some resolution
  pub set : InspectedDependencySet
  pub holds : i.set ≡ some set
  pub judged : IsSetJudged p set i.decision

module _ (p : InstallPorts) (operation_id : OperationId) (request : InstallRequest)
    (resolution : DependencyResolution) (is_resolved : IsResolved p request resolution) where
  inspect_nodes-Ensures :
      Keeps 0 (OnOk (IsInspected p request)) (inspect_nodes p operation_id request resolution)
  unfolding inspect_nodes new_inspected_install
  inspect_nodes-Ensures =
      Keeps-try _ _ (λ _. 0) _ _
        (Keeps-on _ (inspect_dependencies-Ensures p operation_id resolution.graph.nodes))
        λ entries js.
          Keeps-try _ _ (λ _. 0) _ _
            (Keeps-on _ (
              derive_if-Ensures p operation_id p.derive resolution.graph
                (map (λ e. e.inspection) entries) (map-All _ _ entries js)))
            λ g gs. Ensures-pure _ _ _ refl (
              >>=-OnOk _ (decide_set p g) _ λ d e. record {
                same_request = refl;
                resolution = resolution;
                resolved = is_resolved;
                resolves = refl;
                set = d.set;
                holds = refl;
                judged = decide_set-IsSetJudged p g d gs e;
              })

  finish_graph-Ensures :
      (reports : List GraphReport) (judged : List JudgedDependencyInspection)
      → All (IsDecided p reports) judged
      → Keeps 0
          (OnOk (IsInspected p request))
          (finish_graph p request resolution operation_id reports judged)
  unfolding finish_graph new_inspected_install
  finish_graph-Ensures reports judged ds =
      Keeps-try _ _ (λ _. 0) _ _ (Keeps-on _ (Keeps-pure (record_judged reports judged)))
        λ entries r.
          Keeps-try _ _ (λ _. 0) _ _
            (Keeps-on _ (
              derive_if-Ensures p operation_id p.derive resolution.graph
                (map (λ e. e.inspection) entries)
                (record_judged-judges p reports judged entries ds r)))
            λ g gs. Ensures-pure _ _ _ refl (
              >>=-OnOk _ (decide_set p g) _ λ d e.
                >>=-OnOk _ (graph_static_diagnostics reports g.graph.nodes) _ λ ss _.
                  >>=-OnOk _ (graph_dynamic_install_diagnostics reports g.graph.nodes) _ λ ds _.
                    record {
                      same_request = refl;
                      resolution = resolution;
                      resolved = is_resolved;
                      resolves = refl;
                      set = d.set;
                      holds = refl;
                      judged = decide_set-IsSetJudged p g d gs e;
                    })

  inspect_graph_aware-Ensures :
      (inspector : History
        → LockedDependencyGraph
        → List AcquiredArtifact
        → Result (List GraphReport))
      → Keeps 0
          (OnOk (IsInspected p request))
          (inspect_graph_aware p inspector operation_id request resolution)
  unfolding inspect_graph_aware
  inspect_graph_aware-Ensures inspector =
      let graph = resolution.graph in
      Keeps-try _ _ length _ _ (acquire_all-Ensures p operation_id [] graph.nodes tt) λ pending h.
        let a = pending-Actives pending h in
        let l = length-map pending (λ i. i.run) in
        Ensures-closed _ (
          step_pending _ (λ _. 0) _ _ _ _ _ graph_codes.4 a l
            (Keeps-pure (artifacts_of pending graph.nodes))
            λ artifacts _.
              step_pending _ (λ _. 0) _ _ _ _ _ entry_codes.4 a l (Keeps-ask _ _ refl)
                λ reports _.
                  step_pending _ (λ _. 0) _ _ _ _ _ graph_codes.5 a l
                    (Keeps-pure (validate_graph_reports graph reports))
                    λ valid _. Keeps-on _ (
                      Keeps-try _ _ (λ _. 0) _ _
                        (Keeps-on _ (judge_all-Ensures p reports pending h))
                        λ judged ds. finish_graph-Ensures reports judged ds))

  pub inspect_resolution-Ensures :
      (inspection : Option
        (History → LockedDependencyGraph → List AcquiredArtifact → Result (List GraphReport)))
      → Keeps 0
          (OnOk (IsInspected p request))
          (inspect_resolution p inspection operation_id request resolution)
  unfolding inspect_resolution
  inspect_resolution-Ensures none = inspect_nodes-Ensures
  inspect_resolution-Ensures (some inspector) =
      elim (Bool-cases (is_empty resolution.graph.edges)) [
        | inl e ↦ rw e inspect_nodes-Ensures
        | inr e ↦ rw e (inspect_graph_aware-Ensures inspector)
      ]

-- Of what an inspection returns: a whole install, or an error.
abbrev pub OnInstall :
    (InspectedInstall → Type 0) → Option InspectedInstall → Option String → Type 0
OnInstall P i (some e) = Unit
OnInstall P (some i) none = P i
OnInstall P none none = ⊥

abbrev pub OnInspected : (InspectedInstall → Type 0) → InspectOutcome → Type 0
OnInspected P o = OnInstall P o.install o.error

concluded-OnInspected :
    (P : InspectedInstall → Type 0) (i : InspectedInstall) (r : Result InspectedInstall)
    → OnOk P r
    → OnInspected P (concluded i r)
concluded-OnInspected P i (ok install) h = h
concluded-OnInspected P i (err e) h = tt

pub inspect_install-Ensures :
    (p : InstallPorts) (request : InstallRequest)
    → Keeps 0 (OnInspected (IsInspected p request)) (inspect_install p request)
unfolding inspect_install
inspect_install-Ensures p request =
    Ensures-try (λ _. 0) _ _ _ _ _ _ (Keeps-pure _) (λ e. Ensures-pure _ _ _ refl tt)
      λ valid _.
        Ensures-try (λ _. 0) _ _ _ _ _ _ (Keeps-ask _ _ refl) (λ e. Ensures-pure _ _ _ refl tt)
          λ operation_id _.
            Ensures-try (λ _. 0) _ _ _ _ _ _ (Keeps-ask _ _ refl) (λ e. Ensures-pure _ _ _ refl tt)
              λ resolution answer.
                Ensures-after (λ _. 0) _ _ _ _ _
                  (inspect_resolution-Ensures p operation_id request resolution answer
                    p.inspect_graph)
                  λ inspected h. Ensures-pure _ _ _ refl (concluded-OnInspected _ _ inspected h)

pub first_world-IsOrderly : IsOrderly 0 first_world
first_world-IsOrderly = record { ungated = tt; closed = tt; balance = refl }

-- An inspection from a world without calls that ends without an error keeps its request and holds
-- the resolution that the resolver answered to it, and a set that the set policy gave the decision
-- on: it has an inspection of every node of its graph, each is of a node and of what was locked for
-- it, and was judged by the entry policy on an input of its own run, artifact and evidence. The
-- inspection passes nothing to the manifest, the staging or the promotion.
pub inspect_install-IsInspected :
    (p : InstallPorts) (request : InstallRequest) (i : InspectedInstall)
    → (inspect_install p request first_world).value ≡ record { install = some i; error = none }
    → IsInspected p request i
      × All (λ c. is_gate c ≡ false) (inspect_install p request first_world).world.history
inspect_install-IsInspected p request i h =
    let (o, j) = (inspect_install-Ensures p request).at first_world first_world-IsOrderly in
    (subst (λ t. OnInspected (IsInspected p request) t) h j, o.ungated)
