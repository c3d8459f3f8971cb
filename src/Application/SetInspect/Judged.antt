-- ===== src/Application/SetInspect/Judged.antt =====
-- internal/application/install_inspect.go: the inspected set of an install, and its decisions.
use heliopause.Application.Entry.{DiagnosedEntry}
use heliopause.Application.Entry.Begun.{
  inspect_acquired_dependency-Ensures, inspect_dependency-Ensures,
}
use heliopause.Application.Entry.Judged.{IsEntryJudged}
use heliopause.Application.SetInspect.{
  DecidedSet, InspectedGraph, decide_set, derive_if, derive_with, inspect_dependencies,
  inspect_derived,
}
use heliopause.Application.Workflow.{History, InstallPorts}
use heliopause.Application.Workflow.Ensures.{
  Ensures-pure, Keeps, Keeps-ask, Keeps-on, Keeps-pure, Keeps-try, OnOk,
}
use heliopause.Base.{
  >>=-eq-ok, All, All-append, List, Option, Result, [], any, ap, arith, contains, list_eq, nat_eq,
  none, ok, refl, some, subst, sym, true, ◌==◌, ◌||◌, ◌∙◌, ◌∷◌, ◌≡◌,
}
use heliopause.Base.Order.{any-sort, sort, sort-All}
use heliopause.Domain.Derivation.{DerivedDependency, extend_locked_dependency_graph}
use heliopause.Domain.Graph.{
  DependencyNodeId, LockedDependency, LockedDependencyGraph, node_id_eq, node_ids,
}
use heliopause.Domain.Identifier.{OperationId}
use heliopause.Domain.Inspected.{
  DependencyInspection, InspectedDependencySet, new_inspected_dependency_set,
}
use heliopause.Domain.Inspected.Coverage.{
  Inspects, inspected_ids, new_inspected_dependency_set-covers,
}
use heliopause.Domain.Run.{PolicyDecision}
use heliopause.Text.{text_lt}

-- An inspection of some dependency, that the entry policy judged.
abbrev pub IsJudgedNode : InstallPorts → DependencyInspection → Type 0
IsJudgedNode p i = (d : LockedDependency) × IsEntryJudged p d i

module _ (p : InstallPorts) (operation_id : OperationId) where
  pub inspect_dependencies-Ensures :
      (nodes : List LockedDependency)
      → Keeps 0
          (OnOk (All (λ (e : DiagnosedEntry). IsJudgedNode p e.inspection)))
          (inspect_dependencies p operation_id nodes)
  unfolding inspect_dependencies
  inspect_dependencies-Ensures [] = Ensures-pure _ _ _ refl tt
  inspect_dependencies-Ensures (d ∷ nodes) =
      Keeps-try _ _ (λ _. 0) _ _ (Keeps-on _ (inspect_dependency-Ensures p operation_id d))
        λ entry j.
          Keeps-try _ _ (λ _. 0) _ _ (Keeps-on _ (inspect_dependencies-Ensures nodes))
            λ entries js. Ensures-pure _ _ _ refl ((d, j), js)

  inspect_derived-Ensures :
      (derived : List DerivedDependency)
      → Keeps 0 (OnOk (All (IsJudgedNode p))) (inspect_derived p operation_id derived)
  unfolding inspect_derived
  inspect_derived-Ensures [] = Ensures-pure _ _ _ refl tt
  inspect_derived-Ensures (item ∷ derived) =
      Keeps-try _ _ (λ _. 0) _ _
        (Keeps-on _ (
          inspect_acquired_dependency-Ensures p operation_id item.node item.artifact
            (item.check ∷ []) (item.evidence ∷ [])))
        λ entry j.
          Keeps-try _ _ (λ _. 0) _ _ (Keeps-on _ (inspect_derived-Ensures derived))
            λ more js. Ensures-pure _ _ _ refl ((item.node, j), js)

  derive_with-Ensures :
      (derive : History → List DependencyInspection → Result (List DerivedDependency))
      (graph : LockedDependencyGraph) (inspections : List DependencyInspection)
      → All (IsJudgedNode p) inspections
      → Keeps 0
          (OnOk (λ (g : InspectedGraph). All (IsJudgedNode p) g.inspections))
          (derive_with p derive operation_id graph inspections)
  unfolding derive_with
  derive_with-Ensures derive graph inspections js =
      Keeps-try _ _ (λ _. 0) _ _ (Keeps-on _ (Keeps-ask _ _ refl))
        λ derived _.
          Keeps-try _ _ (λ _. 0) _ _
            (Keeps-on _ (Keeps-pure (extend_locked_dependency_graph graph derived)))
            λ extended _.
              Keeps-try _ _ (λ _. 0) _ _ (Keeps-on _ (inspect_derived-Ensures derived))
                λ more more_js. Ensures-pure _ _ _ refl (All-append _ inspections more js more_js)

  pub derive_if-Ensures :
      (derivation : Option (History → List DependencyInspection → Result (List DerivedDependency)))
      (graph : LockedDependencyGraph) (inspections : List DependencyInspection)
      → All (IsJudgedNode p) inspections
      → Keeps 0
          (OnOk (λ (g : InspectedGraph). All (IsJudgedNode p) g.inspections))
          (derive_if p derivation operation_id graph inspections)
  unfolding derive_if
  derive_if-Ensures none graph inspections js = Ensures-pure _ _ _ refl js
  derive_if-Ensures (some derive) graph inspections js =
      derive_with-Ensures derive graph inspections js

-- A set that the set policy decided on, of inspections that the entry policy decided on.
pub record IsSetJudged (p : InstallPorts) (set : InspectedDependencySet) (decision : PolicyDecision)
    : Type 0 where
  pub judges : p.evaluate_set set ≡ ok decision
  pub entries : All (IsJudgedNode p) set.inspections
  pub subjects : All (Inspects set.graph.nodes) set.inspections
  pub covers :
      (k : DependencyNodeId)
      → contains k (node_ids set.graph.nodes) ≡ true
      → any (λ i. i.node == k) set.inspections ≡ true

contains-inspected_ids :
    (k : DependencyNodeId) (is : List DependencyInspection)
    → contains k (inspected_ids is) ≡ any (λ i. i.node == k) is
contains-inspected_ids k [] = refl
contains-inspected_ids k (i ∷ is) = ap (λ t. (i.node == k) || t) (contains-inspected_ids k is)

new_inspected_dependency_set-kept :
    (graph : LockedDependencyGraph) (inspections : List DependencyInspection)
    (set : InspectedDependencySet)
    → new_inspected_dependency_set graph inspections ≡ ok set
    → set.inspections ≡ sort (λ a b. text_lt a.node.value b.node.value) inspections
unfolding new_inspected_dependency_set
new_inspected_dependency_set-kept graph inspections set h = ground arith

pub decide_set-IsSetJudged :
    (p : InstallPorts) (g : InspectedGraph) (d : DecidedSet)
    → All (IsJudgedNode p) g.inspections
    → decide_set p g ≡ ok d
    → IsSetJudged p d.set d.decision
unfolding decide_set
decide_set-IsSetJudged p g d js h =
    let (set, made, rest) = >>=-eq-ok (new_inspected_dependency_set g.graph g.inspections) _ h in
    let (decision, judged, same) = >>=-eq-ok (p.evaluate_set set) _ rest in
    let is_set : set ≡ d.set = ground arith in
    let is_decision : decision ≡ d.decision = ground arith in
    let kept = new_inspected_dependency_set-kept g.graph g.inspections set made in
    let (same_graph, _, subjects, _, covered) =
      new_inspected_dependency_set-covers g.graph g.inspections set made in
    let judged_set : IsSetJudged p set decision = record {
      judges = judged;
      entries = rw kept (sort-All _ _ g.inspections js);
      subjects = subst (λ t. All (Inspects t.nodes) set.inspections) (sym same_graph) subjects;
      covers = λ k h.
          ap (λ t. any (λ i. i.node == k) t) kept
          ∙ (any-sort _ (λ i. i.node == k) g.inspections
              ∙ (sym (contains-inspected_ids k g.inspections)
                  ∙ covered k (subst (λ t. contains k (node_ids t.nodes) ≡ true) same_graph h)));
    } in
    subst (λ t. IsSetJudged p t d.decision) is_set
      (subst (λ t. IsSetJudged p set t) is_decision judged_set)
