-- ===== src/Application/GraphInspect/Ensures.antt =====
-- internal/application/install_inspect.go: what the graph-aware inspection ensures.
use heliopause.Application.Entry.{locked_reference}
use heliopause.Application.Entry.Begun.{activated_run, bound_run, started_run}
use heliopause.Application.Entry.Judged.{entry_codes}
use heliopause.Application.GraphInspect.{
  PendingDependencyInspection, acquire_all, acquire_pending, bind_pending,
}
use heliopause.Application.GraphInspect.Pending.{
  Actives, IsPending, fail_pending-Ensures, graph_codes, pending-Actives, step_pending,
}
use heliopause.Application.Workflow.{InstallPorts}
use heliopause.Application.Workflow.Ensures.{
  Ensures, Ensures-create, Ensures-passed, Ensures-pure, Ensures-try, Keeps-ask, Keeps-pure, OnOk,
  on_result,
}
use heliopause.Base.{
  All, All-append, List, [], arith, err, length, length-append, length-map, map, refl, subst, suc,
  ◌++◌, ◌∙◌, ◌∷◌, ◌≡◌,
}
use heliopause.Domain.Artifact.{AcquiredArtifact}
use heliopause.Domain.Graph.{LockedDependency}
use heliopause.Domain.Identifier.{OperationId, RunId}
use heliopause.Domain.Run.{InspectionRun, active, bind_acquired_artifact, new_inspection_run}

module _ (p : InstallPorts) (operation_id : OperationId) where
  bind_pending-Ensures :
      (runs : List InspectionRun) (dependency : LockedDependency) (run_id : RunId)
      (run : InspectionRun) (artifact : AcquiredArtifact)
      → Actives runs
      → run.lifecycle ≡ active
      → run.identity ≡ dependency.artifact.identity
      → Ensures
          (suc (length runs))
          (on_result (λ _. suc (length runs)) 0)
          (OnOk IsPending)
          (bind_pending p runs dependency run_id run artifact)
  unfolding bind_pending
  bind_pending-Ensures runs dependency run_id run artifact a r i =
      step_pending _ _ _ _ _ _ _ entry_codes.2 (All-append _ runs (run ∷ []) a (r, tt))
        (omega (arith, length-append runs (run ∷ [])))
        (Keeps-pure (bind_acquired_artifact artifact run))
        λ bound b.
          let (r', i') = bound_run artifact run bound b in
          let all_active = All-append (λ r. r.lifecycle ≡ active) runs (bound ∷ []) a (r', tt) in
          let size : length (runs ++ bound ∷ []) ≡ suc (length runs) =
            omega (arith, length-append runs (bound ∷ [])) in
          step_pending _ _ _ _ _ _ _ graph_codes.3 all_active size (Keeps-pure _) λ fits _.
            step_pending _ _ _ _ _ _ _ entry_codes.3 all_active size (Keeps-ask _ _ refl)
              λ verification _.
                Ensures-pure _ _ _ refl (record { runs = r'; same_identity = i' ∙ i })

  acquire_pending-Ensures :
      (runs : List InspectionRun) (dependency : LockedDependency)
      → Actives runs
      → Ensures
          (length runs)
          (on_result (λ _. suc (length runs)) 0)
          (OnOk IsPending)
          (acquire_pending p operation_id runs dependency)
  unfolding acquire_pending
  acquire_pending-Ensures runs dependency a =
      step_pending _ _ _ _ _ _ _ graph_codes.0 a refl (Keeps-ask _ _ refl) λ run_id _.
        step_pending _ _ _ _ _ _ _ graph_codes.1 a refl
          (Keeps-pure (locked_reference dependency.artifact))
          λ reference _.
            Ensures-try _ _ _ _ _ _ _
              (Ensures-create
                (new_inspection_run run_id operation_id reference dependency.artifact.identity))
              (λ e. fail_pending-Ensures _ _ runs _ e graph_codes.2 a refl)
              λ r s.
                let (c, i) =
                  started_run run_id operation_id reference dependency.artifact.identity r s in
                let run : InspectionRun = record r { lifecycle = active } in
                Ensures-passed _ _ _ run _ _ (activated_run r c) (
                  step_pending _ _ _ _ _ _ _ entry_codes.1
                    (All-append _ runs (run ∷ []) a (refl, tt))
                    (omega (arith, length-append runs (run ∷ []))) (Keeps-ask _ _ refl)
                    λ artifact _. bind_pending-Ensures runs dependency run_id run artifact a refl i)

  pub acquire_all-Ensures :
      (pending : List PendingDependencyInspection) (nodes : List LockedDependency)
      → All IsPending pending
      → Ensures
          (length pending)
          (on_result length 0)
          (OnOk (All IsPending))
          (acquire_all p operation_id pending nodes)
  unfolding acquire_all
  acquire_all-Ensures pending [] h = Ensures-pure _ _ _ refl h
  acquire_all-Ensures pending (dependency ∷ nodes) h =
      Ensures-try (on_result (λ _. suc (length pending)) 0) IsPending _ _ _ _ _
        (subst
          (λ n.
            Ensures n (on_result (λ _. suc n) 0) (OnOk IsPending)
              (acquire_pending p operation_id (map (λ i. i.run) pending) dependency))
          (length-map pending (λ i. i.run))
          (acquire_pending-Ensures (map (λ i. i.run) pending) dependency
            (pending-Actives pending h)))
        (λ e. Ensures-pure _ _ (err e) refl tt)
        λ item j.
          let size : length (pending ++ item ∷ []) ≡ suc (length pending) =
            omega (arith, length-append pending (item ∷ [])) in
          subst
            (λ n.
              Ensures n (on_result length 0) (OnOk (All IsPending))
                (acquire_all p operation_id (pending ++ item ∷ []) nodes))
            size
            (acquire_all-Ensures (pending ++ item ∷ []) nodes
              (All-append _ pending (item ∷ []) h (j, tt)))
