-- ===== src/Application/Inspect/Report.antt =====
-- internal/application/inspect.go: what an inspection reports, from its start to its decision.
use heliopause.Application.Inspect.{
  InspectPorts, check_run, decide_run, inspect, no_digest, start_run,
}
use heliopause.Application.Inspect.Failure.{
  IsRunning, Known-codes, Reported, attempt-Reported, completed-Reported, fail_run-Reported,
  failed_before_run-Reported,
}
use heliopause.Base.{List, [], arith, false, is_empty, list_eq, nat_eq, ok, refl, some, ◌≡◌}
use heliopause.Domain.Artifact.{
  AcquiredArtifact, ArtifactReference, ResolvedArtifact, ResolvedArtifactIdentity,
}
use heliopause.Domain.Check.{CheckExecution}
use heliopause.Domain.Evidence.{EvidenceReference}
use heliopause.Domain.Identifier.{OperationId, RunId}
use heliopause.Domain.Operation.{PolicyInput, new_policy_input, zero_identity}
use heliopause.Domain.Run.{
  InspectionRun, PolicyDecision, activate, active, bind_acquired_artifact, created,
  finalize_completed, new_inspection_run,
}

module _ (p : InspectPorts) (reference : ArtifactReference) where
  -- A run with its artifact bound, and a source that is named.
  record IsBound (run : InspectionRun) (artifact : AcquiredArtifact) : Type 0 where
    running : IsRunning run reference
    identified : is_empty run.identity.source.value ≡ false
    digested : is_empty artifact.digest.value ≡ false

  finalize_completed-named :
      (d : PolicyDecision) (run done : InspectionRun)
      → finalize_completed d run ≡ ok done
      → is_empty d.policy_id ≡ false
  unfolding finalize_completed
  finalize_completed-named d run done h = ground arith

  decide_run-Reported :
      (run : InspectionRun) (artifact : AcquiredArtifact) (checks : List CheckExecution)
      (references : List EvidenceReference) (input : PolicyInput)
      → IsBound run artifact
      → Reported (decide_run p reference run artifact checks references input)
  unfolding decide_run
  decide_run-Reported run artifact checks references input v =
      attempt-Reported (p.evaluate input) _ _
        (λ x _.
          fail_run-Reported _ _ Known-codes.10 x run reference artifact.digest checks references
            v.running)
        λ decision _.
          attempt-Reported (finalize_completed decision run) _ _
            (λ x _.
              fail_run-Reported _ _ Known-codes.11 x run reference artifact.digest checks references
                v.running)
            λ done e. completed-Reported _ v.running.operation v.running.referenced refl (
              v.running.run_named,
              refl,
              v.identified,
              v.digested,
              finalize_completed-named decision run done e,
              refl,
            )

  check_run-Reported :
      (run : InspectionRun) (artifact : AcquiredArtifact)
      → IsBound run artifact
      → Reported (check_run p reference run artifact)
  unfolding check_run
  check_run-Reported run artifact v =
      attempt-Reported (p.verify artifact) _ _
        (λ x _. fail_run-Reported _ _ Known-codes.6 x run reference artifact.digest [] [] v.running)
        λ report _.
          attempt-Reported (p.inspect artifact) _ _
            (λ x _.
              fail_run-Reported _ _ Known-codes.7 x run reference artifact.digest _ [] v.running)
            λ inspected _.
              attempt-Reported (p.record_evidence run.id _) _ _
                (λ x _.
                  fail_run-Reported _ _ Known-codes.8 x run reference artifact.digest _ []
                    v.running)
                λ references _.
                  attempt-Reported (new_policy_input run.id artifact report inspected references) _
                    _
                    (λ x _.
                      fail_run-Reported _ _ Known-codes.9 x run reference artifact.digest _ _
                        v.running)
                    λ input _. decide_run-Reported run artifact _ references input v

  -- What a new run brings to its start.
  record IsNew (run : InspectionRun) : Type 0 where
    created_run : run.lifecycle ≡ created
    operation : is_empty run.operation_id.value ≡ false
    run_named : is_empty run.id.value ≡ false
    identified : is_empty run.identity.source.value ≡ false

  new_inspection_run-IsNew :
      (id : RunId) (op : OperationId) (identity : ResolvedArtifactIdentity) (run : InspectionRun)
      → new_inspection_run id op reference identity ≡ ok run
      → IsNew run
  unfolding new_inspection_run
  new_inspection_run-IsNew id op identity run h = ground arith

  bind_acquired_artifact-IsBound :
      (artifact : AcquiredArtifact) (run bound : InspectionRun)
      → IsRunning run reference
      → is_empty run.identity.source.value ≡ false
      → bind_acquired_artifact artifact run ≡ ok bound
      → IsBound bound artifact
  unfolding bind_acquired_artifact
  bind_acquired_artifact-IsBound artifact run bound v i h = ground arith

  start_run-Reported :
      (resolved : ResolvedArtifact) (run : InspectionRun)
      → IsNew run
      → is_empty reference.source.value ≡ false
      → Reported (start_run p reference resolved run)
  unfolding start_run activate
  start_run-Reported resolved run v s =
      let run' = record run { lifecycle = active } in
      let running : IsRunning run' reference = record {
        active_run = refl;
        operation = v.operation;
        run_named = v.run_named;
        referenced = s;
      } in
      rw v.created_run (
        attempt-Reported (p.acquire run.id resolved) _ _
          (λ x _. fail_run-Reported _ _ Known-codes.4 x run' reference no_digest [] [] running)
          λ artifact _.
            attempt-Reported (bind_acquired_artifact artifact run') _ _
              (λ x _. fail_run-Reported _ _ Known-codes.5 x run' reference no_digest [] [] running)
              λ bound e.
                check_run-Reported bound artifact
                  (bind_acquired_artifact-IsBound artifact run' bound running v.identified e))

-- With a live context, a named source and an operation identifier, every inspection gives one
-- result, whose axes fit its status: a completed one without an error, a failed one with its cause.
pub inspect-Reported :
    (p : InspectPorts) (reference : ArtifactReference) (op : OperationId)
    → is_empty reference.source.value ≡ false
    → p.new_operation_id ≡ ok op
    → is_empty op.value ≡ false
    → Reported (inspect p (some (ok tt)) reference)
unfolding inspect
inspect-Reported p reference op s e o = rw s (
    attempt-Reported p.new_operation_id _ _ (λ x h. cc (e, h))
      λ op' h.
        let named : is_empty op'.value ≡ false = ground arith in
        attempt-Reported (p.resolve reference) _ _
          (λ x _.
            failed_before_run-Reported _ _ Known-codes.0 x op' reference zero_identity named s)
          λ resolved _.
            attempt-Reported p.new_run_id _ _
              (λ x _.
                failed_before_run-Reported _ _ Known-codes.1 x op' reference resolved.identity named
                  s)
              λ run_id _.
                attempt-Reported (new_inspection_run run_id op' reference resolved.identity) _ _
                  (λ x _.
                    failed_before_run-Reported _ _ Known-codes.2 x op' reference resolved.identity
                      named s)
                  λ run h'.
                    start_run-Reported p reference resolved run
                      (new_inspection_run-IsNew p reference run_id op' resolved.identity run h') s)
