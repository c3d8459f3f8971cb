-- ===== src/Tests/Runs.antt =====
-- Runs, sandboxes, policy inputs and the inspect workflow at the sample artifact.
use heliopause.Application.Inspect.{check_run, decide_run, inspect, start_run}
use heliopause.Application.Inspect.Failure.{Reported}
use heliopause.Application.Inspect.Provenance.{IsJudged, inspect-IsJudged}
use heliopause.Application.Inspect.Report.{inspect-Reported}
use heliopause.Base.{
  All, List, [], ap, false, is_empty, list_eq, map, nat_eq, none, ok, refl, some, ℕ, ◌++◌, ◌↔◌, ◌∷◌,
  ◌≡◌,
}
use heliopause.Base.Coverage.{Distinct}
use heliopause.Domain.Check.{inspection, verification}
use heliopause.Domain.Evidence.{evidence_id_eq}
use heliopause.Domain.Operation.{
  OperationResult, OperationStatus, check_references, distinct_ids, new_inspect_operation_result,
  new_policy_input,
}
use heliopause.Domain.Operation.Axes.{AxesFit, new_inspect_operation_result-iff-AxesFit}
use heliopause.Domain.Operation.Input.{IsReferenced, new_policy_input-covers}
use heliopause.Domain.Run.{
  InspectionRun, RunOutcome, activate, bind_acquired_artifact, finalize_completed, finalized,
  new_inspection_run,
}
use heliopause.Domain.Run.Lifecycle.{
  Call, IsConsistent, activates, binds, calls, calls-finalized, calls-new_inspection_run, completes,
  fails,
}
use heliopause.Domain.Sandbox.{
  ObservationCategory, SandboxObservation, SandboxResult, SandboxStatus, collect_observations,
  merge_observation, new_sandbox_result, observation_key, saturating_add,
}
use heliopause.Domain.Sandbox.Merge.{InRange, cap, keys, new_sandbox_result-merges, sum_for}
use heliopause.Tests.Data.{
  m3_allowed, sample_artifact, sample_check, sample_identity, sample_input, sample_inspection,
  sample_operation_id, sample_ports, sample_reference, sample_references, sample_result, sample_run,
  sample_run_id, sample_verification,
}
use heliopause.Text.{Text, codes}

built_run :
    new_inspection_run sample_run_id sample_operation_id sample_reference
      (sample_identity (codes "lib"))
    ≡ ok sample_run
unfolding new_inspection_run
built_run = refl

-- A whole life, with a call that is refused at its end.
abbrev sample_calls : List Call
sample_calls =
    activates
    ∷ binds (sample_artifact (codes "lib"))
    ∷ completes m3_allowed
    ∷ fails (codes "LATE")
    ∷ []

calls-new_inspection_run_example : IsConsistent (calls sample_run sample_calls)
calls-new_inspection_run_example =
    calls-new_inspection_run sample_run_id sample_operation_id sample_reference
      (sample_identity (codes "lib")) sample_run sample_calls built_run

abbrev finalized_run : InspectionRun
finalized_run = record sample_run {
  lifecycle = finalized;
  outcome = RunOutcome.failed;
  failure_code = codes "LATE";
}

calls-finalized_example : calls finalized_run sample_calls ≡ finalized_run
calls-finalized_example = calls-finalized finalized_run sample_calls refl

inspect-Reported_example : Reported (inspect sample_ports (some (ok tt)) sample_reference)
inspect-Reported_example =
    inspect-Reported sample_ports sample_reference sample_operation_id refl refl refl

built_result : new_inspect_operation_result sample_result ≡ ok sample_result
unfolding new_inspect_operation_result
built_result = refl

new_inspect_operation_result-iff-AxesFit_example :
    (new_inspect_operation_result sample_result ≡ ok sample_result) ↔ (
      (is_empty sample_result.operation_id.value ≡ false)
      × (is_empty sample_result.reference.source.value ≡ false)
      × AxesFit OperationStatus.completed sample_result
      × (sample_result ≡ sample_result))
new_inspect_operation_result-iff-AxesFit_example =
    new_inspect_operation_result-iff-AxesFit sample_result sample_result

built_input :
    new_policy_input sample_run_id
      (sample_artifact (codes "lib"))
      sample_verification
      sample_inspection
      sample_references
    ≡ ok sample_input
unfolding new_policy_input distinct_ids check_references
built_input = refl

new_policy_input-covers_example :
    (sample_input ≡ sample_input)
    × All
        (IsReferenced (sample_artifact (codes "lib")) sample_references)
        (sample_verification.evidence ++ sample_inspection.evidence)
    × Distinct (map (λ r. r.id) sample_references)
new_policy_input-covers_example =
    new_policy_input-covers sample_run_id (sample_artifact (codes "lib")) sample_verification
      sample_inspection sample_references sample_input built_input

abbrev sample_observation : ℕ → SandboxObservation
sample_observation count = record {
  category = ObservationCategory.network;
  subject = codes "dns";
  count = count;
}

-- Two counts of one subject, whose sum passes the maximum.
abbrev sample_sandbox : SandboxResult
sample_sandbox = record {
  session_id = record { value = codes "sbx_1" };
  status = SandboxStatus.completed;
  limitation = [];
  observed = sample_observation 10000 ∷ [];
}

built_sandbox :
    new_sandbox_result
      (record { value = codes "sbx_1" })
      SandboxStatus.completed
      []
      (sample_observation 6000 ∷ sample_observation 7000 ∷ [])
    ≡ ok sample_sandbox
unfolding new_sandbox_result collect_observations merge_observation observation_key saturating_add
built_sandbox = refl

new_sandbox_result-merges_example :
    ((k : Text)
      → sum_for k sample_sandbox.observed
        ≡ cap (sum_for k (sample_observation 6000 ∷ sample_observation 7000 ∷ [])))
    × Distinct (keys sample_sandbox.observed)
    × All InRange sample_sandbox.observed
new_sandbox_result-merges_example =
    new_sandbox_result-merges (record { value = codes "sbx_1" }) SandboxStatus.completed []
      (sample_observation 6000 ∷ sample_observation 7000 ∷ []) sample_sandbox built_sandbox

-- The result of the sample inspection.
abbrev inspected_result : OperationResult
inspected_result = record sample_result {
  checks = sample_check verification ∷ sample_check inspection ∷ [];
}

inspected_sample :
    inspect sample_ports (some (ok tt)) sample_reference
    ≡ record { result = some inspected_result; error = none }
unfolding inspect start_run check_run decide_run new_inspection_run activate bind_acquired_artifact
    new_policy_input distinct_ids check_references finalize_completed new_inspect_operation_result
inspected_sample = refl

inspect-IsJudged_example : IsJudged sample_ports sample_reference inspected_result
inspect-IsJudged_example =
    inspect-IsJudged sample_ports (some (ok tt)) sample_reference inspected_result
      (ap (λ o. o.result) inspected_sample) (ap (λ o. o.error) inspected_sample)
