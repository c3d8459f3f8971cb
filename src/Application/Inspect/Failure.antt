-- ===== src/Application/Inspect/Failure.antt =====
-- internal/application/inspect.go: how the failures of an inspection are reported.
use Prim.Native.Char.{code}
use heliopause.Application.Inspect.{
  Outcome, attempt, fail_run, failed_before_run, outcome_of, refuse,
}
use heliopause.Base.{
  Bool, List, Option, Result, Result-cases, String, [], ap, arith, err, false, inl, inr, is_empty,
  is_ok, list_eq, nat_eq, none, ok, refl, some, true, ◌∷◌, ◌≡◌,
}
use heliopause.Domain.Artifact.{
  ArtifactReference, ContentDigest, ResolvedArtifactIdentity, text_is_bounded,
  validate_bounded_text,
}
use heliopause.Domain.Check.{CheckExecution}
use heliopause.Domain.Evidence.{EvidenceReference, contains_sensitive_evidence, lower_rune}
use heliopause.Domain.Identifier.{OperationId}
use heliopause.Domain.Operation.{
  OperationError, OperationResult, OperationStatus, is_completed_status,
  new_inspect_operation_result, new_operation_error,
}
use heliopause.Domain.Operation.Axes.{AxesFit, new_inspect_operation_result-iff-AxesFit}
use heliopause.Domain.Run.{InspectionRun, active, finalize_failed}
use heliopause.Text.{Text, codes, lower}
use heliopause.Text.Pattern.{failure_code_pattern}
use heliopause.Text.Utf8.{ends_in_space, is_control, runes, starts_with_space}

abbrev pub is_absent : Option String → Bool
is_absent none = true
is_absent (some e) = false

-- An outcome with a result: without an error it is a completed one, with an error a failed one.
abbrev pub Reported : Outcome → Type 0
Reported o =
    (r : OperationResult) × (o.result ≡ some r)
    × AxesFit r.status r
    × (is_completed_status r.status ≡ is_absent o.error)

-- A failure code and its message that the domain accepts.
abbrev pub Known : Text → Text → Type 0
Known code message =
    (failure_code_pattern code ≡ true) × (is_ok (new_operation_error code message) ≡ true)

pub attempt-Reported {ℓ} :
    {A : Type ℓ} (m : Result A) (fail : String → Outcome) (continue : A → Outcome)
    → ((e : String) → m ≡ err e → Reported (fail e))
    → ((a : A) → m ≡ ok a → Reported (continue a))
    → Reported (attempt m fail continue)
attempt-Reported (ok a) fail continue f c = c a refl
attempt-Reported (err e) fail continue f c = f e refl

-- A result that the domain accepts is reported as it is.
built-Reported :
    (d : OperationResult) (x : Option String) (fail : String → Outcome)
    → is_empty d.operation_id.value ≡ false
    → is_empty d.reference.source.value ≡ false
    → AxesFit d.status d
    → is_completed_status d.status ≡ is_absent x
    → Reported
        (attempt (new_inspect_operation_result d) fail (λ r. record { result = some r; error = x }))
built-Reported d x fail o s a c =
    rw ((new_inspect_operation_result-iff-AxesFit d d).1 (o, s, a, refl)) (d, refl, a, c)

-- What an accepted error carries.
new_operation_error-eq_ok :
    (code message : Text) (e : OperationError)
    → failure_code_pattern code ≡ true
    → new_operation_error code message ≡ ok e
    → is_empty e.code ≡ false
unfolding new_operation_error
new_operation_error-eq_ok [] message e k h = unfold failure_code_pattern in cc
new_operation_error-eq_ok (c ∷ code) message e k h = ground arith

-- A run that can still fail, and the reference that it was made for.
pub record IsRunning (run : InspectionRun) (reference : ArtifactReference) : Type 0 where
  pub active_run : run.lifecycle ≡ active
  pub operation : is_empty run.operation_id.value ≡ false
  pub run_named : is_empty run.id.value ≡ false
  pub referenced : is_empty reference.source.value ≡ false

module _ (code message : Text) (known : Known code message) (cause : String) where
  pub failed_before_run-Reported :
      (op : OperationId) (reference : ArtifactReference) (identity : ResolvedArtifactIdentity)
      → is_empty op.value ≡ false
      → is_empty reference.source.value ≡ false
      → Reported (failed_before_run op reference identity code message cause)
  unfolding failed_before_run
  failed_before_run-Reported op reference identity o s =
      elim (Result-cases (new_operation_error code message)) [
        | inr (x, e) ↦ cc (known.1, ap is_ok e)
        | inl (oe, e) ↦ rw e (
            built-Reported _ (some cause) (λ x. refuse cause) o s
              (refl, new_operation_error-eq_ok code message oe known.0 e, inl (refl, refl)) refl)
      ]

  pub fail_run-Reported :
      (run : InspectionRun) (reference : ArtifactReference) (digest : ContentDigest)
      (checks : List CheckExecution) (references : List EvidenceReference)
      → IsRunning run reference
      → Reported (fail_run run reference digest checks references code message cause)
  unfolding fail_run finalize_failed
  fail_run-Reported run reference digest checks references v =
      elim (Result-cases (new_operation_error code message)) [
        | inr (x, e) ↦ cc (known.1, ap is_ok e)
        | inl (oe, e) ↦
            rw (v.active_run, known.0, e)
              (built-Reported _ (some cause) (λ x. refuse cause) v.operation v.referenced
                (refl, new_operation_error-eq_ok code message oe known.0 e, inr (v.run_named, refl))
                refl)
      ]

-- The codes and messages of the workflow.
pub Known-codes :
    Known (codes "ARTIFACT_RESOLVE_FAILED") (codes "Artifact identity resolution failed.")
    × Known
        (codes "RUN_ID_GENERATION_FAILED")
        (codes "Inspection Run identifier generation failed.")
    × Known (codes "RUN_CREATION_FAILED") (codes "Inspection Run creation failed.")
    × Known (codes "RUN_ACTIVATION_FAILED") (codes "Inspection Run activation failed.")
    × Known (codes "ARTIFACT_ACQUIRE_FAILED") (codes "Artifact acquisition failed.")
    × Known (codes "ARTIFACT_BINDING_FAILED") (codes "Acquired Artifact binding failed.")
    × Known
        (codes "VERIFICATION_PROVIDER_FAILED")
        (codes "Artifact verification failed operationally.")
    × Known (codes "INSPECTION_PROVIDER_FAILED") (codes "Artifact inspection failed operationally.")
    × Known (codes "EVIDENCE_RECORD_FAILED") (codes "Evidence recording failed.")
    × Known (codes "POLICY_INPUT_INVALID") (codes "Policy input construction failed.")
    × Known (codes "POLICY_EVALUATION_FAILED") (codes "Policy evaluation failed operationally.")
    × Known (codes "RUN_FINALIZATION_FAILED") (codes "Inspection Run finalization failed.")
unfolding new_operation_error failure_code_pattern validate_bounded_text text_is_bounded runes
    starts_with_space ends_in_space is_control contains_sensitive_evidence lower_rune lower
Known-codes = (
  (refl, refl),
  (refl, refl),
  (refl, refl),
  (refl, refl),
  (refl, refl),
  (refl, refl),
  (refl, refl),
  (refl, refl),
  (refl, refl),
  (refl, refl),
  (refl, refl),
  (refl, refl),
)

pub completed-Reported :
    (d : OperationResult)
    → is_empty d.operation_id.value ≡ false
    → is_empty d.reference.source.value ≡ false
    → d.status ≡ OperationStatus.completed
    → AxesFit OperationStatus.completed d
    → Reported (outcome_of (new_inspect_operation_result d))
completed-Reported d o s e a =
    let axes : AxesFit d.status d = rw e a in
    rw ((new_inspect_operation_result-iff-AxesFit d d).1 (o, s, axes, refl))
      (d, refl, axes, rw e refl)
