-- ===== src/Domain/Operation/Axes.antt =====
-- internal/core/domain/operation.go: the axes of an inspect result.
use heliopause.Base.{
  Result-cases, ap, arith, false, inl, inr, is_empty, list_eq, nat_eq, ok, true, ◌↔◌, ◌≡◌, ◌⊎◌,
}
use heliopause.Domain.Operation.{
  OperationResult, OperationStatus, check_axes, new_inspect_operation_result,
}
use heliopause.Domain.Run.{RunOutcome}

-- What an accepted result says on each of its axes.
abbrev pub AxesFit : OperationStatus → OperationResult → Type 0
AxesFit OperationStatus.completed r =
    (is_empty r.run_id.value ≡ false)
    × (r.run_outcome ≡ RunOutcome.completed)
    × (is_empty r.resolved_identity.source.value ≡ false)
    × (is_empty r.digest.value ≡ false)
    × (is_empty r.decision.policy_id ≡ false)
    × (is_empty r.operational_error.code ≡ true)
AxesFit OperationStatus.failed r =
    (is_empty r.decision.policy_id ≡ true)
    × (is_empty r.operational_error.code ≡ false)
    × (((is_empty r.run_id.value ≡ true) × (r.run_outcome ≡ RunOutcome.unset))
        ⊎ ((is_empty r.run_id.value ≡ false) × (r.run_outcome ≡ RunOutcome.failed)))
AxesFit _ r = ⊥

check_axes_iff :
    (s : OperationStatus) (d : OperationResult) → (check_axes s d ≡ ok tt) ↔ AxesFit s d
check_axes_iff OperationStatus.completed d = (λ h. ground arith, λ h. ground arith)
check_axes_iff OperationStatus.failed d = (λ h. ground arith, λ h. ground arith)
check_axes_iff OperationStatus.paused d = (λ h. ground arith, λ h. ground arith)
check_axes_iff OperationStatus.not_performed d = (λ h. ground arith, λ h. ground arith)
check_axes_iff (OperationStatus.other s) d = (λ h. ground arith, λ h. ground arith)

-- A result is accepted exactly when it names its operation and source and its axes fit its status,
-- and it is kept as it is.
pub new_inspect_operation_result-iff-AxesFit :
    (d r : OperationResult)
    → (new_inspect_operation_result d ≡ ok r) ↔ (
        (is_empty d.operation_id.value ≡ false)
        × (is_empty d.reference.source.value ≡ false)
        × AxesFit d.status d
        × (d ≡ r))
unfolding new_inspect_operation_result
new_inspect_operation_result-iff-AxesFit d r =
    (accepted, λ h. built h.0 h.1 ((check_axes_iff d.status d).1 h.2) h.3)
  where
    checked :
        new_inspect_operation_result d ≡ ok r
        → (is_empty d.operation_id.value ≡ false)
          × (is_empty d.reference.source.value ≡ false)
          × (check_axes d.status d ≡ ok tt)
          × (d ≡ r)
    checked h = elim (Result-cases (check_axes d.status d)) [
      | inl (u, e) ↦ ground arith
      | inr (x, e) ↦ ground arith
    ]

    accepted :
        new_inspect_operation_result d ≡ ok r
        → (is_empty d.operation_id.value ≡ false)
          × (is_empty d.reference.source.value ≡ false)
          × AxesFit d.status d
          × (d ≡ r)
    accepted h = let c = checked h in (c.0, c.1, (check_axes_iff d.status d).0 c.2, c.3)

    built :
        is_empty d.operation_id.value ≡ false
        → is_empty d.reference.source.value ≡ false
        → check_axes d.status d ≡ ok tt
        → d ≡ r
        → new_inspect_operation_result d ≡ ok r
    built a b c e = rw (a, b, c) (ap ok e)
