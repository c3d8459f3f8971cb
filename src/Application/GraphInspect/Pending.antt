-- ===== src/Application/GraphInspect/Pending.antt =====
-- internal/application/install_inspect.go: the runs that the graph-aware inspection has in use.
use heliopause.Application.Entry.{closed_run}
use heliopause.Application.Entry.Judged.{closed_run-failed}
use heliopause.Application.GraphInspect.{PendingDependencyInspection, fail_pending}
use heliopause.Application.Workflow.{Workflow, try}
use heliopause.Application.Workflow.Ensures.{
  Ensures, Ensures-put_away, Ensures-try, Keeps, OnOk, on_result,
}
use heliopause.Base.{
  All, All-map, List, Result, String, arith, err, length, length-map, map, map-All, refl, true, ℕ,
  ◌≡◌,
}
use heliopause.Domain.Run.{InspectionRun, active, finalize_failed}
use heliopause.Text.{Text, codes}
use heliopause.Text.Pattern.{failure_code_pattern}

-- An artifact that was acquired and verified for its node, whose run is active.
pub record IsPending (i : PendingDependencyInspection) : Type 0 where
  pub runs : i.run.lifecycle ≡ active
  pub same_identity : i.artifact.identity ≡ i.dependency.artifact.identity

pub graph_codes :
    (failure_code_pattern (codes "RUN_ID_GENERATION_FAILED") ≡ true)
    × (failure_code_pattern (codes "REFERENCE_INVALID") ≡ true)
    × (failure_code_pattern (codes "RUN_CREATION_FAILED") ≡ true)
    × (failure_code_pattern (codes "ARTIFACT_BINDING_INVALID") ≡ true)
    × (failure_code_pattern (codes "DEPENDENCY_ARTIFACTS_INVALID") ≡ true)
    × (failure_code_pattern (codes "INSPECTION_REPORT_INVALID") ≡ true)
unfolding failure_code_pattern
graph_codes = (refl, refl, refl, refl, refl, refl)

abbrev pub Actives : List InspectionRun → Type 0
Actives runs = All (λ r. r.lifecycle ≡ active) runs

pub pending-Actives :
    (pending : List PendingDependencyInspection)
    → All IsPending pending
    → Actives (map (λ i. i.run) pending)
pending-Actives pending h = map-All _ _ pending (All-map (λ i h. h.runs) pending h)

-- A failure puts all runs away, finalized.
pub fail_pending-Ensures {ℓ} :
    {A : Type ℓ} {n : ℕ} (K : A → ℕ) (P : A → Type ℓ) (runs : List InspectionRun) (why : Text)
    (e : String)
    → failure_code_pattern why ≡ true
    → Actives runs
    → length runs ≡ n
    → Ensures n (on_result K 0) (OnOk P) (fail_pending runs why e)
unfolding fail_pending
fail_pending-Ensures K P runs why e k a l =
    Ensures-put_away _ _ _ (err e)
      (omega (arith, length-map runs (λ r. closed_run r (finalize_failed why r)), l))
      (map-All _ _ runs (All-map (λ r h. closed_run-failed r why h k) runs a)) tt

-- A step of a loop, with some runs in use.
pub step_pending {ℓ} :
    {A B : Type ℓ} {n : ℕ} (Q : A → Type ℓ) (K : B → ℕ) (P : B → Type ℓ) (runs : List InspectionRun)
    (why : Text) (m : Workflow (Result A)) (next : A → Workflow (Result B))
    → failure_code_pattern why ≡ true
    → Actives runs
    → length runs ≡ n
    → Keeps n (OnOk Q) m
    → ((a : A) → Q a → Ensures n (on_result K 0) (OnOk P) (next a))
    → Ensures n (on_result K 0) (OnOk P) (try m (fail_pending runs why) next)
step_pending {n = n} Q K P runs why m next k a l em en =
    Ensures-try (λ _. n) Q (on_result K 0) (OnOk P) m _ next em
      (λ e. fail_pending-Ensures K P runs why e k a l) en
