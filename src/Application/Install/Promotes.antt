-- ===== src/Application/Install/Promotes.antt =====
-- internal/application/install_promote.go, internal/policy/m4.go: when an install is promoted.
use heliopause.Application.Diagnostic.{InspectedInstall, InstallRequest}
use heliopause.Application.Install.{
  InstallResult, first_world, hand_on, inspect_install, install, install_inspected,
}
use heliopause.Application.Install.Inspected.{
  IsInspected, OnInspected, first_world-IsOrderly, inspect_install-Ensures,
}
use heliopause.Application.Install.Phases.{try-cases}
use heliopause.Application.Workflow.{History, InstallPorts, Ran, World, after, ask, pure}
use heliopause.Base.{
  Option, Result, String, [], ap, err, is_ok, none, ok, refl, some, subst, sym, true, ◌∙◌, ◌≡◌,
}
use heliopause.Domain.Identifier.{OperationId}
use heliopause.Domain.Inspected.{DependencyResolution, InspectedDependencySet}
use heliopause.Domain.Install.{InstallContext}
use heliopause.Domain.Run.{is_allow}
use heliopause.Domain.Verified.{PromotedInstall, StagedSet, VerifiedBundle, VerifiedSet}
use heliopause.Policy.M4.{m4_evaluate_set}
use heliopause.Policy.Promotion.{m4_evaluate_set-verified}

-- Ports of the gate that answer.
pub record Answers (p : InstallPorts) : Type 0 where
  pub builds_all :
      (h : History) (op : OperationId) (context : InstallContext)
      (resolution : Option DependencyResolution) (v : VerifiedSet)
      → is_ok (p.build_manifest h op context resolution v) ≡ true
  pub stages_all : (h : History) (bundle : VerifiedBundle) → is_ok (p.stage h bundle) ≡ true
  pub promotes_all :
      (h : History) (set : StagedSet) (bundle : VerifiedBundle) (context : InstallContext)
      → is_ok (p.promote h set bundle context) ≡ true

answered-ok {ℓ} : {A : Type ℓ} {r : Result A} {e : String} → is_ok r ≡ true → r ≡ err e → ⊥
answered-ok o h = cc (o, ap is_ok h)

pub IsPromoted : Ran InstallResult → Type 0
IsPromoted ran =
    (done : PromotedInstall) × (ran.value.outcome.promoted ≡ some done)
    × (ran.value.outcome.failure_code ≡ [])
    × (ran.value.error ≡ none)

hand_on-IsPromoted :
    (p : InstallPorts) (request : InstallRequest) (i : InspectedInstall) (w : World)
    → ((s : InspectedDependencySet) → p.evaluate_set s ≡ m4_evaluate_set s)
    → Answers p
    → IsInspected p request i
    → is_allow i.decision.decision ≡ true
    → IsPromoted (hand_on p request i w)
unfolding IsPromoted hand_on pure ask
hand_on-IsPromoted p request i w m4 answers j a =
    let judged : m4_evaluate_set j.set ≡ ok i.decision = sym (m4 j.set) ∙ j.judged.judges in
    try-cases IsPromoted _ _ _ w
      (λ e refused.
        absurd (cc (rw j.holds at refused, m4_evaluate_set-verified j.set i.decision judged a)))
      λ v e.
        try-cases IsPromoted _ _ _ _ (λ x b. absurd (answered-ok (answers.builds_all _ _ _ _ v) b))
          λ bundle b.
            try-cases IsPromoted _ _ _ _
              (λ x b. absurd (answered-ok (answers.stages_all _ bundle) b))
              λ set s.
                try-cases IsPromoted _ _ _ _
                  (λ x b. absurd (answered-ok (answers.promotes_all _ set bundle _) b))
                  λ done d. (done, refl, refl, refl)

-- With the set policy of internal/policy, and manifest, staging and promotion ports that always
-- answer, an install whose inspection ends without an error and with ALLOW ends without an error,
-- with a promoted install and no failure code.
pub install-IsPromoted :
    (p : InstallPorts) (request : InstallRequest) (i : InspectedInstall)
    → ((s : InspectedDependencySet) → p.evaluate_set s ≡ m4_evaluate_set s)
    → Answers p
    → (inspect_install p request first_world).value ≡ record { install = some i; error = none }
    → is_allow i.decision.decision ≡ true
    → IsPromoted (install p request first_world)
unfolding install after install_inspected
install-IsPromoted p request i m4 answers h a =
    let (o, j) = (inspect_install-Ensures p request).at first_world first_world-IsOrderly in
    rw (h, a)
      (hand_on-IsPromoted p request i _ m4 answers
        (subst (λ t. OnInspected (IsInspected p request) t) h j) a)
