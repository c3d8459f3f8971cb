-- ===== src/Application/Install/Phases.antt =====
-- internal/application/install_promote.go: the install as a machine of phases.
-- How far an install is, with what each port of the gate answered.
use heliopause.Application.Diagnostic.{InspectedInstall, InstallRequest}
use heliopause.Application.Install.{
  InstallOutcome, InstallResult, first_world, hand_on, install, install_inspected, verified_of,
}
use heliopause.Application.Install.Inspected.{
  IsInspected, OnInstall, first_world-IsOrderly, inspect_install-Ensures,
}
use heliopause.Application.SetInspect.Judged.{IsSetJudged}
use heliopause.Application.Workflow.{
  History, InstallPorts, Ran, Workflow, World, after, ask, builds, promotes, pure, resume, stages,
  try,
}
use heliopause.Application.Workflow.Ensures.{is_gate}
use heliopause.Base.{
  All, Bool-cases, Option, Result, String, [], err, false, inl, inr, none, ok, refl, some, subst,
  sym, ◌∷◌, ◌≡◌, ◌⊎◌,
}
use heliopause.Domain.Identifier.{OperationId}
use heliopause.Domain.Inspected.{DependencyResolution, InspectedDependencySet}
use heliopause.Domain.Run.{PolicyDecision, is_allow}
use heliopause.Domain.Verified.{
  PromotedInstall, StagedSet, VerifiedBundle, VerifiedSet, new_verified_set,
}
use heliopause.Text.{codes}

pub data Phase : Type 0 where
  inspecting : Phase
  after_build : Result VerifiedBundle → Phase
  after_stage : VerifiedBundle → Result StagedSet → Phase
  after_promote : VerifiedBundle → StagedSet → Result PromotedInstall → Phase

-- A phase is reached by calls in one order only. To build, a set must be of inspections that the entry
-- policy judged, all of them and the set itself allowed; the rest follows what was built from it.
pub data Reaches (p : InstallPorts) (request : InstallRequest) : History → Phase → Type 0 where
  looks : (h : History) → All (λ c. is_gate c ≡ false) h → Reaches p request h inspecting
  builds_set :
      (h : History) (op : OperationId) (resolution : DependencyResolution)
      (set : InspectedDependencySet) (decision : PolicyDecision) (verified : VerifiedSet)
      → Reaches p request h inspecting
      → IsSetJudged p set decision
      → new_verified_set set decision ≡ ok verified
      → Reaches p request
          (builds op request.context (some resolution) verified ∷ h)
          (after_build (p.build_manifest h op request.context (some resolution) verified))
  stages_bundle :
      (h : History) (bundle : VerifiedBundle)
      → Reaches p request h (after_build (ok bundle))
      → Reaches p request (stages bundle ∷ h) (after_stage bundle (p.stage h bundle))
  promotes_set :
      (h : History) (bundle : VerifiedBundle) (set : StagedSet)
      → Reaches p request h (after_stage bundle (ok set))
      → Reaches p request
          (promotes set bundle request.context ∷ h)
          (after_promote bundle set (p.promote h set bundle request.context))

-- What an install reports at the phase where it ends.
abbrev pub Reports : Phase → InstallOutcome → Option String → Type 0
Reports inspecting o (some e) =
    (o.bundle ≡ none)
    × (o.staged ≡ none)
    × (o.promoted ≡ none)
    × ((o.failure_code ≡ codes "INSTALL_INSPECTION_FAILED")
        ⊎ (o.failure_code ≡ codes "VERIFIED_SET_INVALID"))
Reports inspecting o none =
    (o.bundle ≡ none)
    × (o.staged ≡ none)
    × (o.promoted ≡ none)
    × (o.failure_code ≡ [])
    × ((i : InspectedInstall) × (o.inspection ≡ some i) × (is_allow i.decision.decision ≡ false))
Reports (after_build (err e)) o r =
    (o.bundle ≡ none)
    × (o.staged ≡ none)
    × (o.promoted ≡ none)
    × (o.failure_code ≡ codes "MANIFEST_GENERATION_FAILED")
    × (r ≡ some e)
Reports (after_stage bundle (err e)) o r =
    (o.bundle ≡ some bundle)
    × (o.staged ≡ none)
    × (o.promoted ≡ none)
    × (o.failure_code ≡ codes "STAGING_FAILED")
    × (r ≡ some e)
Reports (after_promote bundle set (err e)) o r =
    (o.bundle ≡ some bundle)
    × (o.staged ≡ some set)
    × (o.promoted ≡ none)
    × (o.failure_code ≡ codes "PROMOTION_FAILED")
    × (r ≡ some e)
Reports (after_promote bundle set (ok done)) o r =
    (o.bundle ≡ some bundle)
    × (o.staged ≡ some set)
    × (o.promoted ≡ some done)
    × (o.failure_code ≡ [])
    × (r ≡ none)
Reports _ o r = ⊥

-- An install that ended: the phase that its calls reached is the one it reports.
pub record Ended (p : InstallPorts) (request : InstallRequest) (h : History) (r : InstallResult)
    : Type 0 where
  pub phase : Phase
  pub reached : Reaches p request h phase
  pub reports : Reports phase r.outcome r.error

module _ {ℓ κ} {A : Type ℓ} {B : Type κ} (P : Ran B → Type 0) where
  resume-cases :
      (r : Result A) (fail : String → Workflow B) (next : A → Workflow B) (w : World)
      → ((e : String) → r ≡ err e → P (fail e w))
      → ((a : A) → r ≡ ok a → P (next a w))
      → P (resume r fail next w)
  resume-cases (ok a) fail next w f n = n a refl
  resume-cases (err e) fail next w f n = f e refl

  -- A step that fails, and one that passes.
  pub try-cases :
      (m : Workflow (Result A)) (fail : String → Workflow B) (next : A → Workflow B) (w : World)
      → ((e : String) → (m w).value ≡ err e → P (fail e (m w).world))
      → ((a : A) → (m w).value ≡ ok a → P (next a (m w).world))
      → P (try m fail next w)
  unfolding try
  try-cases m fail next w f n = resume-cases (m w).value fail next (m w).world f n

module _ (p : InstallPorts) (request : InstallRequest) where
  abbrev EndsWell : Ran InstallResult → Type 0
  EndsWell ran = Ended p request ran.world.history ran.value

  built_set :
      (h : History) (i : InspectedInstall) (v : VerifiedSet) (r : Result VerifiedBundle)
      → Reaches p request h inspecting
      → IsInspected p request i
      → verified_of i ≡ ok v
      → p.build_manifest h i.operation_id request.context i.resolution v ≡ r
      → Reaches p request (builds i.operation_id request.context i.resolution v ∷ h) (after_build r)
  built_set h i v r reach is_inspected e b =
      subst
        (λ t.
          Reaches p request (builds i.operation_id request.context i.resolution v ∷ h)
            (after_build t))
        b
        (subst
          (λ t.
            Reaches p request (builds i.operation_id request.context t v ∷ h)
              (after_build (p.build_manifest h i.operation_id request.context t v)))
          (sym is_inspected.resolves)
          (builds_set h i.operation_id is_inspected.resolution is_inspected.set i.decision v reach
            is_inspected.judged (rw is_inspected.holds at e)))

  staged_bundle :
      (h : History) (bundle : VerifiedBundle) (r : Result StagedSet)
      → Reaches p request h (after_build (ok bundle))
      → p.stage h bundle ≡ r
      → Reaches p request (stages bundle ∷ h) (after_stage bundle r)
  staged_bundle h bundle r reach t =
      subst (λ x. Reaches p request (stages bundle ∷ h) (after_stage bundle x)) t
        (stages_bundle h bundle reach)

  promoted_set :
      (h : History) (bundle : VerifiedBundle) (set : StagedSet) (r : Result PromotedInstall)
      → Reaches p request h (after_stage bundle (ok set))
      → p.promote h set bundle request.context ≡ r
      → Reaches p request (promotes set bundle request.context ∷ h) (after_promote bundle set r)
  promoted_set h bundle set r reach q =
      subst
        (λ x.
          Reaches p request (promotes set bundle request.context ∷ h) (after_promote bundle set x))
        q (promotes_set h bundle set reach)

  hand_on-EndsWell :
      (i : InspectedInstall) (w : World)
      → All (λ c. is_gate c ≡ false) w.history
      → IsInspected p request i
      → EndsWell (hand_on p request i w)
  unfolding hand_on pure ask
  hand_on-EndsWell i w u is_inspected =
      let reach = looks w.history u in
      try-cases EndsWell _ _ _ w
        (λ e _. record {
          phase = inspecting;
          reached = reach;
          reports = (refl, refl, refl, inr refl);
        })
        λ v e.
          try-cases EndsWell _ _ _ w
            (λ x b. record {
              phase = after_build (err x);
              reached = built_set w.history i v (err x) reach is_inspected e b;
              reports = (refl, refl, refl, refl, refl);
            })
            λ bundle b.
              let reach1 = built_set w.history i v (ok bundle) reach is_inspected e b in
              try-cases EndsWell _ _ _ _
                (λ x t. record {
                  phase = after_stage bundle (err x);
                  reached = staged_bundle _ bundle (err x) reach1 t;
                  reports = (refl, refl, refl, refl, refl);
                })
                λ set t.
                  let reach2 = staged_bundle _ bundle (ok set) reach1 t in
                  try-cases EndsWell _ _ _ _
                    (λ x q. record {
                      phase = after_promote bundle set (err x);
                      reached = promoted_set _ bundle set (err x) reach2 q;
                      reports = (refl, refl, refl, refl, refl);
                    })
                    λ done q. record {
                      phase = after_promote bundle set (ok done);
                      reached = promoted_set _ bundle set (ok done) reach2 q;
                      reports = (refl, refl, refl, refl, refl);
                    }

  install_inspected-EndsWell :
      (i : Option InspectedInstall) (e : Option String) (w : World)
      → All (λ c. is_gate c ≡ false) w.history
      → OnInstall (IsInspected p request) i e
      → EndsWell (install_inspected p request i e w)
  unfolding install_inspected pure
  install_inspected-EndsWell i (some e) w u h = record {
    phase = inspecting;
    reached = looks w.history u;
    reports = (refl, refl, refl, inl refl);
  }
  install_inspected-EndsWell none none w u h = absurd h
  install_inspected-EndsWell (some i) none w u h =
      elim (Bool-cases (is_allow i.decision.decision)) [
        | inl a ↦ rw a (hand_on-EndsWell i w u h)
        | inr d ↦ rw d (record {
          phase = inspecting;
          reached = looks w.history u;
          reports = (refl, refl, refl, refl, (i, refl, d));
        })
      ]

-- From a world without calls, and whatever its ports answer, an install reaches a phase by its
-- calls in the order of the phases: inspection, then the build of a set that the policies judged
-- and that is accepted as verified, then the staging of the bundle that was built, then the
-- promotion of what was staged; and the outcome and the error that it returns are those of the
-- phase where it ends.
pub install-Ended :
    (p : InstallPorts) (request : InstallRequest)
    → Ended p request
        (install p request first_world).world.history
        (install p request first_world).value
unfolding install after
install-Ended p request =
    let (o, h) = (inspect_install-Ensures p request).at first_world first_world-IsOrderly in
    install_inspected-EndsWell p request _ _ _ o.ungated h
