-- ===== src/Application/Install/Gate.antt =====
-- internal/application/install_promote.go: what an install passes on, and what it leaves behind.
use heliopause.Application.Diagnostic.{InspectedInstall, InstallRequest}
use heliopause.Application.Install.{
  first_world, hand_on, inspect_install, install, install_inspected,
}
use heliopause.Application.Install.Inspected.{first_world-IsOrderly, inspect_install-Ensures}
use heliopause.Application.Install.Phases.{
  Phase, Reaches, builds_set, install-Ended, looks, promotes_set, stages_bundle, try-cases,
}
use heliopause.Application.SetInspect.Judged.{IsSetJudged}
use heliopause.Application.Workflow.{
  History, InstallPorts, PortCall, World, acquires, after, ask, begins, builds, checks_unchanged,
  closes, commits_snapshot, commits_update, derives, generates_operation, generates_run, inspects,
  inspects_graph, inspects_project, promotes, pure, reads_controls, records, resolves,
  resolves_project, resolves_update, stages, stages_project, verifies,
}
use heliopause.Application.Workflow.Ensures.{is_gate}
use heliopause.Base.{
  All, All-map, Bool-cases, Option, String, any, any-eq_false, arith, false, inl, inr, length, none,
  not, ok, refl, some, subst, sym, true, ◌≡◌,
}
use heliopause.Domain.Inspected.{InspectedDependencySet}
use heliopause.Domain.Run.{PolicyDecision, finalized, is_allow}
use heliopause.Domain.Verified.{VerifiedSet, new_verified_set}

-- A verified set of inspections that the entry policy judged and allowed, which the set policy judged and
-- allowed.
pub record IsAllowed (p : InstallPorts) (v : VerifiedSet) : Type 0 where
  pub judged : IsSetJudged p v.inspected v.decision
  pub allowed : is_allow v.decision.decision ≡ true
  pub entries : All (λ i. is_allow i.decision.decision ≡ true) v.inspected.inspections

new_verified_set-IsAllowed :
    (p : InstallPorts) (set : InspectedDependencySet) (decision : PolicyDecision) (v : VerifiedSet)
    → IsSetJudged p set decision
    → new_verified_set set decision ≡ ok v
    → IsAllowed p v
unfolding new_verified_set
new_verified_set-IsAllowed p set decision v j h =
    let same : record { inspected = set; decision = decision } ≡ v = ground arith in
    let entries_allowed : any (λ i. not (is_allow i.decision.decision)) set.inspections ≡ false =
      ground arith in
    subst (λ t. IsAllowed p t) same
      (record {
        judged = j;
        allowed = ground arith;
        entries =
            All-map (λ i e. ground arith) set.inspections
              (any-eq_false _ set.inspections entries_allowed);
      })

-- What a call hands to the manifest.
abbrev pub HandsOn : InstallPorts → InstallRequest → PortCall → Type 0
HandsOn p request (builds op context resolution v) = (context ≡ request.context) × IsAllowed p v
HandsOn p request _ = Unit

ungated-HandsOn :
    (p : InstallPorts) (request : InstallRequest) (c : PortCall)
    → is_gate c ≡ false
    → HandsOn p request c
ungated-HandsOn p request (builds op context resolution v) h = absurd (ground arith)
ungated-HandsOn p request generates_operation h = tt
ungated-HandsOn p request generates_run h = tt
ungated-HandsOn p request (resolves r c) h = tt
ungated-HandsOn p request (acquires r a) h = tt
ungated-HandsOn p request (verifies a) h = tt
ungated-HandsOn p request (inspects a) h = tt
ungated-HandsOn p request (inspects_graph g a) h = tt
ungated-HandsOn p request (records r e) h = tt
ungated-HandsOn p request (derives i) h = tt
ungated-HandsOn p request (stages b) h = tt
ungated-HandsOn p request (promotes s b c) h = tt
ungated-HandsOn p request (begins c) h = tt
ungated-HandsOn p request (resolves_project c) h = tt
ungated-HandsOn p request (resolves_update r c f) h = tt
ungated-HandsOn p request reads_controls h = tt
ungated-HandsOn p request checks_unchanged h = tt
ungated-HandsOn p request closes h = tt
ungated-HandsOn p request (inspects_project s) h = tt
ungated-HandsOn p request (stages_project v) h = tt
ungated-HandsOn p request (commits_snapshot s t) h = tt
ungated-HandsOn p request (commits_update u t) h = tt

Reaches-HandsOn :
    (p : InstallPorts) (request : InstallRequest) (h : History) (phase : Phase)
    → Reaches p request h phase
    → All (HandsOn p request) h
Reaches-HandsOn p request _ _ (looks h u) = All-map (ungated-HandsOn p request) h u
Reaches-HandsOn p request _ _ (builds_set h op resolution set decision v r j e) =
    ((refl, new_verified_set-IsAllowed p set decision v j e), Reaches-HandsOn p request h _ r)
Reaches-HandsOn p request _ _ (stages_bundle h bundle r) = (tt, Reaches-HandsOn p request h _ r)
Reaches-HandsOn p request _ _ (promotes_set h bundle set r) = (tt, Reaches-HandsOn p request h _ r)

-- From a world without calls, an install builds nothing but, for the context of its request, a
-- verified set that the set policy allowed: it has an inspection of every node of its graph, each
-- is of what was locked for its node, was judged by the entry policy on an input of its own run,
-- artifact and evidence, and is allowed.
pub install-HandsOn :
    (p : InstallPorts) (request : InstallRequest)
    → All (HandsOn p request) (install p request first_world).world.history
install-HandsOn p request =
    let e = install-Ended p request in Reaches-HandsOn p request _ e.phase e.reached

-- The runs are those of another world.
record SameRuns (w v : World) : Type 0 where
  begun : v.begun ≡ w.begun
  runs : v.runs ≡ w.runs

module _ (p : InstallPorts) (request : InstallRequest) where
  hand_on-SameRuns : (i : InspectedInstall) (w : World) → SameRuns w (hand_on p request i w).world
  unfolding hand_on pure ask
  hand_on-SameRuns i w =
      let same : (v : World) → v.begun ≡ w.begun → v.runs ≡ w.runs → SameRuns w v =
        λ v b r. record { begun = b; runs = r } in
      try-cases (λ ran. SameRuns w ran.world) _ _ _ w (λ e _. same _ refl refl)
        λ v _.
          try-cases (λ ran. SameRuns w ran.world) _ _ _ _ (λ e _. same _ refl refl)
            λ bundle _.
              try-cases (λ ran. SameRuns w ran.world) _ _ _ _ (λ e _. same _ refl refl)
                λ set _.
                  try-cases (λ ran. SameRuns w ran.world) _ _ _ _ (λ e _. same _ refl refl)
                    λ done _. same _ refl refl

  install_inspected-SameRuns :
      (i : Option InspectedInstall) (e : Option String) (w : World)
      → SameRuns w (install_inspected p request i e w).world
  unfolding install_inspected pure
  install_inspected-SameRuns i (some e) w = record { begun = refl; runs = refl }
  install_inspected-SameRuns none none w = record { begun = refl; runs = refl }
  install_inspected-SameRuns (some i) none w = elim (Bool-cases (is_allow i.decision.decision)) [
    | inl a ↦ rw a (hand_on-SameRuns i w)
    | inr d ↦ rw d (record { begun = refl; runs = refl })
  ]

-- No run is in use: as many runs are finalized as were created.
pub record AllFinalized (w : World) : Type 0 where
  pub closed : All (λ r. r.lifecycle ≡ finalized) w.runs
  pub balance : length w.runs ≡ w.begun

-- From a world without calls, an install ends with every run finalized that it created, on each
-- path and whatever its ports answer.
pub install-AllFinalized :
    (p : InstallPorts) (request : InstallRequest)
    → AllFinalized (install p request first_world).world
unfolding install after
install-AllFinalized p request =
    let inspected = inspect_install p request first_world in
    let (o, _) = (inspect_install-Ensures p request).at first_world first_world-IsOrderly in
    let last : World = (install p request first_world).world in
    let same : SameRuns inspected.world last =
      install_inspected-SameRuns p request inspected.value.install inspected.value.error
        inspected.world in
    let count = o.balance in
    record {
      closed = subst (λ t. All (λ r. r.lifecycle ≡ finalized) t) (sym same.runs) o.closed;
      balance = rw (same.runs, same.begun) (omega arith);
    }
