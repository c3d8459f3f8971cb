-- ===== src/Application/ProjectGuard/Retained.antt =====
-- internal/application/project_snapshot.go, project_update.go: the order of the calls under a guard.
use heliopause.Application.Install.{first_world}
use heliopause.Application.Install.Phases.{try-cases}
use heliopause.Application.ProjectGuard.{
  ProjectPorts, approve_project, guarded_snapshot, joined, match_controls, resolve_project_snapshot,
  same_context, with_guard,
}
use heliopause.Application.Workflow.{
  History, PortCall, Ran, Workflow, World, after, ask, begins, checks_unchanged, closes,
  commits_snapshot, inspects_project, pure, reads_controls, resolves_project, stages_project, try,
}
use heliopause.Base.{
  All, Bool, Result, [], arith, err, false, list_eq, nat_eq, ok, refl, subst, true, ◌==◌, ◌∷◌, ◌≡◌,
}
use heliopause.Domain.Install.{InstallContext, is_valid_context}
use heliopause.Domain.Project.{ProjectVerifiedSet, StagedProjectSet}
use heliopause.Domain.Snapshot.{ProjectDependencySnapshot, is_valid_snapshot}
use heliopause.Text.{Text}

abbrev pub is_close : PortCall → Bool
is_close closes = true
is_close _ = false

abbrev pub Unclosed : History → Type 0
Unclosed h = All (λ c. is_close c ≡ false) h

-- What was committed: the staged form of what the inspection verified of the snapshot, where the guard
-- said before and after the inspection that the project is unchanged.
pub record IsApproved (p : ProjectPorts) (snapshot : ProjectDependencySnapshot)
    (commits : StagedProjectSet → PortCall)
    (commit : History → StagedProjectSet → Result (Unit {0})) (start h : History) : Type 0 where
  pub verified : ProjectVerifiedSet
  pub staged : StagedProjectSet
  pub unchanged_before : p.verify_unchanged start ≡ ok tt
  pub inspects : p.inspect_complete (checks_unchanged ∷ start) snapshot ≡ ok verified
  pub unchanged_after :
      p.verify_unchanged (inspects_project snapshot ∷ checks_unchanged ∷ start) ≡ ok tt
  pub stages :
      p.stage_project
        (checks_unchanged ∷ inspects_project snapshot ∷ checks_unchanged ∷ start)
        verified
      ≡ ok staged
  pub commits_staged :
      commit
        (stages_project verified
          ∷ checks_unchanged
          ∷ inspects_project snapshot
          ∷ checks_unchanged
          ∷ start)
        staged
      ≡ ok tt
  pub calls :
      h
      ≡ commits staged
        ∷ stages_project verified
        ∷ checks_unchanged
        ∷ inspects_project snapshot
        ∷ checks_unchanged
        ∷ start

abbrev pub OnOkAt {ℓ} : {A : Type ℓ} → (A → History → Type 0) → Result A → History → Type 0
OnOkAt P (ok a) h = P a h
OnOkAt P (err e) h = Unit

-- The guard is not closed, and a result is one for which `P` holds at the history.
abbrev pub Holds {ℓ} : {A : Type ℓ} → (A → History → Type 0) → Ran (Result A) → Type 0
Holds P ran = Unclosed ran.world.history × OnOkAt P ran.value ran.world.history

OnOkAt-answer :
    (P : Unit {0} → History → Type 0) (h : History) (r : Result (Unit {0}))
    → (r ≡ ok tt → P tt h)
    → OnOkAt P r h
OnOkAt-answer P h (ok tt) f = f refl
OnOkAt-answer P h (err e) f = tt

pub approve_project-Holds :
    (p : ProjectPorts) (snapshot : ProjectDependencySnapshot)
    (commits : StagedProjectSet → PortCall)
    (commit : History → StagedProjectSet → Result (Unit {0})) (w : World)
    → ((staged : StagedProjectSet) → is_close (commits staged) ≡ false)
    → Unclosed w.history
    → Holds
        (λ _ h. IsApproved p snapshot commits commit w.history h)
        (approve_project p snapshot commits commit w)
unfolding approve_project pure ask
approve_project-Holds p snapshot commits commit w keeps u =
    try-cases (Holds _) _ _ _ w (λ e _. ((refl, u), tt))
      λ before b.
        try-cases (Holds _) _ _ _ _ (λ e _. ((refl, (refl, u)), tt))
          λ verified v.
            try-cases (Holds _) _ _ _ _ (λ e _. ((refl, (refl, (refl, u))), tt))
              λ unchanged a.
                try-cases (Holds _) _ _ _ _ (λ e _. ((refl, (refl, (refl, (refl, u)))), tt))
                  λ staged s. (
                    (keeps staged, (refl, (refl, (refl, (refl, u))))),
                    OnOkAt-answer (λ _. IsApproved p snapshot commits commit w.history) _ _
                        λ c. record {
                          verified = verified;
                          staged = staged;
                          unchanged_before = b;
                          inspects = v;
                          unchanged_after = a;
                          stages = s;
                          commits_staged = c;
                          calls = refl;
                        },
                  )

-- A snapshot that was retained: it is the resolver's, its controls are the guard's, and it was approved.
pub record IsRetained (p : ProjectPorts) (context : InstallContext) (source : Text)
    (start : History) (snapshot : ProjectDependencySnapshot) (h : History) : Type 0 where
  pub resolves : p.resolve_project start context ≡ ok snapshot
  pub valid : is_valid_snapshot snapshot ≡ true
  pub in_context : same_context snapshot.context context ≡ true
  pub of_source : (snapshot.source.value == source) ≡ true
  pub matches :
      match_controls (p.controls (resolves_project context ∷ start)) snapshot.controls ≡ ok tt
  pub approved :
      IsApproved p snapshot
        (commits_snapshot snapshot)
        (λ h staged. p.commit_snapshot h snapshot staged)
        (reads_controls ∷ resolves_project context ∷ start)
        h

guarded_snapshot-Holds :
    (p : ProjectPorts) (context : InstallContext) (source : Text) (w : World)
    → Unclosed w.history
    → Holds (IsRetained p context source w.history) (guarded_snapshot p context source w)
unfolding guarded_snapshot pure ask after
guarded_snapshot-Holds p context source w u =
    try-cases (Holds _) _ _ _ w (λ e _. ((refl, u), tt))
      λ snapshot r.
        try-cases (Holds _) _ _ _ _ (λ e _. ((refl, u), tt))
          λ valid v.
            try-cases (Holds _) _ _ _ _ (λ e _. ((refl, (refl, u)), tt))
              λ same m.
                let h0 : History = reads_controls ∷ resolves_project context ∷ w.history in
                let (unclosed, approved) =
                  approve_project-Holds p snapshot (commits_snapshot snapshot)
                    (λ h staged. p.commit_snapshot h snapshot staged) (record w { history = h0 })
                    (λ staged. refl) (refl, (refl, u)) in
                let accepted : (is_valid_snapshot snapshot ≡ true)
                    × (same_context snapshot.context context ≡ true)
                    × ((snapshot.source.value == source) ≡ true) =
                  ground arith in
                try-cases (Holds _) _ _ _ _ (λ e x. (unclosed, tt))
                  λ done d. (
                    unclosed,
                    record {
                      resolves = r;
                      valid = accepted.0;
                      in_context = accepted.1;
                      of_source = accepted.2;
                      matches = m;
                      approved =
                          subst
                            (λ t.
                              OnOkAt
                                (λ _ h.
                                  IsApproved p snapshot (commits_snapshot snapshot)
                                    (λ h staged. p.commit_snapshot h snapshot staged) h0 h)
                                t
                                (approve_project p snapshot (commits_snapshot snapshot)
                                  (λ h staged. p.commit_snapshot h snapshot staged)
                                  (record w { history = h0 })).world.history)
                            d approved;
                    },
                  )

-- A workflow under a guard: the history is as it was before the guard, or it ends with the guard closed.
pub record IsGuarded {ℓ} {A : Type ℓ} (p : ProjectPorts) (context : InstallContext)
    (P : A → History → Type 0) (ran : Ran (Result A)) : Type ℓ where
  pub inner : History
  pub body : Result A
  pub closed_result : ran.value ≡ joined body (p.close_guard inner)
  pub calls : ran.world.history ≡ closes ∷ inner
  pub unclosed : Unclosed inner
  pub holds : OnOkAt P body inner

pub with_guard-IsGuarded {ℓ} :
    {A : Type ℓ} (p : ProjectPorts) (context : InstallContext) (P : A → History → Type 0)
    (body : Workflow (Result A)) (w : World)
    → p.begin_guard w.history context ≡ ok true
    → Holds P (body (record w { history = begins context ∷ w.history }))
    → IsGuarded p context P (with_guard p context body w)
unfolding with_guard try ask after pure
with_guard-IsGuarded p context P body w b h =
    let ran = body (record w { history = begins context ∷ w.history }) in
    rw b (record {
      inner = ran.world.history;
      body = ran.value;
      closed_result = refl;
      calls = refl;
      unclosed = h.0;
      holds = h.1;
    })

-- With a valid context and a port that gives a guard, the resolution of a project snapshot from a
-- world without calls ends with the close of the guard, its only close, and returns the result of
-- the work before it unless the close fails; and a result of that work is the resolver's snapshot,
-- valid and of the context, the source and the guard's controls, which was committed in the staged
-- form of what the inspection verified of it, where the guard said before and after the inspection
-- that the project is unchanged.
pub resolve_project_snapshot-IsGuarded :
    (p : ProjectPorts) (context : InstallContext) (source : Text)
    → is_valid_context context ≡ true
    → p.begin_guard [] context ≡ ok true
    → IsGuarded p context
        (IsRetained p context source (begins context ∷ []))
        (resolve_project_snapshot p context source first_world)
unfolding resolve_project_snapshot try pure
resolve_project_snapshot-IsGuarded p context source v b = rw v (
    with_guard-IsGuarded p context _ (guarded_snapshot p context source) first_world b (
      guarded_snapshot-Holds p context source (record first_world { history = begins context ∷ [] })
        (refl, tt)))
