-- ===== src/Domain/Run/Lifecycle.antt =====
-- The life of a run under any sequence of calls.
use heliopause.Base.{
  ==→≡, List, Option, Result, Result-cases, [], ap, arith, err, false, inl, inr, is_empty, is_ok,
  list_eq, nat_eq, none, ok, refl, some, true, ◌∷◌, ◌≡◌,
}
use heliopause.Domain.Artifact.{
  AcquiredArtifact, ArtifactReference, ResolvedArtifactIdentity, identity_eq,
}
use heliopause.Domain.Identifier.{OperationId, RunId}
use heliopause.Domain.Run.{
  InspectionRun, PolicyDecision, RunLifecycle, RunOutcome, activate, active, bind_acquired_artifact,
  created, finalize_completed, finalize_failed, finalized, is_none, new_inspection_run,
  zero_decision,
}
use heliopause.Text.{Text}
use heliopause.Text.Pattern.{failure_code_pattern}

-- A call on a run; a refused call leaves the run as it was.
pub data Call : Type 0 where
  activates : Call
  binds : AcquiredArtifact → Call
  completes : PolicyDecision → Call
  fails : Text → Call

unfoldable pub call : Call → InspectionRun → Result InspectionRun
call activates = activate
call (binds a) = bind_acquired_artifact a
call (completes d) = finalize_completed d
call (fails why) = finalize_failed why

abbrev pub keep : InspectionRun → Result InspectionRun → InspectionRun
keep r (ok r') = r'
keep r (err e) = r

unfoldable pub calls : InspectionRun → List Call → InspectionRun
calls r [] = r
calls r (c ∷ cs) = calls (keep r (call c r)) cs

-- The artifact that a run holds has the run's identity and a digest.
abbrev pub ArtifactFits : ResolvedArtifactIdentity → Option AcquiredArtifact → Type 0
ArtifactFits i none = Unit
ArtifactFits i (some a) = (a.identity ≡ i) × (is_empty a.digest.value ≡ false)

-- Each outcome with what it is recorded with.
abbrev pub OutcomeFits : RunLifecycle → RunOutcome → InspectionRun → Type 0
OutcomeFits finalized RunOutcome.completed r =
    (is_none r.artifact ≡ false)
    × (is_empty r.decision.policy_id ≡ false)
    × (is_empty r.decision.reasons ≡ false)
    × (r.failure_code ≡ [])
OutcomeFits finalized RunOutcome.failed r =
    (failure_code_pattern r.failure_code ≡ true) × (r.decision ≡ zero_decision)
OutcomeFits created RunOutcome.unset r =
    (r.artifact ≡ none) × (r.decision ≡ zero_decision) × (r.failure_code ≡ [])
OutcomeFits active RunOutcome.unset r = (r.decision ≡ zero_decision) × (r.failure_code ≡ [])
OutcomeFits _ _ r = ⊥

pub record IsConsistent (r : InspectionRun) : Type 0 where
  pub subject : ArtifactFits r.identity r.artifact
  pub terminal : OutcomeFits r.lifecycle r.outcome r

new_inspection_run-IsConsistent :
    (id : RunId) (op : OperationId) (ref : ArtifactReference) (i : ResolvedArtifactIdentity)
    (r : InspectionRun)
    → new_inspection_run id op ref i ≡ ok r
    → IsConsistent r
unfolding new_inspection_run
new_inspection_run-IsConsistent id op ref i r h = ground arith

call-IsConsistent :
    (c : Call) (r r' : InspectionRun) → IsConsistent r → call c r ≡ ok r' → IsConsistent r'
unfolding call activate bind_acquired_artifact finalize_completed finalize_failed
call-IsConsistent activates r r' v h = ground arith
call-IsConsistent (binds a) r r' v h = ground (arith, ==→≡ a.identity r.identity)
call-IsConsistent (completes d) r r' v h = ground arith
call-IsConsistent (fails why) r r' v h = ground arith

keep-IsConsistent :
    (c : Call) (r : InspectionRun) → IsConsistent r → IsConsistent (keep r (call c r))
keep-IsConsistent c r v = elim (Result-cases (call c r)) [
  | inl (r', e) ↦ rw e (call-IsConsistent c r r' v e)
  | inr (x, e) ↦ rw e v
]

-- Whatever is called on a consistent run, in whatever order, it stays consistent.
calls-IsConsistent :
    (r : InspectionRun) (cs : List Call) → IsConsistent r → IsConsistent (calls r cs)
unfolding calls
calls-IsConsistent r [] v = v
calls-IsConsistent r (c ∷ cs) v =
    calls-IsConsistent (keep r (call c r)) cs (keep-IsConsistent c r v)

-- A run that the constructor created is consistent after any calls, in whatever order and with
-- whatever arguments: what it holds fits its lifecycle and its outcome.
pub calls-new_inspection_run :
    (id : RunId) (op : OperationId) (ref : ArtifactReference) (i : ResolvedArtifactIdentity)
    (r : InspectionRun) (cs : List Call)
    → new_inspection_run id op ref i ≡ ok r
    → IsConsistent (calls r cs)
calls-new_inspection_run id op ref i r cs h =
    calls-IsConsistent r cs (new_inspection_run-IsConsistent id op ref i r h)

-- A finalized run refuses every call.
call-finalized : (c : Call) (r : InspectionRun) → r.lifecycle ≡ finalized → is_ok (call c r) ≡ false
unfolding call activate bind_acquired_artifact finalize_completed finalize_failed
call-finalized activates r h = ground arith
call-finalized (binds a) r h = ground arith
call-finalized (completes d) r h = ground arith
call-finalized (fails why) r h = ground arith

-- Nothing that is called on a finalized run changes it.
pub calls-finalized :
    (r : InspectionRun) (cs : List Call) → r.lifecycle ≡ finalized → calls r cs ≡ r
unfolding calls
calls-finalized r [] h = refl
calls-finalized r (c ∷ cs) h = elim (Result-cases (call c r)) [
  | inl (r', e) ↦ cc (call-finalized c r h, ap is_ok e)
  | inr (x, e) ↦ rw e (calls-finalized r cs h)
]
