-- ===== src/Application/Inspect/Provenance.antt =====
-- Where a completed inspection has its result from.
use Prim.Native.Char.{code}
use heliopause.Application.Inspect.{
  InspectPorts, Outcome, attempt, check_run, decide_run, fail_run, failed_before_run, inspect,
  no_digest, outcome_of, refuse, start_run,
}
use heliopause.Application.Inspect.Failure.{is_absent}
use heliopause.Base.{
  ==→≡, List, Option, Result, Result-cases, String, [], ap, arith, err, false, inl, inr, is_empty,
  list_eq, nat_eq, none, ok, refl, reject, some, sym, ◌++◌, ◌∙◌, ◌∷◌, ◌≡◌,
}
use heliopause.Domain.Artifact.{
  AcquiredArtifact, ArtifactReference, ContentDigest, ResolvedArtifact, ResolvedArtifactIdentity,
  identity_eq,
}
use heliopause.Domain.Check.{CheckExecution}
use heliopause.Domain.Evidence.{EvidenceReference}
use heliopause.Domain.Identifier.{OperationId, RunId}
use heliopause.Domain.Operation.{
  OperationResult, PolicyInput, new_inspect_operation_result, new_operation_error, new_policy_input,
  zero_identity,
}
use heliopause.Domain.Operation.Axes.{new_inspect_operation_result-iff-AxesFit}
use heliopause.Domain.Report.{InspectionReport, VerificationReport}
use heliopause.Domain.Run.{
  InspectionRun, activate, active, bind_acquired_artifact, created, finalize_completed,
  finalize_failed, new_inspection_run,
}
use heliopause.Text.{Text}

-- The outcome is this result, without an error.
abbrev Completes : Outcome → OperationResult → Type 0
Completes o r = (o.result ≡ some r) × (o.error ≡ none)

attempt-Completes {ℓ} :
    {A : Type ℓ} (m : Result A) (fail : String → Outcome) (continue : A → Outcome)
    (r : OperationResult)
    → ((x : String) → is_absent (fail x).error ≡ false)
    → Completes (attempt m fail continue) r
    → (a : A) × (m ≡ ok a) × Completes (continue a) r
attempt-Completes (ok a) fail continue r f h = (a, refl, h)
attempt-Completes (err x) fail continue r f h = cc (f x, ap is_absent h.1)

outcome_of-Completes :
    (d r : OperationResult) → Completes (outcome_of (new_inspect_operation_result d)) r → d ≡ r
outcome_of-Completes d r h = elim (Result-cases (new_inspect_operation_result d)) [
  | inr (x, e) ↦ cc (rw e at h.0)
  | inl (r', e) ↦
      let kept = ((new_inspect_operation_result-iff-AxesFit d r').0 e).3 in cc (kept, rw e at h.0)
]

attempt-error :
    (m : Result OperationResult) (x : String)
    → is_absent (attempt m (λ e. refuse x) (λ r. record { result = some r; error = some x })).error
      ≡ false
attempt-error (ok r) x = refl
attempt-error (err e) x = refl

-- A failure carries its cause.
fail_run-error :
    (run : InspectionRun) (reference : ArtifactReference) (digest : ContentDigest)
    (checks : List CheckExecution) (references : List EvidenceReference) (code message : Text)
    (cause : String)
    → is_absent (fail_run run reference digest checks references code message cause).error ≡ false
unfolding fail_run
fail_run-error run reference digest checks references code message cause =
    elim (Result-cases (finalize_failed code run)) [
      | inr (x, e) ↦ rw e
      | inl (done, e) ↦ elim (Result-cases (new_operation_error code message)) [
        | inr (x, e') ↦ rw (e, e')
        | inl (oe, e') ↦ rw (e, e') (attempt-error _ cause)
      ]
    ]

failed_before_run-error :
    (op : OperationId) (reference : ArtifactReference) (identity : ResolvedArtifactIdentity)
    (code message : Text) (cause : String)
    → is_absent (failed_before_run op reference identity code message cause).error ≡ false
unfolding failed_before_run
failed_before_run-error op reference identity code message cause =
    elim (Result-cases (new_operation_error code message)) [
      | inr (x, e) ↦ rw e
      | inl (oe, e) ↦ rw e (attempt-error _ cause)
    ]

-- The result is what the ports and the policy said of one artifact.
pub record IsJudged (p : InspectPorts) (reference : ArtifactReference) (r : OperationResult)
    : Type 0 where
  pub resolved : ResolvedArtifact
  pub artifact : AcquiredArtifact
  pub report : VerificationReport
  pub inspected : InspectionReport
  pub input : PolicyInput
  pub resolves : p.resolve reference ≡ ok resolved
  pub acquires : p.acquire r.run_id resolved ≡ ok artifact
  pub verifies : p.verify artifact ≡ ok report
  pub inspects : p.inspect artifact ≡ ok inspected
  pub records : p.record_evidence r.run_id (report.evidence ++ inspected.evidence) ≡ ok r.evidence
  pub inputs : new_policy_input r.run_id artifact report inspected r.evidence ≡ ok input
  pub judges : p.evaluate input ≡ ok r.decision
  pub same_identity : artifact.identity ≡ resolved.identity
  pub kept_identity : r.resolved_identity ≡ resolved.identity
  pub same_digest : r.digest ≡ artifact.digest
  pub all_checks : r.checks ≡ report.execution ∷ inspected.executions

-- A bound artifact has the identity of its run.
bind_acquired_artifact-kept :
    (artifact : AcquiredArtifact) (run bound : InspectionRun)
    → bind_acquired_artifact artifact run ≡ ok bound
    → (artifact.identity ≡ run.identity) × (bound.id ≡ run.id) × (bound.identity ≡ run.identity)
unfolding bind_acquired_artifact
bind_acquired_artifact-kept artifact run bound h =
    (==→≡ artifact.identity run.identity (ground arith), ground arith, ground arith)

module _ (p : InspectPorts) (reference : ArtifactReference) (r : OperationResult) where
  -- The same, for a run with its bound artifact.
  record IsChecked (run : InspectionRun) (artifact : AcquiredArtifact) : Type 0 where
    report : VerificationReport
    inspected : InspectionReport
    input : PolicyInput
    verifies : p.verify artifact ≡ ok report
    inspects : p.inspect artifact ≡ ok inspected
    records : p.record_evidence run.id (report.evidence ++ inspected.evidence) ≡ ok r.evidence
    inputs : new_policy_input run.id artifact report inspected r.evidence ≡ ok input
    judges : p.evaluate input ≡ ok r.decision
    same_run : r.run_id ≡ run.id
    kept_identity : r.resolved_identity ≡ run.identity
    same_digest : r.digest ≡ artifact.digest
    all_checks : r.checks ≡ report.execution ∷ inspected.executions

  decide_run-Completes :
      (run : InspectionRun) (artifact : AcquiredArtifact) (checks : List CheckExecution)
      (references : List EvidenceReference) (input : PolicyInput)
      → Completes (decide_run p reference run artifact checks references input) r
      → (p.evaluate input ≡ ok r.decision)
        × (r.run_id ≡ run.id)
        × (r.resolved_identity ≡ run.identity)
        × (r.digest ≡ artifact.digest)
        × (r.checks ≡ checks)
        × (r.evidence ≡ references)
  unfolding decide_run
  decide_run-Completes run artifact checks references input h =
      let (decision, e, h') =
        attempt-Completes (p.evaluate input) _ _ r
          (λ x. fail_run-error run reference artifact.digest checks references _ _ x) h in
      let (done, e', h'') =
        attempt-Completes (finalize_completed decision run) _ _ r
          (λ x. fail_run-error run reference artifact.digest checks references _ _ x) h' in
      let same = outcome_of-Completes _ r h'' in
      (
        e ∙ ap (λ t. ok t.decision) same,
        sym (ap (λ t. t.run_id) same),
        sym (ap (λ t. t.resolved_identity) same),
        sym (ap (λ t. t.digest) same),
        sym (ap (λ t. t.checks) same),
        sym (ap (λ t. t.evidence) same),
      )

  check_run-Completes :
      (run : InspectionRun) (artifact : AcquiredArtifact)
      → Completes (check_run p reference run artifact) r
      → IsChecked run artifact
  unfolding check_run
  check_run-Completes run artifact h =
      let (report, e, h1) =
        attempt-Completes (p.verify artifact) _ _ r
          (λ x. fail_run-error run reference artifact.digest [] [] _ _ x) h in
      let (inspected, e', h2) =
        attempt-Completes (p.inspect artifact) _ _ r
          (λ x. fail_run-error run reference artifact.digest (report.execution ∷ []) [] _ _ x) h1 in
      let checks = report.execution ∷ inspected.executions in
      let (references, e'', h3) =
        attempt-Completes (p.record_evidence run.id (report.evidence ++ inspected.evidence)) _ _ r
          (λ x. fail_run-error run reference artifact.digest checks [] _ _ x) h2 in
      let (input, e''', h4) =
        attempt-Completes (new_policy_input run.id artifact report inspected references) _ _ r
          (λ x. fail_run-error run reference artifact.digest checks references _ _ x) h3 in
      let (judged, named, kept, digested, checked, recorded) =
        decide_run-Completes run artifact checks references input h4 in
      record {
        report = report;
        inspected = inspected;
        input = input;
        verifies = e;
        inspects = e';
        records = e'' ∙ ap ok (sym recorded);
        inputs = ap (λ t. new_policy_input run.id artifact report inspected t) recorded ∙ e''';
        judges = judged;
        same_run = named;
        kept_identity = kept;
        same_digest = digested;
        all_checks = checked;
      }

  start_run-Completes :
      (resolved : ResolvedArtifact) (run : InspectionRun)
      → p.resolve reference ≡ ok resolved
      → run.lifecycle ≡ created
      → run.identity ≡ resolved.identity
      → Completes (start_run p reference resolved run) r
      → IsJudged p reference r
  unfolding start_run activate
  start_run-Completes resolved run found new identified h =
      let run' = record run { lifecycle = active } in
      let (artifact, e, h1) =
        attempt-Completes (p.acquire run.id resolved) _ _ r
          (λ x. fail_run-error run' reference no_digest [] [] _ _ x) (rw new at h) in
      let (bound, e', h2) =
        attempt-Completes (bind_acquired_artifact artifact run') _ _ r
          (λ x. fail_run-error run' reference no_digest [] [] _ _ x) h1 in
      let (same, kept, about) = bind_acquired_artifact-kept artifact run' bound e' in
      let c = check_run-Completes bound artifact h2 in
      let named : r.run_id ≡ run.id = c.same_run ∙ kept in
      record {
        resolved = resolved;
        artifact = artifact;
        report = c.report;
        inspected = c.inspected;
        input = c.input;
        resolves = found;
        acquires = ap (λ i. p.acquire i resolved) named ∙ e;
        verifies = c.verifies;
        inspects = c.inspects;
        records =
            ap (λ i. p.record_evidence i (c.report.evidence ++ c.inspected.evidence)) c.same_run
            ∙ c.records;
        inputs =
            ap (λ i. new_policy_input i artifact c.report c.inspected r.evidence) c.same_run
            ∙ c.inputs;
        judges = c.judges;
        same_identity = same ∙ identified;
        kept_identity = c.kept_identity ∙ about ∙ identified;
        same_digest = c.same_digest;
        all_checks = c.all_checks;
      }

new_inspection_run-created :
    (id : RunId) (op : OperationId) (reference : ArtifactReference)
    (identity : ResolvedArtifactIdentity) (run : InspectionRun)
    → new_inspection_run id op reference identity ≡ ok run
    → (run.lifecycle ≡ created) × (run.identity ≡ identity)
unfolding new_inspection_run
new_inspection_run-created id op reference identity run h = ground arith

-- A result that an inspection gives without an error is what its ports said of one artifact:
-- resolved from the reference, acquired under the result's run with the resolved identity,
-- verified, inspected, its evidence recorded, and judged by the policy on an input of exactly
-- these; the result holds that decision, identity, digest, evidence and checks.
pub inspect-IsJudged :
    (p : InspectPorts) (context : Option (Result (Unit {0}))) (reference : ArtifactReference)
    (r : OperationResult)
    → (inspect p context reference).result ≡ some r
    → (inspect p context reference).error ≡ none
    → IsJudged p reference r
unfolding inspect
inspect-IsJudged p none reference r h e = cc
inspect-IsJudged p (some context) reference r h e =
    let (u, a, h1) = attempt-Completes context _ _ r (λ x. refl) (h, e) in
    let (u', a', h2) =
      attempt-Completes (reject (is_empty reference.source.value) _) _ _ r (λ x. refl) h1 in
    let (op, a'', h3) = attempt-Completes p.new_operation_id _ _ r (λ x. refl) h2 in
    let (resolved, found, h4) =
      attempt-Completes (p.resolve reference) _ _ r
        (λ x. failed_before_run-error op reference zero_identity _ _ x) h3 in
    let (id, b, h5) =
      attempt-Completes p.new_run_id _ _ r
        (λ x. failed_before_run-error op reference resolved.identity _ _ x) h4 in
    let (run, made, h6) =
      attempt-Completes (new_inspection_run id op reference resolved.identity) _ _ r
        (λ x. failed_before_run-error op reference resolved.identity _ _ x) h5 in
    let (new, identified) = new_inspection_run-created id op reference resolved.identity run made in
    start_run-Completes p reference r resolved run found new identified h6
