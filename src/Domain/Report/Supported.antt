-- ===== src/Domain/Report/Supported.antt =====
-- What a combined inspection report promises of its parts.
use mathlib.Core.List.{append-nil, append_assoc}
use heliopause.Base.{
  >>=-eq-ok, All, All-append, List, [], all, any, ap, arith, false, is_empty, is_ok, map, not, ok,
  refl, reject, reject-eq-ok, subst, sym, true, ◌&&◌, ◌++◌, ◌||◌, ◌∙◌, ◌∷◌, ◌≡◌,
}
use heliopause.Domain.Check.{
  InspectionDiagnostic, is_completed, is_inspection, new_inspection_diagnostic,
}
use heliopause.Domain.Evidence.{Evidence, EvidenceId, Finding}
use heliopause.Domain.Report.{
  Gathered, InspectionReport, gather_reports, is_evidence_id, new_composite_inspection_report,
  validate_diagnostics, validate_evidence_for_check, validate_findings_for_evidence,
  validate_inspection,
}

-- A finding with evidence, all of it in the list.
abbrev pub IsSupported : List Evidence → Finding → Type 0
IsSupported evidence f =
    (is_empty f.evidence_ids ≡ false) × (all (is_evidence_id evidence) f.evidence_ids ≡ true)

abbrev pub IsDiagnostic : InspectionDiagnostic → Type 0
IsDiagnostic d = is_ok (new_inspection_diagnostic d.cause d.stage) ≡ true

-- The parts of a combined report fit together.
pub record IsCombined (reports : List InspectionReport) (r : InspectionReport) : Type 0 where
  pub executions_kept : r.executions ≡ map (λ report. report.execution) reports
  pub inspections : All (λ e. is_inspection e.kind ≡ true) r.executions
  pub supported : All (IsSupported r.evidence) r.findings
  pub diagnosed : All IsDiagnostic r.diagnostics

is_evidence_id-append :
    (xs ys : List Evidence) (id : EvidenceId)
    → is_evidence_id xs id || is_evidence_id ys id ≡ true
    → is_evidence_id (xs ++ ys) id ≡ true
is_evidence_id-append [] ys id h = h
is_evidence_id-append (x ∷ xs) ys id h = ground (arith, is_evidence_id-append xs ys id)

ids-append :
    (xs ys : List Evidence) (ids : List EvidenceId)
    → all (λ id. is_evidence_id xs id || is_evidence_id ys id) ids ≡ true
    → all (is_evidence_id (xs ++ ys)) ids ≡ true
ids-append xs ys [] h = refl
ids-append xs ys (id ∷ ids) h = ground (arith, ids-append xs ys ids, is_evidence_id-append xs ys id)

-- Evidence may be added on either side.
left-IsSupported :
    (xs ys : List Evidence) (fs : List Finding)
    → All (IsSupported xs) fs
    → All (IsSupported (xs ++ ys)) fs
left-IsSupported xs ys [] h = tt
left-IsSupported xs ys (f ∷ fs) h = (
  (h.0.0, ids-append xs ys f.evidence_ids (weaker f.evidence_ids h.0.1)),
  left-IsSupported xs ys fs h.1,
)
  where
    weaker :
        (ids : List EvidenceId)
        → all (is_evidence_id xs) ids ≡ true
        → all (λ id. is_evidence_id xs id || is_evidence_id ys id) ids ≡ true
    weaker [] h = refl
    weaker (id ∷ ids) h = ground (arith, weaker ids)

right-IsSupported :
    (xs ys : List Evidence) (fs : List Finding)
    → validate_findings_for_evidence fs ys ≡ ok tt
    → All (IsSupported (xs ++ ys)) fs
unfolding validate_findings_for_evidence
right-IsSupported xs ys [] h = tt
right-IsSupported xs ys (f ∷ fs) h =
    let (u, a, h1) = >>=-eq-ok (reject (is_empty f.code || is_empty f.evidence_ids) _) _ h in
    let (u', b, h2) =
      >>=-eq-ok (reject (any (λ id. not (is_evidence_id ys id)) f.evidence_ids) _) _ h1 in
    let some_ids = reject-eq-ok (is_empty f.code || is_empty f.evidence_ids) _ a in
    let inside = reject-eq-ok (any (λ id. not (is_evidence_id ys id)) f.evidence_ids) _ b in
    (
      (ground arith, ids-append xs ys f.evidence_ids (weaker f.evidence_ids inside)),
      right-IsSupported xs ys fs h2,
    )
  where
    weaker :
        (ids : List EvidenceId)
        → any (λ id. not (is_evidence_id ys id)) ids ≡ false
        → all (λ id. is_evidence_id xs id || is_evidence_id ys id) ids ≡ true
    weaker [] h = refl
    weaker (id ∷ ids) h = ground (arith, weaker ids)

diagnostics-IsDiagnostic :
    (ds : List InspectionDiagnostic) → validate_diagnostics ds ≡ ok tt → All IsDiagnostic ds
unfolding validate_diagnostics
diagnostics-IsDiagnostic [] h = tt
diagnostics-IsDiagnostic (d ∷ ds) h =
    let (d', e, rest) = >>=-eq-ok (new_inspection_diagnostic d.cause d.stage) _ h in
    (ap is_ok e, diagnostics-IsDiagnostic ds rest)

-- A report that passed its tests.
record IsValidated (report : InspectionReport) : Type 0 where
  inspects : is_inspection report.execution.kind ≡ true
  findings_fit : validate_findings_for_evidence report.findings report.evidence ≡ ok tt
  diagnosed : All IsDiagnostic report.diagnostics

validate_inspection-IsValidated :
    (report : InspectionReport) → validate_inspection report ≡ ok tt → IsValidated report
unfolding validate_inspection
validate_inspection-IsValidated report h =
    let (u, a, h1) = >>=-eq-ok (reject (not (is_inspection report.execution.kind)) _) _ h in
    let (u1, b, h2) =
      >>=-eq-ok
        (reject (not (is_completed report.execution.status) && not (is_empty report.findings)) _) _
        h1 in
    let (u2, c, h3) =
      >>=-eq-ok (reject (is_completed report.execution.status && is_empty report.evidence) _) _
        h2 in
    let (u3, d, h4) =
      >>=-eq-ok (validate_evidence_for_check report.execution.id report.evidence) _ h3 in
    let (u4, e, h5) =
      >>=-eq-ok (validate_findings_for_evidence report.findings report.evidence) _ h4 in
    let k = reject-eq-ok (not (is_inspection report.execution.kind)) _ a in
    record {
      inspects = ground arith;
      findings_fit = e;
      diagnosed = diagnostics-IsDiagnostic report.diagnostics h5;
    }

record IsGathered (g : Gathered) : Type 0 where
  inspections : All (λ e. is_inspection e.kind ≡ true) g.executions
  supported : All (IsSupported g.evidence) g.findings
  diagnosed : All IsDiagnostic g.diagnostics

gather_reports-IsGathered :
    (g g' : Gathered) (reports : List InspectionReport)
    → IsGathered g
    → gather_reports g reports ≡ ok g'
    → IsGathered g' × (g'.executions ≡ g.executions ++ map (λ r. r.execution) reports)
unfolding gather_reports
gather_reports-IsGathered g g' [] v h =
    let same : g ≡ g' = ground arith in
    (subst IsGathered same v, ap (λ t. t.executions) (sym same) ∙ sym (append-nil g.executions))
gather_reports-IsGathered g g' (r ∷ rs) v h =
    let (u, checked, later) = >>=-eq-ok (validate_inspection r) _ h in
    let w = validate_inspection-IsValidated r checked in
    let (good, kept) =
      gather_reports-IsGathered _ g' rs
        (record {
          inspections = All-append _ g.executions (r.execution ∷ []) v.inspections (w.inspects, tt);
          supported =
              All-append _ g.findings r.findings
                (left-IsSupported g.evidence r.evidence g.findings v.supported)
                (right-IsSupported g.evidence r.evidence r.findings w.findings_fit);
          diagnosed = All-append _ g.diagnostics r.diagnostics v.diagnosed w.diagnosed;
        })
        later in
    (good, kept ∙ append_assoc g.executions (r.execution ∷ []) (map (λ t. t.execution) rs))

-- A combined report lists the executions of its reports in order, all of them inspections; each of
-- its findings has evidence, all of it in the combined report; and each of its diagnostics is a
-- valid one.
pub new_composite_inspection_report-IsCombined :
    (reports : List InspectionReport) (r : InspectionReport)
    → new_composite_inspection_report reports ≡ ok r
    → IsCombined reports r
unfolding new_composite_inspection_report
new_composite_inspection_report-IsCombined [] r h = cc
new_composite_inspection_report-IsCombined (first ∷ rest) r h =
    let (g, gathered, built) = >>=-eq-ok (gather_reports _ (first ∷ rest)) _ h in
    let (v, kept) =
      gather_reports-IsGathered _ g (first ∷ rest)
        (record { inspections = tt; supported = tt; diagnosed = tt }) gathered in
    let same : r ≡ record {
      execution = first.execution;
      executions = g.executions;
      findings = g.findings;
      evidence = g.evidence;
      diagnostics = g.diagnostics;
    } =
      ground arith in
    subst (IsCombined (first ∷ rest)) (sym same) (record {
      executions_kept = kept;
      inspections = v.inspections;
      supported = v.supported;
      diagnosed = v.diagnosed;
    })
