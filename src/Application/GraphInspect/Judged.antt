-- ===== src/Application/GraphInspect/Judged.antt =====
-- internal/application/install_inspect.go: the decisions of the graph-aware inspection.
use heliopause.Application.Diagnostic.{new_dependency_policy_diagnostic}
use heliopause.Application.Entry.{DiagnosedEntry}
use heliopause.Application.Entry.Judged.{
  entry_codes, finalize_completed-finalized, inspection-IsEntryJudged,
}
use heliopause.Application.GraphInspect.{
  JudgedDependencyInspection, PendingDependencyInspection, judge_all, judge_pending, record_judged,
  report_of,
}
use heliopause.Application.GraphInspect.Pending.{Actives, IsPending, pending-Actives, step_pending}
use heliopause.Application.SetInspect.Judged.{IsJudgedNode}
use heliopause.Application.Workflow.{GraphReport, InstallPorts}
use heliopause.Application.Workflow.Ensures.{
  Ensures, Ensures-pure, Ensures-put_away, Keeps-ask, Keeps-on, Keeps-pure, Keeps-try, OnOk,
  on_result,
}
use heliopause.Base.{
  >>=-eq-ok, All, List, [], arith, length, length-map, map, ok, refl, subst, suc, ◌∷◌, ◌≡◌,
}
use heliopause.Domain.Inspected.{new_dependency_inspection}
use heliopause.Domain.Operation.{PolicyInput, new_policy_input}
use heliopause.Domain.Run.{InspectionRun, finalize_completed}

-- What the entry policy decided on an artifact, and on what.
pub record IsDecided (p : InstallPorts) (reports : List GraphReport)
    (j : JudgedDependencyInspection) : Type 0 where
  pub input : PolicyInput
  pub accepted :
      new_policy_input j.pending.run_id j.pending.artifact j.pending.verification
        (report_of j.pending.dependency.node reports)
        j.references
      ≡ ok input
  pub judges : p.evaluate input ≡ ok j.decision
  pub same_identity : j.pending.artifact.identity ≡ j.pending.dependency.artifact.identity

module _ (p : InstallPorts) (reports : List GraphReport) where
  judge_pending-Ensures :
      (item : PendingDependencyInspection) (rest : List InspectionRun)
      → IsPending item
      → Actives rest
      → Ensures
          (suc (length rest))
          (on_result (λ _. length rest) 0)
          (OnOk (IsDecided p reports))
          (judge_pending p reports item (item.run ∷ rest))
  unfolding judge_pending
  judge_pending-Ensures item rest h a =
      step_pending _ _ _ _ _ _ _ entry_codes.5 (h.runs, a) refl (Keeps-ask _ _ refl)
        λ references _.
          step_pending _ _ _ _ _ _ _ entry_codes.6 (h.runs, a) refl
            (Keeps-pure (
              new_policy_input item.run_id item.artifact item.verification
                (report_of item.dependency.node reports) references))
            λ input e.
              step_pending _ _ _ _ _ _ _ entry_codes.7 (h.runs, a) refl
                (Keeps-pure (p.evaluate input))
                λ decision j.
                  step_pending _ _ _ _ _ _ _ entry_codes.8 (h.runs, a) refl
                    (Keeps-pure (finalize_completed decision item.run))
                    λ done f.
                      Ensures-put_away _ _ (done ∷ []) _ (omega arith)
                        (finalize_completed-finalized decision item.run done f, tt)
                        (record {
                          input = input;
                          accepted = e;
                          judges = j;
                          same_identity = h.same_identity;
                        })

  pub judge_all-Ensures :
      (pending : List PendingDependencyInspection)
      → All IsPending pending
      → Ensures
          (length pending)
          (λ _. 0)
          (OnOk (All (IsDecided p reports)))
          (judge_all p reports pending)
  unfolding judge_all
  judge_all-Ensures [] h = Ensures-pure _ _ _ refl tt
  judge_all-Ensures (item ∷ pending) h =
      let runs = map (λ i. i.run) pending in
      Keeps-try _ _ (λ _. length pending) _ _
        (subst
          (λ n.
            Ensures (suc n) (on_result (λ _. n) 0) (OnOk (IsDecided p reports))
              (judge_pending p reports item (item.run ∷ runs)))
          (length-map pending (λ i. i.run))
          (judge_pending-Ensures item runs h.0 (pending-Actives pending h.1)))
        λ judged d.
          Keeps-try _ _ (λ _. 0) _ _ (Keeps-on _ (judge_all-Ensures pending h.1))
            λ rest ds. Ensures-pure _ _ _ refl (d, ds)

  pub record_judged-judges :
      (judged : List JudgedDependencyInspection) (entries : List DiagnosedEntry)
      → All (IsDecided p reports) judged
      → record_judged reports judged ≡ ok entries
      → All (IsJudgedNode p) (map (λ e. e.inspection) entries)
  unfolding record_judged
  record_judged-judges [] entries h e =
      let same : [] ≡ entries = ground arith in
      subst (λ t. All (IsJudgedNode p) (map (λ e. e.inspection) t)) same tt
  record_judged-judges (j ∷ judged) entries h e =
      let item = j.pending in
      let (i, made, e1) =
        >>=-eq-ok
          (new_dependency_inspection item.dependency.node item.run_id item.artifact j.checks
            j.references j.decision)
          _ e in
      let (d, diagnosed, e2) =
        >>=-eq-ok
          (new_dependency_policy_diagnostic item.dependency j.decision
            (report_of item.dependency.node reports).findings)
          _ e1 in
      let (rest, more, e3) = >>=-eq-ok (record_judged reports judged) _ e2 in
      let c = h.0 in
      let all_entries : record { inspection = i; diagnostic = d } ∷ rest ≡ entries = ground arith in
      subst (λ t. All (IsJudgedNode p) (map (λ e. e.inspection) t)) all_entries
        (
          (
            item.dependency,
            inspection-IsEntryJudged p item.dependency item.run_id item.artifact item.verification
                (report_of item.dependency.node reports) j.references c.input j.checks j.decision i
                c.same_identity c.accepted c.judges made,
          ),
          record_judged-judges judged rest h.1 more,
        )
