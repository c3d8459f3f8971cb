-- ===== src/Application/GraphReports.antt =====
-- internal/application/install_inspect.go: the reports of a graph inspection, by node, and the diagnostics
-- that are read from them. What a map holds at a missing node is the zero value.
use heliopause.Application.Diagnostic.{
  GraphDynamicInstallDiagnostic, GraphStaticDiagnostic, dynamic_failure_parts,
  new_graph_dynamic_install_diagnostic, new_graph_static_diagnostic,
}
use heliopause.Application.Workflow.{GraphReport}
use heliopause.Base.{
  Bool, List, Option, Result, [], any, false, if◌then◌else◌, is_empty, length, list_eq, nat_eq,
  none, not, ok, reject, some, ◌&&◌, ◌++◌, ◌==◌, ◌>>=◌, ◌>>◌, ◌||◌, ◌∷◌,
}
use heliopause.Domain.Check.{Capability, CheckExecution, CheckKind, ExecutionStatus}
use heliopause.Domain.Graph.{DependencyNodeId, LockedDependency, LockedDependencyGraph, node_id_eq}
use heliopause.Domain.Report.{InspectionReport}
use heliopause.Text.{Text, codes}

abbrev pub zero_check : CheckExecution
zero_check = record {
  id = record { value = [] };
  kind = CheckKind.other [];
  required = false;
  capability = Capability.other [];
  status = ExecutionStatus.other [];
  limitation = [];
}

abbrev pub zero_inspection_report : InspectionReport
zero_inspection_report = record {
  execution = zero_check;
  executions = [];
  findings = [];
  evidence = [];
  diagnostics = [];
}

unfoldable pub report_at : DependencyNodeId → List GraphReport → Option InspectionReport
report_at node [] = none
report_at node (r ∷ reports) = if r.node == node then some r.report else report_at node reports

abbrev pub report_of : DependencyNodeId → List GraphReport → InspectionReport
report_of node reports = elim (report_at node reports) [
  | some report ↦ report
  | none ↦ zero_inspection_report
]

-- `validateGraphReports`
unfoldable pub validate_graph_reports : LockedDependencyGraph → List GraphReport → Result (Unit {0})
validate_graph_reports graph reports =
    reject (not (length reports == length graph.nodes))
      "graph inspection reports do not cover every dependency"
    >> reject (any (λ d. is_empty (report_of d.node reports).executions) graph.nodes)
        "graph inspection report is invalid for node"

-- `graphStaticDiagnostics`, over the nodes.
unfoldable pub graph_static_diagnostics :
    List GraphReport → List LockedDependency → Result (List GraphStaticDiagnostic)
graph_static_diagnostics reports [] = ok []
graph_static_diagnostics reports (d ∷ nodes) =
    let rest = graph_static_diagnostics reports nodes in
    elim (report_of d.node reports).diagnostics [
      | [] ↦ rest
      | first ∷ more ↦ new_graph_static_diagnostic d first >>= λ diagnostic.
          rest >>= λ diagnostics. ok (diagnostic ∷ diagnostics)
    ]

abbrev pub is_dynamic_import : Text → Bool
is_dynamic_import id =
    id == codes "pypi-dynamic-import"
    || id == codes "pypi-dynamic-import-not-applicable"
    || id == codes "pypi-dynamic-import-supplemented"

-- The loop over the executions of one report.
unfoldable pub dynamic_install_diagnostics :
    LockedDependency → List CheckExecution → Result (List GraphDynamicInstallDiagnostic)
dynamic_install_diagnostics d [] = ok []
dynamic_install_diagnostics d (c ∷ executions) =
    let rest = dynamic_install_diagnostics d executions in
    elim (dynamic_failure_parts c.limitation) [
      | none ↦ rest
      | some failure ↦
          if is_dynamic_import c.id.value && not (is_empty c.limitation)
          then (new_graph_dynamic_install_diagnostic d failure >>= λ diagnostic.
              rest >>= λ diagnostics. ok (diagnostic ∷ diagnostics))
          else rest
    ]

-- `graphDynamicInstallDiagnostics`, over the nodes.
unfoldable pub graph_dynamic_install_diagnostics :
    List GraphReport → List LockedDependency → Result (List GraphDynamicInstallDiagnostic)
graph_dynamic_install_diagnostics reports [] = ok []
graph_dynamic_install_diagnostics reports (d ∷ nodes) = do
  diagnostics ← dynamic_install_diagnostics d (report_of d.node reports).executions
  rest ← graph_dynamic_install_diagnostics reports nodes
  ok (diagnostics ++ rest)
