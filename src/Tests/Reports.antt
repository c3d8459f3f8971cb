-- ===== src/Tests/Reports.antt =====
-- Two inspection reports, one with a finding, combined.
use heliopause.Base.{[], ok, refl, ◌∷◌, ◌≡◌}
use heliopause.Domain.Check.{
  InspectionDiagnosticStage, inspection, new_inspection_diagnostic, static_finding,
}
use heliopause.Domain.Report.{
  InspectionReport, gather_reports, new_composite_inspection_report, validate_diagnostics,
  validate_evidence_for_check, validate_findings_for_evidence, validate_inspection,
}
use heliopause.Domain.Report.Supported.{IsCombined, new_composite_inspection_report-IsCombined}
use heliopause.Tests.Data.{sample_check, sample_evidence, sample_inspection}
use heliopause.Text.{codes}

abbrev flagged_inspection : InspectionReport
flagged_inspection = record sample_inspection {
  findings =
      record {
        code = codes "M3_NETWORK_ATTEMPT";
        evidence_ids = record { value = codes "two" } ∷ [];
      }
      ∷ [];
  diagnostics = record { cause = static_finding; stage = InspectionDiagnosticStage.empty } ∷ [];
}

abbrev combined_inspection : InspectionReport
combined_inspection = record flagged_inspection {
  executions = sample_check inspection ∷ sample_check inspection ∷ [];
  evidence = sample_evidence (codes "two") ∷ sample_evidence (codes "two") ∷ [];
}

combined :
    new_composite_inspection_report (sample_inspection ∷ flagged_inspection ∷ [])
    ≡ ok combined_inspection
unfolding new_composite_inspection_report gather_reports validate_inspection
    validate_evidence_for_check validate_findings_for_evidence validate_diagnostics
    new_inspection_diagnostic
combined = refl

new_composite_inspection_report-IsCombined_example :
    IsCombined (sample_inspection ∷ flagged_inspection ∷ []) combined_inspection
new_composite_inspection_report-IsCombined_example =
    new_composite_inspection_report-IsCombined (sample_inspection ∷ flagged_inspection ∷ [])
      combined_inspection combined
