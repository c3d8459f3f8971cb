-- ===== src/Application/Diagnostic/Codes.antt =====
-- internal/application/install.go: the loop that gathers the dynamic finding codes of a diagnostic.
use heliopause.Application.Diagnostic.{
  DependencyPolicyDiagnostic, dynamic_codes, new_dependency_policy_diagnostic,
}
use heliopause.Base.{
  ==-refl, ==→≡, Bool, Bool-cases, List, [], ap, arith, contains, false, inl, inr, list_eq, map,
  nat_eq, not, ok, refl, subst, sym, true, ◌&&◌, ◌==◌, ◌∙◌, ◌∷◌, ◌≡◌,
}
use heliopause.Base.Coverage.{Distinct}
use heliopause.Domain.Evidence.{Finding}
use heliopause.Domain.Graph.{LockedDependency}
use heliopause.Domain.Run.{PolicyDecision}
use heliopause.Text.{Text, codes, has_prefix}

-- A code of the third policy.
abbrev pub is_dynamic : Text → Bool
is_dynamic code_ = has_prefix code_ (codes "M3_")

abbrev pub finding_codes : List Finding → List Text
finding_codes findings = map (λ f. f.code) findings

dynamic_codes-fresh :
    (seen : List Text) (findings : List Finding) (k : Text)
    → contains k seen ≡ true
    → contains k (dynamic_codes seen findings) ≡ false
unfolding dynamic_codes
dynamic_codes-fresh seen [] k h = refl
dynamic_codes-fresh seen (f ∷ findings) k h =
    elim (Bool-cases (is_dynamic f.code && not (contains f.code seen))) [
      | inr other ↦ rw other (dynamic_codes-fresh seen findings k h)
      | inl fresh ↦ elim (Bool-cases (f.code == k)) [
        | inl same ↦
            absurd
              (cc (h, subst (λ t. contains t seen ≡ false) (==→≡ f.code k same) (ground arith)))
        | inr differs ↦
            rw (fresh, differs) (dynamic_codes-fresh (f.code ∷ seen) findings k (rw differs h))
      ]
    ]

dynamic_codes-Distinct :
    (seen : List Text) (findings : List Finding) → Distinct (dynamic_codes seen findings)
unfolding dynamic_codes
dynamic_codes-Distinct seen [] = tt
dynamic_codes-Distinct seen (f ∷ findings) =
    elim (Bool-cases (is_dynamic f.code && not (contains f.code seen))) [
      | inr other ↦ rw other (dynamic_codes-Distinct seen findings)
      | inl fresh ↦ rw fresh (
        dynamic_codes-fresh (f.code ∷ seen) findings f.code (rw (==-refl f.code)),
        dynamic_codes-Distinct (f.code ∷ seen) findings,
      )
    ]

and_false : (a : Bool) → (a && false) ≡ false
and_false a = ground arith

contains-dynamic_codes :
    (seen : List Text) (findings : List Finding) (k : Text)
    → contains k (dynamic_codes seen findings)
      ≡ (contains k (finding_codes findings) && (is_dynamic k && not (contains k seen)))
unfolding dynamic_codes
contains-dynamic_codes seen [] k = refl
contains-dynamic_codes seen (f ∷ findings) k = elim (Bool-cases (f.code == k)) [
  | inl same ↦
      let at_k : (is_dynamic f.code && not (contains f.code seen))
          ≡ (is_dynamic k && not (contains k seen)) =
        ap (λ t. is_dynamic t && not (contains t seen)) (==→≡ f.code k same) in
      elim (Bool-cases (is_dynamic f.code && not (contains f.code seen))) [
        | inl fresh ↦ rw (fresh, same) (sym (sym at_k ∙ fresh))
        | inr other ↦
            rw (other, same)
              (contains-dynamic_codes seen findings k
                ∙ (ap (λ t. contains k (finding_codes findings) && t) (sym at_k ∙ other)
                    ∙ (and_false (contains k (finding_codes findings)) ∙ sym (sym at_k ∙ other))))
      ]
  | inr differs ↦ elim (Bool-cases (is_dynamic f.code && not (contains f.code seen))) [
    | inl fresh ↦
        rw (fresh, differs) (contains-dynamic_codes (f.code ∷ seen) findings k ∙ rw differs refl)
    | inr other ↦ rw (other, differs) (contains-dynamic_codes seen findings k)
  ]
]

and_true : (a : Bool) → (a && true) ≡ a
and_true a = ground arith

codes-kept :
    (dependency : LockedDependency) (decision : PolicyDecision) (findings : List Finding)
    (d : DependencyPolicyDiagnostic)
    → new_dependency_policy_diagnostic dependency decision findings ≡ ok d
    → d.dynamic_finding_codes ≡ dynamic_codes [] findings
unfolding new_dependency_policy_diagnostic
codes-kept dependency decision findings d h = ground arith

-- The dynamic finding codes of a policy diagnostic are different ones, and are exactly the codes of
-- its findings that begin with M3_.
pub new_dependency_policy_diagnostic-codes :
    (dependency : LockedDependency) (decision : PolicyDecision) (findings : List Finding)
    (d : DependencyPolicyDiagnostic)
    → new_dependency_policy_diagnostic dependency decision findings ≡ ok d
    → Distinct d.dynamic_finding_codes
      × ((k : Text)
          → contains k d.dynamic_finding_codes
            ≡ (contains k (finding_codes findings) && is_dynamic k))
new_dependency_policy_diagnostic-codes dependency decision findings d h =
    let same = codes-kept dependency decision findings d h in
    (
      subst Distinct (sym same) (dynamic_codes-Distinct [] findings),
      λ k.
          ap (contains k) same
          ∙ (contains-dynamic_codes [] findings k
              ∙ ap (λ t. contains k (finding_codes findings) && t) (and_true (is_dynamic k))),
    )
