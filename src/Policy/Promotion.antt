-- ===== src/Policy/Promotion.antt =====
-- internal/policy/m4.go with internal/core/domain/manifest.go: the set policy and what it admits to
-- promotion.
use heliopause.Base.{
  All, Bool-cases, List, Result-cases, [], any, ap, arith, false, inl, inr, is_empty, is_ok,
  list_eq, nat_eq, not, ok, refl, true, ◌↔◌, ◌∷◌, ◌≡◌,
}
use heliopause.Domain.Artifact.{validate_normalized_identifier}
use heliopause.Domain.Inspected.{DependencyInspection, InspectedDependencySet, is_valid_set}
use heliopause.Domain.Project.{
  InspectedProjectSet, check_approved, is_valid_project_set, new_project_verified_set,
}
use heliopause.Domain.Run.{
  Decision, PolicyDecision, is_allow, is_block, manual_review, new_policy_decision,
}
use heliopause.Domain.Verified.{new_verified_set}
use heliopause.Policy.{decide_with, is_incomplete_required}
use heliopause.Policy.M4.{m4_decision, m4_entries, m4_evaluate_project_set, m4_evaluate_set}
use heliopause.Policy.Rules.{decide_with-eq_ok}
use heliopause.Text.{Text, codes}
use heliopause.Text.Pattern.{failure_code_pattern, normalized_identifier}
use heliopause.Text.Utf8.{is_valid_string}

-- An entry of an allowed set.
abbrev pub EntryAllows : DependencyInspection → Type 0
EntryAllows i =
    (is_allow i.decision.decision ≡ true) × (any is_incomplete_required i.checks ≡ false)

-- What the set policy asks before it allows a set.
pub record M4Allows (set : InspectedDependencySet) : Type 0 where
  pub valid : is_valid_set set ≡ true
  pub no_host_action : any (λ n. n.host_install_action) set.graph.nodes ≡ false
  pub entries : All EntryAllows set.inspections

m4_review :
    (reason : Text) (d : PolicyDecision)
    → m4_decision manual_review reason ≡ ok d
    → is_allow d.decision ≡ false
unfolding m4_decision
m4_review reason d h =
    rw (decide_with-eq_ok (codes "m4-npm-install-promotion") manual_review reason d h).0

m4_block :
    (reason : Text) (d : PolicyDecision)
    → m4_decision Decision.block reason ≡ ok d
    → is_allow d.decision ≡ false
unfolding m4_decision
m4_block reason d h =
    rw (decide_with-eq_ok (codes "m4-npm-install-promotion") Decision.block reason d h).0

m4_allow :
    (reason : Text) (d : PolicyDecision)
    → m4_decision Decision.allow reason ≡ ok d
    → is_allow d.decision ≡ true
unfolding m4_decision
m4_allow reason d h =
    rw (decide_with-eq_ok (codes "m4-npm-install-promotion") Decision.allow reason d h).0

m4_entries-allow :
    (is : List DependencyInspection) (d : PolicyDecision)
    → m4_entries is ≡ ok d
    → (is_allow d.decision ≡ true) ↔ All EntryAllows is
unfolding m4_entries
m4_entries-allow [] d h = (λ a. tt, λ v. m4_allow (codes "M4_VERIFIED_SET_COMPLETED") d h)
m4_entries-allow (i ∷ is) d h = elim (Bool-cases (is_allow i.decision.decision)) [
  | inr other ↦ (
    λ a. cc (a, m4_review (codes "M4_DEPENDENCY_REVIEW_REQUIRED") d (rw other at h)),
    λ v. cc (other, v.0.0),
  )
  | inl allowed ↦ elim (Bool-cases (any is_incomplete_required i.checks)) [
    | inl open_check ↦ (
      λ a.
          cc
            (a, m4_review (codes "M4_REQUIRED_CHECK_INCOMPLETE") d (rw (allowed, open_check) at h)),
      λ v. cc (open_check, v.0.1),
    )
    | inr complete ↦
        let rest = m4_entries-allow is d (rw (allowed, complete) at h) in
        (λ a. ((allowed, complete), rest.0 a), λ v. rest.1 v.1)
  ]
]

entries_not_blocked :
    (is : List DependencyInspection)
    → All EntryAllows is
    → any (λ i. is_block i.decision.decision) is ≡ false
entries_not_blocked [] h = refl
entries_not_blocked (i ∷ is) h = ground (arith, entries_not_blocked is h.1)

-- The set policy allows exactly a complete set without host install actions whose every entry is
-- allowed with its required checks supported and completed.
pub m4_evaluate_set-M4Allows :
    (set : InspectedDependencySet) (d : PolicyDecision)
    → m4_evaluate_set set ≡ ok d
    → (is_allow d.decision ≡ true) ↔ M4Allows set
unfolding m4_evaluate_set
m4_evaluate_set-M4Allows set d h = elim (Bool-cases (is_valid_set set)) [
  | inr refused ↦ cc (rw refused at h)
  | inl valid ↦ elim (Bool-cases (any (λ i. is_block i.decision.decision) set.inspections)) [
    | inl blocked ↦ (
      λ a. cc (a, m4_block (codes "M4_DEPENDENCY_BLOCKED") d (rw (valid, blocked) at h)),
      λ v. cc (blocked, entries_not_blocked set.inspections v.entries),
    )
    | inr free ↦ elim (Bool-cases (any (λ n. n.host_install_action) set.graph.nodes)) [
      | inl action ↦ (
        λ a. cc (
          a,
          m4_review (codes "M4_HOST_LIFECYCLE_UNSUPPORTED") d (rw (valid, free, action) at h),
        ),
        λ v. cc (action, v.no_host_action),
      )
      | inr quiet ↦
          let rest = m4_entries-allow set.inspections d (rw (valid, free, quiet) at h) in
          (
            λ a. record { valid = valid; no_host_action = quiet; entries = rest.0 a },
            λ v. rest.1 v.entries,
          )
    ]
  ]
]

entries_allowed :
    (is : List DependencyInspection)
    → All EntryAllows is
    → any (λ i. not (is_allow i.decision.decision)) is ≡ false
entries_allowed [] h = refl
entries_allowed (i ∷ is) h = ground (arith, entries_allowed is h.1)

-- A set that the set policy allows is accepted as a verified set, under that decision.
pub m4_evaluate_set-verified :
    (set : InspectedDependencySet) (d : PolicyDecision)
    → m4_evaluate_set set ≡ ok d
    → is_allow d.decision ≡ true
    → new_verified_set set d ≡ ok (record { inspected = set; decision = d })
unfolding new_verified_set
m4_evaluate_set-verified set d h a =
    let v = (m4_evaluate_set-M4Allows set d h).0 a in
    rw (v.valid, a, entries_allowed set.inspections v.entries)

-- The fixed decisions of the rule are all valid.
m4_decisions :
    (is_ok (m4_decision Decision.allow (codes "M4_VERIFIED_SET_COMPLETED")) ≡ true)
    × (is_ok (m4_decision manual_review (codes "M4_DEPENDENCY_REVIEW_REQUIRED")) ≡ true)
    × (is_ok (m4_decision manual_review (codes "M4_REQUIRED_CHECK_INCOMPLETE")) ≡ true)
    × (is_ok (m4_decision manual_review (codes "M4_HOST_LIFECYCLE_UNSUPPORTED")) ≡ true)
    × (is_ok (m4_decision Decision.block (codes "M4_DEPENDENCY_BLOCKED")) ≡ true)
unfolding m4_decision decide_with new_policy_decision validate_normalized_identifier is_valid_string
    normalized_identifier failure_code_pattern
m4_decisions = (refl, refl, refl, refl, refl)

m4_entries-total : (is : List DependencyInspection) → is_ok (m4_entries is) ≡ true
unfolding m4_entries
m4_entries-total [] = m4_decisions.0
m4_entries-total (i ∷ is) = elim (Bool-cases (is_allow i.decision.decision)) [
  | inr other ↦ rw other m4_decisions.1
  | inl allowed ↦ elim (Bool-cases (any is_incomplete_required i.checks)) [
    | inl open_check ↦ rw (allowed, open_check) m4_decisions.2
    | inr complete ↦ rw (allowed, complete) (m4_entries-total is)
  ]
]

-- The set policy reaches a decision on every valid set.
pub m4_evaluate_set-total :
    (set : InspectedDependencySet)
    → is_valid_set set ≡ true
    → (d : PolicyDecision) × (m4_evaluate_set set ≡ ok d)
unfolding m4_evaluate_set
m4_evaluate_set-total set valid = elim (Result-cases (m4_evaluate_set set)) [
  | inl done ↦ done
  | inr (x, e) ↦ cc (ap is_ok e, decided)
]
  where
    decided : is_ok (m4_evaluate_set set) ≡ true
    decided = elim (Bool-cases (any (λ i. is_block i.decision.decision) set.inspections)) [
      | inl blocked ↦ rw (valid, blocked) m4_decisions.4
      | inr free ↦ elim (Bool-cases (any (λ n. n.host_install_action) set.graph.nodes)) [
        | inl action ↦ rw (valid, free, action) m4_decisions.3
        | inr quiet ↦ rw (valid, free, quiet) (m4_entries-total set.inspections)
      ]
    ]

m4_decision-policy_id :
    (decision : Decision) (reason : Text) (d : PolicyDecision)
    → m4_decision decision reason ≡ ok d
    → is_empty d.policy_id ≡ false
unfolding m4_decision
m4_decision-policy_id decision reason d h =
    rw (decide_with-eq_ok (codes "m4-npm-install-promotion") decision reason d h).1

m4_entries-policy_id :
    (is : List DependencyInspection) (d : PolicyDecision)
    → m4_entries is ≡ ok d
    → is_empty d.policy_id ≡ false
unfolding m4_entries
m4_entries-policy_id [] d h = m4_decision-policy_id _ _ d h
m4_entries-policy_id (i ∷ is) d h = elim (Bool-cases (is_allow i.decision.decision)) [
  | inr other ↦
      m4_decision-policy_id manual_review (codes "M4_DEPENDENCY_REVIEW_REQUIRED") d (rw other at h)
  | inl allowed ↦ elim (Bool-cases (any is_incomplete_required i.checks)) [
    | inl open_check ↦
        m4_decision-policy_id manual_review (codes "M4_REQUIRED_CHECK_INCOMPLETE") d
          (rw (allowed, open_check) at h)
    | inr complete ↦ m4_entries-policy_id is d (rw (allowed, complete) at h)
  ]
]

check_approved-EntryAllows :
    (is : List DependencyInspection) → All EntryAllows is → check_approved is ≡ ok tt
unfolding check_approved is_incomplete_required
check_approved-EntryAllows [] h = refl
check_approved-EntryAllows (i ∷ is) h = rw (h.0.0, h.0.1) (check_approved-EntryAllows is h.1)

-- A project set that the set policy allows is accepted as a verified project set, under that
-- decision.
pub m4_evaluate_project_set-verified :
    (set : InspectedProjectSet) (d : PolicyDecision)
    → m4_evaluate_project_set set ≡ ok d
    → is_allow d.decision ≡ true
    → new_project_verified_set set d ≡ ok (record { inspected = set; decision = d })
unfolding m4_evaluate_project_set new_project_verified_set
m4_evaluate_project_set-verified set d h a = elim (Bool-cases (is_valid_project_set set)) [
  | inr refused ↦ cc (rw refused at h)
  | inl valid ↦ elim (Bool-cases (any (λ i. is_block i.decision.decision) set.inspections)) [
    | inl blocked ↦ cc (a, m4_block (codes "M4_DEPENDENCY_BLOCKED") d (rw (valid, blocked) at h))
    | inr free ↦
        let entries : m4_entries set.inspections ≡ ok d = rw (valid, free) at h in
        rw (
          valid,
          a,
          m4_entries-policy_id set.inspections d entries,
          check_approved-EntryAllows set.inspections
              ((m4_entries-allow set.inspections d entries).0 a),
        )
  ]
]
