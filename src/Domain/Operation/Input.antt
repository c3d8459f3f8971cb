-- ===== src/Domain/Operation/Input.antt =====
-- internal/core/domain/operation.go: the references of a policy input, and the evidence of its reports.
use heliopause.Base.{
  ==-refl, ==→≡, All, Bool-cases, List, [], any, ap, arith, contains, false, if◌then◌else◌, inl,
  inr, length, length-map, list_eq, map, nat_eq, not, ok, refl, subst, true, ◌++◌, ◌==◌, ◌||◌, ◌∷◌,
  ◌≡◌,
}
use heliopause.Base.Coverage.{Distinct, coverage}
use heliopause.Domain.Artifact.{AcquiredArtifact, content_digest_eq, identity_eq}
use heliopause.Domain.Evidence.{Evidence, EvidenceId, EvidenceReference, evidence_id_eq}
use heliopause.Domain.Identifier.{RunId}
use heliopause.Domain.Operation.{PolicyInput, check_references, distinct_ids, new_policy_input}
use heliopause.Domain.Report.{InspectionReport, VerificationReport}

-- What the loop over the references leaves: known identifiers, none twice, none met before.
check_references-Distinct :
    (want seen : List EvidenceId) (references : List EvidenceReference)
    → check_references want seen references ≡ ok tt
    → Distinct (map (λ r. r.id) references)
      × ((k : EvidenceId) → contains k (map (λ r. r.id) references) ≡ true → contains k want ≡ true)
      × ((k : EvidenceId)
          → contains k seen ≡ true
          → contains k (map (λ r. r.id) references) ≡ false)
unfolding check_references
check_references-Distinct want seen [] h = (tt, (λ k e. cc), λ k e. refl)
check_references-Distinct want seen (r ∷ references) h =
    let (once, inside, apart) =
      check_references-Distinct want (r.id ∷ seen) references (ground arith) in
    let fresh : contains r.id seen ≡ false = ground arith in
    let known : contains r.id want ≡ true = ground arith in
    (
      (apart r.id (rw (==-refl r.id)), once),
      (λ k e. elim (Bool-cases (r.id == k)) [
        | inl same ↦ subst (λ t. contains t want ≡ true) (==→≡ r.id k same) known
        | inr differs ↦ inside k (ground arith)
      ]),
      λ k e. elim (Bool-cases (r.id == k)) [
        | inl same ↦ cc (e, fresh, ap (λ t. contains t seen) (==→≡ r.id k same))
        | inr differs ↦ rw differs (apart k (ground arith))
      ],
    )

-- The keys of the map are the identifiers that were put in.
contains-distinct_ids :
    (k : EvidenceId) (seen ids : List EvidenceId)
    → contains k seen || contains k ids ≡ true
    → contains k (distinct_ids seen ids) ≡ true
unfolding distinct_ids
contains-distinct_ids k seen [] h = ground arith
contains-distinct_ids k seen (id ∷ ids) h =
    contains-distinct_ids k (if contains id seen then seen else id ∷ seen) ids
      (elim (Bool-cases (contains id seen)) [
        | inl met ↦ elim (Bool-cases (id == k)) [
          | inl same ↦
              let held : contains k seen ≡ true =
                subst (λ t. contains t seen ≡ true) (==→≡ id k same) met in
              rw (met, held)
          | inr differs ↦ ground arith
        ]
        | inr new ↦ ground arith
      ])

-- An item of evidence about the artifact, that one of the references names.
abbrev pub IsReferenced : AcquiredArtifact → List EvidenceReference → Evidence → Type 0
IsReferenced artifact references item =
    (item.identity ≡ artifact.identity)
    × (item.digest ≡ artifact.digest)
    × (contains item.id (map (λ r. r.id) references) ≡ true)

reported-IsReferenced :
    (artifact : AcquiredArtifact) (references : List EvidenceReference) (reported : List Evidence)
    → any
        (λ item. not (item.identity == artifact.identity) || not (item.digest == artifact.digest))
        reported
      ≡ false
    → ((k : EvidenceId)
        → contains k (map (λ item. item.id) reported) ≡ true
        → contains k (map (λ r. r.id) references) ≡ true)
    → All (IsReferenced artifact references) reported
reported-IsReferenced artifact references [] h c = tt
reported-IsReferenced artifact references (item ∷ reported) h c = (
  (
    ==→≡ item.identity artifact.identity (ground arith),
    ==→≡ item.digest artifact.digest (ground arith),
    c item.id (rw (==-refl item.id)),
  ),
  reported-IsReferenced artifact references reported (ground arith) (λ k e. c k (ground arith)),
)

-- An accepted input keeps its parts, and its references cover the evidence of both reports: each
-- item is about the artifact and is referred to, and no identifier is referred to twice.
pub new_policy_input-covers :
    (run_id : RunId) (artifact : AcquiredArtifact) (verification : VerificationReport)
    (inspection : InspectionReport) (references : List EvidenceReference) (input : PolicyInput)
    → new_policy_input run_id artifact verification inspection references ≡ ok input
    → (input ≡ record {
      run_id = run_id;
      artifact = artifact;
      verification = verification;
      inspection = inspection;
      evidence = references;
    })
      × All (IsReferenced artifact references) (verification.evidence ++ inspection.evidence)
      × Distinct (map (λ r. r.id) references)
new_policy_input-covers run_id artifact verification inspection references input h =
    let (kept, about, sized, checked) = parts in
    let (once, inside, _) = check_references-Distinct want [] references checked in
    (
      kept,
      reported-IsReferenced artifact references reported about (λ k e.
          coverage (map (λ r. r.id) references) want once inside
            (omega (arith, sized, length-map references (λ r. r.id))) k
            (contains-distinct_ids k [] (map (λ item. item.id) reported) e)),
      once,
    )
  where
    reported : List Evidence
    reported = verification.evidence ++ inspection.evidence

    want : List EvidenceId
    want = distinct_ids [] (map (λ item. item.id) reported)

    parts :
        (input ≡ record {
          run_id = run_id;
          artifact = artifact;
          verification = verification;
          inspection = inspection;
          evidence = references;
        })
        × (any
              (λ item.
                not (item.identity == artifact.identity) || not (item.digest == artifact.digest))
              reported
            ≡ false)
        × (length references ≡ length want)
        × (check_references want [] references ≡ ok tt)
    parts = unfold new_policy_input in ground arith
