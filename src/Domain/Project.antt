-- ===== src/Domain/Project.antt =====
-- internal/core/domain/project_verified_set.go and project_staged_set.go: the inspections of a project
-- and its approval. SHA-256 is the parameter `sha256`, from bytes to the hexadecimal text of their hash.
pub mod Coverage
pub mod Update
use heliopause.Base.{
  Bool, List, Option, Result, [], any, contains, err, false, if◌then◌else◌, is_empty, length,
  list_eq, ltb, nat_eq, none, not, ok, or_error, reject, some, ℕ, ◌&&◌, ◌++◌, ◌==◌, ◌>>=◌, ◌>>◌,
  ◌||◌, ◌∷◌,
}
use heliopause.Base.Order.{sort}
use heliopause.Domain.Artifact.{
  ContentDigest, ResolvedArtifact, ResolvedArtifactIdentity, identity_eq, source_id_eq,
}
use heliopause.Domain.Check.{
  CheckExecution, is_completed, is_inspection, is_supported, is_verification,
}
use heliopause.Domain.Evidence.{CheckId, check_id_eq}
use heliopause.Domain.Graph.{
  DependencyNodeId, max_dependency_nodes, new_dependency_node_id, node_id_eq,
}
use heliopause.Domain.Identifier.{RunId, parse_run_id, run_id_eq}
use heliopause.Domain.Inspected.{DependencyInspection}
use heliopause.Domain.Run.{PolicyDecision, is_allow}
use heliopause.Domain.Snapshot.{ProjectDependencySnapshot, is_valid_snapshot}
use heliopause.Text.{Text, codes, cut_prefix, text_lt}

unfoldable pub project_dependency_node_id :
    (List ℕ → Text) → ResolvedArtifactIdentity → Result DependencyNodeId
project_dependency_node_id sha256 i = do
  reject (is_empty i.source.value) "project dependency identity is required"
  new_dependency_node_id
      (b'p' ∷ sha256 (i.source.value ++ 0 ∷ (i.name ++ 0 ∷ (i.version ++ 0 ∷ i.variant))))

-- An entry of the map from nodes to locked artifacts.
pub record LockedEntry : Type 0 where
  pub node : DependencyNodeId
  pub artifact : ResolvedArtifact

unfoldable pub lock_entries :
    (List ℕ → Text) → List DependencyNodeId → List ResolvedArtifact → Result (List LockedEntry)
lock_entries sha256 seen [] = ok []
lock_entries sha256 seen (a ∷ others) = do
  node ← project_dependency_node_id sha256 a.identity
  reject (contains node seen) "project snapshot contains duplicate entry identity"
  rest ← lock_entries sha256 (node ∷ seen) others
  ok (record { node = node; artifact = a } ∷ rest)

unfoldable pub find_entry : DependencyNodeId → List LockedEntry → Option ResolvedArtifact
find_entry node [] = none
find_entry node (e ∷ entries) =
    let rest = find_entry node entries in if e.node == node then some e.artifact else rest

-- What the loop over the checks of an entry has met.
pub record EntryChecks : Type 0 where
  pub verification : Bool
  pub inspection : Bool

unfoldable pub scan_checks : List CheckId → EntryChecks → List CheckExecution → Result EntryChecks
scan_checks seen found [] = ok found
scan_checks seen found (c ∷ checks) =
    reject (is_empty c.id.value || contains c.id seen)
      "project entry checks are invalid or duplicate"
    >> scan_checks (c.id ∷ seen)
        (record {
          verification = found.verification || c.required && is_verification c.kind;
          inspection = found.inspection || c.required && is_inspection c.kind;
        })
        checks

-- `"intake:" + runID + ":" + variant`
abbrev pub intake_handle : RunId → Text → Text
intake_handle run_id variant = codes "intake:" ++ (run_id.value ++ b':' ∷ variant)

-- The inspection is of the locked artifact, under its own run.
abbrev pub is_subject : ResolvedArtifact → DependencyInspection → Bool
is_subject a i =
    not (is_empty i.run_id.value)
    && not (is_empty i.decision.policy_id)
    && i.artifact.identity == a.identity
    && not (is_empty i.artifact.digest.value)
    && not (is_empty a.declared_integrity)
    && i.artifact.declared_integrity == a.declared_integrity
    && i.artifact.handle == intake_handle i.run_id a.identity.variant
    && not (is_empty i.evidence)

-- The tests on one inspection, with the nodes and runs of those before it.
unfoldable pub check_entry :
    List LockedEntry → List DependencyNodeId → List RunId → DependencyInspection → Result (Unit {0})
check_entry locked seen runs i = elim (find_entry i.node locked) [
  | none ↦ err "project inspection subject, integrity or coverage is invalid"
  | some a ↦
      reject (contains i.node seen || contains i.run_id runs || not (is_subject a i))
        "project inspection subject, integrity or coverage is invalid"
      >> (scan_checks [] (record { verification = false; inspection = false }) i.checks >>= λ found.
          reject (not found.verification || not found.inspection)
            "project entry requires verification and inspection checks")
]

unfoldable pub check_entries :
    List LockedEntry
    → List DependencyNodeId
    → List RunId
    → List DependencyInspection
    → Result (Unit {0})
check_entries locked seen runs [] = ok tt
check_entries locked seen runs (i ∷ inspections) =
    check_entry locked seen runs i
    >> check_entries locked (i.node ∷ seen) (i.run_id ∷ runs) inspections

pub record InspectedProjectSet : Type 0 where
  pub snapshot : ProjectDependencySnapshot
  pub inspections : List DependencyInspection

unfoldable pub new_inspected_project_set :
    (List ℕ → Text)
    → ProjectDependencySnapshot
    → List DependencyInspection
    → Result InspectedProjectSet
new_inspected_project_set sha256 snapshot inspections = do
  reject
      (not (is_valid_snapshot snapshot)
        || not (length inspections == length snapshot.dependencies)
        || ltb max_dependency_nodes (length inspections))
      "project inspection requires complete snapshot coverage"
  locked ← lock_entries sha256 [] snapshot.dependencies
  check_entries locked [] [] inspections
  ok (record {
    snapshot = snapshot;
    inspections = sort (λ a b. text_lt a.node.value b.node.value) inspections;
  })

-- `Valid`
unfoldable pub is_valid_project_set : InspectedProjectSet → Bool
is_valid_project_set s =
    is_valid_snapshot s.snapshot && length s.inspections == length s.snapshot.dependencies

pub record ProjectVerifiedSet : Type 0 where
  pub inspected : InspectedProjectSet
  pub decision : PolicyDecision

abbrev pub is_open_check : CheckExecution → Bool
is_open_check c = c.required && (not (is_supported c.capability) || not (is_completed c.status))

-- The loop stops at the first entry without ALLOW, or with a required check that is not completed.
unfoldable pub check_approved : List DependencyInspection → Result (Unit {0})
check_approved [] = ok tt
check_approved (i ∷ inspections) =
    reject (not (is_allow i.decision.decision)) "project verified set contains an unapproved entry"
    >> reject (any is_open_check i.checks)
        "project verified set contains an incomplete required check"
    >> check_approved inspections

unfoldable pub new_project_verified_set :
    InspectedProjectSet → PolicyDecision → Result ProjectVerifiedSet
new_project_verified_set inspected decision = do
  reject
      (not (is_valid_project_set inspected)
        || not (is_allow decision.decision)
        || is_empty decision.policy_id)
      "project verified set requires a complete inspected snapshot and ALLOW"
  check_approved inspected.inspections
  ok (record { inspected = inspected; decision = decision })

-- `Valid`
unfoldable pub is_valid_project_verified_set : ProjectVerifiedSet → Bool
is_valid_project_verified_set s =
    is_valid_project_set s.inspected
    && is_allow s.decision.decision
    && not (is_empty s.decision.policy_id)

pub record StagedProjectSet : Type 0 where
  pub set : ProjectVerifiedSet
  pub handle : Text
  pub digest : ContentDigest

unfoldable pub new_staged_project_set :
    ProjectVerifiedSet → Text → ContentDigest → Result StagedProjectSet
unfolding parse_run_id
new_staged_project_set set handle digest = do
  reject (not (is_valid_project_verified_set set) || is_empty digest.value)
      "staged project cache requires complete approval and receipt digest"
  id ← elim (cut_prefix handle (codes "project-cache:")) [
    | none ↦ err "project cache handle is invalid"
    | some id ↦ ok id
  ]
  or_error (parse_run_id id) "project cache handle is invalid"
  ok (record { set = set; handle = handle; digest = digest })

-- `Valid`
unfoldable pub is_valid_staged : StagedProjectSet → Bool
is_valid_staged s =
    is_valid_project_verified_set s.set && not (is_empty s.handle) && not (is_empty s.digest.value)
