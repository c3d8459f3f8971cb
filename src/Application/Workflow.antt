-- ===== src/Application/Workflow.antt =====
-- internal/core/ports, as the install workflows of internal/application use it: the calls of ports, and
-- what a workflow does to the world. A port may answer by all that was called before.
pub mod Ensures
use heliopause.Base.{List, Option, Result, String, err, ok, suc, ℕ, ◌++◌, ◌∷◌}
use heliopause.Domain.Artifact.{AcquiredArtifact, ArtifactReference, ResolvedArtifact}
use heliopause.Domain.Derivation.{DerivedDependency}
use heliopause.Domain.Evidence.{Evidence, EvidenceReference}
use heliopause.Domain.Graph.{DependencyNodeId, LockedDependencyGraph}
use heliopause.Domain.Identifier.{OperationId, RunId}
use heliopause.Domain.Inspected.{DependencyInspection, DependencyResolution, InspectedDependencySet}
use heliopause.Domain.Install.{InstallContext}
use heliopause.Domain.Operation.{PolicyInput}
use heliopause.Domain.Project.{ProjectVerifiedSet, StagedProjectSet}
use heliopause.Domain.Project.Update.{ProjectControlFile, ProjectDependencyUpdate}
use heliopause.Domain.Report.{InspectionReport, VerificationReport}
use heliopause.Domain.Run.{InspectionRun, PolicyDecision}
use heliopause.Domain.Snapshot.{ProjectDependencySnapshot}
use heliopause.Domain.Verified.{PromotedInstall, StagedSet, VerifiedBundle, VerifiedSet}

-- A call of a port or of an identifier generator, with its arguments.
pub data PortCall : Type 0 where
  generates_operation generates_run : PortCall
  resolves : ArtifactReference → InstallContext → PortCall
  acquires : RunId → ResolvedArtifact → PortCall
  verifies inspects : AcquiredArtifact → PortCall
  inspects_graph : LockedDependencyGraph → List AcquiredArtifact → PortCall
  records : RunId → List Evidence → PortCall
  derives : List DependencyInspection → PortCall
  builds : OperationId → InstallContext → Option DependencyResolution → VerifiedSet → PortCall
  stages : VerifiedBundle → PortCall
  promotes : StagedSet → VerifiedBundle → InstallContext → PortCall
  begins resolves_project : InstallContext → PortCall
  resolves_update : ArtifactReference → InstallContext → List ProjectControlFile → PortCall
  reads_controls checks_unchanged closes : PortCall
  inspects_project : ProjectDependencySnapshot → PortCall
  stages_project : ProjectVerifiedSet → PortCall
  commits_snapshot : ProjectDependencySnapshot → StagedProjectSet → PortCall
  commits_update : ProjectDependencyUpdate → StagedProjectSet → PortCall

-- An entry of the map that a graph inspection returns; the nodes of a map are different.
pub record GraphReport : Type 0 where
  pub node : DependencyNodeId
  pub report : InspectionReport

-- The calls before, the latest first.
abbrev pub History : Type 0
History = List PortCall

-- A capability that a service may not have is an `Option`, and so is an argument that may be a zero value.
pub record InstallPorts : Type 0 where
  pub new_operation_id : History → Result OperationId
  pub new_run_id : History → Result RunId
  pub resolve_dependencies :
      History → ArtifactReference → InstallContext → Result DependencyResolution
  pub acquire : History → RunId → ResolvedArtifact → Result AcquiredArtifact
  pub verify : History → AcquiredArtifact → Result VerificationReport
  pub inspect : History → AcquiredArtifact → Result InspectionReport
  pub inspect_graph :
      Option (History → LockedDependencyGraph → List AcquiredArtifact → Result (List GraphReport))
  pub record_evidence : History → RunId → List Evidence → Result (List EvidenceReference)
  pub derive : Option (History → List DependencyInspection → Result (List DerivedDependency))
  pub evaluate : PolicyInput → Result PolicyDecision
  pub evaluate_set : InspectedDependencySet → Result PolicyDecision
  pub build_manifest :
      History
      → OperationId
      → InstallContext
      → Option DependencyResolution
      → VerifiedSet
      → Result VerifiedBundle
  pub stage : History → VerifiedBundle → Result StagedSet
  pub promote : History → StagedSet → VerifiedBundle → InstallContext → Result PromotedInstall

-- The history, how many runs were created, and those of them that are out of use.
pub record World : Type 0 where
  pub history : History
  pub begun : ℕ
  pub runs : List InspectionRun

pub record Ran {ℓ} (A : Type ℓ) : Type ℓ where
  pub value : A
  pub world : World

abbrev pub Workflow {ℓ} : Type ℓ → Type ℓ
Workflow A = World → Ran A

unfoldable pub pure {ℓ} : {A : Type ℓ} → A → Workflow A
pure a w = record { value = a; world = w }

-- What follows a result.
abbrev pub resume {ℓ κ} :
    {A : Type ℓ} {B : Type κ} → Result A → (String → Workflow B) → (A → Workflow B) → Workflow B
resume (ok a) fail next = next a
resume (err e) fail next = fail e

-- `value, err := m; if err != nil { return … }`
unfoldable pub try {ℓ κ} :
    {A : Type ℓ} {B : Type κ}
    → Workflow (Result A)
    → (String → Workflow B)
    → (A → Workflow B)
    → Workflow B
try m fail next w = let ran = m w in resume ran.value fail next ran.world

unfoldable pub ask {ℓ} : {A : Type ℓ} → PortCall → (History → A) → Workflow A
ask call answer w = record {
  value = answer w.history;
  world = record w { history = call ∷ w.history };
}

-- A run that is not used any more is put away.
unfoldable pub put_away {ℓ} : {A : Type ℓ} → List InspectionRun → A → Workflow A
put_away runs a w = record { value = a; world = record w { runs = runs ++ w.runs } }

-- A run is created, or is not.
abbrev pub count_run : Result InspectionRun → ℕ → ℕ
count_run (ok run) n = suc n
count_run (err e) n = n

unfoldable pub create : Result InspectionRun → Workflow (Result InspectionRun)
create r w = record { value = r; world = record w { begun = count_run r w.begun } }

-- Two workflows in sequence.
unfoldable pub after {ℓ κ} : {A : Type ℓ} {B : Type κ} → Workflow A → (A → Workflow B) → Workflow B
after m next w = let ran = m w in next ran.value ran.world
