-- ===== src/Domain/Project/Update.antt =====
-- internal/core/domain/project_update.go: a requested resolution with the complete project that was
-- selected for it. SHA-256 is the parameter `sha256`, from bytes to the hexadecimal text of their hash.
pub mod Selected
use heliopause.Base.{
  Bool, List, Option, Result, [], all, any, false, if◌then◌else◌, is_empty, leb, length, list_eq,
  ltb, nat_eq, none, not, ok, reject, some, true, ℕ, ◌&&◌, ◌==◌, ◌>>=◌, ◌>>◌, ◌||◌, ◌∷◌,
}
use heliopause.Base.Order.{sort}
use heliopause.Domain.Artifact.{
  ContentDigest, ResolvedArtifact, ResolvedArtifactIdentity, content_digest_eq, identity_eq,
  new_sha256_digest, resolved_artifact_eq,
}
use heliopause.Domain.Graph.{LockedDependency}
use heliopause.Domain.Inspected.{DependencyResolution}
use heliopause.Domain.Snapshot.{ProjectControlDigest, ProjectDependencySnapshot, is_valid_snapshot}
use heliopause.Text.{Text, codes, text_lt}

pub record ProjectControlFile : Type 0 where
  pub name : Text
  pub body : List ℕ
  pub is_present : Bool
  pub digest : ContentDigest

-- `4 << 20`
abbrev pub max_control_body_length : ℕ
max_control_body_length = 4194304

-- The runes that the loop over the name accepts; all are ASCII, and so the bytes.
abbrev pub is_control_name_char : ℕ → Bool
is_control_name_char c =
    leb b'a' c && leb c b'z'
    || leb b'A' c && leb c b'Z'
    || leb b'0' c && leb c b'9'
    || c == b'.'
    || c == b'_'
    || c == b'-'

-- The characters that a name must not contain.
abbrev pub is_separator : ℕ → Bool
is_separator c = c == b'/' || c == 0x5C || c == 0 || c == 0x0D || c == 0x0A

unfoldable pub new_project_control_file :
    (List ℕ → Text) → Text → List ℕ → Bool → Result ProjectControlFile
new_project_control_file sha256 name body is_present = do
  reject
      (is_empty name
        || ltb 128 (length name)
        || name == codes "."
        || name == codes ".."
        || any is_separator name
        || ltb max_control_body_length (length body)
        || not is_present && not (is_empty body))
      "project control content is invalid"
  reject (not (all is_control_name_char name)) "project control name is invalid"
  digest ← new_sha256_digest (sha256 body)
  ok (record { name = name; body = body; is_present = is_present; digest = digest })

pub record ProjectDependencyUpdate : Type 0 where
  pub original : List ProjectControlFile
  pub selected : List ProjectControlFile
  pub snapshot : ProjectDependencySnapshot
  pub resolution : DependencyResolution

-- The test at one index: `last` is the name before it, if there is one.
abbrev pub control_fits :
    Option Text → ProjectControlFile → ProjectControlFile → ProjectControlDigest → Bool
control_fits last before after control =
    let first : Bool = elim last [ none ↦ true | some n ↦ not (n == before.name) ] in
    not (is_empty before.name)
    && not (is_empty before.digest.value)
    && before.name == after.name
    && after.is_present
    && after.name == control.name
    && after.digest == control.digest
    && first

-- The loop over the three sorted lists, whose lengths are the same.
abbrev pub controls_match :
    Option Text
    → List ProjectControlFile
    → List ProjectControlFile
    → List ProjectControlDigest
    → Bool
controls_match last (b ∷ before) (a ∷ after) (c ∷ controls) =
    control_fits last b a c && controls_match (some b.name) before after controls
controls_match last _ _ _ = true

-- The map from identities: a later dependency replaces an earlier one.
unfoldable pub find_dependency :
    ResolvedArtifactIdentity → List ResolvedArtifact → Option ResolvedArtifact
find_dependency i [] = none
find_dependency i (a ∷ dependencies) = elim (find_dependency i dependencies) [
  | some b ↦ some b
  | none ↦ if a.identity == i then some a else none
]

abbrev pub is_selected : List ResolvedArtifact → LockedDependency → Bool
is_selected dependencies n = elim (find_dependency n.artifact.identity dependencies) [
  | none ↦ false
  | some a ↦ a == n.artifact
]

unfoldable pub new_project_dependency_update :
    List ProjectControlFile
    → List ProjectControlFile
    → ProjectDependencySnapshot
    → DependencyResolution
    → Result ProjectDependencyUpdate
new_project_dependency_update original selected snapshot resolution = do
  reject
      (not (is_valid_snapshot snapshot)
        || not (resolution.lockfile_digest == snapshot.graph_digest)
        || is_empty resolution.graph.nodes
        || is_empty original
        || ltb 32 (length original)
        || not (length original == length selected)
        || not (length selected == length snapshot.controls))
      "project update requires matching complete selection"
  let before = sort (λ a b. text_lt a.name b.name) original
  let after = sort (λ a b. text_lt a.name b.name) selected
  reject (not (controls_match none before after snapshot.controls))
      "project update controls differ from selected snapshot"
  reject (any (λ n. not (is_selected snapshot.dependencies n)) resolution.graph.nodes)
      "requested resolution differs from complete project"
  ok (record { original = before; selected = after; snapshot = snapshot; resolution = resolution })

-- `Valid`
unfoldable pub is_valid_update : ProjectDependencyUpdate → Bool
is_valid_update u =
    is_valid_snapshot u.snapshot
    && not (is_empty u.original)
    && u.resolution.lockfile_digest == u.snapshot.graph_digest
