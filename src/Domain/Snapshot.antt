-- ===== src/Domain/Snapshot.antt =====
-- internal/core/domain/project_snapshot.go: a complete project without a primary artifact.
use heliopause.Base.{
  Bool, List, Result, [], false, is_empty, list_eq, nat_eq, not, ok, reject, true, ◌&&◌, ◌++◌, ◌==◌,
  ◌>>◌, ◌||◌, ◌∷◌,
}
use heliopause.Base.Order.{sort}
use heliopause.Domain.Artifact.{
  ContentDigest, ResolvedArtifact, ResolvedArtifactIdentity, SourceId, identity_eq, source_id_eq,
}
use heliopause.Domain.Evidence.{check_id_eq}
use heliopause.Domain.Graph.{node_id_eq}
use heliopause.Domain.Identifier.{run_id_eq}
use heliopause.Domain.Install.{InstallContext, is_valid_context}
use heliopause.Text.{Text, text_lt}

pub record ProjectControlDigest : Type 0 where
  pub name : Text
  pub digest : ContentDigest

unfoldable pub new_project_control_digest : Text → ContentDigest → Result ProjectControlDigest
new_project_control_digest name digest = do
  reject (is_empty name || is_empty digest.value) "valid project control digest is required"
  ok (record { name = name; digest = digest })

pub record ProjectDependencySnapshot : Type 0 where
  pub context : InstallContext
  pub source : SourceId
  pub controls : List ProjectControlDigest
  pub dependencies : List ResolvedArtifact
  pub graph_digest : ContentDigest
  pub dependency_free : Bool

-- No two neighbours have the same name.
abbrev pub controls_fit : List ProjectControlDigest → Bool
controls_fit [] = true
controls_fit (c ∷ []) = not (is_empty c.name) && not (is_empty c.digest.value)
controls_fit (c ∷ d ∷ cs) =
    let rest = controls_fit (d ∷ cs) in
    not (is_empty c.name) && not (is_empty c.digest.value) && not (c.name == d.name) && rest

-- `name@version#variant`
abbrev pub dependency_key : ResolvedArtifactIdentity → Text
dependency_key i = i.name ++ b'@' ∷ (i.version ++ b'#' ∷ i.variant)

abbrev pub is_of_source : SourceId → ResolvedArtifact → Bool
is_of_source source a = not (is_empty a.identity.source.value) && a.identity.source == source

-- All of one source, and no two neighbours with the same identity.
abbrev pub dependencies_fit : SourceId → List ResolvedArtifact → Bool
dependencies_fit source [] = true
dependencies_fit source (a ∷ []) = is_of_source source a
dependencies_fit source (a ∷ b ∷ others) =
    let rest = dependencies_fit source (b ∷ others) in
    is_of_source source a && not (a.identity == b.identity) && rest

-- `(len(dependencies) == 0) == dependencyFree`
abbrev pub free_fits : Bool → List ResolvedArtifact → Bool
free_fits true dependencies = is_empty dependencies
free_fits false dependencies = not (is_empty dependencies)

unfoldable pub new_snapshot :
    InstallContext
    → SourceId
    → List ProjectControlDigest
    → List ResolvedArtifact
    → ContentDigest
    → Bool
    → Result ProjectDependencySnapshot
new_snapshot context source controls dependencies graph_digest dependency_free = do
  reject
      (not (is_valid_context context)
        || is_empty source.value
        || is_empty controls
        || not (free_fits dependency_free dependencies)
        || is_empty graph_digest.value)
      "valid project dependency snapshot is required"
  let control_copy = sort (λ a b. text_lt a.name b.name) controls
  reject (not (controls_fit control_copy)) "project controls are invalid"
  let dependency_copy =
      sort (λ a b. text_lt (dependency_key a.identity) (dependency_key b.identity)) dependencies
  reject (not (dependencies_fit source dependency_copy)) "project dependencies are invalid"
  ok (record {
    context = context;
    source = source;
    controls = control_copy;
    dependencies = dependency_copy;
    graph_digest = graph_digest;
    dependency_free = dependency_free;
  })

unfoldable pub new_project_dependency_snapshot :
    InstallContext
    → SourceId
    → List ProjectControlDigest
    → List ResolvedArtifact
    → ContentDigest
    → Result ProjectDependencySnapshot
new_project_dependency_snapshot context source controls dependencies graph_digest =
    new_snapshot context source controls dependencies graph_digest false

unfoldable pub new_dependency_free_project_snapshot :
    InstallContext
    → SourceId
    → List ProjectControlDigest
    → ContentDigest
    → Result ProjectDependencySnapshot
new_dependency_free_project_snapshot context source controls graph_digest =
    new_snapshot context source controls [] graph_digest true

-- `Valid`
unfoldable pub is_valid_snapshot : ProjectDependencySnapshot → Bool
is_valid_snapshot s =
    is_valid_context s.context
    && not (is_empty s.source.value)
    && not (is_empty s.controls)
    && free_fits s.dependency_free s.dependencies
    && not (is_empty s.graph_digest.value)

unfoldable pub is_dependency_free : ProjectDependencySnapshot → Bool
is_dependency_free s = is_valid_snapshot s && s.dependency_free
