-- ===== src/Domain/Project/Update/Selected.antt =====
-- internal/core/domain/project_update.go: an update and its snapshot.
use mathlib.Core.List.{Perm}
use heliopause.Base.{
  ==-refl, ==→≡, All, Bool, List, Option, Option-cases, [], and-eq_true, any, arith, contains,
  false, inl, inr, length, list_eq, map, nat_eq, none, not, ok, refl, some, subst, true, ◌==◌, ◌∷◌,
  ◌≡◌,
}
use heliopause.Base.Order.{length-sort, sort, sort-perm}
use heliopause.Domain.Artifact.{
  ResolvedArtifact, ResolvedArtifactIdentity, content_digest_eq, resolved_artifact_eq,
}
use heliopause.Domain.Graph.{LockedDependency}
use heliopause.Domain.Inspected.{DependencyResolution}
use heliopause.Domain.Project.Update.{
  ProjectControlFile, ProjectDependencyUpdate, control_fits, controls_match, find_dependency,
  is_selected, new_project_dependency_update,
}
use heliopause.Domain.Snapshot.{ProjectControlDigest, ProjectDependencySnapshot}
use heliopause.Text.{Text, text_lt}

find_dependency-contains :
    (i : ResolvedArtifactIdentity) (dependencies : List ResolvedArtifact) (a : ResolvedArtifact)
    → find_dependency i dependencies ≡ some a
    → contains a dependencies ≡ true
unfolding find_dependency
find_dependency-contains i [] a h = cc
find_dependency-contains i (b ∷ dependencies) a h =
    elim (Option-cases (find_dependency i dependencies)) [
      | inr (c, e) ↦
          let same : c ≡ a = ground arith in
          let later = find_dependency-contains i dependencies c e in
          subst (λ t. contains t (b ∷ dependencies) ≡ true) same (ground arith)
      | inl e ↦
          let same : b ≡ a = ground arith in
          subst (λ t. contains t (b ∷ dependencies) ≡ true) same (rw (==-refl b))
    ]

is_selected-contains :
    (dependencies : List ResolvedArtifact) (n : LockedDependency)
    → is_selected dependencies n ≡ true
    → contains n.artifact dependencies ≡ true
is_selected-contains dependencies n h =
    elim (Option-cases (find_dependency n.artifact.identity dependencies)) [
      | inl e ↦ cc (rw (is_selected, e) at h)
      | inr (a, e) ↦
          subst (λ t. contains t dependencies ≡ true) (==→≡ a n.artifact (rw (is_selected, e) at h))
            (find_dependency-contains n.artifact.identity dependencies a e)
    ]

nodes-contains :
    (dependencies : List ResolvedArtifact) (nodes : List LockedDependency)
    → any (λ n. not (is_selected dependencies n)) nodes ≡ false
    → All (λ n. contains n.artifact dependencies ≡ true) nodes
nodes-contains dependencies [] h = tt
nodes-contains dependencies (n ∷ nodes) h = (
  is_selected-contains dependencies n (ground arith),
  nodes-contains dependencies nodes (ground arith),
)

-- The name and the digest that a control is known by.
abbrev pub file_key : ProjectControlFile → ProjectControlDigest
file_key f = record { name = f.name; digest = f.digest }

control_fits-equal :
    (last : Option Text) (b a : ProjectControlFile) (c : ProjectControlDigest)
    → control_fits last b a c ≡ true
    → (b.name ≡ a.name) × (a.is_present ≡ true) × (file_key a ≡ c)
control_fits-equal last b a c h =
    let parts : ((b.name == a.name) ≡ true)
        × (a.is_present ≡ true)
        × ((a.name == c.name) ≡ true)
        × ((a.digest == c.digest) ≡ true) =
      ground arith in
    let named = ==→≡ a.name c.name parts.2 in
    let digested = ==→≡ a.digest c.digest parts.3 in
    (==→≡ b.name a.name parts.0, parts.1, λ i. record { name = named i; digest = digested i })

controls_match-equal :
    (last : Option Text) (before after : List ProjectControlFile)
    (controls : List ProjectControlDigest)
    → length before ≡ length after
    → length after ≡ length controls
    → controls_match last before after controls ≡ true
    → (map (λ f. f.name) before ≡ map (λ f. f.name) after)
      × All (λ f. f.is_present ≡ true) after
      × (map file_key after ≡ controls)
controls_match-equal last [] [] [] n m h = (refl, tt, refl)
controls_match-equal last [] [] (c ∷ controls) n m h = absurd (omega (arith, m))
controls_match-equal last [] (a ∷ after) controls n m h = absurd (omega (arith, n))
controls_match-equal last (b ∷ before) [] controls n m h = absurd (omega (arith, n))
controls_match-equal last (b ∷ before) (a ∷ after) [] n m h = absurd (omega (arith, m))
controls_match-equal last (b ∷ before) (a ∷ after) (c ∷ controls) n m h =
    let (named, here_now, keyed) = control_fits-equal last b a c (and-eq_true _ _ h).0 in
    let rest =
      controls_match-equal (some b.name) before after controls (omega arith) (omega arith)
        (and-eq_true _ _ h).1 in
    let names : map (λ f. f.name) before ≡ map (λ f. f.name) after = rest.0 in
    let keys_now : map file_key after ≡ controls = rest.2 in
    (cc (named, names), (here_now, rest.1), cc (keyed, keys_now))

-- What an accepted update was checked against.
pub record IsOfSnapshot (original selected : List ProjectControlFile) (u : ProjectDependencyUpdate)
    : Type 0 where
  pub original_kept : Perm u.original original
  pub selected_kept : Perm u.selected selected
  pub same_names : map (λ f. f.name) u.original ≡ map (λ f. f.name) u.selected
  pub all_present : All (λ f. f.is_present ≡ true) u.selected
  pub same_controls : map file_key u.selected ≡ u.snapshot.controls
  pub all_locked :
      All (λ n. contains n.artifact u.snapshot.dependencies ≡ true) u.resolution.graph.nodes
  pub same_digest : u.resolution.lockfile_digest ≡ u.snapshot.graph_digest

-- An accepted update keeps its snapshot and its resolution, and its files, reordered: the selected
-- files have the names of the original ones, are present, and are by name and digest the snapshot's
-- controls; every artifact that the resolution locks is a dependency of the snapshot, and the two
-- agree on the digest of the graph.
pub new_project_dependency_update-IsOfSnapshot :
    (original selected : List ProjectControlFile) (snapshot : ProjectDependencySnapshot)
    (resolution : DependencyResolution) (u : ProjectDependencyUpdate)
    → new_project_dependency_update original selected snapshot resolution ≡ ok u
    → IsOfSnapshot original selected u × (u.snapshot ≡ snapshot) × (u.resolution ≡ resolution)
new_project_dependency_update-IsOfSnapshot original selected snapshot resolution u h =
    let (same, digested, l, m, matched, locked) = parts in
    let (names, now, keyed) =
      controls_match-equal none (sort by_name original) (sort by_name selected) snapshot.controls
        (omega (arith, l, length-sort by_name original, length-sort by_name selected))
        (omega (arith, m, length-sort by_name selected)) matched in
    rw same (
      record {
        original_kept = sort-perm by_name original;
        selected_kept = sort-perm by_name selected;
        same_names = names;
        all_present = now;
        same_controls = keyed;
        all_locked = nodes-contains snapshot.dependencies resolution.graph.nodes locked;
        same_digest = ==→≡ resolution.lockfile_digest snapshot.graph_digest digested;
      },
      refl,
      refl,
    )
  where
    by_name : ProjectControlFile → ProjectControlFile → Bool
    by_name a b = text_lt a.name b.name

    parts :
        (u ≡ record {
          original = sort by_name original;
          selected = sort by_name selected;
          snapshot = snapshot;
          resolution = resolution;
        })
        × ((resolution.lockfile_digest == snapshot.graph_digest) ≡ true)
        × (length original ≡ length selected)
        × (length selected ≡ length snapshot.controls)
        × (controls_match none (sort by_name original) (sort by_name selected) snapshot.controls
            ≡ true)
        × (any (λ n. not (is_selected snapshot.dependencies n)) resolution.graph.nodes ≡ false)
    parts = unfold new_project_dependency_update in ground arith
