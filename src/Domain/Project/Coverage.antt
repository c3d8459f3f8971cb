-- ===== src/Domain/Project/Coverage.antt =====
-- internal/core/domain/project_verified_set.go: an inspected project and its snapshot.
use mathlib.Core.List.{Perm}
use mathlib.Core.Option.{some-injective}
use heliopause.Base.{
  ==-refl, ==-sym, ==→≡, >>=-eq-ok, All, Bool, Bool-cases, List, Option-cases, Result-cases, String,
  [], any, ap, arith, contains, err, false, inl, inr, length, length-map, list_eq, map, nat_eq, not,
  ok, refl, reject, reject-eq-ok, some, subst, sym, true, ℕ, ◌==◌, ◌||◌, ◌∙◌, ◌∷◌, ◌≡◌,
}
use heliopause.Base.Coverage.{All-contains, Distinct, coverage}
use heliopause.Base.Order.{sort, sort-perm}
use heliopause.Domain.Artifact.{ResolvedArtifact}
use heliopause.Domain.Graph.{DependencyNodeId, node_id_eq}
use heliopause.Domain.Identifier.{RunId, run_id_eq}
use heliopause.Domain.Inspected.{DependencyInspection}
use heliopause.Domain.Project.{
  InspectedProjectSet, LockedEntry, check_entries, check_entry, find_entry, is_subject,
  lock_entries, new_inspected_project_set, project_dependency_node_id,
}
use heliopause.Domain.Snapshot.{ProjectDependencySnapshot}
use heliopause.Text.{Text, text_lt}

-- What the map of the locked artifacts holds: an entry for each, under its own node.
record Locks (seen : List DependencyNodeId) (dependencies : List ResolvedArtifact)
    (locked : List LockedEntry) : Type 0 where
  kept : map (λ e. e.artifact) locked ≡ dependencies
  once : Distinct (map (λ e. e.node) locked)
  apart :
      (k : DependencyNodeId)
      → contains k seen ≡ true
      → contains k (map (λ e. e.node) locked) ≡ false

lock_entries-Locks :
    (sha256 : List ℕ → Text) (seen : List DependencyNodeId) (dependencies : List ResolvedArtifact)
    (locked : List LockedEntry)
    → lock_entries sha256 seen dependencies ≡ ok locked
    → Locks seen dependencies locked
unfolding lock_entries
lock_entries-Locks sha256 seen [] locked h =
    let e : locked ≡ [] = ground arith in
    rw e (record { kept = refl; once = tt; apart = λ k c. refl })
lock_entries-Locks sha256 seen (a ∷ others) locked h =
    let (node, e, h1) = >>=-eq-ok (project_dependency_node_id sha256 a.identity) _ h in
    let (u, e', h2) = >>=-eq-ok (reject (contains node seen) _) _ h1 in
    let (rest, e'', h3) = >>=-eq-ok (lock_entries sha256 (node ∷ seen) others) _ h2 in
    let fresh = reject-eq-ok (contains node seen) _ e' in
    let v = lock_entries-Locks sha256 (node ∷ seen) others rest e'' in
    let same : locked ≡ record { node = node; artifact = a } ∷ rest = ground arith in
    rw same (record {
      kept = ap (λ t. a ∷ t) v.kept;
      once = (v.apart node (rw (==-refl node)), v.once);
      apart = λ k c. elim (Bool-cases (node == k)) [
        | inl met ↦ cc (c, fresh, ap (λ t. contains t seen) (==→≡ node k met))
        | inr differs ↦ rw differs (v.apart k (ground arith))
      ];
    })

abbrev IsLocked : List LockedEntry → DependencyInspection → Type 0
IsLocked locked i =
    (a : ResolvedArtifact) × (find_entry i.node locked ≡ some a) × (is_subject a i ≡ true)

-- What the loop over the inspections has established at its end.
record Entries (locked : List LockedEntry) (seen : List DependencyNodeId) (runs : List RunId)
    (is : List DependencyInspection) : Type 0 where
  subjects : All (IsLocked locked) is
  nodes_once : Distinct (map (λ i. i.node) is)
  runs_once : Distinct (map (λ i. i.run_id) is)
  nodes_apart :
      (k : DependencyNodeId) → contains k seen ≡ true → contains k (map (λ i. i.node) is) ≡ false
  runs_apart : (k : RunId) → contains k runs ≡ true → contains k (map (λ i. i.run_id) is) ≡ false

check_entry-IsLocked :
    (locked : List LockedEntry) (seen : List DependencyNodeId) (runs : List RunId)
    (i : DependencyInspection)
    → check_entry locked seen runs i ≡ ok tt
    → IsLocked locked i × (contains i.node seen ≡ false) × (contains i.run_id runs ≡ false)
unfolding check_entry
check_entry-IsLocked locked seen runs i h = elim (Option-cases (find_entry i.node locked)) [
  | inl e ↦ cc (rw (check_entry, e) at h)
  | inr (a, e) ↦
      let (u, e', h1) =
        >>=-eq-ok
          (reject (contains i.node seen || contains i.run_id runs || not (is_subject a i)) _) _
          (rw (check_entry, e) at h) in
      let fits =
        reject-eq-ok (contains i.node seen || contains i.run_id runs || not (is_subject a i)) _
          e' in
      let parts : (contains i.node seen ≡ false)
          × (contains i.run_id runs ≡ false)
          × (is_subject a i ≡ true) =
        accepted _ _ _ fits in
      ((a, e, parts.2), parts.0, parts.1)
]
  where
    accepted : (x y z : Bool) → x || y || not z ≡ false → (x ≡ false) × (y ≡ false) × (z ≡ true)
    accepted x y z h = ground arith

check_entries-Entries :
    (locked : List LockedEntry) (seen : List DependencyNodeId) (runs : List RunId)
    (is : List DependencyInspection)
    → check_entries locked seen runs is ≡ ok tt
    → Entries locked seen runs is
unfolding check_entries
check_entries-Entries locked seen runs [] h = record {
  subjects = tt;
  nodes_once = tt;
  runs_once = tt;
  nodes_apart = λ k c. refl;
  runs_apart = λ k c. refl;
}
check_entries-Entries locked seen runs (i ∷ is) h =
    let (u, first, later) =
      >>=-eq-ok (check_entry locked seen runs i)
        (λ _. check_entries locked (i.node ∷ seen) (i.run_id ∷ runs) is) h in
    let (good, new_node, new_run) = check_entry-IsLocked locked seen runs i first in
    let v = check_entries-Entries locked (i.node ∷ seen) (i.run_id ∷ runs) is later in
    record {
      subjects = (good, v.subjects);
      nodes_once = (v.nodes_apart i.node (rw (==-refl i.node)), v.nodes_once);
      runs_once = (v.runs_apart i.run_id (rw (==-refl i.run_id)), v.runs_once);
      nodes_apart = λ k c. elim (Bool-cases (i.node == k)) [
        | inl met ↦ cc (c, new_node, ap (λ t. contains t seen) (==→≡ i.node k met))
        | inr differs ↦ rw differs (v.nodes_apart k (ground arith))
      ];
      runs_apart = λ k c. elim (Bool-cases (i.run_id == k)) [
        | inl met ↦ cc (c, new_run, ap (λ t. contains t runs) (==→≡ i.run_id k met))
        | inr differs ↦ rw differs (v.runs_apart k (ground arith))
      ];
    }

-- The entry of a node is found, since no other has it.
find_entry-eq_some :
    (e : LockedEntry) (locked : List LockedEntry) → find_entry e.node (e ∷ locked) ≡ some e.artifact
unfolding find_entry
find_entry-eq_some e locked = rw (==-refl e.node)

find_entry-apart :
    (k : DependencyNodeId) (e : LockedEntry) (locked : List LockedEntry)
    → (e.node == k) ≡ false
    → find_entry k (e ∷ locked) ≡ find_entry k locked
unfolding find_entry
find_entry-apart k e locked h = rw h

find_entry-known :
    (k : DependencyNodeId) (locked : List LockedEntry) (a : ResolvedArtifact)
    → find_entry k locked ≡ some a
    → contains k (map (λ e. e.node) locked) ≡ true
find_entry-known k [] a h = unfold find_entry in cc
find_entry-known k (e ∷ locked) a h = elim (Bool-cases (e.node == k)) [
  | inl same ↦ rw same
  | inr differs ↦
      rw differs (find_entry-known k locked a (sym (find_entry-apart k e locked differs) ∙ h))
]

-- Every entry is found under its node.
find_entry-lift :
    (first : LockedEntry) (locked es : List LockedEntry)
    → contains first.node (map (λ e. e.node) es) ≡ false
    → All (λ e. find_entry e.node locked ≡ some e.artifact) es
    → All (λ e. find_entry e.node (first ∷ locked) ≡ some e.artifact) es
find_entry-lift first locked [] c h = tt
find_entry-lift first locked (e ∷ es) c h =
    let away : (first.node == e.node) ≡ false = rw (==-sym first.node e.node) (ground arith) in
    (
      find_entry-apart e.node first locked away ∙ h.0,
      find_entry-lift first locked es (ground arith) h.1,
    )

find_entry_every :
    (locked : List LockedEntry)
    → Distinct (map (λ e. e.node) locked)
    → All (λ e. find_entry e.node locked ≡ some e.artifact) locked
find_entry_every [] d = tt
find_entry_every (e ∷ locked) d =
    (find_entry-eq_some e locked, find_entry-lift e locked locked d.0 (find_entry_every locked d.1))

IsLocked-known :
    (locked : List LockedEntry) (is : List DependencyInspection)
    → All (IsLocked locked) is
    → All (λ k. contains k (map (λ e. e.node) locked) ≡ true) (map (λ i. i.node) is)
IsLocked-known locked [] h = tt
IsLocked-known locked (i ∷ is) h =
    (find_entry-known i.node locked h.0.0 h.0.1, IsLocked-known locked is h.1)

-- The inspection of a node that was inspected is of the artifact that is locked there.
inspected-subject :
    (locked : List LockedEntry) (k : DependencyNodeId) (a : ResolvedArtifact)
    (is : List DependencyInspection)
    → All (IsLocked locked) is
    → find_entry k locked ≡ some a
    → contains k (map (λ i. i.node) is) ≡ true
    → any (λ i. is_subject a i) is ≡ true
inspected-subject locked k a [] s f c = cc
inspected-subject locked k a (i ∷ is) s f c = elim (Bool-cases (i.node == k)) [
  | inr differs ↦
      let later = inspected-subject locked k a is s.1 f (rw differs at c) in ground arith
  | inl same ↦
      let found : find_entry k locked ≡ some s.0.0 =
        subst (λ t. find_entry t locked ≡ some s.0.0) (==→≡ i.node k same) s.0.1 in
      let subject : is_subject a i ≡ true =
        subst (λ t. is_subject t i ≡ true) (some-injective _ _ (sym found ∙ f)) s.0.2 in
      rw subject
]

inspected-entries :
    (locked es : List LockedEntry) (is : List DependencyInspection)
    → All (IsLocked locked) is
    → All (λ e. find_entry e.node locked ≡ some e.artifact) es
    → ((k : DependencyNodeId)
        → contains k (map (λ e. e.node) es) ≡ true
        → contains k (map (λ i. i.node) is) ≡ true)
    → All (λ a. any (λ i. is_subject a i) is ≡ true) (map (λ e. e.artifact) es)
inspected-entries locked [] is s f c = tt
inspected-entries locked (e ∷ es) is s f c = (
  inspected-subject locked e.node e.artifact is s f.0 (c e.node (rw (==-refl e.node))),
  inspected-entries locked es is s f.1 (λ k h. c k (ground arith)),
)

-- A project set that was accepted keeps its snapshot and the given inspections, reordered, and has
-- for every dependency of the snapshot an inspection of that very subject; no two inspections share
-- a node or a run.
pub new_inspected_project_set-covers :
    (sha256 : List ℕ → Text) (snapshot : ProjectDependencySnapshot) (is : List DependencyInspection)
    (s : InspectedProjectSet)
    → new_inspected_project_set sha256 snapshot is ≡ ok s
    → (s.snapshot ≡ snapshot)
      × Perm s.inspections is
      × All (λ a. any (λ i. is_subject a i) is ≡ true) snapshot.dependencies
      × Distinct (map (λ i. i.node) is)
      × Distinct (map (λ i. i.run_id) is)
new_inspected_project_set-covers sha256 snapshot is s h =
    elim (Result-cases (lock_entries sha256 [] snapshot.dependencies)) [
      | inr (x, e) ↦ absurd (refused x e)
      | inl (locked, e) ↦
          let (checked, sized, kept, sorted) = parts locked e in
          let v = lock_entries-Locks sha256 [] snapshot.dependencies locked e in
          let w = check_entries-Entries locked [] [] is checked in
          (
            kept,
            rw sorted (sort-perm by_node is),
            subst (λ t. All (λ a. any (λ i. is_subject a i) is ≡ true) t) v.kept
                (inspected-entries locked locked is w.subjects (find_entry_every locked v.once) (
                  coverage (map (λ i. i.node) is) (map (λ e. e.node) locked) w.nodes_once
                    (λ z k.
                      All-contains (λ t. contains t (map (λ e. e.node) locked) ≡ true)
                        (map (λ i. i.node) is) (IsLocked-known locked is w.subjects) z k)
                    (omega (
                      arith,
                      sized,
                      ap length v.kept,
                      length-map locked (λ e. e.artifact),
                      length-map locked (λ e. e.node),
                      length-map is (λ i. i.node),
                    )))),
            w.nodes_once,
            w.runs_once,
          )
    ]
  where
    by_node : DependencyInspection → DependencyInspection → Bool
    by_node a b = text_lt a.node.value b.node.value

    refused : (x : String) → lock_entries sha256 [] snapshot.dependencies ≡ err x → ⊥
    refused x e = unfold new_inspected_project_set in ground arith

    parts :
        (locked : List LockedEntry)
        → lock_entries sha256 [] snapshot.dependencies ≡ ok locked
        → (check_entries locked [] [] is ≡ ok tt)
          × (length is ≡ length snapshot.dependencies)
          × (s.snapshot ≡ snapshot)
          × (s.inspections ≡ sort by_node is)
    parts locked e = unfold new_inspected_project_set in ground arith
