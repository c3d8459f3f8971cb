-- ===== src/Domain/Graph/Reach.antt =====
-- internal/core/domain/install.go: the breadth-first search of `newLockedDependencyGraph`, and the paths
-- of edges.
use native.Mathlib.Nat.{le_trans}
use heliopause.Base.{
  ==-sym, ==→≡, All, Bool-cases, List, [], arith, contains, false, if◌then◌else◌, inl, inr, length,
  length-append, list_eq, nat_eq, refl, some, subst, suc, true, zero, ℕ, ◌+◌, ◌<◌, ◌==◌, ◌∙◌, ◌∷◌,
  ◌≡◌, ◌≤◌,
}
use heliopause.Base.Coverage.{contains_self}
use heliopause.Domain.Graph.{
  DependencyEdge, DependencyNodeId, Search, node_id_eq, search_from, successors, visit, visit_one,
}
use heliopause.Text.Utf8.{step}

-- The nodes at the end of a path of edges from the root.
pub data Reachable (edges : List DependencyEdge) (root : DependencyNodeId)
    : DependencyNodeId → Type 0 where
  at_root : Reachable edges root root
  along :
      (from to : DependencyNodeId)
      → Reachable edges root from
      → contains to (successors from edges) ≡ true
      → Reachable edges root to

-- How many edges lead to a node that was not visited.
unvisited : List DependencyNodeId → List DependencyEdge → ℕ
unvisited visited [] = 0
unvisited visited (e ∷ edges) =
    let rest = unvisited visited edges in if contains e.to visited then rest else suc rest

unvisited_cons_le :
    (n : DependencyNodeId) (visited : List DependencyNodeId) (edges : List DependencyEdge)
    → unvisited (n ∷ visited) edges ≤ unvisited visited edges
unfolding unvisited
unvisited_cons_le n visited [] = omega arith
unvisited_cons_le n visited (e ∷ edges) = ground (arith, unvisited_cons_le n visited edges)

unvisited_cons_lt :
    (from n : DependencyNodeId) (visited : List DependencyNodeId) (edges : List DependencyEdge)
    → contains n (successors from edges) ≡ true
    → contains n visited ≡ false
    → unvisited (n ∷ visited) edges < unvisited visited edges
unfolding unvisited successors
unvisited_cons_lt from n visited [] h f = cc
unvisited_cons_lt from n visited (e ∷ edges) h f = elim (Bool-cases (n == e.to)) [
  | inl same ↦
      let new : contains e.to visited ≡ false =
        subst (λ t. contains t visited ≡ false) (==→≡ n e.to same) f in
      rw (same, new) (omega (arith, unvisited_cons_le n visited edges))
  | inr differs ↦
      let apart : (e.to == n) ≡ false = ==-sym e.to n ∙ differs in
      let later : contains n (successors from edges) ≡ true = ground arith in
      rw differs (ground (arith, unvisited_cons_lt from n visited edges later f))
]

unvisited-le :
    (visited : List DependencyNodeId) (edges : List DependencyEdge)
    → unvisited visited edges ≤ length edges
unfolding unvisited
unvisited-le visited [] = omega arith
unvisited-le visited (e ∷ edges) = ground (arith, unvisited-le visited edges)

-- What one visit keeps, the loop keeps.
pub visit_induction :
    (P : Search → Type 0) (Q : DependencyNodeId → Type 0)
    → ((n : DependencyNodeId) (s : Search) → Q n → P s → P (visit_one n s))
    → (s : Search) (ns : List DependencyNodeId) → All Q ns
    → P s
    → P (visit s ns)
unfolding visit
visit_induction P Q step s [] q h = h
visit_induction P Q step s (n ∷ ns) q h =
    visit_induction P Q step (visit_one n s) ns q.1 (step n s q.0 h)

-- What a search costs: its queue and the edges to unvisited nodes.
cost : List DependencyEdge → Search → ℕ
cost edges s = length s.queue + unvisited s.visited edges

visit_one-cost :
    (edges : List DependencyEdge) (from n : DependencyNodeId) (s : Search)
    → contains n (successors from edges) ≡ true
    → cost edges (visit_one n s) ≤ cost edges s
unfolding visit_one cost
visit_one-cost edges from n s h = elim (Bool-cases (contains n s.visited)) [
  | inl known ↦ rw known (omega arith)
  | inr new ↦ rw new (
      omega (arith, length-append s.queue (n ∷ []), unvisited_cons_lt from n s.visited edges h new))
]

-- A visited node pays for its place in the queue.
visit-cost :
    (edges : List DependencyEdge) (from : DependencyNodeId) (s : Search)
    → cost edges (visit s (successors from edges)) ≤ cost edges s
visit-cost edges from s =
    visit_induction (λ t. cost edges t ≤ cost edges s)
      (λ n. contains n (successors from edges) ≡ true)
      (λ n t q h. le_trans (visit_one-cost edges from n t q) h) s (successors from edges)
      (contains_self (successors from edges) (successors from edges) (λ z k. k)) (omega arith)

-- With fuel for the queue and for each edge to an unvisited node the search ends.
search_from-total :
    (fuel : ℕ) (edges : List DependencyEdge) (visited queue : List DependencyNodeId)
    → length queue + unvisited visited edges ≤ fuel
    → (r : List DependencyNodeId) × (search_from fuel edges visited queue ≡ some r)
unfolding search_from
search_from-total zero edges visited [] h = (visited, refl)
search_from-total (suc fuel) edges visited [] h = (visited, refl)
search_from-total zero edges visited (n ∷ queue) h = absurd (omega arith)
search_from-total (suc fuel) edges visited (n ∷ queue) h =
    let s : Search = record { visited = visited; queue = queue } in
    search_from-total fuel edges (visit s (successors n edges)).visited
      (visit s (successors n edges)).queue (unfold cost in omega (arith, visit-cost edges n s))

-- The search that a graph starts always ends.
pub search_ends :
    (edges : List DependencyEdge) (root : DependencyNodeId)
    → (r : List DependencyNodeId) × (search_from (suc (length edges)) edges (root ∷ []) (root ∷ [])
        ≡ some r)
search_ends edges root =
    search_from-total (suc (length edges)) edges (root ∷ []) (root ∷ [])
      (omega (arith, unvisited-le (root ∷ []) edges))
