-- ===== src/Domain/Graph/Visited.antt =====
-- internal/core/domain/install.go: what the breadth-first search returns.
use heliopause.Base.{
  ==-refl, ==→≡, All-map, Bool-cases, List, [], arith, contains, false, inl, inr, length, list_eq,
  nat_eq, refl, some, subst, suc, sym, true, zero, ℕ, ◌==◌, ◌↔◌, ◌∷◌, ◌≡◌, ◌⊎◌,
}
use heliopause.Base.Coverage.{Distinct, contains-append, contains_self}
use heliopause.Domain.Graph.{
  DependencyEdge, DependencyNodeId, Search, node_id_eq, search_from, successors, visit, visit_one,
}
use heliopause.Domain.Graph.Reach.{Reachable, along, at_root, search_ends, visit_induction}

abbrev Has : List DependencyNodeId → DependencyNodeId → Type 0
Has xs n = contains n xs ≡ true

visit_one-grows :
    (k n : DependencyNodeId) (s : Search) → Has s.visited k → Has (visit_one n s).visited k
unfolding visit_one
visit_one-grows k n s h = elim (Bool-cases (contains n s.visited)) [
  | inl known ↦ rw known h
  | inr new ↦ rw new (ground arith)
]

visit_one-Has : (n : DependencyNodeId) (s : Search) → Has (visit_one n s).visited n
unfolding visit_one
visit_one-Has n s = elim (Bool-cases (contains n s.visited)) [
  | inl known ↦ rw known known
  | inr new ↦ rw new (rw (==-refl n))
]

visit-grows :
    (k : DependencyNodeId) (s : Search) (ns : List DependencyNodeId)
    → Has s.visited k
    → Has (visit s ns).visited k
unfolding visit
visit-grows k s [] h = h
visit-grows k s (n ∷ ns) h = visit-grows k (visit_one n s) ns (visit_one-grows k n s h)

-- The loop marks every node that it is given.
visit-Has :
    (k : DependencyNodeId) (s : Search) (ns : List DependencyNodeId)
    → Has ns k
    → Has (visit s ns).visited k
unfolding visit
visit-Has k s [] h = cc
visit-Has k s (n ∷ ns) h = elim (Bool-cases (n == k)) [
  | inl same ↦
      visit-grows k (visit_one n s) ns
        (subst (λ t. Has (visit_one n s).visited t) (==→≡ n k same) (visit_one-Has n s))
  | inr differs ↦ visit-Has k (visit_one n s) ns (rw differs at h)
]

module _ (edges : List DependencyEdge) (root : DependencyNodeId) where
  -- All successors of a node were visited.
  Closed : DependencyNodeId → List DependencyNodeId → Type 0
  Closed m visited = (k : DependencyNodeId) → Has (successors m edges) k → Has visited k

  -- What holds of a search while the successors of `current` are visited.
  record Searching (current : DependencyNodeId) (s : Search) : Type 0 where
    reached : (n : DependencyNodeId) → Has s.visited n → Reachable edges root n
    queued : (n : DependencyNodeId) → Has s.queue n → Has s.visited n
    closed :
        (m : DependencyNodeId)
        → Has s.visited m
        → (Has s.queue m) ⊎ (Closed m s.visited) ⊎ (m ≡ current)
    distinct : Distinct s.visited
    rooted : Has s.visited root

  -- And before each round of the outer loop.
  record Searched (s : Search) : Type 0 where
    reached : (n : DependencyNodeId) → Has s.visited n → Reachable edges root n
    queued : (n : DependencyNodeId) → Has s.queue n → Has s.visited n
    closed : (m : DependencyNodeId) → Has s.visited m → (Has s.queue m) ⊎ (Closed m s.visited)
    distinct : Distinct s.visited
    rooted : Has s.visited root

  Closed-grows :
      (m n : DependencyNodeId) (visited : List DependencyNodeId)
      → Closed m visited
      → Closed m (n ∷ visited)
  unfolding Closed
  Closed-grows m n visited c k h = let old = c k h in ground arith

  visit_one-Searching :
      (current n : DependencyNodeId) (s : Search)
      → Has (successors current edges) n × Reachable edges root current
      → Searching current s
      → Searching current (visit_one n s)
  unfolding visit_one
  visit_one-Searching current n s next v = elim (Bool-cases (contains n s.visited)) [
    | inl known ↦ rw known v
    | inr new ↦ rw new (record {
      reached = λ m h. elim (Bool-cases (n == m)) [
        | inl same ↦
            subst (λ t. Reachable edges root t) (==→≡ n m same) (along current n next.1 next.0)
        | inr differs ↦ v.reached m (rw differs at h)
      ];
      queued = λ m h. ground (arith, contains-append m s.queue (n ∷ []), v.queued m);
      closed = λ m h. elim (Bool-cases (n == m)) [
        | inl same ↦ inl (ground (arith, contains-append m s.queue (n ∷ [])))
        | inr differs ↦ elim (v.closed m (rw differs at h)) [
          | inl q ↦ inl (ground (arith, contains-append m s.queue (n ∷ [])))
          | inr (inl c) ↦ inr (inl (Closed-grows m n s.visited c))
          | inr (inr e) ↦ inr (inr e)
        ]
      ];
      distinct = (new, v.distinct);
      rooted = ground (arith, v.rooted);
    })
  ]

  round-Searched :
      (current : DependencyNodeId) (visited queue : List DependencyNodeId)
      → Searched (record { visited = visited; queue = current ∷ queue })
      → Searched (visit (record { visited = visited; queue = queue }) (successors current edges))
  round-Searched current visited queue v = record {
    reached = done.reached;
    queued = done.queued;
    closed = λ m h. elim (done.closed m h) [
      | inl q ↦ inl q
      | inr (inl c) ↦ inr c
      | inr (inr e) ↦ inr (
          subst (λ t. Closed t (visit start (successors current edges)).visited) (sym e)
            all_visited)
    ];
    distinct = done.distinct;
    rooted = done.rooted;
  }
    where
      start : Search
      start = record { visited = visited; queue = queue }

      current_visited : Has visited current
      current_visited = v.queued current (rw (==-refl current))

      begin : Searching current start
      begin = record {
        reached = v.reached;
        queued = λ n h. v.queued n (ground arith);
        closed = λ m h. elim (Bool-cases (current == m)) [
          | inl same ↦ inr (inr (sym (==→≡ current m same)))
          | inr differs ↦ elim (v.closed m h) [
            | inl q ↦ inl (rw differs at q)
            | inr c ↦ inr (inl c)
          ]
        ];
        distinct = v.distinct;
        rooted = v.rooted;
      }

      done : Searching current (visit start (successors current edges))
      done =
          visit_induction (Searching current)
            (λ n. Has (successors current edges) n × Reachable edges root current)
            (λ n s. visit_one-Searching current n s) start (successors current edges)
            (All-map (λ n h. (h, v.reached current current_visited)) (successors current edges)
              (contains_self (successors current edges) (successors current edges) (λ z k. k)))
            begin

      all_visited : Closed current (visit start (successors current edges)).visited
      all_visited = unfold Closed in λ k h. visit-Has k start (successors current edges) h

  search_from-Searched :
      (fuel : ℕ) (visited queue r : List DependencyNodeId)
      → Searched (record { visited = visited; queue = queue })
      → search_from fuel edges visited queue ≡ some r
      → Searched (record { visited = r; queue = [] })
  unfolding search_from
  search_from-Searched zero visited [] r v h =
      let e : visited ≡ r = cc in subst (λ t. Searched (record { visited = t; queue = [] })) e v
  search_from-Searched (suc fuel) visited [] r v h =
      let e : visited ≡ r = cc in subst (λ t. Searched (record { visited = t; queue = [] })) e v
  search_from-Searched zero visited (n ∷ queue) r v h = cc
  search_from-Searched (suc fuel) visited (n ∷ queue) r v h =
      search_from-Searched fuel
        (visit (record { visited = visited; queue = queue }) (successors n edges)).visited
        (visit (record { visited = visited; queue = queue }) (successors n edges)).queue r
        (round-Searched n visited queue v) h

  Searched-start : Searched (record { visited = root ∷ []; queue = root ∷ [] })
  Searched-start = record {
    reached = λ n h. elim (Bool-cases (root == n)) [
      | inl same ↦ subst (λ t. Reachable edges root t) (==→≡ root n same) at_root
      | inr differs ↦ absurd (absurd_has n differs h)
    ];
    queued = λ n h. h;
    closed = λ m h. inl h;
    distinct = (refl, tt);
    rooted = rw (==-refl root);
  }
    where
      absurd_has : (n : DependencyNodeId) → (root == n) ≡ false → Has (root ∷ []) n → ⊥
      absurd_has n d h = ground arith

  -- Everything on a path of edges was visited.
  complete :
      (r : List DependencyNodeId)
      → Searched (record { visited = r; queue = [] })
      → {n : DependencyNodeId} → Reachable edges root n
      → Has r n
  complete r v at_root = v.rooted
  complete r v (along m k path h) = elim (v.closed m (complete r v path)) [
    | inl q ↦ cc
    | inr c ↦ unfold Closed in c k h
  ]

-- The search of a graph succeeds with the fuel that the constructor gives it, and visits a node
-- exactly when a path of edges leads to it from the root, and each such node once.
pub search_from-exact :
    (edges : List DependencyEdge) (root : DependencyNodeId)
    → (r : List DependencyNodeId) × (search_from (suc (length edges)) edges (root ∷ []) (root ∷ [])
        ≡ some r)
      × ((n : DependencyNodeId) → (contains n r ≡ true) ↔ Reachable edges root n)
      × Distinct r
search_from-exact edges root =
    let (r, e) = search_ends edges root in
    let v =
      search_from-Searched edges root (suc (length edges)) (root ∷ []) (root ∷ []) r
        (Searched-start edges root) e in
    (r, e, λ n. (v.reached n, λ path. complete edges root r v path), v.distinct)
