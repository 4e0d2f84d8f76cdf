-- ===== src/Protocol/Plan/Order/Sorted.antt =====
-- `TopologicalOrder` answers an order of all the nodes, where there is one.
use partitionctl.Base.{
  ℕ, zero, suc, ◌+◌, ◌≤◌, ◌<◌, ◌≡◌, ◌≢◌, refl, ap, true, false, List, [], ◌∷◌, Str, none, ◌==◌,
  arith, length, ltb, All, Bool-cases, Option-cases, inl, inr,
}
use partitionctl.Protocol.Errors.{ok}
use partitionctl.Protocol.Node.{Node}
use partitionctl.Protocol.Plan.Order.{
  index_of, Graph, no_edges, add_edge, add_edges, build, initial_ready, order_indices,
  topological_order, ids_at,
}
use partitionctl.Protocol.Plan.Order.Unmet.{mem, count, IsOrdered, HasNoDuplicates, unmet-empty}
use partitionctl.Protocol.Plan.Order.Drained.{Inv, IsDual, drain-IsOrdered, drain-range}
use partitionctl.Protocol.Plan.Order.Complete.{drain_complete, length-le, IsOrdered-HasNoDuplicates}
use partitionctl.Protocol.Plan.Order.Edges.{
  deps_from, deps_from-above, Adds, build-Adds, Result-cases,
}

-- The dependencies of the node with an index, as indices.
unfoldable pub dependencies : List Node → ℕ → List ℕ
unfolding deps_from
dependencies nodes k = deps_from nodes 0 nodes k

-- An order of the indices: as many as there are nodes, each of a node, none twice and each after
-- all that it depends on.
pub record IsTopological (nodes : List Node) (order : List ℕ) : Type 0 where
  pub complete : length order ≡ length nodes
  pub of_nodes : (k : ℕ) → mem k order ≡ true → k < length nodes
  pub ordered : IsOrdered (dependencies nodes) [] order

-- Each dependency is the id of some node.
abbrev pub Resolves : List Node → List Node → Type 0
Resolves all nodes = All (λ (n : Node). All (λ d. index_of 0 all d ≢ none) n.depends_on) nodes

-- The initial heap: the free indices of a range.
ready-range :
    (d : ℕ → ℕ) (i m k : ℕ) → mem k (initial_ready d i m) ≡ true → (i ≤ k) × (k < i + m) × (d k ≡ 0)
unfolding mem initial_ready
ready-range d i zero k h = absurd (cc h)
ready-range d i (suc m) k h = elim (Bool-cases (i == k)) [
  | inl e ↦ let same : i ≡ k = ground arith in ground (arith, ap d same, ready-range d (i + 1) m k)
  | inr e ↦ ground (arith, ready-range d (i + 1) m k)
]

ready-found :
    (d : ℕ → ℕ) (i m k : ℕ) → i ≤ k → k < i + m → d k ≡ 0 → mem k (initial_ready d i m) ≡ true
unfolding mem initial_ready
ready-found d i zero k a b h = absurd (omega arith)
ready-found d i (suc m) k a b h = elim (Bool-cases (i == k)) [
  | inl e ↦ let same : i ≡ k = ground arith in ground (arith, ap d same)
  | inr e ↦ ground (arith, ready-found d (i + 1) m k)
]

ready-HasNoDuplicates : (d : ℕ → ℕ) (i m : ℕ) → HasNoDuplicates (initial_ready d i m)
unfolding initial_ready
ready-HasNoDuplicates d i zero = tt
ready-HasNoDuplicates d i (suc m) = elim (Bool-cases (d i == 0)) [
  | inl e ↦ rw e (past, ready-HasNoDuplicates d (i + 1) m)
  | inr e ↦ rw e (ready-HasNoDuplicates d (i + 1) m)
]
  where
    past : mem i (initial_ready d (i + 1) m) ≡ false
    past = elim (Bool-cases (mem i (initial_ready d (i + 1) m))) [
      | inl h ↦ absurd (omega (arith, ready-range d (i + 1) m i h))
      | inr h ↦ h
    ]

mem-count : (k : ℕ) (l : List ℕ) → mem k l ≡ true → 0 < count k l
unfolding mem count
mem-count k [] h = absurd (cc h)
mem-count k (x ∷ l) h = ground (arith, mem-count k l)

module _ (nodes : List Node) (g : Graph) (built : build nodes 0 nodes no_edges ≡ ok g) where
  added : Adds (dependencies nodes) no_edges g
  unfolding dependencies
  added = build-Adds nodes 0 nodes no_edges g built

  graph-IsDual : IsDual (length nodes) (dependencies nodes) g.dependents
  unfolding count dependencies
  graph-IsDual = record {
    dual = λ i j. omega (arith, added.edges i j);
    range = λ j i h. elim (Bool-cases (ltb i (length nodes))) [
      | inl e ↦ ground arith
      | inr e ↦ absurd (
          omega (
            arith,
            mem-count i (g.dependents j) h,
            added.edges i j,
            ap (count j) (deps_from-above nodes 0 nodes i (ground arith)),
          ))
    ];
  }

  abbrev start : List ℕ
  start = initial_ready g.indegree 0 (length nodes)

  start-Inv : Inv (length nodes) (dependencies nodes) g.dependents [] g.indegree start []
  unfolding mem count
  start-Inv = record {
    degrees = λ j. omega (arith, added.degree j, unmet-empty (dependencies nodes j));
    popped_free = λ k h. absurd (cc h);
    ready_free = λ k h. (ready-range g.indegree 0 (length nodes) k h).2;
    apart = λ k h. refl;
    distinct = ready-HasNoDuplicates g.indegree 0 (length nodes);
    in_range = λ k h. omega (arith, ready-range g.indegree 0 (length nodes) k h);
    left_range = λ k h. absurd (cc h);
    found = λ k r h. ready-found g.indegree 0 (length nodes) k (omega arith) (omega arith) h;
  }

  indices-IsOrdered : IsOrdered (dependencies nodes) [] (order_indices (length nodes) g)
  unfolding order_indices
  indices-IsOrdered =
      drain-IsOrdered (length nodes) (dependencies nodes) g.dependents graph-IsDual (length nodes)
        g.indegree start start-Inv

  indices-range : (k : ℕ) → mem k (order_indices (length nodes) g) ≡ true → k < length nodes
  unfolding order_indices
  indices-range =
      drain-range (length nodes) (dependencies nodes) g.dependents graph-IsDual (length nodes)
        g.indegree start start-Inv

  -- The loop pops every index if there is an order of them all, and never more.
  indices_complete :
      (order : List ℕ)
      → IsTopological nodes order
      → length (order_indices (length nodes) g) ≡ length nodes
  unfolding order_indices
  indices_complete order v = omega (
    arith,
    drain_complete (length nodes) (dependencies nodes) g.dependents graph-IsDual g.indegree start
        order start-Inv v.ordered v.of_nodes v.complete,
    length-le (length nodes) (order_indices (length nodes) g)
        (IsOrdered-HasNoDuplicates (dependencies nodes) [] _ indices-IsOrdered) indices-range,
  )

-- Where each dependency is found, the graph is built.
add_edges-ok :
    (all : List Node) (i : ℕ) (deps : List Str) (g : Graph)
    → All (λ d. index_of 0 all d ≢ none) deps
    → (h : Graph) × (add_edges all i deps g ≡ ok h)
unfolding add_edges
add_edges-ok all i [] g r = (g, refl)
add_edges-ok all i (d ∷ deps) g r = elim (Option-cases (index_of 0 all d)) [
  | inl miss ↦ absurd (r.0 miss)
  | inr (j, hit) ↦ rw (hit, add_edges) (add_edges-ok all i deps (add_edge i j g) r.1)
]

build-ok :
    (all : List Node) (i : ℕ) (nodes : List Node) (g : Graph)
    → Resolves all nodes
    → (h : Graph) × (build all i nodes g ≡ ok h)
unfolding build
build-ok all i [] g r = (g, refl)
build-ok all i (n ∷ nodes) g r =
    let (m, first) = add_edges-ok all i n.depends_on g r.0 in
    rw first (build-ok all (i + 1) nodes m r.1)

-- An answer of `TopologicalOrder` lists the ids of all the nodes, each node once and after every node
-- that it depends on.
pub topological_order-IsTopological :
    (nodes : List Node) (ids : List Str)
    → topological_order nodes ≡ ok ids
    → (order : List ℕ) × IsTopological nodes order × (ids ≡ ids_at nodes order)
unfolding topological_order
topological_order-IsTopological nodes ids e = elim (Result-cases (build nodes 0 nodes no_edges)) [
  | inl (x, bad) ↦ absurd (ground (arith, rw bad at e))
  | inr (g, built) ↦
      let order = order_indices (length nodes) g in
      elim (Bool-cases (length order == length nodes)) [
        | inl full ↦ (
          order,
          record {
            complete = ground arith;
            of_nodes = indices-range nodes g built;
            ordered = indices-IsOrdered nodes g built;
          },
          ground (arith, rw built at e),
        )
        | inr short ↦ absurd (ground (arith, rw built at e))
      ]
]

-- `TopologicalOrder` answers whenever each dependency is the id of some node and the nodes have an
-- order in which each stands after all that it depends on.
pub topological_order_complete :
    (nodes : List Node) (order : List ℕ)
    → Resolves nodes nodes
    → IsTopological nodes order
    → (ids : List Str) × (topological_order nodes ≡ ok ids)
unfolding topological_order
topological_order_complete nodes order r v =
    let (g, built) = build-ok nodes 0 nodes no_edges r in
    (
      ids_at nodes (order_indices (length nodes) g),
      rw built (ground (arith, indices_complete nodes g built order v)),
    )
