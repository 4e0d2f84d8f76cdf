-- ===== src/Protocol/Plan/Order/Edges.antt =====
-- The graph that `TopologicalOrder` builds has each dependency as one edge, found from both ends.
use partitionctl.Base.{
  ℕ, ◌+◌, ◌≤◌, ◌<◌, ◌≡◌, refl, ap, List, [], ◌∷◌, Str, none, some, ◌==◌, if◌then◌else◌, arith,
  length, Bool-cases, Option-cases, inl, inr, ◌⊎◌,
}
use partitionctl.Protocol.Errors.{Result, ok, err, GoError}
use partitionctl.Protocol.Node.{Node}
use partitionctl.Protocol.Plan.Order.{index_of, Graph, add_edge, add_edges, build}
use partitionctl.Protocol.Plan.Order.Unmet.{count, count-append}

-- The indices of the dependencies that some node has as its id.
unfoldable pub resolve : List Node → List Str → List ℕ
resolve all [] = []
resolve all (d ∷ deps) = elim (index_of 0 all d) [
  | none ↦ resolve all deps
  | some j ↦ j ∷ resolve all deps
]

-- The dependencies of the node with index `k`, in nodes that are counted from `i`.
unfoldable pub deps_from : List Node → ℕ → List Node → ℕ → List ℕ
unfolding resolve
deps_from all i [] k = []
deps_from all i (n ∷ nodes) k =
    if i == k then resolve all n.depends_on else deps_from all (i + 1) nodes k

deps_from-below :
    (all : List Node) (i : ℕ) (nodes : List Node) (k : ℕ) → k < i → deps_from all i nodes k ≡ []
unfolding deps_from
deps_from-below all i [] k h = refl
deps_from-below all i (n ∷ nodes) k h = ground (arith, deps_from-below all (i + 1) nodes k)

pub deps_from-above :
    (all : List Node) (i : ℕ) (nodes : List Node) (k : ℕ)
    → i + length nodes ≤ k
    → deps_from all i nodes k ≡ []
unfolding deps_from
deps_from-above all i [] k h = refl
deps_from-above all i (n ∷ nodes) k h = ground (arith, deps_from-above all (i + 1) nodes k)

pub Result-cases :
    {A : Type 0} (r : Result A) → ((x : GoError) × (r ≡ err x)) ⊎ ((a : A) × (r ≡ ok a))
Result-cases (err x) = inl (x, refl)
Result-cases (ok a) = inr (a, refl)

-- What the edges of some nodes add to a graph.
pub record Adds (deps : ℕ → List ℕ) (g h : Graph) : Type 0 where
  pub edges : (k j : ℕ) → count k (h.dependents j) ≡ count k (g.dependents j) + count j (deps k)
  pub degree : (k : ℕ) → h.indegree k ≡ g.indegree k + length (deps k)

-- The dependencies of one node.
abbrev deps_at : ℕ → List ℕ → ℕ → List ℕ
deps_at i l k = if i == k then l else []

add_edge-edges :
    (i j0 : ℕ) (g : Graph) (k j : ℕ)
    → count k ((add_edge i j0 g).dependents j)
      ≡ count k (g.dependents j) + (if i == k then (if j0 == j then 1 else 0) else 0)
unfolding add_edge count
add_edge-edges i j0 g k j = elim (Bool-cases (j0 == j)) [
  | inl e ↦
      let same : j0 ≡ j = ground arith in
      ground
        (arith, count-append k (g.dependents j0) (i ∷ []), ap (λ y. count k (g.dependents y)) same)
  | inr e ↦ ground arith
]

add_edge-degree :
    (i j0 : ℕ) (g : Graph) (k : ℕ)
    → (add_edge i j0 g).indegree k ≡ g.indegree k + (if i == k then 1 else 0)
unfolding add_edge
add_edge-degree i j0 g k = elim (Bool-cases (i == k)) [
  | inl e ↦ let same : i ≡ k = ground arith in ground (arith, ap g.indegree same)
  | inr e ↦ ground arith
]

add_edges-Adds :
    (all : List Node) (i : ℕ) (deps : List Str) (g h : Graph)
    → add_edges all i deps g ≡ ok h
    → Adds (deps_at i (resolve all deps)) g h
unfolding add_edges count resolve
add_edges-Adds all i [] g h e =
    let same : g ≡ h = cc in
    record {
      edges = λ k j. ground (arith, ap (λ x. count k (x.dependents j)) same);
      degree = λ k. ground (arith, ap (λ x. x.indegree k) same);
    }
add_edges-Adds all i (d ∷ deps) g h e = elim (Option-cases (index_of 0 all d)) [
  | inl miss ↦ absurd (cc (rw (miss, add_edges) at e))
  | inr (j0, hit) ↦
      let rest = add_edges-Adds all i deps (add_edge i j0 g) h (rw (hit, add_edges) at e) in
      record {
        edges =
            λ k j. rw (hit, resolve) (ground (arith, rest.edges k j, add_edge-edges i j0 g k j));
        degree = λ k. rw (hit, resolve) (ground (arith, rest.degree k, add_edge-degree i j0 g k));
      }
]

-- The edges of the first node and those of the others, which start at higher indices.
edges-sum :
    (all : List Node) (i : ℕ) (deps : List Str) (nodes : List Node) (g m h : Graph)
    → Adds (deps_at i (resolve all deps)) g m
    → Adds (deps_from all (i + 1) nodes) m h
    → (k j : ℕ)
    → count k (h.dependents j)
      ≡ count k (g.dependents j)
        + count j (if i == k then resolve all deps else deps_from all (i + 1) nodes k)
unfolding count
edges-sum all i deps nodes g m h here rest k j = elim (Bool-cases (i == k)) [
  | inl e ↦
      let none-later = ap (count j) (deps_from-below all (i + 1) nodes k (ground arith)) in
      rw e (ground (arith, here.edges k j, rest.edges k j, none-later, e))
  | inr e ↦ rw e (ground (arith, here.edges k j, rest.edges k j, e))
]

degree-sum :
    (all : List Node) (i : ℕ) (deps : List Str) (nodes : List Node) (g m h : Graph)
    → Adds (deps_at i (resolve all deps)) g m
    → Adds (deps_from all (i + 1) nodes) m h
    → (k : ℕ)
    → h.indegree k
      ≡ g.indegree k + length (if i == k then resolve all deps else deps_from all (i + 1) nodes k)
degree-sum all i deps nodes g m h here rest k = elim (Bool-cases (i == k)) [
  | inl e ↦
      let none-later = ap length (deps_from-below all (i + 1) nodes k (ground arith)) in
      rw e (ground (arith, here.degree k, rest.degree k, none-later, e))
  | inr e ↦ rw e (ground (arith, here.degree k, rest.degree k, e))
]

pub build-Adds :
    (all : List Node) (i : ℕ) (nodes : List Node) (g h : Graph)
    → build all i nodes g ≡ ok h
    → Adds (deps_from all i nodes) g h
unfolding build count deps_from
build-Adds all i [] g h e =
    let same : g ≡ h = cc in
    record {
      edges = λ k j. ground (arith, ap (λ x. count k (x.dependents j)) same);
      degree = λ k. ground (arith, ap (λ x. x.indegree k) same);
    }
build-Adds all i (n ∷ nodes) g h e = elim (Result-cases (add_edges all i n.depends_on g)) [
  | inl (x, bad) ↦ absurd (ground (arith, rw bad at e))
  | inr (m, good) ↦
      let here = add_edges-Adds all i n.depends_on g m good in
      let rest = build-Adds all (i + 1) nodes m h (rw good at e) in
      record {
        edges = λ k j. edges-sum all i n.depends_on nodes g m h here rest k j;
        degree = λ k. degree-sum all i n.depends_on nodes g m h here rest k;
      }
]
