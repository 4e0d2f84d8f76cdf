-- ===== src/Protocol/Plan/Order.antt =====
-- `TopologicalOrder` of engine/protocol/plan.go: Kahn's algorithm over the indices of the nodes. The
-- arrays are functions of the index; the heap of package container/heap is a sorted list, of which
-- `Pop` takes the least element.
pub mod Unmet
pub mod Edges
pub mod Drained
pub mod Complete
pub mod Sorted
use partitionctl.Base.{
  ℕ, zero, suc, ◌+◌, ◌-◌, List, [], ◌∷◌, ◌++◌, Str, str_eq, length, none, some, Option,
  if◌then◌else◌, ◌==◌, leb,
}
use partitionctl.Protocol.Errors.{err_invalid_plan, Result, ok, err, ◌>>=◌}
use partitionctl.Protocol.Node.{Node}

-- `index[id]` after the loop that fills it: the last node with the id, counted from `i`.
unfoldable pub index_of : ℕ → List Node → Str → Option ℕ
index_of i [] id = none
index_of i (n ∷ nodes) id = elim (index_of (i + 1) nodes id) [
  | some j ↦ some j
  | none ↦ if str_eq n.id id then some i else none
]

-- `a[i] = x`.
abbrev pub set_at {ℓ} : {A : Type ℓ} → (ℕ → A) → ℕ → A → ℕ → A
set_at a i x j = if i == j then x else a j

pub record Graph : Type 0 where
  pub indegree : ℕ → ℕ
  pub dependents : ℕ → List ℕ

abbrev pub no_edges : Graph
no_edges = record { indegree = λ i. 0; dependents = λ i. [] }

-- `indegree[i]++` and `dependents[j] = append(dependents[j], i)`.
unfoldable pub add_edge : ℕ → ℕ → Graph → Graph
add_edge i j g = record {
  indegree = set_at g.indegree i (g.indegree i + 1);
  dependents = set_at g.dependents j (g.dependents j ++ i ∷ []);
}

-- The dependencies of the node with index `i`.
unfoldable pub add_edges : List Node → ℕ → List Str → Graph → Result Graph
add_edges all i [] g = ok g
add_edges all i (d ∷ deps) g = elim (index_of 0 all d) [
  | none ↦ err err_invalid_plan
  | some j ↦ add_edges all i deps (add_edge i j g)
]

unfoldable pub build : List Node → ℕ → List Node → Graph → Result Graph
build all i [] g = ok g
build all i (n ∷ nodes) g = add_edges all i n.depends_on g >>= build all (i + 1) nodes

-- `heap.Push`.
unfoldable pub push : ℕ → List ℕ → List ℕ
push i [] = i ∷ []
push i (j ∷ heap) = let rest = push i heap in if leb i j then i ∷ j ∷ heap else j ∷ rest

-- The indices from `i` on that nothing blocks, as the loop that fills the heap finds them.
unfoldable pub initial_ready : (ℕ → ℕ) → ℕ → ℕ → List ℕ
initial_ready indegree i zero = []
initial_ready indegree i (suc n) =
    let rest = initial_ready indegree (i + 1) n in if indegree i == 0 then i ∷ rest else rest

-- The inner loop: a dependent whose last dependency was this one becomes ready.
unfoldable pub release : List ℕ → (ℕ → ℕ) → List ℕ → (ℕ → ℕ) × List ℕ
release [] indegree ready = (indegree, ready)
release (j ∷ js) indegree ready =
    release js (set_at indegree j (indegree j - 1))
      (if indegree j - 1 == 0 then push j ready else ready)

-- The outer loop, on fuel: the indices in the order in which they are popped.
unfoldable pub drain : ℕ → (ℕ → List ℕ) → (ℕ → ℕ) → List ℕ → List ℕ
drain zero dependents indegree ready = []
drain (suc fuel) dependents indegree [] = []
drain (suc fuel) dependents indegree (i ∷ ready) =
    let (rest_degrees, rest_ready) = release (dependents i) indegree ready in
    i ∷ drain fuel dependents rest_degrees rest_ready

-- `p.Nodes[i].ID`.
unfoldable pub id_at : List Node → ℕ → Str
id_at [] i = []
id_at (n ∷ nodes) zero = n.id
id_at (n ∷ nodes) (suc i) = id_at nodes i

abbrev pub ids_at : List Node → List ℕ → List Str
ids_at nodes [] = []
ids_at nodes (i ∷ is) = id_at nodes i ∷ ids_at nodes is

-- The order of the indices; every pop takes a new index, so that `n` pops empty the heap.
unfoldable pub order_indices : ℕ → Graph → List ℕ
order_indices n g = drain n g.dependents g.indegree (initial_ready g.indegree 0 n)

unfoldable pub topological_order : List Node → Result (List Str)
topological_order nodes = build nodes 0 nodes no_edges >>= λ g.
    let order = order_indices (length nodes) g in
    if length order == length nodes then ok (ids_at nodes order) else err err_invalid_plan
