-- ===== src/Tests/Order.antt =====
-- A plan of three nodes, whose first node depends on the second, and the theorems there.
use partitionctl.Base.{◌≡◌, refl, List, [], ◌∷◌, ℕ, Str, codes, arith, none, pos, str_eq}
use partitionctl.Protocol.Errors.{ok}
use partitionctl.Protocol.NodeKind.{index_drop_concurrently}
use partitionctl.Protocol.Node.{Node}
use partitionctl.Protocol.Plan.Order.{
  add_edge, add_edges, build, drain, id_at, ids_at, index_of, initial_ready, order_indices, push,
  release, topological_order,
}
use partitionctl.Protocol.Plan.Order.Unmet.{mem, unmet}
use partitionctl.Protocol.Plan.Order.Edges.{deps_from, resolve}
use partitionctl.Protocol.Plan.Order.Sorted.{
  dependencies, IsTopological, Resolves, topological_order-IsTopological,
  topological_order_complete,
}

abbrev node_after : Str → List Str → Node
node_after id deps = record {
  id = id;
  kind = index_drop_concurrently;
  params = none;
  depends_on = deps;
  estimated_seconds = pos 1;
  authorization = none;
}

abbrev three_nodes : List Node
three_nodes =
    node_after (codes "b") (codes "a" ∷ [])
    ∷ node_after (codes "a") []
    ∷ node_after (codes "c") (codes "a" ∷ codes "b" ∷ [])
    ∷ []

three_nodes-order : topological_order three_nodes ≡ ok (codes "a" ∷ codes "b" ∷ codes "c" ∷ [])
unfolding topological_order build add_edges index_of str_eq order_indices drain initial_ready
    add_edge release push id_at
three_nodes-order = refl

topological_order-IsTopological_example :
    (order : List ℕ) × IsTopological three_nodes order
    × (codes "a" ∷ codes "b" ∷ codes "c" ∷ [] ≡ ids_at three_nodes order)
topological_order-IsTopological_example =
    topological_order-IsTopological three_nodes (codes "a" ∷ codes "b" ∷ codes "c" ∷ [])
      three_nodes-order

three_nodes-Resolves : Resolves three_nodes three_nodes
unfolding index_of str_eq
three_nodes-Resolves = ((λ e. cc e, tt), (tt, ((λ e. cc e, (λ e. cc e, tt)), tt)))

three_nodes-IsTopological : IsTopological three_nodes (1 ∷ 0 ∷ 2 ∷ [])
unfolding mem unmet dependencies deps_from resolve index_of str_eq
three_nodes-IsTopological = record {
  complete = refl;
  of_nodes = λ k h. ground arith;
  ordered = (refl, refl, (refl, refl, (refl, refl, tt)));
}

topological_order_complete_example : (ids : List Str) × (topological_order three_nodes ≡ ok ids)
topological_order_complete_example =
    topological_order_complete three_nodes (1 ∷ 0 ∷ 2 ∷ []) three_nodes-Resolves
      three_nodes-IsTopological
