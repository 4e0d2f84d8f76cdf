-- ===== src/Protocol/Node.antt =====
-- engine/protocol/node.go: a node of a plan; and which marker a node writes, of
-- engine/protocol/marker.go.
use partitionctl.Base.{
  Bool, true, false, not, List, [], Str, is_empty, none, some, Option, ◌▷◌, refuse, ℤ, is_negative,
}
use partitionctl.Protocol.Errors.{
  GoError, err_invalid_plan, err_unknown_node_kind, err_authorization_unsatisfied, Result, ok, err,
}
use partitionctl.Protocol.NodeKind.{
  NodeKind, is_valid, is_destructive, node_kind_eq, index_create_parent_invalid,
  index_create_concurrently, index_attach, index_reindex_concurrently,
}
use partitionctl.Protocol.ObjectName.{ObjectName, string}
use partitionctl.Protocol.Marker.{MarkerTarget, marker_role_parent, marker_role_leaf}
use partitionctl.Protocol.Authorization.{Authorization, validate_authorization}
use partitionctl.Protocol.Params.{
  NodeParams, create_parent_params, create_params, attach_params, drop_params, reindex_params,
  drop_partitioned_params, params_kind, validate_params,
}

-- `params` is `none` where the file holds `null`. The preview of the SQL is left out: nothing reads
-- it back.
pub record Node : Type 0 where
  pub id : Str
  pub kind : NodeKind
  pub params : Option NodeParams
  pub depends_on : List Str
  pub estimated_seconds : ℤ
  pub authorization : Option Authorization

-- The `switch` of `Object` on the type of the parameters.
params_object : NodeParams → Option ObjectName
params_object (create_parent_params p) = some p.index
params_object (create_params p) = some p.index
params_object (attach_params p) = some p.child_index
params_object (drop_params p) = some p.index
params_object (reindex_params p) = some p.index
params_object (drop_partitioned_params p) = some p.index
params_object _ = none

unfoldable pub object : Node → Option ObjectName
unfolding params_object
object n = elim n.params [ none ↦ none | some p ↦ params_object p ]

-- An error that `Detailf("%v")` reports loses its kind.
abbrev pub as_invalid_plan : Option GoError → Option GoError
as_invalid_plan none = none
as_invalid_plan (some e) = some err_invalid_plan

-- The checks of the parameters against the kind.
check_params : NodeKind → Option NodeParams → Option GoError
check_params k none = some err_invalid_plan
check_params k (some p) =
    refuse (not (node_kind_eq (params_kind p) k)) err_invalid_plan
    ▷ as_invalid_plan (validate_params p)

-- The last `switch`: a destructive kind carries an authorization, no other kind does.
check_authorization : Bool → Option Authorization → Option GoError
check_authorization true none = some err_authorization_unsatisfied
check_authorization false (some a) = some err_invalid_plan
check_authorization true (some a) = as_invalid_plan (validate_authorization a)
check_authorization false none = none

unfoldable pub validate_node : Node → Option GoError
unfolding check_params check_authorization
validate_node n =
    refuse (is_empty n.id) err_invalid_plan
    ▷ refuse (not (is_valid n.kind)) err_unknown_node_kind
    ▷ check_params n.kind n.params
    ▷ refuse (is_negative n.estimated_seconds) err_invalid_plan
    ▷ check_authorization (is_destructive n.kind) n.authorization

-- `p.ParentIndex.String()`, or the empty text.
string_or_empty : Option ObjectName → Str
string_or_empty none = []
string_or_empty (some o) = string o

-- The `switch` on the kind, and the type assertions within it. `ok none` is the result `false`.
marker_target_of : NodeKind → Option NodeParams → Result (Option MarkerTarget)
unfolding string_or_empty
marker_target_of index_create_parent_invalid (some (create_parent_params p)) =
    ok (some (record { index = p.index; role = marker_role_parent; parent = []; rewrite = false }))
marker_target_of index_create_concurrently (some (create_params p)) = ok (
    some (record {
      index = p.index;
      role = marker_role_leaf;
      parent = string_or_empty p.parent_index;
      rewrite = false;
    }))
marker_target_of index_attach (some (attach_params p)) = ok (
    some (record {
      index = p.child_index;
      role = marker_role_leaf;
      parent = string p.parent_index;
      rewrite = false;
    }))
marker_target_of index_reindex_concurrently (some (reindex_params p)) = ok (
    some (record {
      index = p.index;
      role = marker_role_leaf;
      parent = string_or_empty p.parent_index;
      rewrite = true;
    }))
marker_target_of index_create_parent_invalid _ = err err_invalid_plan
marker_target_of index_create_concurrently _ = err err_invalid_plan
marker_target_of index_attach _ = err err_invalid_plan
marker_target_of index_reindex_concurrently _ = err err_invalid_plan
marker_target_of _ _ = ok none

-- `MarkerTargetFor` of a node that is not `nil`.
unfoldable pub marker_target_for : Node → Result (Option MarkerTarget)
unfolding marker_target_of
marker_target_for n = marker_target_of n.kind n.params
