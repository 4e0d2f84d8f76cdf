-- ===== src/Protocol/Plan.antt =====
-- engine/protocol/plan.go and engine/protocol/version.go: the plan and the validation of its
-- structure. The recorded tree of partitions is left out: only a message reads it.
pub mod Order
pub mod Soundness
use partitionctl.Base.{
  ℕ, ◌+◌, Bool, true, false, not, ◌&&◌, ◌||◌, List, [], ◌∷◌, Str, codes, str_eq, is_empty, length,
  take, has_str, none, some, Option, if◌then◌else◌, ◌▷◌, refuse, ℤ, pos, negsuc, ◌==◌, ltb,
}
use partitionctl.Protocol.Errors.{
  GoError, err_invalid_plan, err_unsupported_format_version, Result, ok, err,
}
use partitionctl.Protocol.NodeKind.{
  NodeKind, is_destructive, node_kind_eq, index_drop_partitioned, index_drop_concurrently,
}
use partitionctl.Protocol.ObjectName.{ObjectName, validate_object, validate_optional_object}
use partitionctl.Protocol.Authorization.{confirm_exclusive_lock}
use partitionctl.Protocol.Params.Definition.{no_elements, first_error}
use partitionctl.Protocol.Node.{Node, validate_node, as_invalid_plan}
use partitionctl.Protocol.Plan.Order.{topological_order}

pub data Operation : Type 0 where
  op_create_index op_reindex_index op_drop_index : Operation
  other : Str → Operation

unfoldable pub is_valid_operation : Operation → Bool
is_valid_operation (Operation.other s) = false
is_valid_operation _ = true

pub record Target : Type 0 where
  pub database : Str
  pub table : ObjectName
  pub index : Option ObjectName

unfoldable pub validate_target : Target → Option GoError
validate_target t = validate_object t.table ▷ validate_optional_object t.index

pub record Confirmation : Type 0 where
  pub flag : Str
  pub actor : Str
  pub at : Str
  pub note : Str

pub record Plan : Type 0 where
  pub format_version : ℤ
  pub plan_id : Str
  pub operation : Operation
  pub target : Target
  pub created_at : Str
  pub confirmations : List Confirmation
  pub nodes : List Node
  pub topology_fingerprint : Str
  pub digest : Str

unfoldable pub is_supported_format_version : ℤ → Bool
is_supported_format_version (pos n) = n == 1 || n == 2
is_supported_format_version (negsuc n) = false

unfoldable pub check_format_version : ℤ → Option GoError
unfolding is_supported_format_version
check_format_version v =
    if is_supported_format_version v then none else some err_unsupported_format_version

confirmed_in : List Confirmation → Str → Bool
confirmed_in [] flag = false
confirmed_in (c ∷ rest) flag = str_eq c.flag flag || confirmed_in rest flag

unfoldable pub confirmed : Plan → Str → Bool
unfolding confirmed_in
confirmed p flag = confirmed_in p.confirmations flag

unfoldable pub find_node : List Node → Str → Option Node
find_node [] id = none
find_node (n ∷ nodes) id = let rest = find_node nodes id in if str_eq n.id id then some n else rest

unfoldable pub node_by_id : Plan → Str → Option Node
unfolding find_node
node_by_id p id = find_node p.nodes id

abbrev pub fingerprint_prefix : Str
fingerprint_prefix = codes "sha256:"

-- `strings.HasPrefix`.
abbrev pub has_prefix : Str → Str → Bool
has_prefix s p = str_eq (take (length p) s) p

-- The first loop over the nodes; `by_id` holds the ids that were met before.
unfoldable pub check_nodes : List Str → List Node → Option GoError
check_nodes by_id [] = none
check_nodes by_id (n ∷ nodes) =
    validate_node n
    ▷ refuse (has_str by_id n.id) err_invalid_plan
    ▷ check_nodes (n.id ∷ by_id) nodes

-- The value of `dropPartitioned` after that loop.
unfoldable pub count_drop_partitioned : List Node → ℕ
count_drop_partitioned [] = 0
count_drop_partitioned (n ∷ nodes) =
    count_drop_partitioned nodes + (if node_kind_eq n.kind index_drop_partitioned then 1 else 0)

-- A destructive node that may not stand beside index.drop_partitioned.
unfoldable pub forbidden_beside : Node → Bool
forbidden_beside n =
    is_destructive n.kind
    && not (node_kind_eq n.kind index_drop_partitioned)
    && not (node_kind_eq n.kind index_drop_concurrently)

unfoldable pub check_destructive : Plan → ℕ → Option GoError
unfolding forbidden_beside
check_destructive p n =
    refuse (ltb 1 n) err_invalid_plan
    ▷ (if n == 1
        then first_error (λ m. refuse (forbidden_beside m) err_invalid_plan) p.nodes
        else none)
    ▷ refuse (n == 1 && not (confirmed p confirm_exclusive_lock)) err_invalid_plan

abbrev pub node_ids : List Node → List Str
node_ids [] = []
node_ids (n ∷ nodes) = n.id ∷ node_ids nodes

-- The loop over the dependencies of one node; `seen` holds those that were met before.
unfoldable pub check_dependencies : List Str → Str → List Str → List Str → Option GoError
check_dependencies by_id id seen [] = none
check_dependencies by_id id seen (d ∷ deps) =
    refuse (str_eq d id) err_invalid_plan
    ▷ refuse (has_str seen d) err_invalid_plan
    ▷ refuse (not (has_str by_id d)) err_invalid_plan
    ▷ check_dependencies by_id id (d ∷ seen) deps

abbrev pub error_of {ℓ} : {A : Type ℓ} → Result A → Option GoError
error_of (ok a) = none
error_of (err e) = some e

unfoldable pub validate_plan : Plan → Option GoError
validate_plan p =
    check_format_version p.format_version
    ▷ refuse (is_empty p.plan_id) err_invalid_plan
    ▷ refuse (not (is_valid_operation p.operation)) err_invalid_plan
    ▷ as_invalid_plan (validate_target p.target)
    ▷ refuse (is_empty p.topology_fingerprint) err_invalid_plan
    ▷ refuse (not (has_prefix p.topology_fingerprint fingerprint_prefix)) err_invalid_plan
    ▷ refuse (no_elements p.nodes) err_invalid_plan
    ▷ first_error (λ c. refuse (is_empty c.flag) err_invalid_plan) p.confirmations
    ▷ check_nodes [] p.nodes
    ▷ check_destructive p (count_drop_partitioned p.nodes)
    ▷ first_error (λ n. check_dependencies (node_ids p.nodes) n.id [] n.depends_on) p.nodes
    ▷ error_of (topological_order p.nodes)
