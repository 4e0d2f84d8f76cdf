-- ===== src/Protocol/Params.antt =====
-- The parameters of the nine node kinds, of engine/protocol/params.go: `NodeParams` is a sealed
-- interface, so its implementations are the constructors of a sum.
pub mod Definition
pub mod Assertions
use partitionctl.Base.{
  Bool, true, false, not, ◌&&◌, List, [], ◌∷◌, Str, none, some, Option, if◌then◌else◌, ◌▷◌, refuse,
  ℤ, is_negative,
}
use partitionctl.Protocol.Errors.{GoError, foreign, opaque}
use partitionctl.Protocol.NodeKind.{
  NodeKind, catalog_assert, index_create_parent_invalid, index_create_concurrently, index_attach,
  index_verify, wait, index_drop_concurrently, index_reindex_concurrently, index_drop_partitioned,
}
use partitionctl.Protocol.ObjectName.{ObjectName, validate_object, validate_optional_object}
use partitionctl.Protocol.Params.Definition.{
  IndexDefinition, validate_definition, first_error, no_elements,
}
use partitionctl.Protocol.Params.Assertions.{
  Assertion, validate_assertion, VerifyCheck, validate_check,
}

-- `no_reason` is the empty string.
pub data DropReason : Type 0 where
  no_reason drop_invalid_build drop_cc_new drop_cc_old drop_unattached_orphan : DropReason
  other : Str → DropReason

-- `p.Reason != "" && !p.Reason.Valid()`.
unknown_reason : DropReason → Bool
unknown_reason (DropReason.other s) = true
unknown_reason _ = false

pub record CreateParentInvalidParams : Type 0 where
  pub parent : ObjectName
  pub index : ObjectName
  pub definition : IndexDefinition

pub record CreateConcurrentlyParams : Type 0 where
  pub partition : ObjectName
  pub index : ObjectName
  pub definition : IndexDefinition
  pub parent_index : Option ObjectName

pub record AttachParams : Type 0 where
  pub parent_index : ObjectName
  pub child_index : ObjectName

pub record DropConcurrentlyParams : Type 0 where
  pub index : ObjectName
  pub relation : Option ObjectName
  pub reason : DropReason

pub record ReindexConcurrentlyParams : Type 0 where
  pub index : ObjectName
  pub relation : Option ObjectName
  pub parent_index : Option ObjectName
  pub estimated_peak_bytes : ℤ

pub record DropPartitionedParams : Type 0 where
  pub parent : ObjectName
  pub index : ObjectName
  pub leaf_count : ℤ

pub data NodeParams : Type 0 where
  assert_params : List Assertion → NodeParams
  create_parent_params : CreateParentInvalidParams → NodeParams
  create_params : CreateConcurrentlyParams → NodeParams
  attach_params : AttachParams → NodeParams
  verify_params : List VerifyCheck → NodeParams
  wait_params : ℤ → Str → NodeParams
  drop_params : DropConcurrentlyParams → NodeParams
  reindex_params : ReindexConcurrentlyParams → NodeParams
  drop_partitioned_params : DropPartitionedParams → NodeParams

-- The methods `Kind`.
unfoldable pub params_kind : NodeParams → NodeKind
params_kind (assert_params l) = catalog_assert
params_kind (create_parent_params p) = index_create_parent_invalid
params_kind (create_params p) = index_create_concurrently
params_kind (attach_params p) = index_attach
params_kind (verify_params l) = index_verify
params_kind (wait_params n r) = wait
params_kind (drop_params p) = index_drop_concurrently
params_kind (reindex_params p) = index_reindex_concurrently
params_kind (drop_partitioned_params p) = index_drop_partitioned

-- The methods `Validate`.
unfoldable pub validate_params : NodeParams → Option GoError
unfolding unknown_reason
validate_params (assert_params l) =
    refuse (no_elements l) (foreign opaque) ▷ first_error validate_assertion l
validate_params (create_parent_params p) =
    validate_object p.parent ▷ validate_object p.index ▷ validate_definition p.definition
validate_params (create_params p) =
    validate_object p.partition
    ▷ validate_object p.index
    ▷ validate_optional_object p.parent_index
    ▷ validate_definition p.definition
validate_params (attach_params p) = validate_object p.parent_index ▷ validate_object p.child_index
validate_params (verify_params l) =
    refuse (no_elements l) (foreign opaque) ▷ first_error validate_check l
validate_params (wait_params n r) = refuse (is_negative n) (foreign opaque)
validate_params (drop_params p) =
    validate_object p.index
    ▷ validate_optional_object p.relation
    ▷ refuse (unknown_reason p.reason) (foreign opaque)
validate_params (reindex_params p) =
    validate_object p.index
    ▷ validate_optional_object p.relation
    ▷ validate_optional_object p.parent_index
    ▷ refuse (is_negative p.estimated_peak_bytes) (foreign opaque)
validate_params (drop_partitioned_params p) =
    validate_object p.parent
    ▷ validate_object p.index
    ▷ refuse (is_negative p.leaf_count) (foreign opaque)
