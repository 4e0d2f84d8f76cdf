-- ===== src/Protocol/Params/Assertions.antt =====
-- The assertions of catalog.assert and the checks of index.verify, of engine/protocol/params.go.
use partitionctl.Base.{
  Bool, true, false, not, ◌||◌, List, Str, is_empty, none, some, Option, ◌▷◌, refuse, ℤ,
  is_negative,
}
use partitionctl.Protocol.Errors.{GoError, foreign, opaque, ExitCode}
use partitionctl.Protocol.Quote.{validate_identifier}
use partitionctl.Protocol.ObjectName.{ObjectName, validate, validate_optional_object}
use partitionctl.Protocol.Params.Definition.{unless_empty}

-- `other` is a string outside the vocabulary.
pub data AssertionKind : Type 0 where
  relation_is_partitioned partition_strategy partition_depth no_default_partition : AssertionKind
  role_membership index_name_available index_exists index_is_partitioned : AssertionKind
  index_not_constraint_backed leaves_attached : AssertionKind
  other : Str → AssertionKind

unfoldable pub is_valid_assertion : AssertionKind → Bool
is_valid_assertion (AssertionKind.other s) = false
is_valid_assertion _ = true

pub record Assertion : Type 0 where
  pub assertion : AssertionKind
  pub relation : Option ObjectName
  pub index : Option ObjectName
  pub role : Str
  pub expected : List Str
  pub failure_code : ExitCode
  pub message : Str

validate_if_some : Option ObjectName → Option GoError
validate_if_some none = none
validate_if_some (some o) = validate o

-- `a.Assertion == AssertRoleMembership && a.Role == ""`.
role_missing : AssertionKind → Str → Bool
role_missing role_membership r = is_empty r
role_missing _ r = false

unfoldable pub validate_assertion : Assertion → Option GoError
unfolding is_valid_assertion validate_if_some role_missing
validate_assertion a =
    refuse (not (is_valid_assertion a.assertion)) (foreign opaque)
    ▷ validate_if_some a.relation
    ▷ validate_if_some a.index
    ▷ unless_empty a.role validate_identifier
    ▷ refuse (role_missing a.assertion a.role) (foreign opaque)

pub data VerifyCheckKind : Type 0 where
  index_valid index_attached parent_index_valid leaf_index_count index_absent : VerifyCheckKind
  no_leftover_indexes : VerifyCheckKind
  other : Str → VerifyCheckKind

unfoldable pub is_valid_check : VerifyCheckKind → Bool
is_valid_check (VerifyCheckKind.other s) = false
is_valid_check _ = true

pub record VerifyCheck : Type 0 where
  pub check : VerifyCheckKind
  pub index : Option ObjectName
  pub parent_index : Option ObjectName
  pub relation : Option ObjectName
  pub expected_count : Option ℤ
  pub message : Str

-- `p == nil`.
abbrev pub is_nil {ℓ} : {A : Type ℓ} → Option A → Bool
is_nil none = true
is_nil (some a) = false

-- `*c.ExpectedCount < 0`, of a count that is there.
negative_count : Option ℤ → Bool
negative_count none = false
negative_count (some n) = is_negative n

-- The `switch` on the check: what it requires of the other fields.
required_fields : VerifyCheckKind → VerifyCheck → Option GoError
unfolding negative_count
required_fields index_valid c = refuse (is_nil c.index) (foreign opaque)
required_fields index_absent c = refuse (is_nil c.index) (foreign opaque)
required_fields index_attached c = refuse (is_nil c.index || is_nil c.parent_index) (foreign opaque)
required_fields parent_index_valid c = refuse (is_nil c.parent_index) (foreign opaque)
required_fields leaf_index_count c =
    refuse (is_nil c.parent_index) (foreign opaque)
    ▷ refuse (is_nil c.expected_count) (foreign opaque)
    ▷ refuse (negative_count c.expected_count) (foreign opaque)
required_fields no_leftover_indexes c = refuse (is_nil c.relation) (foreign opaque)
required_fields (VerifyCheckKind.other s) c = none

unfoldable pub validate_check : VerifyCheck → Option GoError
unfolding is_valid_check required_fields
validate_check c =
    refuse (not (is_valid_check c.check)) (foreign opaque)
    ▷ validate_optional_object c.index
    ▷ validate_optional_object c.parent_index
    ▷ validate_optional_object c.relation
    ▷ required_fields c.check c
