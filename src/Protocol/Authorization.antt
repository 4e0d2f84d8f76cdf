-- ===== src/Protocol/Authorization.antt =====
-- engine/protocol/authorization.go: the authorization that a destructive node carries.
use partitionctl.Base.{
  Bool, true, false, not, Str, codes, is_empty, none, some, Option, ◌▷◌, refuse,
}
use partitionctl.Protocol.Errors.{GoError, foreign, opaque}
use partitionctl.Protocol.ObjectName.{ObjectName, validate}

-- `other` is a string that names no mode.
pub data AuthorizationMode : Type 0 where
  auth_provenance auth_leftover auth_explicit : AuthorizationMode
  other : Str → AuthorizationMode

unfoldable pub is_valid_mode : AuthorizationMode → Bool
is_valid_mode (AuthorizationMode.other s) = false
is_valid_mode _ = true

abbrev pub confirm_exclusive_lock : Str
confirm_exclusive_lock = codes "--confirm-exclusive-lock"

pub record Authorization : Type 0 where
  pub mode : AuthorizationMode
  pub object : ObjectName
  pub relation : Option ObjectName
  pub required_confirmation : Str
  pub note : Str

validate_relation : Option ObjectName → Option GoError
validate_relation none = none
validate_relation (some o) = validate o

relation_missing : Option ObjectName → Bool
relation_missing none = true
relation_missing (some o) = false

-- The `switch` on the mode.
mode_fields : AuthorizationMode → Authorization → Option GoError
unfolding relation_missing
mode_fields auth_explicit a = refuse (is_empty a.required_confirmation) (foreign opaque)
mode_fields auth_leftover a = refuse (relation_missing a.relation) (foreign opaque)
mode_fields _ a = none

-- `Validate` of an authorization that is not `nil`.
unfoldable pub validate_authorization : Authorization → Option GoError
unfolding is_valid_mode validate_relation mode_fields
validate_authorization a =
    refuse (not (is_valid_mode a.mode)) (foreign opaque)
    ▷ validate a.object
    ▷ validate_relation a.relation
    ▷ mode_fields a.mode a
