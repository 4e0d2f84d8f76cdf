-- ===== src/State/Authorization/Recorded.antt =====
-- What RecordAuthorization has done when it returns.
use partitionctl.Base.{◌≡◌, List, [], ◌∷◌, ◌++◌, Str, none}
use partitionctl.Protocol.Errors.{kind_of, guard_not_recorded, Result, ok, err}
use partitionctl.State.Authorization.{AuthorizationRecord, validate_record}
use partitionctl.State.Disk.{Env, Disk}
use partitionctl.State.File.Trail.{here}

-- The last of the stored authorizations of the record's run is `b`.
abbrev pub IsStored : Env → Str → AuthorizationRecord → Disk → Type 0
IsStored env run b d =
    (before : List AuthorizationRecord) × ((here env run d).authorizations ≡ before ++ b ∷ [])

-- What is stored is what was asked for, in every field that the store does not set.
pub record Committed (env : Env) (a b : AuthorizationRecord) (d : Disk) : Type 0 where
  pub valid : validate_record a ≡ none
  pub stored : IsStored env a.run_id b d
  pub same_node : b.node_id ≡ a.node_id
  pub same_mode : b.mode ≡ a.mode
  pub same_object : b.object ≡ a.object
  pub same_evidence : b.evidence ≡ a.evidence

-- A record that is returned was committed; every failure says that none was.
abbrev pub IsRecorded : Env → AuthorizationRecord → Result AuthorizationRecord × Disk → Type 0
IsRecorded env a (ok b, d) = Committed env a b d
IsRecorded env a (err e, d) = kind_of e ≡ guard_not_recorded

module _ (env : Env) (a : AuthorizationRecord) where
  abbrev Anything : Disk → Type 0
  Anything d = Unit
