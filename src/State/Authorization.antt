-- ===== src/State/Authorization.antt =====
-- engine/state/authorization.go: the record that must be committed before a destructive statement.
pub mod Recorded
use partitionctl.Base.{
  ℕ, Bool, true, false, not, List, [], ◌∷◌, Str, codes, str_eq, is_empty, none, some, Option,
  if◌then◌else◌, ◌▷◌, refuse,
}
use partitionctl.Protocol.Errors.{GoError, err_authorization_unsatisfied}
use partitionctl.Protocol.ObjectName.{ObjectName, validate}
use partitionctl.Protocol.Leftover.{LeftoverKind, leftover_none, classify_leftover}
use partitionctl.Protocol.Drop.{Evidence, evidence_at}
use partitionctl.Protocol.Authorization.{
  AuthorizationMode, auth_provenance, auth_leftover, auth_explicit, is_valid_mode,
}
use partitionctl.Protocol.Params.Definition.{first_error}

-- `sequence` is the number in `AuthorizationID`.
pub record AuthorizationRecord : Type 0 where
  pub sequence : ℕ
  pub run_id : Str
  pub node_id : Str
  pub mode : AuthorizationMode
  pub object : ObjectName
  pub relation : Option ObjectName
  pub database : Str
  pub confirmation : Str
  pub evidence : Evidence
  pub granted_at : ℕ

unfoldable pub required_evidence : AuthorizationMode → List Str
required_evidence auth_provenance = codes "mode" ∷ codes "object" ∷ codes "source" ∷ []
required_evidence auth_leftover =
    codes "mode" ∷ codes "object" ∷ codes "leftover_class" ∷ codes "base_index" ∷ []
required_evidence auth_explicit = codes "mode" ∷ codes "object" ∷ codes "confirmation" ∷ []
required_evidence (AuthorizationMode.other s) = []

-- Every refusal has the one sentinel.
abbrev pub unsatisfied : Option GoError → Option GoError
unsatisfied none = none
unsatisfied (some e) = some err_authorization_unsatisfied

abbrev pub check_relation : Option ObjectName → Option GoError
check_relation none = none
check_relation (some o) = unsatisfied (validate o)

abbrev pub is_missing : Option ObjectName → Bool
is_missing none = true
is_missing (some o) = false

abbrev pub is_no_leftover : LeftoverKind → Bool
is_no_leftover leftover_none = true
is_no_leftover _ = false

-- The two `if`s on the mode.
unfoldable pub check_mode_fields : AuthorizationMode → AuthorizationRecord → Option GoError
check_mode_fields auth_leftover a =
    refuse (is_missing a.relation) err_authorization_unsatisfied
    ▷ refuse (is_no_leftover (classify_leftover a.object.name).0) err_authorization_unsatisfied
check_mode_fields auth_explicit a = refuse (is_empty a.confirmation) err_authorization_unsatisfied
check_mode_fields _ a = none

-- The `switch` on the source of a provenance.
unfoldable pub check_source : AuthorizationMode → Evidence → Option GoError
check_source auth_provenance e =
    if str_eq (evidence_at e (codes "source")) (codes "marker")
    then refuse (is_empty (evidence_at e (codes "marker_run"))) err_authorization_unsatisfied
    else if str_eq (evidence_at e (codes "source")) (codes "claim")
    then refuse (is_empty (evidence_at e (codes "claim_run"))) err_authorization_unsatisfied
    else some err_authorization_unsatisfied
check_source _ e = none

-- `Validate` of a record that is not `nil`.
unfoldable pub validate_record : AuthorizationRecord → Option GoError
validate_record a =
    refuse (is_empty a.run_id) err_authorization_unsatisfied
    ▷ refuse (is_empty a.node_id) err_authorization_unsatisfied
    ▷ refuse (not (is_valid_mode a.mode)) err_authorization_unsatisfied
    ▷ unsatisfied (validate a.object)
    ▷ check_relation a.relation
    ▷ check_mode_fields a.mode a
    ▷ first_error (λ k. refuse (is_empty (evidence_at a.evidence k)) err_authorization_unsatisfied)
        (required_evidence a.mode)
    ▷ check_source a.mode a.evidence
