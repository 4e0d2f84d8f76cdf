-- ===== src/Executor/Authorize.antt =====
-- engine/executor/authorize.go: the authorization of a destructive node, decided again against live
-- state. The text of a reason is left out.
use partitionctl.Base.{
  Bool, true, false, not, List, [], ◌∷◌, ◌++◌, Str, codes, str_eq, none, some, Option,
  if◌then◌else◌,
}
use partitionctl.Protocol.Errors.{err_invalid_plan, err_missing_port, Result, ok, err}
use partitionctl.Protocol.NodeKind.{
  NodeKind, is_destructive, index_drop_concurrently, index_drop_partitioned,
}
use partitionctl.Protocol.ObjectName.{ObjectName, string, object_eq}
use partitionctl.Protocol.Marker.{MarkerStatus, marker_absent}
use partitionctl.Protocol.Leftover.{
  is_none, classify_leftover, resolve_leftover_base, LeftoverResolution, leftover_resolved,
}
use partitionctl.Protocol.Drop.{
  DropVerdict, DropAction, drop_adopt_then_drop, drop_authorized, drop_halt, decide_provenance_drop,
  decide_leftover_drop, is_satisfied, Evidence,
}
use partitionctl.Protocol.Authorization.{
  Authorization, AuthorizationMode, auth_provenance, auth_leftover, auth_explicit,
  validate_authorization,
}
use partitionctl.Protocol.Params.{NodeParams, drop_params, drop_partitioned_params}
use partitionctl.Protocol.Node.{Node}
use partitionctl.Protocol.Plan.{Plan, Confirmation, confirmed}
use partitionctl.Executor.Port.{Config, Ports}
use partitionctl.Executor.Machine.{Act, ◌>>=◌, done_with, fail, from_result, query}

-- A mode of the empty string is `other []`.
pub record AuthorizationDecision : Type 0 where
  pub mode : AuthorizationMode
  pub object : ObjectName
  pub is_granted : Bool
  pub adopt : Bool
  pub evidence : Evidence

-- `destructiveObject`: what the node would destroy, read from its parameters.
unfoldable pub destructive_object : NodeKind → Option NodeParams → Result ObjectName
destructive_object index_drop_concurrently (some (drop_params p)) = ok p.index
destructive_object index_drop_partitioned (some (drop_partitioned_params p)) = ok p.index
destructive_object _ _ = err err_invalid_plan

abbrev pub is_adoption : DropAction → Bool
is_adoption drop_adopt_then_drop = true
is_adoption drop_authorized = false
is_adoption drop_halt = false

-- The fields that a verdict of the decision table sets.
unfoldable pub with_verdict : AuthorizationDecision → DropVerdict → AuthorizationDecision
with_verdict d v = record d {
  is_granted = is_satisfied v;
  adopt = is_adoption v.action;
  evidence = v.evidence;
}

abbrev pub claim_or_empty : Option Str → Str
claim_or_empty none = []
claim_or_empty (some run) = run

-- `confirmed_by` and `confirmed_at` of the first confirmation with the flag.
confirmation_evidence : List Confirmation → Str → Evidence
confirmation_evidence [] flag = []
confirmation_evidence (c ∷ rest) flag =
    let others = confirmation_evidence rest flag in
    if str_eq c.flag flag
    then (codes "confirmed_by", c.actor) ∷ (codes "confirmed_at", c.at) ∷ []
    else others

abbrev pub names_target : Option ObjectName → ObjectName → Bool
names_target none o = false
names_target (some t) o = object_eq t o

unfoldable pub authorize_explicit :
    AuthorizationDecision → Plan → Authorization → AuthorizationDecision
unfolding confirmation_evidence
authorize_explicit d plan auth =
    if not (confirmed plan auth.required_confirmation)
    then d
    else if not (names_target plan.target.index auth.object)
    then d
    else record d {
      is_granted = true;
      evidence =
          (codes "mode", codes "explicit")
          ∷ (codes "object", string auth.object)
          ∷ (codes "confirmation", auth.required_confirmation)
          ∷ (codes "plan_id", plan.plan_id)
          ∷ confirmation_evidence plan.confirmations auth.required_confirmation;
    }

-- Of a leftover that is authorized the evidence names the relation too; nothing is adopted.
unfoldable pub with_leftover_verdict :
    AuthorizationDecision → DropVerdict → ObjectName → AuthorizationDecision
with_leftover_verdict d v relation = record d {
  is_granted = is_satisfied v;
  evidence =
      if is_satisfied v then v.evidence ++ (codes "relation", string relation) ∷ [] else v.evidence;
}

module _ (cfg : Config) (ports : Ports) (run : Str) where
  -- The claim is asked for only where there is no marker.
  unfoldable pub claim_for : ObjectName → MarkerStatus → Act (Option Str)
  claim_for o marker_absent = query ports run (λ h. ports.claims_object h o)
  claim_for o _ = done_with none

  unfoldable pub authorize_provenance :
      AuthorizationDecision → Authorization → Act AuthorizationDecision
  unfolding claim_for
  authorize_provenance d auth =
      if not cfg.has_catalog
      then fail err_missing_port
      else query ports run (λ h. ports.marker h auth.object) >>= λ m.
          claim_for auth.object m.1 >>= λ claim. done_with (
            with_verdict d (
              decide_provenance_drop (record {
                object = auth.object;
                status = m.1;
                marker = m.0;
                claim_run = claim_or_empty claim;
              })))

  unfoldable pub resolved_leftover :
      AuthorizationDecision
      → Authorization
      → ObjectName
      → ObjectName × LeftoverResolution
      → Act AuthorizationDecision
  resolved_leftover d auth relation (base, leftover_resolved) =
      query ports run (λ h. ports.marker h base) >>= λ m. done_with (
        with_leftover_verdict d
          (decide_leftover_drop (record {
            object = auth.object;
            base_exists = true;
            base_status = m.1;
            base_marker = m.0;
          }))
          relation)
  resolved_leftover d auth relation (base, _) = done_with d

  unfoldable pub on_relation :
      AuthorizationDecision → Authorization → Option ObjectName → Act AuthorizationDecision
  unfolding resolved_leftover
  on_relation d auth none = fail err_missing_port
  on_relation d auth (some relation) =
      query ports run (λ h. ports.indexes_on h relation) >>= λ candidates.
      resolved_leftover d auth relation (resolve_leftover_base auth.object candidates)

  unfoldable pub authorize_leftover :
      AuthorizationDecision → Authorization → Act AuthorizationDecision
  unfolding on_relation
  authorize_leftover d auth =
      if is_none (classify_leftover auth.object.name).0
      then done_with d
      else if not cfg.has_catalog
      then fail err_missing_port
      else on_relation d auth auth.relation

  unfoldable pub by_mode :
      AuthorizationDecision → Plan → Authorization → AuthorizationMode → Act AuthorizationDecision
  unfolding authorize_provenance authorize_leftover
  by_mode d plan auth auth_provenance = authorize_provenance d auth
  by_mode d plan auth auth_leftover = authorize_leftover d auth
  by_mode d plan auth auth_explicit = done_with (authorize_explicit d plan auth)
  by_mode d plan auth (AuthorizationMode.other s) = done_with d

  abbrev pub undecided : ObjectName → AuthorizationMode → AuthorizationDecision
  undecided o m = record { mode = m; object = o; is_granted = false; adopt = false; evidence = [] }

  abbrev pub is_malformed : Authorization → Bool
  is_malformed auth = elim (validate_authorization auth) [ none ↦ false | some e ↦ true ]

  unfoldable pub decide : Plan → ObjectName → Option Authorization → Act AuthorizationDecision
  unfolding by_mode
  decide plan target none = done_with (undecided target (AuthorizationMode.other []))
  decide plan target (some auth) =
      let d = undecided target auth.mode in
      if is_malformed auth
      then done_with d
      else if not (object_eq auth.object target)
      then done_with d
      else by_mode d plan auth auth.mode

  -- `Authorize`: a denial is a decision that is not granted, an error is "cannot decide".
  unfoldable pub authorize : Plan → Node → Act AuthorizationDecision
  unfolding decide
  authorize plan n =
      if not (is_destructive n.kind)
      then fail err_invalid_plan
      else from_result (destructive_object n.kind n.params) >>= λ target.
          decide plan target n.authorization
