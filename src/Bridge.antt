-- ===== src/Bridge.antt =====
-- adapters/cli/bridge_store.go: the executor's view of the store, over the file store. The executor
-- keeps a time as its text; `instant` is the instant of such a text.
pub mod Cited
use partitionctl.Base.{
  ℕ, Bool, true, false, ◌&&◌, ◌||◌, List, [], ◌∷◌, Str, codes, is_empty, str_eq, none, some, Option,
  if◌then◌else◌, find,
}
use partitionctl.Protocol.Errors.{
  GoError, typed, exit_failure, kind_of, is_kind, ErrorKind, lease_lost, lock_held, Result, ok, err,
}
use partitionctl.Protocol.NodeState.{NodeState, ready, running, state_eq, TransitionReason, normal}
use partitionctl.Protocol.ObjectName.{ObjectName, parse_object_name}
use partitionctl.Protocol.Drop.{Evidence, evidence_at}
use partitionctl.Protocol.Authorization.{AuthorizationMode, auth_explicit}
use partitionctl.Executor.Port
use partitionctl.Executor.Port.{
  Transition, run_started, run_finished, run_cancelled, run_failed, node_failed,
  authorization_granted, authorization_denied, orphan_recovered,
}
use partitionctl.State.Run.{Run}
use partitionctl.State.Node.{NodeRecord, NodeTransition}
use partitionctl.State.Authorization.{AuthorizationRecord}
use partitionctl.State.Audit.{AuditEvent, AuditEventType}
use partitionctl.State.Disk.{Env, Act, ◌>>=◌, ◌>>◌, done_with, Disk}
use partitionctl.State.File.Trail.{append_audit, event}
use partitionctl.State.File.Nodes.{list_nodes, transition_node}
use partitionctl.State.File.Authorizations.{record_authorization}
use partitionctl.State.File.Leases.{heartbeat}
use partitionctl.State.File.Cancel.{cancellation_requested}
use partitionctl.State.File.Locks.{FileLock, refresh}
use partitionctl.State.Claim.{claims_object_in}

-- The `switch`-free copy of the fields in NodeStates.
unfoldable pub port_records : List NodeRecord → List (Str × Port.NodeRecord)
port_records [] = []
port_records (r ∷ rest) =
    (r.node_id, record { state = r.state; attempts = r.attempts }) ∷ port_records rest

-- `reason`, where the empty text is the normal reason.
unfoldable pub bridge_reason : TransitionReason → TransitionReason
bridge_reason (TransitionReason.other []) = normal
bridge_reason r = r

-- `transitionCause` carries the kind of the executor's error.
abbrev pub cause_of : Option GoError → Option GoError
cause_of none = none
cause_of (some e) = some (typed (kind_of e) exit_failure)

-- The relation of the evidence, if it parses.
abbrev pub parsed : ObjectName × Option GoError → Option ObjectName
parsed (o, none) = some o
parsed (o, some e) = none

abbrev pub relation_in : Option Str → Option ObjectName
relation_in none = none
relation_in (some s) = parsed (parse_object_name s)

abbrev pub confirmation_in : AuthorizationMode → Evidence → Str
confirmation_in auth_explicit e = evidence_at e (codes "confirmation")
confirmation_in _ e = []

unfoldable pub type_name : Port.AuditEventType → Str
type_name run_started = codes "run_started"
type_name run_finished = codes "run_finished"
type_name run_cancelled = codes "run_cancelled"
type_name run_failed = codes "run_failed"
type_name node_failed = codes "node_failed"
type_name authorization_granted = codes "authorization_granted"
type_name authorization_denied = codes "authorization_denied"
type_name orphan_recovered = codes "orphan_recovered"

module _ (instant : Str → ℕ) where
  -- The request of RecordTransition.
  unfoldable pub transition_for : Transition → NodeTransition
  unfolding bridge_reason
  transition_for t = record {
    run_id = t.run;
    node_id = t.node;
    from = t.from;
    to = t.to;
    reason = bridge_reason t.reason;
    increment_attempt = state_eq t.from ready && state_eq t.to running;
    error = cause_of t.error;
    at = instant t.at;
  }

  -- The record of RecordAuthorization.
  unfoldable pub record_for : Str → Port.AuthorizationRecord → AuthorizationRecord
  record_for database a = record {
    sequence = 0;
    run_id = a.run;
    node_id = a.node;
    mode = a.mode;
    object = a.object;
    relation = relation_in (find (codes "relation") a.evidence);
    database = database;
    confirmation = confirmation_in a.mode a.evidence;
    evidence = a.evidence;
    granted_at = instant a.granted_at;
  }

module _ (env : Env) where
  unfoldable pub node_states : Str → Act (List (Str × Port.NodeRecord))
  unfolding port_records
  node_states run = list_nodes env run >>= λ l. done_with (port_records l)

  unfoldable pub record_transition : (Str → ℕ) → Transition → Act Unit
  record_transition instant t = transition_node env (transition_for instant t) >>= λ r. done_with tt

  unfoldable pub bridge_authorization : (Str → ℕ) → Str → Port.AuthorizationRecord → Act Unit
  bridge_authorization instant database a =
      record_authorization env (record_for instant database a) >>= λ r. done_with tt

  unfoldable pub cancel_requested : Str → Act Bool
  cancel_requested run = cancellation_requested env run

  -- The executor's events have no time in this model: the store's clock gives it.
  unfoldable pub bridge_audit : Port.AuditEvent → Act Unit
  unfolding type_name
  bridge_audit a =
      append_audit env (event env a.run a.node (AuditEventType.other (type_name a.type')) 0)
      >>= λ e. done_with tt

  -- A store that is not scoped to a database claims nothing.
  unfoldable pub claims_object : Str → ObjectName → Act (Option Run)
  claims_object database o =
      if is_empty database then done_with none else claims_object_in env database o

  -- Both halves of the heartbeat; `none` is a lock that is `nil`.
  unfoldable pub renew : Option FileLock → Str → Str → Act Unit
  renew none run holder = heartbeat env run holder >>= λ l. done_with tt
  renew (some lock) run holder =
      refresh env lock >> (heartbeat env run holder >>= λ l. done_with tt)

-- `fenceIfLost`: whether the error is the signal that stops the executor.
unfoldable pub is_fencing : GoError → Bool
is_fencing e = is_kind lease_lost e || is_kind lock_held e
