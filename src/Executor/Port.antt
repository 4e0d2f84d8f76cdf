-- ===== src/Executor/Port.antt =====
-- engine/executor/port.go and the configuration of engine/executor/executor.go: what the executor
-- asks of the state store, the catalog, the database and the clock. Every call is an event of a
-- trace, the newest first; what a port answers is a function of the trace before the call.
use partitionctl.Base.{ℕ, Bool, List, Str, Option, ℤ}
use partitionctl.Protocol.Errors.{GoError, ExitCode, Result}
use partitionctl.Protocol.NodeKind.{NodeKind}
use partitionctl.Protocol.NodeState.{NodeState, TransitionReason}
use partitionctl.Protocol.ObjectName.{ObjectName}
use partitionctl.Protocol.Marker.{Marker, MarkerStatus}
use partitionctl.Protocol.Drop.{Evidence}
use partitionctl.Protocol.Authorization.{AuthorizationMode}
use partitionctl.Protocol.Params.Assertions.{Assertion, VerifyCheck}
use partitionctl.Protocol.Node.{Node}

pub record SessionSettings : Type 0 where
  pub lock_timeout : ℕ
  pub statement_timeout : ℕ

-- The text of a statement: what `Render` made of a node, or a comment with a marker.
pub data StatementBody : Type 0 where
  primary : Str → StatementBody
  comment_on_index : ObjectName → Marker → StatementBody

pub record Statement : Type 0 where
  pub node : Str
  pub kind : NodeKind
  pub sql : StatementBody
  pub settings : SessionSettings
  pub must_run_outside_transaction : Bool

-- `error` stands for the fields `Error` and `ErrorKind`; the duration is left out.
pub record Transition : Type 0 where
  pub run : Str
  pub node : Str
  pub kind : NodeKind
  pub from : NodeState
  pub to : NodeState
  pub reason : TransitionReason
  pub attempts : ℕ
  pub error : Option GoError
  pub at : Str

pub record AuthorizationRecord : Type 0 where
  pub run : Str
  pub node : Str
  pub object : ObjectName
  pub mode : AuthorizationMode
  pub evidence : Evidence
  pub granted_at : Str

pub data AuditEventType : Type 0 where
  run_started run_finished run_cancelled run_failed node_failed : AuditEventType
  authorization_granted authorization_denied orphan_recovered : AuditEventType

-- The details of an audit event are left out: they are texts for a reader.
pub record AuditEvent : Type 0 where
  pub run : Str
  pub node : Str
  pub type' : AuditEventType

pub record CheckResult : Type 0 where
  pub passed : Bool
  pub failure_code : ExitCode

pub record NodeRecord : Type 0 where
  pub state : NodeState
  pub attempts : ℕ

-- A call and the error it returned, if any; `queried` is a call that only reads.
pub data Event : Type 0 where
  checkpoint : Transition → Option GoError → Event
  granted : AuthorizationRecord → Option GoError → Event
  audited : AuditEvent → Option GoError → Event
  executed : Statement → Option GoError → Event
  queried : Event
  slept : ℤ → Option GoError → Event

abbrev pub Trace : Type 0
Trace = List Event

pub record RetryPolicy : Type 0 where
  pub max_attempts : ℕ
  pub base_delay : ℤ
  pub max_delay : ℤ

-- `has_catalog` is `cfg.Catalog != nil`.
pub record Config : Type 0 where
  pub retry : RetryPolicy
  pub lock_timeout : ℕ
  pub build_lock_timeout : ℕ
  pub statement_timeout : ℕ
  pub has_catalog : Bool
  pub allow_adoption : Bool

-- `interrupted_sleep` is `Clock.Sleep` under the caller's context, `sleep` under the one that is
-- never cancelled. `delay` is `JitteredDelay`, with the number that `Jitter` draws; `now` is the
-- clock's reading as a marker's text; `render` is `Render`.
pub record Ports : Type 0 where
  pub record_transition : Trace → Transition → Option GoError
  pub record_authorization : Trace → AuthorizationRecord → Option GoError
  pub append_audit : Trace → AuditEvent → Option GoError
  pub node_states : Trace → Result (List (Str × NodeRecord))
  pub cancel_requested : Trace → Result Bool
  pub claims_object : Trace → ObjectName → Result (Option Str)
  pub evaluate : Trace → List Assertion → Result (List CheckResult)
  pub verify : Trace → List VerifyCheck → Result (List CheckResult)
  pub marker : Trace → ObjectName → Result (Marker × MarkerStatus)
  pub indexes_on : Trace → ObjectName → Result (List ObjectName)
  pub exec : Trace → Statement → Option GoError
  pub sleep : Trace → ℤ → Option GoError
  pub interrupted_sleep : Trace → ℤ → Option GoError
  pub is_signalled : Trace → Bool
  pub is_fenced : Trace → Bool
  pub now : Trace → Str
  pub delay : Trace → ℕ → ℤ
  pub render : Node → Result Str
