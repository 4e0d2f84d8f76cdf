-- ===== src/State/Audit.antt =====
-- engine/state/audit.go. The details of an event are left out: they are texts for a reader.
use partitionctl.Base.{ℕ, Bool, false, Str, is_empty, Option, ◌▷◌, refuse}
use partitionctl.Protocol.Errors.{GoError, err_failure}

-- The set is open: `other` is a type that a consumer adds.
pub data AuditEventType : Type 0 where
  event_run_opened event_run_status_changed event_run_adopted event_run_orphaned : AuditEventType
  event_cancel_requested event_lease_acquired event_lease_released : AuditEventType
  event_node_transition event_object_created event_object_create_failed : AuditEventType
  event_authorization_recorded event_destructive_executed : AuditEventType
  event_destructive_failed : AuditEventType
  other : Str → AuditEventType

-- `seq` is the number in `EventID` too; `at` is the request's time, 0 once the event is recorded.
pub record AuditEvent : Type 0 where
  pub seq : ℕ
  pub run_id : Str
  pub node_id : Str
  pub type' : AuditEventType
  pub occurred_at : ℕ
  pub at : ℕ

-- `e.Type == ""`.
no_type : AuditEventType → Bool
no_type (other s) = is_empty s
no_type _ = false

-- `validate` of an event that is not `nil`.
unfoldable pub validate_event : AuditEvent → Option GoError
unfolding no_type
validate_event e = refuse (is_empty e.run_id) err_failure ▷ refuse (no_type e.type') err_failure
