-- ===== src/State/Node.antt =====
-- engine/state/node.go: the record of a node, a transition as a compare-and-set, and the counts.
pub mod Counts
use partitionctl.Base.{
  ℕ, ◌+◌, Bool, true, false, ◌||◌, List, [], ◌∷◌, Str, is_empty, none, some, Option, if◌then◌else◌,
  ◌▷◌, refuse, length,
}
use partitionctl.Protocol.Errors.{GoError, ErrorKind, err_not_found, kind_of}
use partitionctl.Protocol.NodeKind.{NodeKind}
use partitionctl.Protocol.ObjectName.{ObjectName}
use partitionctl.Protocol.NodeState.{
  NodeState, running, done, failed, skipped, verifying, state_eq, is_complete, TransitionReason,
  normal, orphan_recovery, is_orphan_recovery, check_transition,
}

-- `error_kind` stands for the two fields of the most recent failure; `none` is empty. `object` is
-- the zero name where the node has none.
pub record NodeRecord : Type 0 where
  pub run_id : Str
  pub node_id : Str
  pub kind : NodeKind
  pub state : NodeState
  pub object : ObjectName
  pub attempts : ℕ
  pub error_kind : Option ErrorKind
  pub started_at : Option ℕ
  pub updated_at : ℕ

-- A reason of the empty text is `other []`.
pub record NodeTransition : Type 0 where
  pub run_id : Str
  pub node_id : Str
  pub from : NodeState
  pub to : NodeState
  pub reason : TransitionReason
  pub increment_attempt : Bool
  pub error : Option GoError
  pub at : ℕ

-- `reason`: the empty reason is the normal one.
unfoldable pub reason_of : TransitionReason → TransitionReason
reason_of (TransitionReason.other []) = normal
reason_of r = r

unfoldable pub validate_transition : NodeTransition → Option GoError
unfolding reason_of
validate_transition t =
    refuse (is_empty t.run_id) err_not_found
    ▷ refuse (is_empty t.node_id) err_not_found
    ▷ check_transition t.from t.to (reason_of t.reason)

-- The time of the first dispatch.
first_start : NodeState → Option ℕ → ℕ → Option ℕ
first_start running none now = some now
first_start s started now = started

-- What a transition leaves of the recorded failure, before the test for orphan recovery.
error_after : Option GoError → NodeState → Option ErrorKind → Option ErrorKind
error_after (some e) to old = some (kind_of e)
error_after none to old = if state_eq to done || state_eq to skipped then none else old

-- `applyTransition` of engine/state/file.go.
unfoldable pub apply_transition : NodeRecord → NodeTransition → ℕ → NodeRecord
unfolding first_start error_after
apply_transition rec t now = record rec {
  state = t.to;
  updated_at = now;
  attempts = if t.increment_attempt then rec.attempts + 1 else rec.attempts;
  started_at = first_start t.to rec.started_at now;
  error_kind =
      if is_orphan_recovery t.reason then none else error_after t.error t.to rec.error_kind;
}
