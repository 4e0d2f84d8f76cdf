-- ===== src/Executor/Safety.antt =====
-- What a trace of the executor must satisfy: every checkpoint is an edge of D7 from the state that
-- was recorded last, and every statement is sent while its node is recorded as RUNNING, by a
-- destructive node only after its authorization for the object at hand was recorded.
pub mod Actions
pub mod Checkpoints
pub mod Steps
pub mod Dispatching
pub mod Nodes
pub mod Runs
pub mod Loop
pub mod Recovery
pub mod Completion
use partitionctl.Base.{
  ◌≡◌, Bool, true, false, ◌&&◌, List, [], ◌∷◌, Str, str_eq, none, some, Option, if◌then◌else◌,
}
use partitionctl.Protocol.Errors.{Result, ok, err}
use partitionctl.Protocol.NodeKind.{is_destructive}
use partitionctl.Protocol.NodeState.{NodeState, running, state_eq, valid_transition}
use partitionctl.Protocol.ObjectName.{ObjectName, object_eq}
use partitionctl.Protocol.Node.{Node}
use partitionctl.Protocol.Plan.{Plan, node_by_id}
use partitionctl.Executor.Port.{
  Trace, Event, checkpoint, granted, audited, executed, queried, slept, Transition, Statement,
}
use partitionctl.Executor.Authorize.{destructive_object}

-- The state that was recorded last for a node, or its state before the trace.
unfoldable pub state_in : (Str → NodeState) → Str → Trace → NodeState
state_in before id [] = before id
state_in before id (checkpoint t none ∷ h) =
    let rest = state_in before id h in if str_eq t.node id then t.to else rest
state_in before id (_ ∷ h) = state_in before id h

abbrev pub names : ObjectName → Result ObjectName → Bool
names o (ok target) = object_eq o target
names o (err e) = false

-- Since the node was last recorded in another state than RUNNING, the authorization to destroy what
-- the node destroys was recorded.
unfoldable pub is_authorized : Node → Trace → Bool
is_authorized n [] = false
is_authorized n (granted r none ∷ h) =
    let rest = is_authorized n h in
    if str_eq r.node n.id && names r.object (destructive_object n.kind n.params) then true else rest
is_authorized n (checkpoint t none ∷ h) =
    let rest = is_authorized n h in
    if str_eq t.node n.id then state_eq t.to running && rest else rest
is_authorized n (_ ∷ h) = is_authorized n h

module _ (plan : Plan) (before : Str → NodeState) where
  -- A statement may be sent after the trace `h`.
  pub record MaySend (h : Trace) (s : Statement) : Type 0 where
    pub node : Node
    pub of_plan : node_by_id plan s.node ≡ some node
    pub is_running : state_in before s.node h ≡ running
    pub is_permitted : is_destructive node.kind ≡ true → is_authorized node h ≡ true

  -- A transition may be recorded after the trace `h`.
  pub record MayRecord (h : Trace) (t : Transition) : Type 0 where
    pub is_edge : valid_transition t.from t.to t.reason ≡ true
    pub is_current : t.from ≡ state_in before t.node h

  abbrev pub Safe : Trace → Type 0
  Safe [] = Unit
  Safe (checkpoint t e ∷ h) = MayRecord h t × Safe h
  Safe (executed s e ∷ h) = MaySend h s × Safe h
  Safe (_ ∷ h) = Safe h
