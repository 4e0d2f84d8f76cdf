-- ===== src/State/Evolution.antt =====
-- What a call of the store may do to a run's directory, apart from the code: the run keeps what it
-- is bound to and moves along its machine, its nodes move along D7, and the trail and the
-- authorizations only grow.
pub mod Laws
pub mod Accesses
pub mod Operations
pub mod Opening
pub mod Leases
pub mod Guards
pub mod Recovery
pub mod Calls
pub mod Lifetimes
use partitionctl.Base.{ℕ, ◌≤◌, ◌≡◌, ◌≢◌, List, ◌++◌, Str, none, some, Option, find, true}
use partitionctl.Protocol.NodeKind.{NodeKind}
use partitionctl.Protocol.NodeState.{NodeState, TransitionReason, valid_transition}
use partitionctl.Protocol.ObjectName.{ObjectName}
use partitionctl.Protocol.Plan.{Operation, Target}
use partitionctl.State.Run.{Run, run_running}
use partitionctl.State.Run.Machine.{StatusPath}
use partitionctl.State.Node.{NodeRecord}
use partitionctl.State.Authorization.{AuthorizationRecord}
use partitionctl.State.Audit.{AuditEvent}
use partitionctl.State.Disk.{RunDir, Disk, dir_at}

-- The states that a node passes through, each move for some reason that permits it.
pub data NodePath : NodeState → NodeState → Type 0 where
  stays : {s : NodeState} → NodePath s s
  moves :
      {a b c : NodeState} (r : TransitionReason)
      → valid_transition a b r ≡ true
      → NodePath b c
      → NodePath a c

-- What a run is bound to for its lifetime.
pub record RunIdentity : Type 0 where
  pub run_id : Str
  pub plan_id : Str
  pub operation : Operation
  pub target : Target
  pub plan_digest : Str
  pub actor : Str
  pub node_count : ℕ
  pub started_at : ℕ

abbrev pub identity : Run → RunIdentity
identity r = record {
  run_id = r.run_id;
  plan_id = r.plan_id;
  operation = r.operation;
  target = r.target;
  plan_digest = r.plan_digest;
  actor = r.actor;
  node_count = r.node_count;
  started_at = r.started_at;
}

pub record RunKept (r s : Run) : Type 0 where
  pub same : identity r ≡ identity s
  pub path : StatusPath r.status s.status

-- A run that is not there may open, and one that is there stays.
abbrev pub RunEvolves : Option Run → Option Run → Type 0
RunEvolves none none = Unit
RunEvolves none (some s) = StatusPath run_running s.status
RunEvolves (some r) none = ⊥
RunEvolves (some r) (some s) = RunKept r s

pub record NodeKept (a b : NodeRecord) : Type 0 where
  pub same_run : a.run_id ≡ b.run_id
  pub same_node : a.node_id ≡ b.node_id
  pub same_kind : a.kind ≡ b.kind
  pub same_object : a.object ≡ b.object
  pub path : NodePath a.state b.state
  pub attempts : a.attempts ≤ b.attempts

abbrev pub NodeEvolves : Option NodeRecord → Option NodeRecord → Type 0
NodeEvolves none y = Unit
NodeEvolves (some a) none = ⊥
NodeEvolves (some a) (some b) = NodeKept a b

-- The second list is the first with more behind it.
abbrev pub Extends {ℓ} : {A : Type ℓ} → List A → List A → Type ℓ
Extends {A = A} xs ys = (more : List A) × (ys ≡ xs ++ more)

pub record DirEvolves (x y : RunDir) : Type 0 where
  pub run_evolves : RunEvolves x.run y.run
  pub nodes_evolve : x.run ≢ none → (k : Str) → NodeEvolves (find k x.nodes) (find k y.nodes)
  pub authorizations_grow : Extends x.authorizations y.authorizations
  pub trail_grows : Extends x.audit y.audit

pub record Evolves (d e : Disk) : Type 0 where
  pub at : (k : Str) → DirEvolves (dir_at k d) (dir_at k e)
