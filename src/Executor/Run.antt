-- ===== src/Executor/Run.antt =====
-- `Run` of engine/executor/executor.go, without the dry run: the checks before the first statement,
-- the recorded states, the recovery of orphaned nodes, and the loop over the nodes in their order.
use partitionctl.Base.{
  ℕ, ◌+◌, Bool, true, false, not, ◌&&◌, ◌||◌, List, [], ◌∷◌, Str, str_eq, is_empty, ◌==◌, none,
  some, Option, if◌then◌else◌, ◌▷◌, refuse,
}
use partitionctl.Protocol.Errors.{
  GoError, Result, ok, err, wrap, err_invalid_run, err_invalid_plan, err_missing_port,
  err_checkpoint_failed, err_unsupported_node_kind,
}
use partitionctl.Protocol.NodeKind.{
  NodeKind, catalog_assert, index_verify, is_valid, is_destructive, claims_ownership, issues_ddl,
}
use partitionctl.Protocol.NodeState.{
  NodeState, pending, running, done, failed, skipped, is_complete, initial_node_state,
  orphan_recovery,
}
use partitionctl.Protocol.Params.Definition.{first_error}
use partitionctl.Protocol.Node.{Node}
use partitionctl.Protocol.Plan.{Plan, validate_plan, node_by_id}
use partitionctl.Protocol.Plan.Order.{topological_order}
use partitionctl.Executor.Port.{
  Config, Ports, Trace, NodeRecord, orphan_recovered, run_started, run_cancelled, run_finished,
  run_failed, AuditEventType, queried,
}
use partitionctl.Executor.Machine.{
  World, NodeStatus, Act, Reply, returned, halted, Halt, stopped, unsafe_retry, no_fuel, ◌>>◌,
  done_with, fail, audit, transition, query,
}
use partitionctl.Executor.Attempt.{States, find_status, run_node}

pub data StopReason : Type 0 where
  stop_cancel_flag stop_signal stop_fenced stop_unsafe_retry : StopReason

-- How the loop over the nodes ends. `halted_at` names the node at which the run failed; `exhausted`
-- is the model's own: some node ran out of fuel.
pub data Ending : Type 0 where
  completed exhausted : Ending
  halted_at : Str → GoError → Ending
  broken : GoError → Ending
  stopped_for : StopReason → Ending

-- `Result`, whose counts are of the final states.
pub record RunResult : Type 0 where
  pub ending : Ending
  pub states : States
  pub trace : Trace

abbrev pub status_or_initial : Option NodeStatus → NodeStatus
status_or_initial (some s) = s
status_or_initial none = record { state = initial_node_state; attempts = 0; attempts_this_run = 0 }

-- The state of a node that the map holds; every node of the order has one.
unfoldable pub status_of : States → Str → NodeStatus
status_of states id = status_or_initial (find_status states id)

-- The node's status after `runNode`, which shares it with the map. A node of the order is there.
unfoldable pub set_status : States → Str → NodeStatus → States
set_status [] id s = (id, s) ∷ []
set_status ((i, t) ∷ rest) id s =
    let others = set_status rest id s in if str_eq i id then (i, s) ∷ rest else (i, t) ∷ others

-- `tally`: how many nodes have not reached a complete state.
unfoldable pub count_remaining : States → ℕ
count_remaining [] = 0
count_remaining ((i, s) ∷ rest) = count_remaining rest + (if is_complete s.state then 0 else 1)

abbrev pub is_cancelled : Ending → Bool
is_cancelled (stopped_for r) = true
is_cancelled _ = false

-- `Complete`.
unfoldable pub is_complete_run : RunResult → Bool
is_complete_run r = count_remaining r.states == 0 && not (is_cancelled r.ending)

unfoldable pub find_record : List (Str × NodeRecord) → Str → Option NodeRecord
find_record [] id = none
find_record ((i, r) ∷ rest) id =
    let others = find_record rest id in if str_eq i id then some r else others

-- `!r.State.Valid()` of a record that is there.
abbrev pub has_bad_state : Option NodeRecord → Bool
has_bad_state none = false
has_bad_state (some r) = not (partitionctl.Protocol.NodeState.is_valid r.state)

abbrev pub status_from : Option NodeRecord → NodeStatus
status_from none = record { state = initial_node_state; attempts = 0; attempts_this_run = 0 }
status_from (some r) = record { state = r.state; attempts = r.attempts; attempts_this_run = 0 }

unfoldable pub load_states : List (Str × NodeRecord) → List Str → Result States
load_states records [] = ok []
load_states records (id ∷ ids) =
    let rest = load_states records ids in
    if has_bad_state (find_record records id) then err err_invalid_run else elim rest [
      | ok states ↦ ok ((id, status_from (find_record records id)) ∷ states)
      | err e ↦ err e
    ]

abbrev pub needs_catalog : NodeKind → Bool
needs_catalog catalog_assert = true
needs_catalog index_verify = true
needs_catalog k = is_destructive k || claims_ownership k

-- A statement that was rendered, and is not empty.
abbrev pub check_rendered : Result Str → Option GoError
check_rendered (err e) = some e
check_rendered (ok sql) = refuse (is_empty sql) err_invalid_plan

unfoldable pub any_needs_catalog : List Node → Bool
any_needs_catalog [] = false
any_needs_catalog (n ∷ nodes) = needs_catalog n.kind || any_needs_catalog nodes

-- The error of an action that halts; the internal signals do not occur outside `runNode`.
abbrev pub error_in : Halt → GoError
error_in (Halt.failed e) = e
error_in _ = err_invalid_run

-- The flag's verdict, or a checkpoint failure where it could not be read.
abbrev pub read_flag : Reply Bool × World → Reply (Option StopReason) × World
read_flag (returned true, w) = (returned (some stop_cancel_flag), w)
read_flag (returned false, w) = (returned none, w)
read_flag (halted (Halt.failed e), w) = (halted (Halt.failed (wrap err_checkpoint_failed e)), w)
read_flag (halted h, w) = (halted h, w)

module _ (cfg : Config) (ports : Ports) (run : Str) (plan : Plan) where
  unfoldable pub preflight : Option GoError
  preflight =
      first_error
        (λ n.
          refuse (not (is_valid n.kind)) err_unsupported_node_kind
          ▷ (if issues_ddl n.kind then check_rendered (ports.render n) else none))
        plan.nodes
      ▷ refuse (any_needs_catalog plan.nodes && not cfg.has_catalog) err_missing_port

  -- The reason to stop at this boundary, if there is one.
  unfoldable pub stop_requested : Act (Option StopReason)
  stop_requested w =
      (if ports.is_signalled w.trace
          then done_with (some stop_signal)
          else if ports.is_fenced w.trace
          then done_with (some stop_fenced)
          else λ v. read_flag (query ports run ports.cancel_requested v))
        w

  unfoldable pub recover_found : Str → Option Node → Act Unit
  recover_found id none = fail err_invalid_plan
  recover_found id (some n) =
      transition ports run n pending orphan_recovery none >> audit ports run id orphan_recovered

  -- An orphaned node goes back to PENDING; any other node is left alone.
  unfoldable pub recover_orphan : Str → Act Unit
  recover_orphan id w =
      (if partitionctl.Protocol.NodeState.state_eq w.status.state running
          then recover_found id (node_by_id plan id)
          else done_with tt)
        w

  abbrev pub world_of : States → Str → Trace → World
  world_of states id h = record { trace = h; status = status_of states id }

  -- The rest of the loop over the order, or the error that ends it here.
  unfoldable pub after_orphan :
      Reply Unit
      → Option GoError × (States × Trace)
      → States × Trace
      → Option GoError × (States × Trace)
  after_orphan (returned u) rest here = rest
  after_orphan (halted x) rest here = (some (error_in x), here)

  -- `recoverOrphans`: the error, if any, and the states and the trace after it.
  unfoldable pub recover_orphans : List Str → States → Trace → Option GoError × (States × Trace)
  unfolding after_orphan
  recover_orphans [] states h = (none, (states, h))
  recover_orphans (id ∷ ids) states h =
      let (reply, w) = recover_orphan id (world_of states id h) in
      let now_states = set_status states id w.status in
      let rest = recover_orphans ids now_states w.trace in
      after_orphan reply rest (now_states, w.trace)

  -- How the loop goes on after a node: `none` goes on to the next one.
  unfoldable pub ending_of : Str → Reply Unit → Option Ending
  ending_of id (returned u) = none
  ending_of id (halted (Halt.failed e)) = some (halted_at id e)
  ending_of id (halted stopped) = some (stopped_for stop_signal)
  ending_of id (halted unsafe_retry) = some (stopped_for stop_unsafe_retry)
  ending_of id (halted no_fuel) = some exhausted

  -- At a node's boundary: `none` where the node is to be run.
  unfoldable pub ending_before : Reply (Option StopReason) → Option Node → Option Ending
  ending_before (returned (some r)) n = some (stopped_for r)
  ending_before (returned none) none = some (broken err_invalid_plan)
  ending_before (returned none) (some n) = none
  ending_before (halted h) n = some (broken (error_in h))

  -- The loop over the order. `go` is the rest of the loop, from the states and the trace.
  unfoldable pub run_found :
      ℕ → Str → Node → States → World → (States → Trace → RunResult) → RunResult
  run_found fuel id n states w go =
      let (reply, v) = run_node cfg ports run plan n fuel states w in
      let now_states = set_status states id v.status in
      elim (ending_of id reply) [
        | none ↦ go now_states v.trace
        | some e ↦ record { ending = e; states = now_states; trace = v.trace }
      ]

  unfoldable pub run_pending : ℕ → Str → States → Trace → (States → Trace → RunResult) → RunResult
  run_pending fuel id states h go =
      let (reply, w) = stop_requested (world_of states id h) in
      elim (ending_before reply (node_by_id plan id)) [
        | some e ↦ record { ending = e; states = states; trace = w.trace }
        | none ↦ elim (node_by_id plan id) [
          | none ↦ record { ending = completed; states = states; trace = w.trace }
          | some n ↦ run_found fuel id n states w go
        ]
      ]

  unfoldable pub run_nodes : ℕ → List Str → States → Trace → RunResult
  run_nodes fuel [] states h = record { ending = completed; states = states; trace = h }
  run_nodes fuel (id ∷ ids) states h =
      if is_complete (status_of states id).state
      then run_nodes fuel ids states h
      else run_pending fuel id states h (λ s t. run_nodes fuel ids s t)

  -- The closing audit event of `finish` and `stop`, whose failure is ignored.
  unfoldable pub closing_event : Ending → AuditEventType
  closing_event completed = run_finished
  closing_event (stopped_for r) = run_cancelled
  closing_event _ = run_failed

  -- `ev.NodeID = res.HaltedAt`.
  abbrev pub closing_node : Ending → Str
  closing_node (halted_at id e) = id
  closing_node _ = []

  unfoldable pub close_run : RunResult → RunResult
  close_run r = record r {
    trace =
        (audit ports run (closing_node r.ending) (closing_event r.ending)
          (world_of r.states [] r.trace)).1.trace;
  }

  -- What follows the recovery of the orphaned nodes.
  unfoldable pub after_recovery : ℕ → List Str → Option GoError × (States × Trace) → RunResult
  after_recovery fuel order (some e, (states, h)) =
      close_run (record { ending = broken e; states = states; trace = h })
  after_recovery fuel order (none, (states, h)) = close_run (run_nodes fuel order states h)

  unfoldable pub after_start : ℕ → List Str → States → Reply Unit × World → RunResult
  after_start fuel order states (halted x, w) = record {
    ending = broken (error_in x);
    states = states;
    trace = w.trace;
  }
  after_start fuel order states (returned u, w) =
      after_recovery fuel order (recover_orphans order states w.trace)

  -- From the loaded states on.
  unfoldable pub run_loaded : ℕ → List Str → States → Trace → RunResult
  run_loaded fuel order states h =
      after_start fuel order states (audit ports run [] run_started (world_of states [] h))

  abbrev not_started : GoError → RunResult
  not_started e = record { ending = broken e; states = []; trace = [] }

  -- The run of a plan whose digest was verified, from an empty trace.
  unfoldable pub run_plan : ℕ → RunResult
  run_plan fuel = elim (refuse (is_empty run) err_invalid_run ▷ validate_plan plan) [
    | some e ↦ not_started e
    | none ↦ elim (topological_order plan.nodes) [
      | err e ↦ not_started e
      | ok order ↦ elim preflight [
        | some e ↦ not_started e
        | none ↦ elim (ports.node_states []) [
          | err e ↦ record {
            ending = broken (wrap err_checkpoint_failed e);
            states = [];
            trace = queried ∷ [];
          }
          | ok records ↦ elim (load_states records order) [
            | err e ↦ record { ending = broken e; states = []; trace = queried ∷ [] }
            | ok states ↦ run_loaded fuel order states (queried ∷ [])
          ]
        ]
      ]
    ]
  ]
