-- ===== src/Executor/Attempt.antt =====
-- `runNode` of engine/executor/executor.go: one node from its recorded state to a terminal one, or
-- to the reason why the run halts. The loop is on fuel; `attempts_this_run` bounds its rounds.
use partitionctl.Base.{
  ℕ, zero, suc, ◌+◌, Bool, true, false, not, ◌&&◌, ◌||◌, List, [], ◌∷◌, Str, str_eq, ◌==◌, leb,
  none, some, Option, if◌then◌else◌,
}
use partitionctl.Protocol.Errors.{
  GoError, typed, wrapped, foreign, err_node_previously_failed, err_dependency_not_complete,
  err_invalid_run, err_failure, error_for_exit_code, wrap,
}
use partitionctl.Protocol.NodeKind.{is_destructive, is_retryable, is_retry_safe}
use partitionctl.Protocol.NodeState.{
  NodeState, pending, ready, running, verifying, done, failed, retry_wait, is_complete, normal,
}
use partitionctl.Protocol.ObjectName.{new_object_name}
use partitionctl.Protocol.Authorization.{AuthorizationMode}
use partitionctl.Protocol.Node.{Node}
use partitionctl.Protocol.Plan.{Plan}
use partitionctl.Executor.Classify.{Classification, classify, is_retryable_class}
use partitionctl.Executor.Port.{Config, Ports, node_failed, slept}
use partitionctl.Executor.Machine.{
  World, NodeStatus, Act, Halt, stopped, unsafe_retry, no_fuel, ◌>>=◌, ◌>>◌, done_with, halt, fail,
  best_effort, attempt, audit, transition, note,
}
use partitionctl.Executor.Authorize.{AuthorizationDecision, undecided}
use partitionctl.Executor.Dispatch.{authorize_node, dispatch, verify}

-- `states`: the executor's view of every node of the run.
abbrev pub States : Type 0
States = List (Str × NodeStatus)

unfoldable pub find_status : States → Str → Option NodeStatus
find_status [] id = none
find_status ((i, s) ∷ rest) id =
    let others = find_status rest id in if str_eq i id then some s else others

abbrev pub is_complete_status : Option NodeStatus → Bool
is_complete_status none = false
is_complete_status (some s) = is_complete s.state

-- Every dependency is complete.
unfoldable pub dependencies_complete : States → List Str → Bool
dependencies_complete states [] = true
dependencies_complete states (d ∷ deps) =
    is_complete_status (find_status states d) && dependencies_complete states deps

-- `nodeError`: a typed cause keeps its own kind and code.
unfoldable pub node_error : Classification → GoError → GoError
node_error c (typed k e) = typed k e
node_error c (wrapped k e cause) = wrapped k e cause
node_error c (foreign f) =
    wrap (if c.exit_code == 0 then err_failure else error_for_exit_code c.exit_code) (foreign f)

abbrev pub count_attempt : World → World
count_attempt w = record w {
  status = record w.status {
    attempts = w.status.attempts + 1;
    attempts_this_run = w.status.attempts_this_run + 1;
  };
}

module _ (cfg : Config) (ports : Ports) (run : Str) (plan : Plan) (n : Node) where
  -- A failure that ends the node: the state FAILED, an audit event, and the error.
  unfoldable pub fail_node : GoError → Act Unit
  fail_node e =
      transition ports run n failed normal (some e)
      >> (best_effort (audit ports run n.id node_failed) >> fail (node_error (classify e) e))

  unfoldable pub close_node : Option Halt → Act Unit
  unfolding fail_node
  close_node none = transition ports run n done normal none
  close_node (some (Halt.failed e)) = fail_node e
  close_node (some h) = halt h

  unfoldable pub verify_phase : Act Unit
  unfolding close_node
  verify_phase = attempt (verify cfg ports run plan n) >>= close_node

  -- The back-off before the next attempt; a sleep that is interrupted stops the run.
  unfoldable pub after_sleep : Option GoError → Act Unit
  after_sleep none = done_with tt
  after_sleep (some e) = halt stopped

  unfoldable pub back_off : Act Unit
  unfolding after_sleep
  back_off w =
      let d = ports.delay w.trace (w.status.attempts_this_run + 1) in
      let e = ports.interrupted_sleep w.trace d in after_sleep e (note (slept d e) w)

  -- What follows a dispatch that failed. It returns where the node is to be tried again.
  unfoldable pub after_failure : GoError → Act Unit
  unfolding fail_node back_off
  after_failure e =
      if not (is_retryable_class (classify e).class) || not (is_retryable n.kind)
      then fail_node e
      else transition ports run n retry_wait normal (some e)
        >> (if not (is_retry_safe n.kind)
            then best_effort (audit ports run n.id node_failed) >> halt unsafe_retry
            else λ w.
                (if leb cfg.retry.max_attempts w.status.attempts_this_run
                    then fail_node e
                    else back_off >> transition ports run n ready normal none)
                  w)

  -- A destructive node is authorized again before each of its statements.
  unfoldable pub decision_for : Act AuthorizationDecision
  decision_for =
      if is_destructive n.kind
      then authorize_node cfg ports run plan n
      else done_with (undecided cfg ports run (new_object_name [] []) (AuthorizationMode.other []))

  -- What follows a dispatch, of which `none` is the success; `again` is the next round.
  unfoldable pub after_dispatch : Act Unit → Option Halt → Act Unit
  after_dispatch again none = transition ports run n verifying normal none >> verify_phase
  after_dispatch again (some (Halt.failed e)) = after_failure e >> again
  after_dispatch again (some h) = halt h

  -- One round of the loop, after the attempt was counted.
  unfoldable pub round : Act Unit → Act Unit
  round again = decision_for >>= λ d.
      transition ports run n running normal none
      >> (attempt (dispatch cfg ports run plan n d) >>= after_dispatch again)

  unfoldable pub rounds : ℕ → Act Unit
  rounds zero = halt no_fuel
  rounds (suc fuel) = λ w. round (rounds fuel) (count_attempt w)

  -- How the loop is entered from a recorded state.
  unfoldable pub enter : ℕ → NodeState → Act Unit
  enter fuel pending = transition ports run n ready normal none >> rounds fuel
  enter fuel retry_wait = transition ports run n ready normal none >> rounds fuel
  enter fuel ready = rounds fuel
  enter fuel verifying = verify_phase
  enter fuel _ = fail err_invalid_run

  abbrev pub is_failed : NodeState → Bool
  is_failed failed = true
  is_failed _ = false

  unfoldable pub run_node : ℕ → States → Act Unit
  run_node fuel states w =
      (if is_failed w.status.state
          then fail err_node_previously_failed
          else if not (dependencies_complete states n.depends_on)
          then fail err_dependency_not_complete
          else enter fuel w.status.state)
        w
