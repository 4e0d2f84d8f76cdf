-- ===== src/Executor/Safety/Nodes.antt =====
-- `runNode` keeps the trace safe, and a node that it returns from is DONE.
use partitionctl.Base.{ℕ, zero, suc, ◌≡◌, not, ◌||◌, Str, none, some, Option, leb}
use partitionctl.Protocol.Errors.{
  GoError, err_node_previously_failed, err_dependency_not_complete, err_invalid_run,
}
use partitionctl.Protocol.NodeKind.{is_destructive, is_retryable, is_retry_safe}
use partitionctl.Protocol.NodeState.{
  NodeState, pending, ready, verifying, done, failed, retry_wait, normal,
}
use partitionctl.Protocol.Node.{Node}
use partitionctl.Protocol.Plan.{Plan, node_by_id}
use partitionctl.Executor.Classify.{classify, is_retryable_class}
use partitionctl.Executor.Port.{Config, Ports, node_failed, slept}
use partitionctl.Executor.Machine.{
  World, Act, Halt, unsafe_retry, no_fuel, stopped, attempt, best_effort, audit, transition, note,
}
use partitionctl.Executor.Hoare.{
  Runs, Keeps, Runs-bind, Runs-then, Runs-if, Runs-weaken, Runs-at, done_with-Keeps, halt-Runs,
  best_effort-Keeps, attempt-Keeps,
}
use partitionctl.Executor.Authorize.{AuthorizationDecision}
use partitionctl.Executor.Dispatch.{dispatch}
use partitionctl.Executor.Attempt.{
  States, dependencies_complete, node_error, count_attempt, fail_node, close_node, verify_phase,
  after_sleep, back_off, after_failure, decision_for, after_dispatch, round, rounds, enter,
  is_failed, run_node,
}
use partitionctl.Executor.Safety.Actions.{audit-Keeps, Inv, Inv-Stable, Cleared, Armed}
use partitionctl.Executor.Safety.Checkpoints.{transition-Runs, transition-Armed}
use partitionctl.Executor.Safety.Dispatching.{verify-Keeps, authorize_node-Runs, dispatch-Keeps}

module _ (cfg : Config) (ports : Ports) (run : Str) (plan : Plan) (before : Str → NodeState)
    (n : Node) (after : Str → NodeState) where
  abbrev I : World → Type 0
  I = Inv ports run plan before n after

  -- What `runNode` returns with: the invariant, and the node is DONE.
  abbrev Closed : Unit {0} → World → Type 0
  Closed u w = I w × (w.status.state ≡ done)

  to_state : (s : NodeState) (e : Option GoError) → Keeps I (transition ports run n s normal e)
  to_state s e =
      Runs-weaken (transition-Runs ports run plan before n after s normal e) (λ w p. p)
        (λ u w p. p.0) (λ w p. p)

  audited-Keeps : Keeps I (best_effort (audit ports run n.id node_failed))
  audited-Keeps =
      best_effort-Keeps I
        (audit-Keeps ports run (Inv-Stable ports run plan before n after) n.id node_failed)

  fail_node-Runs :
      {Q : Unit {0} → World → Type 0} (e : GoError) → Runs I Q I (fail_node cfg ports run plan n e)
  unfolding fail_node
  fail_node-Runs e =
      Runs-then (to_state failed (some e))
        (λ u. Runs-then audited-Keeps (λ v. halt-Runs (Halt.failed (node_error (classify e) e))))

  close_node-Runs : (r : Option Halt) → Runs I Closed I (close_node cfg ports run plan n r)
  unfolding close_node
  close_node-Runs none = transition-Runs ports run plan before n after done normal none
  close_node-Runs (some (Halt.failed e)) = fail_node-Runs e
  close_node-Runs (some h) = halt-Runs h

  verify_phase-Runs : Runs I Closed I (verify_phase cfg ports run plan n)
  unfolding verify_phase
  verify_phase-Runs =
      Runs-bind (attempt-Keeps I (verify-Keeps cfg ports run plan before n after)) close_node-Runs

  after_sleep-Keeps : (e : Option GoError) → Keeps I (after_sleep cfg ports run plan n e)
  unfolding after_sleep
  after_sleep-Keeps none = done_with-Keeps I tt
  after_sleep-Keeps (some e) = halt-Runs stopped

  back_off-Keeps : Keeps I (back_off cfg ports run plan n)
  unfolding back_off
  back_off-Keeps = record {
    ends = λ w p.
        (after_sleep-Keeps _).ends (note (slept _ _) w)
          ((Inv-Stable ports run plan before n after).on_sleep w _ _ p);
  }

  after_failure-Keeps : (e : GoError) → Keeps I (after_failure cfg ports run plan n e)
  unfolding after_failure
  after_failure-Keeps e =
      Runs-if (not (is_retryable_class (classify e).class) || not (is_retryable n.kind))
        (λ f. fail_node-Runs e)
        (λ f. Runs-then (to_state retry_wait (some e)) (λ u.
          Runs-if (not (is_retry_safe n.kind))
            (λ g. Runs-then audited-Keeps (λ v. halt-Runs unsafe_retry))
            (λ g. Runs-at (λ w.
              Runs-if (leb cfg.retry.max_attempts w.status.attempts_this_run)
                (λ h. fail_node-Runs e)
                (λ h. Runs-then back_off-Keeps (λ v. to_state ready none))))))

  -- A destructive node is cleared by its authorization, any other node needs none.
  decision_for-Runs :
      Runs I (λ d. Cleared ports run plan before n after) I (decision_for cfg ports run plan n)
  unfolding decision_for
  decision_for-Runs =
      Runs-if (is_destructive n.kind) (λ e. authorize_node-Runs cfg ports run plan before n after)
        (λ e. record { ends = λ w p. record { inv = p; permitted = λ d. cc (e, d) } })

  after_dispatch-Runs :
      (again : Act Unit) (r : Option Halt)
      → Runs I Closed I again
      → Runs I Closed I (after_dispatch cfg ports run plan n again r)
  unfolding after_dispatch
  after_dispatch-Runs again none k = Runs-then (to_state verifying none) (λ u. verify_phase-Runs)
  after_dispatch-Runs again (some (Halt.failed e)) k = Runs-then (after_failure-Keeps e) (λ u. k)
  after_dispatch-Runs again (some h) k = halt-Runs h

  count_attempt-Inv : (w : World) → I w → I (count_attempt w)
  count_attempt-Inv w p = record { safe = p.safe; view = p.view; others = p.others }

  module _ (known : node_by_id plan n.id ≡ some n) where
    -- The statements are sent under the armed node; the rest needs the invariant only.
    dispatched-Runs :
        (d : AuthorizationDecision)
        → Runs
            (Armed ports run plan before n after)
            (λ r. I)
            I
            (attempt (dispatch cfg ports run plan n d))
    dispatched-Runs d =
        Runs-weaken
          (attempt-Keeps (Armed ports run plan before n after)
            (dispatch-Keeps cfg ports run plan before n after known d))
          (λ w p. p) (λ r w p. p.cleared.inv) (λ w p. p.cleared.inv)

    round-Runs :
        (again : Act Unit)
        → Runs I Closed I again
        → Runs I Closed I (round cfg ports run plan n again)
    unfolding round
    round-Runs again k = Runs-bind decision_for-Runs (λ d.
        Runs-then (transition-Armed ports run plan before n after)
          (λ u. Runs-bind (dispatched-Runs d) (λ r. after_dispatch-Runs again r k)))

    rounds-Runs : (fuel : ℕ) → Runs I Closed I (rounds cfg ports run plan n fuel)
    unfolding rounds
    rounds-Runs zero = halt-Runs no_fuel
    rounds-Runs (suc fuel) = record {
      ends = λ w p.
          (round-Runs (rounds cfg ports run plan n fuel) (rounds-Runs fuel)).ends (count_attempt w)
            (count_attempt-Inv w p);
    }

    enter-Runs : (fuel : ℕ) (s : NodeState) → Runs I Closed I (enter cfg ports run plan n fuel s)
    unfolding enter
    enter-Runs fuel pending = Runs-then (to_state ready none) (λ u. rounds-Runs fuel)
    enter-Runs fuel retry_wait = Runs-then (to_state ready none) (λ u. rounds-Runs fuel)
    enter-Runs fuel ready = rounds-Runs fuel
    enter-Runs fuel verifying = verify_phase-Runs
    enter-Runs fuel _ = halt-Runs (Halt.failed err_invalid_run)

    -- From a safe trace `runNode` makes a safe trace: each of its checkpoints is an edge of D7 from
    -- the state that was recorded last, each of its statements is sent while the node is recorded as
    -- RUNNING, and those of a destructive node after the authorization to destroy that object was
    -- recorded. It changes the state of no other node, and where it returns the node is DONE.
    pub run_node-Runs :
        (fuel : ℕ) (states : States)
        → Runs
            (Inv ports run plan before n after)
            (λ u w. Inv ports run plan before n after w × (w.status.state ≡ done))
            (Inv ports run plan before n after)
            (run_node cfg ports run plan n fuel states)
    unfolding run_node
    run_node-Runs fuel states = Runs-at (λ w.
        Runs-if (is_failed cfg ports run plan n w.status.state)
          (λ e. halt-Runs (Halt.failed err_node_previously_failed))
          (λ e.
            Runs-if (not (dependencies_complete states n.depends_on))
              (λ f. halt-Runs (Halt.failed err_dependency_not_complete))
              (λ f. enter-Runs fuel w.status.state)))
