-- ===== src/Executor/Fuel/Rounds.antt =====
-- `max_attempts` rounds are enough for the loop of `runNode`.
use partitionctl.Base.{
  ℕ, zero, suc, ◌+◌, ◌≤◌, ◌<◌, ◌≡◌, ◌≢◌, ◌∙◌, not, ◌||◌, Str, none, some, Option, leb, arith,
  Bool-cases, inl, inr,
}
use mathlib.Core.Path.{subst}
use partitionctl.Protocol.Errors.{GoError}
use partitionctl.Protocol.NodeKind.{is_destructive, is_retryable, is_retry_safe}
use partitionctl.Protocol.NodeState.{
  NodeState, pending, ready, running, verifying, done, failed, retry_wait, normal,
}
use partitionctl.Protocol.Node.{Node}
use partitionctl.Protocol.Plan.{Plan}
use partitionctl.Executor.Classify.{classify, is_retryable_class}
use partitionctl.Executor.Port.{Config, Ports, node_failed, slept}
use partitionctl.Executor.Machine.{
  World, Act, Reply, returned, halted, Halt, unsafe_retry, no_fuel, continue, note, transition,
  attempt,
}
use partitionctl.Executor.Dispatch.{dispatch}
use partitionctl.Executor.Attempt.{
  States, dependencies_complete, count_attempt, fail_node, close_node, verify_phase, after_sleep,
  back_off, after_failure, decision_for, after_dispatch, round, rounds, enter, is_failed, run_node,
}
use partitionctl.Executor.Fuel.{
  Bounded, Any, HasFuel, Within, Bounded-bind, Bounded-then, Bounded-if, fail-Bounded, halt-Bounded,
  done_with-Bounded, best_effort-Bounded, attempt-Bounded, audit-Bounded, transition-Bounded,
}
use partitionctl.Executor.Fuel.Steps.{authorize_node-Bounded, dispatch-Bounded, verify-Bounded}

-- The action has not run out of fuel.
abbrev pub NotOut : {A : Type 0} → Reply A × World → Type 0
NotOut (returned a, w) = Unit
NotOut (halted h, w) = h ≢ no_fuel

Within-NotOut :
    {A : Type 0} (Q : ℕ → A → Type 0) (k : ℕ) (r : Reply A × World) → Within Q k r → NotOut r
Within-NotOut Q k (returned a, w) h = tt
Within-NotOut Q k (halted x, w) h = h.1

continue-NotOut :
    {A B : Type 0} (R : ℕ → A → Type 0) (f : A → Act B) (k : ℕ) (r : Reply A × World)
    → Within R k r
    → ((a : A) (v : World) → v.status.attempts_this_run ≡ k → R k a → NotOut (f a v))
    → NotOut (continue r f)
continue-NotOut R f k (returned a, w) h c = c a w h.0 h.1
continue-NotOut R f k (halted x, w) h c = h.1

known-Within :
    {A : Type 0} (P : ℕ → Type 0) (k : ℕ) (r : Reply A × World)
    → Within Any k r
    → P k
    → Within (λ j a. P j) k r
known-Within P k (returned a, w) h p = (h.0, p)
known-Within P k (halted x, w) h p = h

module _ (cfg : Config) (ports : Ports) (run : Str) (plan : Plan) (n : Node) where
  fail_node-Bounded :
      {Q : ℕ → Unit {0} → Type 0} (e : GoError) → Bounded Q (fail_node cfg ports run plan n e)
  unfolding fail_node
  fail_node-Bounded e = Bounded-then (transition-Bounded ports run n failed normal (some e)) (
      Bounded-then (best_effort-Bounded (audit-Bounded ports run n.id node_failed))
        (fail-Bounded _))

  close_node-Bounded :
      (r : Option Halt) (k : ℕ) → HasFuel k r → Bounded Any (close_node cfg ports run plan n r)
  unfolding close_node
  close_node-Bounded none k h = transition-Bounded ports run n done normal none
  close_node-Bounded (some (Halt.failed e)) k h = fail_node-Bounded e
  close_node-Bounded (some x) k h = halt-Bounded h

  verify_phase-Bounded : Bounded Any (verify_phase cfg ports run plan n)
  unfolding verify_phase
  verify_phase-Bounded =
      Bounded-bind (attempt-Bounded (verify-Bounded cfg ports run plan n)) close_node-Bounded

  after_sleep-Bounded : (e : Option GoError) → Bounded Any (after_sleep cfg ports run plan n e)
  unfolding after_sleep
  after_sleep-Bounded none = done_with-Bounded tt
  after_sleep-Bounded (some e) = halt-Bounded (λ p. cc p)

  back_off-Bounded : Bounded Any (back_off cfg ports run plan n)
  unfolding back_off
  back_off-Bounded = record { ends = λ w. (after_sleep-Bounded _).ends (note (slept _ _) w) }

  -- The node is tried again only below the bound.
  abbrev IsBelow : ℕ → Type 0
  IsBelow k = k < cfg.retry.max_attempts

  after_failure-Bounded :
      (e : GoError) → Bounded (λ k u. IsBelow k) (after_failure cfg ports run plan n e)
  unfolding after_failure
  after_failure-Bounded e =
      Bounded-if (not (is_retryable_class (classify e).class) || not (is_retryable n.kind))
        (fail_node-Bounded e)
        (Bounded-then (transition-Bounded ports run n retry_wait normal (some e)) (
          Bounded-if (not (is_retry_safe n.kind))
            (Bounded-then (best_effort-Bounded (audit-Bounded ports run n.id node_failed))
              (halt-Bounded {h = unsafe_retry} (λ p. cc p)))
            (record {
              ends = λ w.
                  elim (Bool-cases (leb cfg.retry.max_attempts w.status.attempts_this_run)) [
                    | inl at_bound ↦
                        rw at_bound ((fail_node-Bounded {Q = λ k u. IsBelow k} e).ends w)
                    | inr below ↦ rw below (
                        known-Within IsBelow _ _
                          ((Bounded-then {Q = Any} back_off-Bounded
                              (transition-Bounded ports run n ready normal none)).ends
                            w)
                          (ground arith))
                  ];
            })))

  decision_for-Bounded : Bounded Any (decision_for cfg ports run plan n)
  unfolding decision_for
  decision_for-Bounded =
      Bounded-if (is_destructive n.kind) (authorize_node-Bounded cfg ports run plan n)
        (done_with-Bounded _)

  -- What the next round is known to do.
  abbrev GoesOn : ℕ → Act Unit → Type 0
  GoesOn k again = (v : World) → v.status.attempts_this_run ≡ k → IsBelow k → NotOut (again v)

  after_dispatch-NotOut :
      (again : Act Unit) (r : Option Halt) (k : ℕ) (v : World)
      → GoesOn k again
      → v.status.attempts_this_run ≡ k
      → HasFuel k r
      → NotOut (after_dispatch cfg ports run plan n again r v)
  unfolding after_dispatch
  after_dispatch-NotOut again none k v g e h = Within-NotOut Any _ _ (
      (Bounded-then {Q = Any} (transition-Bounded ports run n verifying normal none)
          verify_phase-Bounded).ends
        v)
  after_dispatch-NotOut again (some (Halt.failed x)) k v g e h =
      continue-NotOut (λ j u. IsBelow j) (λ u. again) v.status.attempts_this_run _
        ((after_failure-Bounded x).ends v)
        (λ u w same below. g w (same ∙ e) (subst IsBelow e below))
  after_dispatch-NotOut again (some x) k v g e h = h

  round-NotOut :
      (again : Act Unit) (v : World)
      → GoesOn v.status.attempts_this_run again
      → NotOut (round cfg ports run plan n again v)
  unfolding round
  round-NotOut again v g =
      continue-NotOut Any _ v.status.attempts_this_run _ (decision_for-Bounded.ends v) (λ d u e x.
        continue-NotOut Any _ v.status.attempts_this_run _
          (subst (λ j. Within Any j (transition ports run n running normal none u)) e
            ((transition-Bounded ports run n running normal none).ends u))
          (λ y t f z.
            continue-NotOut HasFuel _ v.status.attempts_this_run _
              (subst (λ j. Within HasFuel j (attempt (dispatch cfg ports run plan n d) t)) f
                ((attempt-Bounded (dispatch-Bounded cfg ports run plan n d)).ends t))
              (λ r s q h. after_dispatch-NotOut again r v.status.attempts_this_run s g q h)))

  rounds-NotOut :
      (fuel : ℕ) (w : World)
      → cfg.retry.max_attempts ≤ w.status.attempts_this_run + fuel
      → 0 < fuel
      → NotOut (rounds cfg ports run plan n fuel w)
  unfolding rounds
  rounds-NotOut zero w h p = absurd (omega arith)
  rounds-NotOut (suc fuel) w h p =
      round-NotOut (rounds cfg ports run plan n fuel) (count_attempt w)
        (λ v e b. rounds-NotOut fuel v (omega arith) (omega arith))

  ready_rounds-NotOut :
      (fuel : ℕ) (w : World)
      → w.status.attempts_this_run ≡ 0
      → cfg.retry.max_attempts ≤ fuel
      → 0 < fuel
      → NotOut (
          continue
            (transition ports run n ready normal none w)
            (λ u. rounds cfg ports run plan n fuel))
  ready_rounds-NotOut fuel w z h p =
      continue-NotOut Any (λ u. rounds cfg ports run plan n fuel) w.status.attempts_this_run _
        ((transition-Bounded ports run n ready normal none).ends w)
        (λ u v e x. rounds-NotOut fuel v (omega arith) p)

  enter-NotOut :
      (fuel : ℕ) (s : NodeState) (w : World)
      → w.status.attempts_this_run ≡ 0
      → cfg.retry.max_attempts ≤ fuel
      → 0 < fuel
      → NotOut (enter cfg ports run plan n fuel s w)
  unfolding enter
  enter-NotOut fuel pending w z h p = ready_rounds-NotOut fuel w z h p
  enter-NotOut fuel retry_wait w z h p = ready_rounds-NotOut fuel w z h p
  enter-NotOut fuel ready w z h p = rounds-NotOut fuel w (omega arith) p
  enter-NotOut fuel verifying w z h p = Within-NotOut Any _ _ (verify_phase-Bounded.ends w)
  enter-NotOut fuel _ w z h p = λ q. cc q

  -- Of a node that was not yet tried in this run, `runNode` does not run out of fuel where the fuel
  -- is positive and not below `max_attempts`: the loop ends by a return or by one of the code's own
  -- halts, whatever the ports answer.
  pub run_node-NotOut :
      (fuel : ℕ) (states : States) (w : World)
      → w.status.attempts_this_run ≡ 0
      → cfg.retry.max_attempts ≤ fuel
      → 0 < fuel
      → NotOut (run_node cfg ports run plan n fuel states w)
  unfolding run_node
  run_node-NotOut fuel states w z h p =
      elim (Bool-cases (is_failed cfg ports run plan n w.status.state)) [
        | inl yes_failed ↦ rw yes_failed (λ q. cc q)
        | inr not_failed ↦ elim (Bool-cases (dependencies_complete states n.depends_on)) [
          | inl yes_complete ↦
              rw (not_failed, yes_complete) (enter-NotOut fuel w.status.state w z h p)
          | inr not_complete ↦ rw (not_failed, not_complete) (λ q. cc q)
        ]
      ]
