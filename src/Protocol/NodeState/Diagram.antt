-- ===== src/Protocol/NodeState/Diagram.antt =====
-- Diagram D7 as a relation, apart from the code's table, and what the code's tests say of it.
use partitionctl.Base.{
  ◌≡◌, refl, ◌↔◌, Bool, true, false, ◌&&◌, ◌||◌, List, [], ◌∷◌, arith, Bool-cases, inl, inr, ap,
}
use partitionctl.Protocol.NodeState.{
  NodeState, pending, ready, running, verifying, done, failed, retry_wait, skipped, state_eq,
  state_eq_iff, all_node_states, is_terminal, TransitionReason, normal, orphan_recovery,
  resume_retry, valid_transition, keep_valid, next_states,
}

-- The edges of the diagram, each under the one reason that authorizes it.
pub data Edge : NodeState → NodeState → TransitionReason → Type 0 where
  dependencies_satisfied : Edge pending ready normal
  already_complete : Edge pending skipped normal
  dispatched : Edge ready running normal
  returned : Edge running verifying normal
  terminal_error : Edge running failed normal
  retryable_error : Edge running retry_wait normal
  assertions_pass : Edge verifying done normal
  assertions_fail : Edge verifying failed normal
  backoff_elapsed : Edge retry_wait ready normal
  attempts_exhausted : Edge retry_wait failed normal
  recover : Edge running pending orphan_recovery
  retry : Edge failed pending resume_retry

pub ruleset edges = (
  dependencies_satisfied, already_complete, dispatched, returned, terminal_error, retryable_error,
  assertions_pass, assertions_fail, backoff_elapsed, attempts_exhausted, recover, retry,
)

Edge-sound : (a b : NodeState) (r : TransitionReason) → valid_transition a b r ≡ true → Edge a b r
unfolding valid_transition
Edge-sound a b r h = grind (arith, edges)

Edge-complete :
    {a b : NodeState} {r : TransitionReason} → Edge a b r → valid_transition a b r ≡ true
unfolding valid_transition
Edge-complete dependencies_satisfied = refl
Edge-complete _ = refl

-- `ValidTransition` permits exactly the edges of D7, each under its own reason: the ten ordinary
-- edges under `normal`, RUNNING → PENDING under orphan recovery and FAILED → PENDING under resume.
pub valid_transition_iff_Edge :
    (a b : NodeState) (r : TransitionReason) → (valid_transition a b r ≡ true) ↔ Edge a b r
valid_transition_iff_Edge a b r = (Edge-sound a b r, Edge-complete)

-- Go's `slices.Contains` on a list of states.
abbrev pub contains : List NodeState → NodeState → Bool
contains [] s = false
contains (t ∷ rest) s = state_eq t s || contains rest s

contains-keep_valid :
    (s to : NodeState) (r : TransitionReason) (l : List NodeState)
    → contains (keep_valid s r l) to ≡ contains l to && valid_transition s to r
unfolding keep_valid
contains-keep_valid s to r [] = refl
contains-keep_valid s to r (t ∷ l) = elim (Bool-cases (state_eq t to)) [
  | inl same ↦
      let e : t ≡ to = (state_eq_iff t to).0 same in
      ground (arith, contains-keep_valid s to r l, e, ap (λ x. valid_transition s x r) e)
  | inr diff ↦ ground (arith, contains-keep_valid s to r l)
]

contains-all :
    (s to : NodeState) (r : TransitionReason)
    → valid_transition s to r ≡ true
    → contains all_node_states to ≡ true
unfolding valid_transition state_eq
contains-all s to r h = ground arith

-- `NextStates` lists a state exactly where `ValidTransition` permits the transition to it.
pub contains-next_states :
    (s to : NodeState) (r : TransitionReason)
    → contains (next_states s r) to ≡ valid_transition s to r
unfolding next_states
contains-next_states s to r =
    ground (arith, contains-keep_valid s to r all_node_states, contains-all s to r)

-- A history of ordinary transitions.
pub data History (s : NodeState) : NodeState → Type 0 where
  here : History s s
  next : {t u : NodeState} → History s t → valid_transition t u normal ≡ true → History s u

terminal_step : (s t : NodeState) → is_terminal s ≡ true → valid_transition s t normal ≡ false
unfolding valid_transition is_terminal
terminal_step s t h = ground arith

pending_step : (s : NodeState) → valid_transition s pending normal ≡ false
unfolding valid_transition
pending_step s = ground arith

-- Along ordinary transitions a terminal state is final: the history that starts in it ends in it.
pub History_of_terminal : {s t : NodeState} → is_terminal s ≡ true → History s t → t ≡ s
History_of_terminal h here = refl
History_of_terminal {s} h (next {t} {u} p v) =
    let e = History_of_terminal h p in absurd (cc (terminal_step t u (rw e h), v))

-- Ordinary transitions never return to PENDING: a history that ends there has not moved.
pub History-pending : {s t : NodeState} → History s t → t ≡ pending → s ≡ pending
History-pending here e = e
History-pending (next {t} p v) e = absurd (cc (pending_step t, (rw e at v)))
