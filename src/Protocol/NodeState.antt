-- ===== src/Protocol/NodeState.antt =====
-- engine/protocol/nodestate.go: the life of a node within a run, and the edges of diagram D7.
pub mod Diagram
use partitionctl.Base.{
  ◌≡◌, ◌↔◌, Bool, true, false, not, ◌&&◌, ◌||◌, List, [], ◌∷◌, arith, Str, str_eq, str_eq_iff,
  if◌then◌else◌,
}
use partitionctl.Protocol.Errors.{GoError, err_invalid_transition}
use mathlib.Core.Option.{Option, none, some}

-- The eight states; `other` is a stored string that names none of them.
pub data NodeState : Type 0 where
  pending ready running verifying done failed retry_wait skipped : NodeState
  other : Str → NodeState

-- Go's `==` on states.
unfoldable pub state_eq : NodeState → NodeState → Bool
state_eq pending pending = true
state_eq ready ready = true
state_eq running running = true
state_eq verifying verifying = true
state_eq done done = true
state_eq failed failed = true
state_eq retry_wait retry_wait = true
state_eq skipped skipped = true
state_eq (other s) (other t) = str_eq s t
state_eq _ _ = false

pub state_eq_iff : (a b : NodeState) → (state_eq a b ≡ true) ↔ (a ≡ b)
unfolding state_eq
state_eq_iff (other s) (other t) = ground (arith, str_eq_iff s t)
state_eq_iff a b = ground arith

abbrev pub all_node_states : List NodeState
all_node_states = pending ∷ ready ∷ running ∷ verifying ∷ done ∷ failed ∷ retry_wait ∷ skipped ∷ []

abbrev pub initial_node_state : NodeState
initial_node_state = pending

unfoldable pub is_valid : NodeState → Bool
is_valid (other s) = false
is_valid _ = true

unfoldable pub is_terminal : NodeState → Bool
is_terminal done = true
is_terminal failed = true
is_terminal skipped = true
is_terminal _ = false

unfoldable pub is_complete : NodeState → Bool
is_complete done = true
is_complete skipped = true
is_complete _ = false

pub data TransitionReason : Type 0 where
  normal orphan_recovery resume_retry : TransitionReason
  other : Str → TransitionReason

unfoldable pub is_valid_reason : TransitionReason → Bool
is_valid_reason (TransitionReason.other s) = false
is_valid_reason _ = true

unfoldable pub is_orphan_recovery : TransitionReason → Bool
is_orphan_recovery orphan_recovery = true
is_orphan_recovery _ = false

is_resume_retry : TransitionReason → Bool
is_resume_retry resume_retry = true
is_resume_retry _ = false

-- The map `nodeTransitions`; an absent key reads `false`.
node_transitions : NodeState → NodeState → Bool
node_transitions pending ready = true
node_transitions pending skipped = true
node_transitions ready running = true
node_transitions running verifying = true
node_transitions running failed = true
node_transitions running retry_wait = true
node_transitions verifying done = true
node_transitions verifying failed = true
node_transitions retry_wait ready = true
node_transitions retry_wait failed = true
node_transitions _ _ = false

unfoldable pub valid_transition : NodeState → NodeState → TransitionReason → Bool
unfolding state_eq is_valid is_valid_reason is_orphan_recovery is_resume_retry node_transitions
valid_transition from to reason =
    if not (is_valid from) || not (is_valid to) || not (is_valid_reason reason)
    then false
    else if state_eq from running && state_eq to pending
    then is_orphan_recovery reason
    else if state_eq from failed && state_eq to pending
    then is_resume_retry reason
    else if is_orphan_recovery reason || is_resume_retry reason
    then false
    else node_transitions from to

-- `none` is `nil`. The three messages of a refusal are one error kind.
unfoldable pub check_transition : NodeState → NodeState → TransitionReason → Option GoError
unfolding valid_transition
check_transition from to reason =
    if valid_transition from to reason then none else some err_invalid_transition

-- The loop of `NextStates` over the states in their order.
keep_valid : NodeState → TransitionReason → List NodeState → List NodeState
keep_valid s reason [] = []
keep_valid s reason (to ∷ rest) =
    let others = keep_valid s reason rest in
    if valid_transition s to reason then to ∷ others else others

unfoldable pub next_states : NodeState → TransitionReason → List NodeState
unfolding keep_valid
next_states s reason = keep_valid s reason all_node_states
