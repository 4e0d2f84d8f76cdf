-- ===== src/State/Run.antt =====
-- engine/state/run.go: the statuses of a run and their machine, the record of a run, and the check
-- of a request for a new one. An instant is a number of nanoseconds since Go's zero time, which is
-- 0, so `t.IsZero()` is `t == 0`.
pub mod Machine
pub mod Query
use partitionctl.Base.{
  ℕ, Bool, true, false, not, ◌||◌, List, [], ◌∷◌, Str, codes, str_eq, is_empty, has_str, none, some,
  Option, if◌then◌else◌, ◌▷◌, refuse, ◌≡◌, ◌↔◌, arith, str_eq_iff,
}
use partitionctl.Protocol.Errors.{
  GoError, err_invalid_transition, err_invalid_plan, err_digest_mismatch, err_unknown_node_kind,
}
use partitionctl.Protocol.NodeKind.{is_valid}
use partitionctl.Protocol.Params.Definition.{no_elements}
use partitionctl.Protocol.Node.{Node, as_invalid_plan}
use partitionctl.Protocol.Plan.{
  Plan, Operation, is_valid_operation, Target, validate_target, has_prefix, fingerprint_prefix,
}

-- The six statuses; `other` is a stored string that names none of them.
pub data RunStatus : Type 0 where
  run_running run_completed run_failed run_orphaned run_interrupted run_cancelled : RunStatus
  other : Str → RunStatus

-- Go's `==` on statuses.
unfoldable pub status_eq : RunStatus → RunStatus → Bool
status_eq run_running run_running = true
status_eq run_completed run_completed = true
status_eq run_failed run_failed = true
status_eq run_orphaned run_orphaned = true
status_eq run_interrupted run_interrupted = true
status_eq run_cancelled run_cancelled = true
status_eq (RunStatus.other s) (RunStatus.other t) = str_eq s t
status_eq _ _ = false

pub status_eq_iff : (a b : RunStatus) → (status_eq a b ≡ true) ↔ (a ≡ b)
unfolding status_eq
status_eq_iff (RunStatus.other s) (RunStatus.other t) = ground (arith, str_eq_iff s t)
status_eq_iff a b = ground arith

unfoldable pub is_valid_status : RunStatus → Bool
is_valid_status (RunStatus.other s) = false
is_valid_status _ = true

unfoldable pub is_terminal_status : RunStatus → Bool
is_terminal_status run_completed = true
is_terminal_status run_cancelled = true
is_terminal_status _ = false

unfoldable pub is_resumable : RunStatus → Bool
is_resumable run_failed = true
is_resumable run_orphaned = true
is_resumable run_interrupted = true
is_resumable _ = false

unfoldable pub is_incomplete : RunStatus → Bool
is_incomplete run_running = true
is_incomplete run_failed = true
is_incomplete run_orphaned = true
is_incomplete run_interrupted = true
is_incomplete _ = false

-- The map `runTransitions`; an absent key reads `false`.
run_transitions : RunStatus → RunStatus → Bool
run_transitions run_running run_completed = true
run_transitions run_running run_failed = true
run_transitions run_running run_orphaned = true
run_transitions run_running run_interrupted = true
run_transitions run_running run_cancelled = true
run_transitions run_orphaned run_running = true
run_transitions run_orphaned run_cancelled = true
run_transitions run_failed run_running = true
run_transitions run_failed run_cancelled = true
run_transitions run_interrupted run_running = true
run_transitions run_interrupted run_cancelled = true
run_transitions _ _ = false

unfoldable pub valid_run_transition : RunStatus → RunStatus → Bool
unfolding is_valid_status run_transitions
valid_run_transition from to =
    if not (is_valid_status from) || not (is_valid_status to)
    then false
    else run_transitions from to

-- `none` is `nil`.
unfoldable pub check_run_transition : RunStatus → RunStatus → Option GoError
check_run_transition from to =
    if valid_run_transition from to then none else some err_invalid_transition

-- `none` is a time that is `nil`. The text of the last error is kept as the message it was given.
pub record Run : Type 0 where
  pub run_id : Str
  pub plan_id : Str
  pub operation : Operation
  pub target : Target
  pub plan_digest : Str
  pub actor : Str
  pub status : RunStatus
  pub node_count : ℕ
  pub started_at : ℕ
  pub updated_at : ℕ
  pub finished_at : Option ℕ
  pub cancel_requested : Bool
  pub cancel_requested_at : Option ℕ
  pub cancel_actor : Str
  pub cancel_note : Str
  pub last_error : Str

pub record NewRun : Type 0 where
  pub plan : Option Plan
  pub run_id : Str
  pub actor : Str
  pub started_at : ℕ

-- The loop over the nodes; `seen` holds the ids that were met before.
unfoldable pub check_new_nodes : List Str → List Node → Option GoError
check_new_nodes seen [] = none
check_new_nodes seen (n ∷ nodes) =
    refuse (is_empty n.id) err_invalid_plan
    ▷ refuse (not (is_valid n.kind)) err_unknown_node_kind
    ▷ refuse (has_str seen n.id) err_invalid_plan
    ▷ check_new_nodes (n.id ∷ seen) nodes

-- The checks of a plan that is not `nil`.
unfoldable pub check_new_plan : Plan → Option GoError
check_new_plan p =
    refuse (is_empty p.digest) err_digest_mismatch
    ▷ refuse (not (has_prefix p.digest fingerprint_prefix)) err_digest_mismatch
    ▷ refuse (is_empty p.plan_id) err_invalid_plan
    ▷ refuse (not (is_valid_operation p.operation)) err_invalid_plan
    ▷ as_invalid_plan (validate_target p.target)
    ▷ refuse (no_elements p.nodes) err_invalid_plan
    ▷ check_new_nodes [] p.nodes

pub record RunStatusUpdate : Type 0 where
  pub run_id : Str
  pub from : RunStatus
  pub to : RunStatus
  pub error : Str
  pub clear_cancel : Bool
  pub at : ℕ
