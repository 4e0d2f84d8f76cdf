-- ===== src/State/Run/Machine.antt =====
-- The run-status machine as a relation, apart from the code's table, and the paths along it.
use partitionctl.Base.{◌≡◌, refl, ◌↔◌, true, arith}
use partitionctl.State.Run.{
  RunStatus, run_running, run_completed, run_failed, run_orphaned, run_interrupted, run_cancelled,
  is_terminal_status, is_resumable, valid_run_transition,
}

-- A run stops from RUNNING, and only a resumable run is taken up again or cancelled.
pub data StatusEdge : RunStatus → RunStatus → Type 0 where
  completes : StatusEdge run_running run_completed
  fails : StatusEdge run_running run_failed
  is_abandoned : StatusEdge run_running run_orphaned
  stops : StatusEdge run_running run_interrupted
  is_dropped : StatusEdge run_running run_cancelled
  adopts : {s : RunStatus} → is_resumable s ≡ true → StatusEdge s run_running
  cancels : {s : RunStatus} → is_resumable s ≡ true → StatusEdge s run_cancelled

ruleset status_edges = (completes, fails, is_abandoned, stops, is_dropped, adopts, cancels)

StatusEdge-sound : (a b : RunStatus) → valid_run_transition a b ≡ true → StatusEdge a b
unfolding valid_run_transition is_resumable
StatusEdge-sound a b h = grind (arith, status_edges)

StatusEdge-adopts :
    (s : RunStatus) → is_resumable s ≡ true → valid_run_transition s run_running ≡ true
unfolding valid_run_transition is_resumable
StatusEdge-adopts s h = ground arith

StatusEdge-cancels :
    (s : RunStatus) → is_resumable s ≡ true → valid_run_transition s run_cancelled ≡ true
unfolding valid_run_transition is_resumable
StatusEdge-cancels s h = ground arith

StatusEdge-complete : {a b : RunStatus} → StatusEdge a b → valid_run_transition a b ≡ true
unfolding valid_run_transition
StatusEdge-complete completes = refl
StatusEdge-complete fails = refl
StatusEdge-complete is_abandoned = refl
StatusEdge-complete stops = refl
StatusEdge-complete is_dropped = refl
StatusEdge-complete (adopts {s} h) = StatusEdge-adopts s h
StatusEdge-complete (cancels {s} h) = StatusEdge-cancels s h

-- `ValidRunTransition` permits exactly these moves: RUNNING to each other status, and each resumable
-- status to RUNNING and to CANCELLED.
pub valid_run_transition_iff_StatusEdge :
    (a b : RunStatus) → (valid_run_transition a b ≡ true) ↔ StatusEdge a b
valid_run_transition_iff_StatusEdge a b = (StatusEdge-sound a b, StatusEdge-complete)

-- The statuses that a run passes through.
pub data StatusPath : RunStatus → RunStatus → Type 0 where
  stays : {s : RunStatus} → StatusPath s s
  moves : {a b c : RunStatus} → valid_run_transition a b ≡ true → StatusPath b c → StatusPath a c

pub StatusPath-trans : {a b c : RunStatus} → StatusPath a b → StatusPath b c → StatusPath a c
StatusPath-trans stays q = q
StatusPath-trans (moves h p) q = moves h (StatusPath-trans p q)

pub StatusPath-step : {a b : RunStatus} → valid_run_transition a b ≡ true → StatusPath a b
StatusPath-step h = moves h stays

terminal-not-valid :
    (a b : RunStatus) → is_terminal_status a ≡ true → valid_run_transition a b ≡ true → ⊥
unfolding is_terminal_status valid_run_transition
terminal-not-valid a b t h = ground arith

pub StatusPath-terminal : {a b : RunStatus} → StatusPath a b → is_terminal_status a ≡ true → b ≡ a
StatusPath-terminal stays t = refl
StatusPath-terminal (moves {a} {b} h p) t = absurd (terminal-not-valid a b t h)
