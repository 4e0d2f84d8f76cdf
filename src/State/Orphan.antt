-- ===== src/State/Orphan.antt =====
-- engine/state/orphan.go, over the file store: a run that was abandoned is marked, and taken up again.
use partitionctl.Base.{
  ℕ, ◌+◌, true, false, not, List, [], ◌∷◌, Str, none, some, Option, if◌then◌else◌, refuse, ℤ, pos,
  sort,
}
use partitionctl.Protocol.Errors.{GoError, err_conflict, err_lock_held}
use partitionctl.Protocol.NodeState.{
  NodeState, pending, running, failed, state_eq, TransitionReason, orphan_recovery, resume_retry,
}
use partitionctl.Protocol.Plan.{Operation}
use partitionctl.State.Run.{
  Run, RunStatus, RunStatusUpdate, run_running, run_orphaned, run_failed, run_interrupted,
  run_cancelled, status_eq, is_resumable,
}
use partitionctl.State.Run.Query.{RunQuery}
use partitionctl.State.Node.{NodeRecord, NodeTransition}
use partitionctl.State.Lock.{LockKey, lock_key}
use partitionctl.State.Audit.{event_run_adopted, event_run_orphaned}
use partitionctl.State.Disk.{Env, Act, ◌>>=◌, ◌>>◌, done_with, fail, check, optional}
use partitionctl.State.File.Trail.{append_audit, event}
use partitionctl.State.File.Runs.{get_run, find_runs, set_run_status, run_before}
use partitionctl.State.File.Nodes.{list_nodes, transition_node}
use partitionctl.State.File.Leases.{get_lease, acquire_lease}
use partitionctl.State.File.Cancel.{is_live_lease}
use partitionctl.State.File.Locks.{FileLock, check_lock}

abbrev pub running_on : LockKey → RunQuery
running_on k = record {
  run_id = [];
  plan_digest = [];
  database = k.database;
  table = some k.table;
  index = none;
  operation = Operation.other [];
  statuses = run_running ∷ [];
  finished_since = 0;
  limit = pos 0;
}

abbrev pub orphaning : Str → ℕ → RunStatusUpdate
orphaning id now = record {
  run_id = id;
  from = run_running;
  to = run_orphaned;
  error = [];
  clear_cancel = false;
  at = now;
}

abbrev pub adopting : Str → RunStatus → ℕ → RunStatusUpdate
adopting id from now = record {
  run_id = id;
  from = from;
  to = run_running;
  error = [];
  clear_cancel = true;
  at = now;
}

abbrev pub rewinding : Str → Str → NodeState → TransitionReason → ℕ → NodeTransition
rewinding run node from reason now = record {
  run_id = run;
  node_id = node;
  from = from;
  to = pending;
  reason = reason;
  increment_attempt = false;
  error = none;
  at = now;
}

abbrev pub incomplete_for : Str → RunQuery
incomplete_for digest = record {
  run_id = [];
  plan_digest = digest;
  database = [];
  table = none;
  index = none;
  operation = Operation.other [];
  statuses = run_running ∷ run_failed ∷ run_orphaned ∷ run_interrupted ∷ [];
  finished_since = 0;
  limit = pos 0;
}

-- The status of a run that may be adopted; both refusals are conflicts.
unfoldable pub check_adoptable : RunStatus → Option GoError
check_adoptable s =
    if status_eq s run_cancelled
    then some err_conflict
    else refuse (not (is_resumable s)) err_conflict

module _ (env : Env) where
  -- The loop of FindOrphans: the runs without a lease that holds.
  unfoldable pub keep_abandoned : ℕ → List Run → Act (List Run)
  keep_abandoned t [] = done_with []
  keep_abandoned t (r ∷ rest) = optional (get_lease env r.run_id) >>= λ l.
      keep_abandoned t rest >>= λ others.
      done_with (if is_live_lease l t then others else r ∷ others)

  abbrev pub orphans_under : FileLock → ℕ → Act (List Run)
  orphans_under l t =
      check_lock env (some l) l.key
      >> (find_runs env (running_on l.key) >>= λ rs.
          keep_abandoned t rs >>= λ orphans. done_with (sort run_before orphans))

  -- `none` is a lock that is `nil`.
  unfoldable pub find_orphans : Option FileLock → ℕ → Act (List Run)
  unfolding keep_abandoned
  find_orphans none t = fail err_lock_held
  find_orphans (some l) t = orphans_under l t

  -- The loops of MarkOrphaned and of `rewindFailedNodes`: every node in `from` goes to PENDING. The
  -- result is the number of nodes that were moved.
  unfoldable pub rewind_nodes : Str → NodeState → TransitionReason → ℕ → ℕ → List NodeRecord → Act ℕ
  rewind_nodes run from reason t n [] = done_with n
  rewind_nodes run from reason t n (r ∷ rest) =
      if state_eq r.state from
      then (transition_node env (rewinding run r.node_id from reason t) >>= λ moved.
          rewind_nodes run from reason t (n + 1) rest)
      else rewind_nodes run from reason t n rest

  unfoldable pub mark_orphaned : Option FileLock → Str → ℕ → Act Run
  unfolding rewind_nodes
  mark_orphaned lock id t = get_run env id >>= λ r.
      check_lock env lock (lock_key r)
      >> (check (refuse (not (status_eq r.status run_running)) err_conflict)
          >> (optional (get_lease env id) >>= λ l.
              check (refuse (is_live_lease l t) err_conflict)
              >> (set_run_status env (orphaning id t) >>= λ marked. list_nodes env id >>= λ nodes.
                  rewind_nodes id running orphan_recovery t 0 nodes >>= λ n.
                  append_audit env (event env id [] event_run_orphaned t) >>= λ e.
                  done_with marked)))

  unfoldable pub rewind_failed_nodes : Str → ℕ → Act ℕ
  unfolding rewind_nodes
  rewind_failed_nodes id t = list_nodes env id >>= rewind_nodes id failed resume_retry t 0

  unfoldable pub adopt_orphan : Option FileLock → Str → Str → ℤ → ℕ → Act Run
  unfolding rewind_failed_nodes check_adoptable
  adopt_orphan lock id holder ttl t = get_run env id >>= λ r.
      check_lock env lock (lock_key r)
      >> (check (check_adoptable r.status)
          >> (set_run_status env (adopting id r.status t) >>= λ adopted.
              acquire_lease env id holder ttl >>= λ l. rewind_failed_nodes id t >>= λ n.
              append_audit env (event env id [] event_run_adopted t) >>= λ e. done_with adopted))

  -- The loop of RecoverOrphans.
  unfoldable pub mark_all : Option FileLock → ℕ → List Run → Act (List Run)
  mark_all lock t [] = done_with []
  mark_all lock t (r ∷ rest) = mark_orphaned lock r.run_id t >>= λ marked.
      mark_all lock t rest >>= λ others. done_with (marked ∷ others)

  -- The runs that were marked before a failure are left out of the error's result.
  unfoldable pub recover_orphans : Option FileLock → ℕ → Act (List Run)
  unfolding mark_all
  recover_orphans lock t = find_orphans lock t >>= mark_all lock t

  unfoldable pub incomplete_runs_for_plan : Str → Act (List Run)
  incomplete_runs_for_plan digest = find_runs env (incomplete_for digest)
