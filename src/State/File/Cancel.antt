-- ===== src/State/File/Cancel.antt =====
-- The cancellation of engine/state/file.go.
use partitionctl.Base.{ℕ, Bool, true, false, not, ◌||◌, [], Str, none, some, Option, if◌then◌else◌}
use partitionctl.State.Run.{
  Run, RunStatusUpdate, run_running, run_cancelled, status_eq, is_terminal_status,
}
use partitionctl.State.Lease.{Lease, is_expired}
use partitionctl.State.Audit.{event_cancel_requested}
use partitionctl.State.Disk.{Env, Act, ◌>>=◌, ◌>>◌, done_with, optional, write, now}
use partitionctl.State.File.Trail.{append_audit, event}
use partitionctl.State.File.Runs.{get_run, put_run, set_run_status}
use partitionctl.State.File.Leases.{get_lease}

unfoldable pub with_cancel : Run → Str → Str → ℕ → Run
with_cancel r actor note now = record r {
  cancel_requested = true;
  cancel_requested_at = some now;
  cancel_actor = actor;
  cancel_note = note;
  updated_at = now;
}

-- The update by which a run that nobody executes is cancelled.
abbrev pub cancelling : Str → Run → ℕ → RunStatusUpdate
cancelling id r now = record {
  run_id = id;
  from = r.status;
  to = run_cancelled;
  error = [];
  clear_cancel = false;
  at = now;
}

unfoldable pub is_live_lease : Option Lease → ℕ → Bool
is_live_lease none now = false
is_live_lease (some l) now = not (is_expired l now)

module _ (env : Env) where
  -- Only a RUNNING run with a lease that has not expired is executed by someone.
  unfoldable pub is_live : Str → Run → ℕ → Act Bool
  unfolding is_live_lease
  is_live id r t =
      if status_eq r.status run_running
      then (optional (get_lease env id) >>= λ l. done_with (is_live_lease l t))
      else done_with false

  -- RequestCancel of a run that is not terminal.
  unfoldable pub flag_or_cancel : Str → Str → Str → Run → ℕ → Act Run
  unfolding is_live with_cancel
  flag_or_cancel id actor note r t = is_live id r t >>= λ live.
      write env id (put_run (with_cancel r actor note t))
      >> (append_audit env (event env id [] event_cancel_requested t) >>= λ e.
          if live
          then done_with (with_cancel r actor note t)
          else set_run_status env (cancelling id r t))

  unfoldable pub request_cancel : Str → Str → Str → Act Run
  unfolding flag_or_cancel
  request_cancel id actor note = get_run env id >>= λ r. now env 0 >>= λ t.
      if is_terminal_status r.status then done_with r else flag_or_cancel id actor note r t

  unfoldable pub cancellation_requested : Str → Act Bool
  cancellation_requested id =
      get_run env id >>= λ r. done_with (r.cancel_requested || status_eq r.status run_cancelled)
