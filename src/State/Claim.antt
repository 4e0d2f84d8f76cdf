-- ===== src/State/Claim.antt =====
-- engine/state/claim.go, over the runs and the nodes of the file store.
pub mod Sorting
pub mod Meaning
pub mod Loop
pub mod Answer
use partitionctl.Base.{
  ℕ, Bool, true, false, not, ◌&&◌, ◌||◌, List, [], ◌∷◌, Str, none, some, Option, if◌then◌else◌, ltb,
  pos,
}
use partitionctl.Protocol.NodeKind.{claims_ownership}
use partitionctl.Protocol.NodeState.{NodeState, pending, ready, running, retry_wait, verifying}
use partitionctl.Protocol.ObjectName.{ObjectName, object_eq, is_zero}
use partitionctl.Protocol.Plan.{Operation}
use partitionctl.State.Run.{RunStatus, run_running, run_orphaned, run_failed, run_interrupted, Run}
use partitionctl.State.Run.Query.{RunQuery}
use partitionctl.State.Node.{NodeRecord}
use partitionctl.State.Disk.{Env, Act, ◌>>=◌, done_with}
use partitionctl.State.File.Runs.{find_runs}
use partitionctl.State.File.Nodes.{list_nodes}

-- The `switch` on the state.
claiming_state : NodeState → ℕ → Bool
claiming_state running attempts = true
claiming_state retry_wait attempts = true
claiming_state verifying attempts = true
claiming_state ready attempts = ltb 0 attempts
claiming_state pending attempts = ltb 0 attempts
claiming_state _ attempts = false

unfoldable pub claiming_node : NodeRecord → Bool
unfolding claiming_state
claiming_node n = if not (claims_ownership n.kind) then false else claiming_state n.state n.attempts

abbrev pub claiming_run_statuses : List RunStatus
claiming_run_statuses = run_running ∷ run_orphaned ∷ run_failed ∷ run_interrupted ∷ []

abbrev pub claiming_query : Str → RunQuery
claiming_query database = record {
  run_id = [];
  plan_digest = [];
  database = database;
  table = none;
  index = none;
  operation = Operation.other [];
  statuses = claiming_run_statuses;
  finished_since = 0;
  limit = pos 0;
}

-- The inner loop: some node of the run claims the object.
unfoldable pub any_claims : ObjectName → List NodeRecord → Bool
any_claims o [] = false
any_claims o (n ∷ rest) = (claiming_node n && object_eq n.object o) || any_claims o rest

-- `!found || r.StartedAt.Time.After(best.StartedAt.Time)`.
unfoldable pub later : Option Run → Run → Option Run
later none r = some r
later (some best) r = if ltb best.started_at r.started_at then some r else some best

module _ (env : Env) where
  -- The loop over the runs; `best` is the run that was found so far.
  unfoldable pub claiming_run : ObjectName → Option Run → List Run → Act (Option Run)
  claiming_run o best [] = done_with best
  claiming_run o best (r ∷ rest) = list_nodes env r.run_id >>= λ nodes.
      claiming_run o (if any_claims o nodes then later best r else best) rest

  -- `ClaimsObjectIn` of a store that is not `nil`: the run of the claim, if there is one.
  unfoldable pub claims_object_in : Str → ObjectName → Act (Option Run)
  unfolding claiming_run
  claims_object_in database o =
      if is_zero o
      then done_with none
      else find_runs env (claiming_query database) >>= claiming_run o none
