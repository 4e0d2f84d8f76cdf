-- ===== src/State/File/Runs.antt =====
-- The runs of engine/state/file.go: CreateRun, GetRun, FindRuns and SetRunStatus. The reads of a
-- listing are one access to the medium.
use partitionctl.Base.{
  ℕ, Bool, false, not, ◌&&◌, ◌||◌, List, [], ◌∷◌, Str, str_eq, str_lt, is_empty, none, some, Option,
  if◌then◌else◌, ltb, ◌==◌, length, take, ℤ, pos, negsuc, put, sort, refuse, values,
}
use partitionctl.Protocol.Errors.{
  err_not_found, err_conflict, err_store_io, err_invalid_plan, Result, ok, err,
}
use partitionctl.Protocol.NodeState.{initial_node_state}
use partitionctl.Protocol.ObjectName.{ObjectName, new_object_name}
use partitionctl.Protocol.Node.{Node, object}
use partitionctl.Protocol.Plan.{Plan}
use partitionctl.State.Run.{
  Run, NewRun, RunStatusUpdate, run_running, status_eq, is_terminal_status, is_resumable,
  check_new_plan, check_run_transition,
}
use partitionctl.State.Run.Query.{RunQuery, matches}
use partitionctl.State.Node.{NodeRecord}
use partitionctl.State.Audit.{event_run_opened, event_run_status_changed}
use partitionctl.State.Disk.{
  Env, RunDir, Act, ◌>>=◌, ◌>>◌, done_with, fail, check, lift, optional, segment, read, list,
  is_there, write, now, draw,
}
use partitionctl.State.File.Trail.{append_audit, event, here}

-- The result of `req.validate()`, with the plan that is not `nil`.
unfoldable pub valid_plan : NewRun → Result Plan
valid_plan req = elim req.plan [
  | none ↦ err err_invalid_plan
  | some p ↦ elim (check_new_plan p) [ none ↦ ok p | some e ↦ err e ]
]

abbrev pub object_or_zero : Option ObjectName → ObjectName
object_or_zero none = new_object_name [] []
object_or_zero (some o) = o

unfoldable pub new_record : Str → Node → ℕ → NodeRecord
new_record id n now = record {
  run_id = id;
  node_id = n.id;
  kind = n.kind;
  state = initial_node_state;
  object = object_or_zero (object n);
  attempts = 0;
  error_kind = none;
  started_at = none;
  updated_at = now;
}

unfoldable pub new_run_record : Str → Plan → Str → ℕ → Run
new_run_record id p actor now = record {
  run_id = id;
  plan_id = p.plan_id;
  operation = p.operation;
  target = p.target;
  plan_digest = p.digest;
  actor = actor;
  status = run_running;
  node_count = length p.nodes;
  started_at = now;
  updated_at = now;
  finished_at = none;
  cancel_requested = false;
  cancel_requested_at = none;
  cancel_actor = [];
  cancel_note = [];
  last_error = [];
}

abbrev pub put_run : Run → RunDir → RunDir
put_run r x = record x { run = some r }

abbrev pub put_node : Str → NodeRecord → RunDir → RunDir
put_node seg r x = record x { nodes = put seg r x.nodes }

-- The assignments of `setRunStatusLocked`.
unfoldable pub with_status : Run → RunStatusUpdate → ℕ → Run
with_status r u now = record r {
  status = u.to;
  updated_at = now;
  last_error = if is_empty u.error then r.last_error else u.error;
  cancel_requested = if u.clear_cancel then false else r.cancel_requested;
  cancel_requested_at = if u.clear_cancel then none else r.cancel_requested_at;
  cancel_actor = if u.clear_cancel then [] else r.cancel_actor;
  cancel_note = if u.clear_cancel then [] else r.cancel_note;
  finished_at = if is_terminal_status u.to || is_resumable u.to then some now else none;
}

-- The order of `sortRuns`.
unfoldable pub run_before : Run → Run → Bool
run_before a b =
    if a.started_at == b.started_at then str_lt a.run_id b.run_id else ltb a.started_at b.started_at

-- The records of the directories that have one.
unfoldable pub all_runs : List RunDir → List Run
all_runs [] = []
all_runs (x ∷ rest) = elim x.run [ none ↦ all_runs rest | some r ↦ r ∷ all_runs rest ]

unfoldable pub matching : RunQuery → List Run → List Run
matching q [] = []
matching q (r ∷ rest) = let others = matching q rest in if matches q r then r ∷ others else others

abbrev pub limited : ℤ → List Run → List Run
limited (pos n) l = if ltb 0 n && ltb n (length l) then take n l else l
limited (negsuc n) l = l

-- What FindRuns answers for one run.
abbrev pub only_matching : RunQuery → Option Run → List Run
only_matching q none = []
only_matching q (some r) = if matches q r then r ∷ [] else []

module _ (env : Env) where
  -- `getRunLocked`.
  unfoldable pub get_run : Str → Act Run
  get_run id =
      check (refuse (is_empty id) err_not_found)
      >> (read env (λ d. (here env id d).run) >>= λ r.
          if str_eq r.run_id id then done_with r else fail err_store_io)

  -- The loop that writes the records of the nodes.
  unfoldable pub write_nodes : Str → ℕ → List Node → Act Unit
  write_nodes id t [] = done_with tt
  write_nodes id t (n ∷ nodes) =
      write env id (put_node (segment env n.id) (new_record id n t)) >> write_nodes id t nodes

  abbrev pub id_or_drawn : Str → Act Str
  id_or_drawn id = if is_empty id then draw env else done_with id

  -- CreateRun after its plan has been checked and its id chosen.
  unfoldable pub open_run : Str → Plan → Str → ℕ → Act Run
  unfolding write_nodes
  open_run id p actor t = is_there env (λ d. (here env id d).run) >>= λ there.
      if there
      then fail err_conflict
      else write_nodes id t p.nodes
        >> (write env id (put_run (new_run_record id p actor t))
            >> (append_audit env (event env id [] event_run_opened t) >>= λ e.
                done_with (new_run_record id p actor t)))

  unfoldable pub create_run : NewRun → Act Run
  unfolding valid_plan open_run
  create_run req = lift (valid_plan req) >>= λ p.
      now env req.started_at >>= λ t. id_or_drawn req.run_id >>= λ id. open_run id p req.actor t

  unfoldable pub find_runs : RunQuery → Act (List Run)
  unfolding get_run run_before all_runs matching
  find_runs q =
      if not (is_empty q.run_id)
      then (optional (get_run q.run_id) >>= λ r. done_with (only_matching q r))
      else list env (λ d. all_runs (values d.runs)) >>= λ rs.
          done_with (limited q.limit (sort run_before (matching q rs)))

  -- `setRunStatusLocked`.
  unfoldable pub set_run_status : RunStatusUpdate → Act Run
  unfolding get_run with_status
  set_run_status u = get_run u.run_id >>= λ r.
      check (refuse (not (status_eq r.status u.from)) err_conflict)
      >> (check (check_run_transition u.from u.to)
          >> (now env u.at >>= λ t.
              write env r.run_id (put_run (with_status r u t))
              >> (append_audit env (event env r.run_id [] event_run_status_changed t) >>= λ e.
                  done_with (with_status r u t))))
