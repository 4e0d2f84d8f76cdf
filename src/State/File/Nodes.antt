-- ===== src/State/File/Nodes.antt =====
-- The nodes of engine/state/file.go: GetNode, ListNodes, TransitionNode and the guarded actions.
use partitionctl.Base.{
  Bool, not, ◌&&◌, List, [], ◌∷◌, Str, str_eq, str_lt, if◌then◌else◌, find, sort, refuse, values,
}
use partitionctl.Protocol.Errors.{err_conflict, err_store_io}
use partitionctl.Protocol.NodeState.{state_eq}
use partitionctl.State.Node.{NodeRecord, NodeTransition, validate_transition, apply_transition}
use partitionctl.State.Audit.{event_node_transition}
use partitionctl.State.Disk.{
  Env, Act, ◌>>=◌, ◌>>◌, done_with, fail, check, segment, read, list, write, now,
}
use partitionctl.State.File.Trail.{append_audit, event, here}
use partitionctl.State.File.Runs.{get_run, put_node}

unfoldable pub node_before : NodeRecord → NodeRecord → Bool
node_before a b = str_lt a.node_id b.node_id

module _ (env : Env) where
  -- `getNodeLocked`.
  unfoldable pub get_node : Str → Str → Act NodeRecord
  get_node run node = read env (λ d. find (segment env node) (here env run d).nodes) >>= λ r.
      if str_eq r.node_id node && str_eq r.run_id run then done_with r else fail err_store_io

  -- A directory of nodes is there once a record was written to it.
  abbrev pub or_no_run : Str → List NodeRecord → Act (List NodeRecord)
  or_no_run run [] = get_run env run >>= λ r. done_with []
  or_no_run run (x ∷ l) = done_with (sort node_before (x ∷ l))

  unfoldable pub list_nodes : Str → Act (List NodeRecord)
  unfolding node_before
  list_nodes run = list env (λ d. values (here env run d).nodes) >>= or_no_run run

  unfoldable pub transition_node : NodeTransition → Act NodeRecord
  unfolding get_node
  transition_node t =
      check (validate_transition t)
      >> (get_node t.run_id t.node_id >>= λ r.
          check (refuse (not (state_eq r.state t.from)) err_conflict)
          >> (now env t.at >>= λ at.
              write env t.run_id (put_node (segment env t.node_id) (apply_transition r t at))
              >> (append_audit env (event env t.run_id t.node_id event_node_transition at) >>= λ e.
                  done_with (apply_transition r t at))))
