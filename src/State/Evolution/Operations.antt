-- ===== src/State/Evolution/Operations.antt =====
-- Every operation of the file store evolves the disk, whatever fails on the way.
use partitionctl.Base.{ℕ, ◌≡◌, refl, sym, not, Str, none, some, find, arith, refuse}
use mathlib.Core.Path.{subst}
use partitionctl.Protocol.Errors.{err_conflict}
use partitionctl.Protocol.NodeState.{state_eq, state_eq_iff, check_transition}
use partitionctl.State.Run.{Run, RunStatusUpdate, status_eq, status_eq_iff, check_run_transition}
use partitionctl.State.Run.Machine.{StatusPath, StatusPath-step}
use partitionctl.State.Node.{
  NodeRecord, NodeTransition, validate_transition, apply_transition, reason_of,
}
use partitionctl.State.Disk.{Env, Disk, segment, write}
use partitionctl.State.Disk.Hoare.{
  Runs, Keeps, IsTimeless, Runs-then, Runs-next, Runs-given, check-Then, done-Runs,
}
use partitionctl.State.Disk.Accesses.{now-Keeps, write-Runs}
use partitionctl.State.File.Trail.{here}
use partitionctl.State.File.Runs.{set_run_status, with_status, put_run, put_node}
use partitionctl.State.File.Nodes.{transition_node}
use partitionctl.State.Evolution.{NodePath, Evolves, RunKept, NodeKept, identity}
use partitionctl.State.Evolution
use partitionctl.State.Evolution.Laws.{
  Evolves-IsTimeless, set_dir-Evolves-from, put_run-DirEvolves, put_node-DirEvolves,
}
use partitionctl.State.Evolution.Accesses.{
  same_disk, here-IsTimeless, get_run-Runs, get_node-Runs, append_audit-Keeps,
}

-- What the guards of SetRunStatus establish.
with_status-RunKept :
    (r : Run) (u : RunStatusUpdate) (t : ℕ)
    → refuse (not (status_eq r.status u.from)) err_conflict ≡ none
    → check_run_transition u.from u.to ≡ none
    → RunKept r (with_status r u t)
unfolding with_status check_run_transition
with_status-RunKept r u t same valid = record {
  same = refl;
  path =
      subst (λ s. StatusPath s u.to) (sym ((status_eq_iff r.status u.from).0 (ground arith)))
        (StatusPath-step (ground arith));
}

-- What the guards of TransitionNode establish.
apply_transition-NodeKept :
    (r : NodeRecord) (t : NodeTransition) (now : ℕ)
    → validate_transition t ≡ none
    → refuse (not (state_eq r.state t.from)) err_conflict ≡ none
    → NodeKept r (apply_transition r t now)
unfolding apply_transition validate_transition check_transition
apply_transition-NodeKept r t now valid same = record {
  same_run = refl;
  same_node = refl;
  same_kind = refl;
  same_object = refl;
  path =
      subst (λ s. NodePath s t.to) (sym ((state_eq_iff r.state t.from).0 (ground arith)))
        (Evolution.moves (reason_of t.reason) (ground arith) NodePath.stays);
  attempts = ground arith;
}

module _ (env : Env) (d0 : Disk) where
  pub timeless : IsTimeless (Evolves d0)
  timeless = Evolves-IsTimeless d0

  abbrev pub ReadRun : Str → Run → Disk → Type 0
  ReadRun id r d = Evolves d0 d × ((here env id d).run ≡ some r)

  abbrev ReadNode : Str → Str → NodeRecord → Disk → Type 0
  ReadNode run node r d = Evolves d0 d × (find (segment env node) (here env run d).nodes ≡ some r)

  -- A write over the run that was read.
  pub write_run-Runs :
      (id : Str) (r s : Run)
      → RunKept r s
      → Runs (ReadRun id r) (λ u. Evolves d0) (Evolves d0) (write env id (put_run s))
  write_run-Runs id r s kept =
      write-Runs env (here-IsTimeless env timeless id (λ x. x.run) (some r)) id (put_run s)
        (λ d p. p.0)
        (λ d p. set_dir-Evolves-from d0 _ (put_run s) d p.0 (put_run-DirEvolves r s _ p.1 kept))

  pub set_run_status-Keeps : (u : RunStatusUpdate) → Keeps (Evolves d0) (set_run_status env u)
  unfolding set_run_status
  set_run_status-Keeps u = Runs-next (same_disk _) (get_run-Runs env timeless u.run_id) λ r.
      Runs-given λ named.
        check-Then (λ d p. p.0) _
          λ same.
            check-Then (λ d p. p.0) _
              λ valid.
                Runs-next (λ d p. p.0)
                  (now-Keeps env (here-IsTimeless env timeless u.run_id (λ x. x.run) (some r)) u.at)
                  λ t.
                    Runs-then
                      (subst
                        (λ id.
                          Runs (ReadRun u.run_id r) (λ v. Evolves d0) (Evolves d0)
                            (write env id (put_run (with_status r u t))))
                        (sym named)
                        (write_run-Runs u.run_id r _ (with_status-RunKept r u t same valid)))
                      λ v.
                        Runs-next (same_disk _) (append_audit-Keeps env d0 _)
                          λ e. done-Runs _ (same_disk _)

  pub transition_node-Keeps : (t : NodeTransition) → Keeps (Evolves d0) (transition_node env t)
  unfolding transition_node
  transition_node-Keeps t = check-Then (same_disk _) _ λ valid.
      Runs-next (same_disk _) (get_node-Runs env timeless t.run_id t.node_id) λ r.
        check-Then (λ d p. p.0) _
          λ same.
            Runs-next (λ d p. p.0)
              (now-Keeps env
                (here-IsTimeless env timeless t.run_id (λ x. find (segment env t.node_id) x.nodes)
                  (some r))
                t.at)
              λ at.
                Runs-then
                  (write-Runs env
                    (here-IsTimeless env timeless t.run_id
                      (λ x. find (segment env t.node_id) x.nodes) (some r))
                    t.run_id (put_node (segment env t.node_id) (apply_transition r t at))
                    (λ d p. p.0)
                    (λ d p.
                      set_dir-Evolves-from d0 _
                        (put_node (segment env t.node_id) (apply_transition r t at)) d p.0
                        (put_node-DirEvolves _ r _ _ p.1
                          (apply_transition-NodeKept r t at valid same))))
                  λ v.
                    Runs-next (same_disk _) (append_audit-Keeps env d0 _)
                      λ e. done-Runs _ (same_disk _)
