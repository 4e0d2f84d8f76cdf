-- ===== src/Executor/Safety/Recovery.antt =====
-- The recovery of orphaned nodes, and a whole run from the states that were loaded.
use partitionctl.Base.{
  ℕ, ◌≡◌, refl, ap, ◌∙◌, List, [], ◌∷◌, Str, none, some, Option, str_eq, str_eq_iff, Bool-cases,
  inl, inr,
}
use partitionctl.Protocol.Errors.{GoError}
use partitionctl.Protocol.NodeState.{NodeState, pending, running, state_eq, orphan_recovery}
use partitionctl.Protocol.Node.{Node}
use partitionctl.Protocol.Plan.{Plan, node_by_id}
use partitionctl.Executor.Port.{Config, Ports, Trace, queried, orphan_recovered, run_started}
use partitionctl.Executor.Machine.{World, Reply, returned, halted, audit, transition, ◌>>◌}
use partitionctl.Executor.Hoare.{Keeps, Runs-then, Runs-weaken, Keeps-world}
use partitionctl.Executor.Attempt.{States}
use partitionctl.Executor.Run.{
  broken, RunResult, status_of, set_status, world_of, recover_orphan, recover_orphans,
  recover_found, after_orphan, after_recovery, after_start, run_nodes, close_run, run_loaded,
}
use partitionctl.Executor.Safety.{state_in, Safe}
use partitionctl.Executor.Safety.Actions.{audit-Keeps, Inv-Stable}
use partitionctl.Executor.Safety.Checkpoints.{transition-Runs}
use partitionctl.Executor.Safety.Runs.{
  status_of-set_status, Agrees, AtNode, AtNode-Stable, world_of-AtNode, InvOf, entered, left_with,
  find_node_id,
}
use partitionctl.Executor.Safety.Loop.{run_nodes-Good}

module _ (cfg : Config) (ports : Ports) (run : Str) (plan : Plan) (before : Str → NodeState) where
  abbrev At : States → Str → World → Type 0
  At = AtNode cfg ports run plan before

  abbrev Ok : States → Trace → Type 0
  Ok = Agrees cfg ports run plan before

  -- The recovery of one node that the plan has.
  recovered-Keeps :
      (states : States) (id : Str) (n : Node)
      → Keeps (InvOf cfg ports run plan before states n) (
          transition ports run n pending orphan_recovery none
          >> audit ports run id orphan_recovered)
  recovered-Keeps states id n =
      Runs-then
        (transition-Runs ports run plan before n (λ j. (status_of states j).state) pending
          orphan_recovery none)
        (λ u.
          Runs-weaken
            (audit-Keeps ports run
              (Inv-Stable ports run plan before n (λ j. (status_of states j).state)) id
              orphan_recovered)
            (λ w p. p.0) (λ v w p. p) (λ w p. p))

  unchanged :
      (states : States) (id : Str) (w : World)
      → At states id w
      → Ok (set_status states id w.status) w.trace
  unchanged states id w p = record { safe = p.agrees.safe; views = views }
    where
      views :
          (j : Str)
          → (status_of (set_status states id w.status) j).state ≡ state_in before j w.trace
      views j = elim (Bool-cases (str_eq id j)) [
        | inl same ↦
            ap (λ s. s.state) (status_of-set_status states id j w.status)
            ∙ (rw same (
                ap (λ s. s.state) p.at_hand
                ∙ p.agrees.views id
                ∙ ap (λ i. state_in before i w.trace) ((str_eq_iff id j).0 same)))
        | inr diff ↦
            ap (λ s. s.state) (status_of-set_status states id j w.status)
            ∙ (rw diff (p.agrees.views j))
      ]

  recover_found-Ok :
      (states : States) (id : Str) (w : World) (o : Option Node)
      → node_by_id plan id ≡ o
      → At states id w
      → Ok
          (set_status states id (recover_found cfg ports run plan id o w).1.status)
          (recover_found cfg ports run plan id o w).1.trace
  unfolding recover_found node_by_id
  recover_found-Ok states id w none e p = unchanged states id w p
  recover_found-Ok states id w (some n) e p =
      let same : n.id ≡ id = find_node_id plan.nodes id n e in
      left_with cfg ports run plan before states id n _ same (
        Keeps-world (InvOf cfg ports run plan before states n) (recovered-Keeps states id n) w
          (entered cfg ports run plan before states id n w same p))

  orphan-Ok :
      (states : States) (id : Str) (w : World)
      → At states id w
      → Ok
          (set_status states id (recover_orphan cfg ports run plan id w).1.status)
          (recover_orphan cfg ports run plan id w).1.trace
  unfolding recover_orphan
  orphan-Ok states id w p = elim (Bool-cases (state_eq w.status.state running)) [
    | inl yes_running ↦ rw yes_running (recover_found-Ok states id w (node_by_id plan id) refl p)
    | inr not_running ↦ rw not_running (unchanged states id w p)
  ]

  after_orphan-Ok :
      (r : Reply Unit) (rest : Option GoError × (States × Trace)) (here : States × Trace)
      → Ok rest.1.0 rest.1.1
      → Ok here.0 here.1
      → Ok
          (after_orphan cfg ports run plan r rest here).1.0
          (after_orphan cfg ports run plan r rest here).1.1
  unfolding after_orphan
  after_orphan-Ok (returned u) rest here a b = a
  after_orphan-Ok (halted x) rest here a b = b

  recover_orphans-Ok :
      (ids : List Str) (states : States) (h : Trace)
      → Ok states h
      → Ok
          (recover_orphans cfg ports run plan ids states h).1.0
          (recover_orphans cfg ports run plan ids states h).1.1
  unfolding recover_orphans
  recover_orphans-Ok [] states h a = a
  recover_orphans-Ok (id ∷ ids) states h a =
      let w : World = world_of cfg ports run plan states id h in
      let here = orphan-Ok states id w (world_of-AtNode cfg ports run plan before states id h a) in
      after_orphan-Ok (recover_orphan cfg ports run plan id w).0 _ _
        (recover_orphans-Ok ids _ _ here) here

  close_run-Ok :
      (r : RunResult) → Ok r.states r.trace → Ok r.states (close_run cfg ports run plan r).trace
  unfolding close_run
  close_run-Ok r a =
      (Keeps-world (At r.states [])
        (audit-Keeps ports run (AtNode-Stable cfg ports run plan before r.states []) _ _) _
        (world_of-AtNode cfg ports run plan before r.states [] r.trace a)).agrees

  after_recovery-Ok :
      (fuel : ℕ) (order : List Str) (r : Option GoError × (States × Trace))
      → Ok r.1.0 r.1.1
      → Ok
          (after_recovery cfg ports run plan fuel order r).states
          (after_recovery cfg ports run plan fuel order r).trace
  unfolding after_recovery close_run
  after_recovery-Ok fuel order (some e, (states, h)) a =
      close_run-Ok (record { ending = broken e; states = states; trace = h }) a
  after_recovery-Ok fuel order (none, (states, h)) a =
      close_run-Ok (run_nodes cfg ports run plan fuel order states h)
        (run_nodes-Good cfg ports run plan before fuel order states h a)

  after_start-Ok :
      (fuel : ℕ) (order : List Str) (states : States) (r : Reply Unit × World)
      → At states [] r.1
      → Ok
          (after_start cfg ports run plan fuel order states r).states
          (after_start cfg ports run plan fuel order states r).trace
  unfolding after_start
  after_start-Ok fuel order states (halted x, w) p = p.agrees
  after_start-Ok fuel order states (returned u, w) p =
      after_recovery-Ok fuel order _ (recover_orphans-Ok order states w.trace p.agrees)

-- A run makes a safe trace, whatever the ports answer and however it ends: each checkpoint is an
-- edge of D7 from the state that was recorded last for its node, or loaded; each statement is sent
-- while its node is recorded as RUNNING; and a destructive node sends one only after the
-- authorization to destroy that object was recorded, since its last other state. The executor's map
-- ends with the states that were recorded last.
pub run_loaded-Safe :
    (cfg : Config) (ports : Ports) (run : Str) (plan : Plan) (fuel : ℕ) (order : List Str)
    (states : States)
    → Safe plan
        (λ id. (status_of states id).state)
        (run_loaded cfg ports run plan fuel order states (queried ∷ [])).trace
      × ((id : Str)
          → (status_of
              (run_loaded cfg ports run plan fuel order states (queried ∷ [])).states
              id).state
            ≡ state_in
                (λ j. (status_of states j).state)
                id
                (run_loaded cfg ports run plan fuel order states (queried ∷ [])).trace)
unfolding run_loaded state_in
run_loaded-Safe cfg ports run plan fuel order states =
    let before : Str → NodeState = λ id. (status_of states id).state in
    let start : Agrees cfg ports run plan before states (queried ∷ []) = record {
      safe = tt;
      views = λ j. refl;
    } in
    let audited =
      Keeps-world (AtNode cfg ports run plan before states [])
        (audit-Keeps ports run (AtNode-Stable cfg ports run plan before states []) [] run_started) _
        (world_of-AtNode cfg ports run plan before states [] (queried ∷ []) start) in
    let final =
      after_start-Ok cfg ports run plan before fuel order states
        (audit ports run [] run_started (world_of cfg ports run plan states [] (queried ∷ [])))
        audited in
    (final.safe, final.views)
