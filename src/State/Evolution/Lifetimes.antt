-- ===== src/State/Evolution/Lifetimes.antt =====
-- What a run's ends and its nodes' ends mean for whatever is called later.
use partitionctl.Base.{◌≡◌, ◌≢◌, refl, sym, true, List, Str, none, some, Option, find, arith}
use mathlib.Core.Path.{subst}
use partitionctl.Protocol.NodeState.{NodeState, is_complete, valid_transition, TransitionReason}
use partitionctl.State.Run.{Run, is_terminal_status}
use partitionctl.State.Run.Machine.{StatusPath-terminal}
use partitionctl.State.Node.{NodeRecord}
use partitionctl.State.Disk.{Env, Disk, dir_at}
use partitionctl.State.Evolution.{
  NodePath, RunEvolves, NodeEvolves, DirEvolves, Evolves, identity, RunIdentity,
}
use partitionctl.State.Evolution
use partitionctl.State.Evolution.Opening.{StatWorks}
use partitionctl.State.Evolution.Calls.{Call, perform_all, perform_all-Evolves}

over_for_good :
    (o : Option Run) (r : Run)
    → RunEvolves (some r) o
    → is_terminal_status r.status ≡ true
    → (s : Run) × (o ≡ some s) × (s.status ≡ r.status) × (identity s ≡ identity r)
over_for_good none r h over = absurd h
over_for_good (some s) r h over = (s, refl, StatusPath-terminal h.path over, sym h.same)

complete-not-valid :
    (a b : NodeState) (r : TransitionReason)
    → is_complete a ≡ true
    → valid_transition a b r ≡ true
    → ⊥
unfolding is_complete valid_transition
complete-not-valid a b r c h = ground arith

NodePath-complete : {a b : NodeState} → NodePath a b → is_complete a ≡ true → b ≡ a
NodePath-complete Evolution.stays c = refl
NodePath-complete (Evolution.moves {a} {b} r h p) c = absurd (complete-not-valid a b r c h)

complete_for_good :
    (o : Option NodeRecord) (n : NodeRecord)
    → NodeEvolves (some n) o
    → is_complete n.state ≡ true
    → (m : NodeRecord) × (o ≡ some m) × (m.state ≡ n.state) × (m.object ≡ n.object)
complete_for_good none n h c = absurd h
complete_for_good (some m) n h c = (m, refl, NodePath-complete h.path c, sym h.same_object)

module _ (env : Env) (works : StatWorks env) (cs : List Call) (d : Disk) (k : Str) where
  -- A run that is COMPLETED or CANCELLED keeps this status, and what it is bound to, its plan's
  -- digest included, under any sequence of calls of the store, if `os.Stat` does not fail.
  pub perform_all_terminal :
      (r : Run)
      → (dir_at k d).run ≡ some r
      → is_terminal_status r.status ≡ true
      → (s : Run) × ((dir_at k (perform_all env cs d)).run ≡ some s)
        × (s.status ≡ r.status)
        × (identity s ≡ identity r)
  perform_all_terminal r here over =
      over_for_good _ r
        (subst (λ o. RunEvolves o (dir_at k (perform_all env cs d)).run) here
          ((perform_all-Evolves env works cs d).at k).run_evolves)
        over

  -- In a run that is there, a node that is DONE or SKIPPED keeps its state and its object under any
  -- sequence of calls of the store, if `os.Stat` does not fail.
  pub perform_all_complete :
      (node : Str) (n : NodeRecord)
      → (dir_at k d).run ≢ none
      → find node (dir_at k d).nodes ≡ some n
      → is_complete n.state ≡ true
      → (m : NodeRecord) × (find node (dir_at k (perform_all env cs d)).nodes ≡ some m)
        × (m.state ≡ n.state)
        × (m.object ≡ n.object)
  perform_all_complete node n there here c =
      complete_for_good _ n
        (subst (λ o. NodeEvolves o (find node (dir_at k (perform_all env cs d)).nodes)) here
          (((perform_all-Evolves env works cs d).at k).nodes_evolve there node))
        c
