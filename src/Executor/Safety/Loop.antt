-- ===== src/Executor/Safety/Loop.antt =====
-- The loop over the nodes, and what precedes it.
use partitionctl.Base.{
  ℕ, ◌≡◌, refl, ap, ◌∙◌, Bool, true, false, List, [], ◌∷◌, Str, none, some, Option, Bool-cases, inl,
  inr,
}
use partitionctl.Protocol.NodeState.{NodeState, is_complete}
use partitionctl.Protocol.Node.{Node}
use partitionctl.Protocol.Plan.{Plan, node_by_id}
use partitionctl.Executor.Port.{Config, Ports, Trace}
use partitionctl.Executor.Machine.{World, Reply, returned, halted, Halt, query}
use partitionctl.Executor.Hoare.{
  After, Keeps, Runs-if, Runs-weaken, Runs-at, done_with-Keeps, Keeps-world,
}
use partitionctl.Executor.Attempt.{States, run_node}
use partitionctl.Executor.Run.{
  Ending, completed, RunResult, status_of, set_status, stop_requested, read_flag, world_of,
  ending_of, ending_before, run_found, run_pending, run_nodes,
}
use partitionctl.Executor.Safety.Actions.{query-Keeps}
use partitionctl.Executor.Safety.Nodes.{run_node-Runs}
use partitionctl.Executor.Safety.Runs.{
  Agrees, AtNode, AtNode-Stable, world_of-AtNode, InvOf, entered, left_with, find_node_id,
}

module _ (cfg : Config) (ports : Ports) (run : Str) (plan : Plan) (before : Str → NodeState) where
  abbrev At : States → Str → World → Type 0
  At = AtNode cfg ports run plan before

  abbrev Ok : States → Trace → Type 0
  Ok = Agrees cfg ports run plan before

  abbrev Good : RunResult → Type 0
  Good r = Ok r.states r.trace

  flag-After :
      (P : World → Type 0) (r : Reply Bool × World)
      → After (λ b. P) P r
      → After (λ b. P) P (read_flag r)
  flag-After P (returned true, w) p = p
  flag-After P (returned false, w) p = p
  flag-After P (halted (Halt.failed e), w) p = p
  flag-After P (halted h, w) p = p

  pub stop_requested-Keeps :
      (states : States) (id : Str) → Keeps (At states id) (stop_requested cfg ports run plan)
  unfolding stop_requested
  stop_requested-Keeps states id = Runs-at (λ w.
      Runs-if (ports.is_signalled w.trace) (λ e. done_with-Keeps (At states id) _)
        (λ e.
          Runs-if (ports.is_fenced w.trace) (λ f. done_with-Keeps (At states id) _)
            (λ f. record {
              ends = λ v p.
                  flag-After (At states id) (query ports run ports.cancel_requested v)
                    (flag.ends v p);
            })))
    where
      flag : Keeps (At states id) (query ports run ports.cancel_requested)
      flag =
          query-Keeps ports run (AtNode-Stable cfg ports run plan before states id)
            ports.cancel_requested

  -- After a node the map and the trace agree again, however the node ended.
  pub found-Good :
      (fuel : ℕ) (id : Str) (n : Node) (states : States) (w : World)
      → node_by_id plan id ≡ some n
      → At states id w
      → Ok
          (set_status states id (run_node cfg ports run plan n fuel states w).1.status)
          (run_node cfg ports run plan n fuel states w).1.trace
  unfolding node_by_id
  found-Good fuel id n states w known p =
      let same : n.id ≡ id = find_node_id plan.nodes id n known in
      left_with cfg ports run plan before states id n _ same (
        Keeps-world (InvOf cfg ports run plan before states n)
          (Runs-weaken
            (run_node-Runs cfg ports run plan before n (λ j. (status_of states j).state)
              (ap (node_by_id plan) same ∙ known) fuel states)
            (λ v q. q) (λ u v q. q.0) (λ v q. q))
          w (entered cfg ports run plan before states id n w same p))

  run_found-Good :
      (fuel : ℕ) (id : Str) (n : Node) (states : States) (w : World)
      (go : States → Trace → RunResult)
      → node_by_id plan id ≡ some n
      → At states id w
      → ((s : States) (t : Trace) → Ok s t → Good (go s t))
      → Good (run_found cfg ports run plan fuel id n states w go)
  unfolding run_found
  run_found-Good fuel id n states w go known p k =
      ended (ending_of cfg ports run plan id (run_node cfg ports run plan n fuel states w).0)
    where
      ended :
          (e : Option Ending)
          → Good (elim e [
            | none ↦
                go
                  (set_status states id (run_node cfg ports run plan n fuel states w).1.status)
                  (run_node cfg ports run plan n fuel states w).1.trace
            | some x ↦ record {
              ending = x;
              states = set_status states id (run_node cfg ports run plan n fuel states w).1.status;
              trace = (run_node cfg ports run plan n fuel states w).1.trace;
            }
          ])
      ended none = k _ _ (found-Good fuel id n states w known p)
      ended (some x) = found-Good fuel id n states w known p

  run_pending-Good :
      (fuel : ℕ) (id : Str) (states : States) (h : Trace) (go : States → Trace → RunResult)
      → Ok states h
      → ((s : States) (t : Trace) → Ok s t → Good (go s t))
      → Good (run_pending cfg ports run plan fuel id states h go)
  unfolding run_pending
  run_pending-Good fuel id states h go a k =
      at_boundary
        (ending_before cfg ports run plan
          (stop_requested cfg ports run plan (world_of cfg ports run plan states id h)).0
          (node_by_id plan id))
        (node_by_id plan id) refl
    where
      asked : World
      asked = (stop_requested cfg ports run plan (world_of cfg ports run plan states id h)).1

      still : At states id asked
      still =
          Keeps-world (At states id) (stop_requested-Keeps states id) _
            (world_of-AtNode cfg ports run plan before states id h a)

      found :
          (o : Option Node)
          → node_by_id plan id ≡ o
          → Good (elim o [
            | none ↦ record { ending = completed; states = states; trace = asked.trace }
            | some n ↦ run_found cfg ports run plan fuel id n states asked go
          ])
      found none e = still.agrees
      found (some n) e = run_found-Good fuel id n states asked go e still k

      at_boundary :
          (x : Option Ending) (o : Option Node)
          → node_by_id plan id ≡ o
          → Good (elim x [
            | some y ↦ record { ending = y; states = states; trace = asked.trace }
            | none ↦ elim o [
              | none ↦ record { ending = completed; states = states; trace = asked.trace }
              | some n ↦ run_found cfg ports run plan fuel id n states asked go
            ]
          ])
      at_boundary (some y) o e = still.agrees
      at_boundary none o e = found o e

  pub run_nodes-Good :
      (fuel : ℕ) (ids : List Str) (states : States) (h : Trace)
      → Ok states h
      → Good (run_nodes cfg ports run plan fuel ids states h)
  unfolding run_nodes
  run_nodes-Good fuel [] states h a = a
  run_nodes-Good fuel (id ∷ ids) states h a =
      elim (Bool-cases (is_complete (status_of states id).state)) [
        | inl yes_complete ↦ rw yes_complete (run_nodes-Good fuel ids states h a)
        | inr not_complete ↦
            rw not_complete
              (run_pending-Good fuel id states h _ a (λ s t b. run_nodes-Good fuel ids s t b))
      ]
