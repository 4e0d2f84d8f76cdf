-- ===== src/Executor/Safety/Completion.antt =====
-- A run whose loop ends by itself has every node of the order complete.
use partitionctl.Base.{
  ℕ, ◌≡◌, ◌≢◌, refl, sym, ap, ◌∙◌, true, false, List, [], ◌∷◌, Str, str_eq, str_eq_iff, str_eq_refl,
  none, some, Option, Bool-cases, inl, inr, ◌⊎◌, All,
}
use mathlib.Core.Path.{subst}
use partitionctl.Protocol.NodeState.{NodeState, done, is_complete}
use partitionctl.Protocol.Node.{Node}
use partitionctl.Protocol.Plan.{Plan, node_by_id}
use partitionctl.Executor.Port.{Config, Ports, Trace}
use partitionctl.Executor.Machine.{
  World, NodeStatus, Reply, returned, halted, Halt, stopped, unsafe_retry, no_fuel,
}
use partitionctl.Executor.Hoare.{After, Keeps-world}
use partitionctl.Executor.Attempt.{States, run_node}
use partitionctl.Executor.Run.{
  StopReason, completed, RunResult, status_of, set_status, stop_requested, world_of, ending_of,
  ending_before, run_found, run_pending, run_nodes,
}
use partitionctl.Executor.Safety.Nodes.{run_node-Runs}
use partitionctl.Executor.Safety.Runs.{
  Agrees, AtNode, world_of-AtNode, InvOf, entered, find_node_id, status_of-set_status,
}
use partitionctl.Executor.Safety.Loop.{found-Good, stop_requested-Keeps}

module _ (cfg : Config) (ports : Ports) (run : Str) (plan : Plan) (before : Str → NodeState) where
  abbrev Ok : States → Trace → Type 0
  Ok = Agrees cfg ports run plan before

  abbrev pub IsDone : States → Str → Type 0
  IsDone states id = is_complete (status_of states id).state ≡ true

  -- What becomes of the node `id` at its turn: the run ends there, or the rest of the loop goes on
  -- with the node complete.
  data Turn (states : States) (id : Str) (go : States → Trace → RunResult)
      : RunResult → Type 0 where
    ended :
        (r : RunResult) (s : NodeStatus)
        → r.ending ≢ completed
        → (r.states ≡ states) ⊎ (r.states ≡ set_status states id s)
        → Turn states id go r
    went_on :
        (s : NodeStatus) (t : Trace)
        → is_complete s.state ≡ true
        → Ok (set_status states id s) t
        → Turn states id go (go (set_status states id s) t)

  Turn-of :
      (states : States) (id : Str) (go : States → Trace → RunResult) (reply : Reply Unit)
      (s : NodeStatus) (t : Trace)
      → (reply ≡ returned tt → is_complete s.state ≡ true)
      → Ok (set_status states id s) t
      → Turn states id go (elim (ending_of cfg ports run plan id reply) [
        | none ↦ go (set_status states id s) t
        | some e ↦ record { ending = e; states = set_status states id s; trace = t }
      ])
  unfolding ending_of
  Turn-of states id go (returned u) s t c a = went_on s t (c refl) a
  Turn-of states id go (halted (Halt.failed x)) s t c a = ended _ s (λ p. cc p) (inr refl)
  Turn-of states id go (halted stopped) s t c a = ended _ s (λ p. cc p) (inr refl)
  Turn-of states id go (halted unsafe_retry) s t c a = ended _ s (λ p. cc p) (inr refl)
  Turn-of states id go (halted no_fuel) s t c a = ended _ s (λ p. cc p) (inr refl)

  closed :
      (reply : Reply Unit) (w : World) (E : World → Type 0)
      → After (λ u v. E v × (v.status.state ≡ done)) E (reply, w)
      → reply ≡ returned tt
      → is_complete w.status.state ≡ true
  unfolding is_complete
  closed (returned u) w E p e = ap (λ s. is_complete s) p.1
  closed (halted h) w E p e = cc e

  found-Turn :
      (fuel : ℕ) (id : Str) (n : Node) (states : States) (w : World)
      (go : States → Trace → RunResult)
      → node_by_id plan id ≡ some n
      → AtNode cfg ports run plan before states id w
      → Turn states id go (run_found cfg ports run plan fuel id n states w go)
  unfolding run_found node_by_id
  found-Turn fuel id n states w go known p =
      let same : n.id ≡ id = find_node_id plan.nodes id n known in
      Turn-of states id go (run_node cfg ports run plan n fuel states w).0 _ _
        (closed (run_node cfg ports run plan n fuel states w).0
          (run_node cfg ports run plan n fuel states w).1 (InvOf cfg ports run plan before states n)
          ((run_node-Runs cfg ports run plan before n (λ j. (status_of states j).state)
              (ap (node_by_id plan) same ∙ known) fuel states).ends
            w (entered cfg ports run plan before states id n w same p)))
        (found-Good cfg ports run plan before fuel id n states w known p)

  boundary-Turn :
      (fuel : ℕ) (id : Str) (states : States) (go : States → Trace → RunResult)
      (reply : Reply (Option StopReason)) (w : World) (o : Option Node)
      → node_by_id plan id ≡ o
      → AtNode cfg ports run plan before states id w
      → Turn states id go (elim (ending_before cfg ports run plan reply o) [
        | some e ↦ record { ending = e; states = states; trace = w.trace }
        | none ↦ elim o [
          | none ↦ record { ending = completed; states = states; trace = w.trace }
          | some n ↦ run_found cfg ports run plan fuel id n states w go
        ]
      ])
  unfolding ending_before
  boundary-Turn fuel id states go (returned (some r)) w o e p =
      ended _ (status_of states id) (λ q. cc q) (inl refl)
  boundary-Turn fuel id states go (returned none) w none e p =
      ended _ (status_of states id) (λ q. cc q) (inl refl)
  boundary-Turn fuel id states go (returned none) w (some n) e p =
      found-Turn fuel id n states w go e p
  boundary-Turn fuel id states go (halted h) w o e p =
      ended _ (status_of states id) (λ q. cc q) (inl refl)

  pending-Turn :
      (fuel : ℕ) (id : Str) (states : States) (h : Trace) (go : States → Trace → RunResult)
      → Ok states h
      → Turn states id go (run_pending cfg ports run plan fuel id states h go)
  unfolding run_pending
  pending-Turn fuel id states h go a =
      boundary-Turn fuel id states go
        (stop_requested cfg ports run plan (world_of cfg ports run plan states id h)).0
        (stop_requested cfg ports run plan (world_of cfg ports run plan states id h)).1
        (node_by_id plan id) refl
        (Keeps-world (AtNode cfg ports run plan before states id)
          (stop_requested-Keeps cfg ports run plan before states id) _
          (world_of-AtNode cfg ports run plan before states id h a))

  -- A complete node is another than the one that is written.
  written-IsDone :
      (states : States) (id j : Str) (s : NodeStatus)
      → is_complete (status_of states id).state ≡ false
      → IsDone states j
      → IsDone (set_status states id s) j
  written-IsDone states id j s h d = elim (Bool-cases (str_eq id j)) [
    | inl same ↦
        let e : id ≡ j = (str_eq_iff id j).0 same in
        absurd (cc (h, d, ap (λ i. is_complete (status_of states i).state) e))
    | inr diff ↦ ap (λ t. is_complete t.state) (status_of-set_status states id j s) ∙ (rw diff d)
  ]

  set_status-IsDone :
      (states : States) (id : Str) (s : NodeStatus)
      → is_complete s.state ≡ true
      → IsDone (set_status states id s) id
  set_status-IsDone states id s c =
      ap (λ t. is_complete t.state) (status_of-set_status states id id s) ∙ (rw (str_eq_refl id) c)

  Turn-IsDone :
      (states : States) (id j : Str) (go : States → Trace → RunResult) (r : RunResult)
      → Turn states id go r
      → is_complete (status_of states id).state ≡ false
      → IsDone states j
      → ((s : States) (t : Trace) → Ok s t → IsDone s j → IsDone (go s t).states j)
      → IsDone r.states j
  Turn-IsDone states id j go r (ended _ s e (inl q)) h d k =
      ap (λ x. is_complete (status_of x j).state) q ∙ d
  Turn-IsDone states id j go r (ended _ s e (inr q)) h d k =
      ap (λ x. is_complete (status_of x j).state) q ∙ written-IsDone states id j s h d
  Turn-IsDone states id j go r (went_on s t c a) h d k = k _ t a (written-IsDone states id j s h d)

  -- A node that is complete stays so.
  run_nodes-IsDone :
      (fuel : ℕ) (ids : List Str) (states : States) (h : Trace) (j : Str)
      → Ok states h
      → IsDone states j
      → IsDone (run_nodes cfg ports run plan fuel ids states h).states j
  unfolding run_nodes
  run_nodes-IsDone fuel [] states h j a d = d
  run_nodes-IsDone fuel (id ∷ ids) states h j a d =
      elim (Bool-cases (is_complete (status_of states id).state)) [
        | inl yes_complete ↦ rw yes_complete (run_nodes-IsDone fuel ids states h j a d)
        | inr not_complete ↦ rw not_complete (
            Turn-IsDone states id j _ _ (pending-Turn fuel id states h _ a) not_complete d
              (λ s t b c. run_nodes-IsDone fuel ids s t j b c))
      ]

  abbrev Finishes : List Str → RunResult → Type 0
  Finishes ids r = r.ending ≡ completed → All (IsDone r.states) ids

  Turn-Finishes :
      (fuel : ℕ) (states : States) (id : Str) (ids : List Str) (r : RunResult)
      → Turn states id (λ s t. run_nodes cfg ports run plan fuel ids s t) r
      → ((s : States) (t : Trace)
          → Ok s t
          → Finishes ids (run_nodes cfg ports run plan fuel ids s t))
      → Finishes (id ∷ ids) r
  Turn-Finishes fuel states id ids r (ended _ s e q) k c = absurd (e c)
  Turn-Finishes fuel states id ids r (went_on s t d a) k c =
      (run_nodes-IsDone fuel ids _ t id a (set_status-IsDone states id s d), k _ t a c)

  skipped :
      (fuel : ℕ) (id : Str) (ids : List Str) (states : States) (h : Trace)
      → is_complete (status_of states id).state ≡ true
      → run_nodes cfg ports run plan fuel (id ∷ ids) states h
        ≡ run_nodes cfg ports run plan fuel ids states h
  unfolding run_nodes
  skipped fuel id ids states h e = rw e

  taken :
      (fuel : ℕ) (id : Str) (ids : List Str) (states : States) (h : Trace)
      → is_complete (status_of states id).state ≡ false
      → run_nodes cfg ports run plan fuel (id ∷ ids) states h
        ≡ run_pending cfg ports run plan fuel id states h
            (λ s t. run_nodes cfg ports run plan fuel ids s t)
  unfolding run_nodes
  taken fuel id ids states h e = rw e

  -- Where the loop over an order ends by itself, every node of the order is DONE or SKIPPED in the
  -- executor's map, provided that it starts with a safe trace and with the states that were recorded
  -- last.
  pub run_nodes-All :
      (fuel : ℕ) (ids : List Str) (states : States) (h : Trace)
      → Agrees cfg ports run plan before states h
      → (run_nodes cfg ports run plan fuel ids states h).ending ≡ completed
      → All
          (λ id.
            is_complete (status_of (run_nodes cfg ports run plan fuel ids states h).states id).state
            ≡ true)
          ids
  run_nodes-All fuel [] states h a = λ c. tt
  run_nodes-All fuel (id ∷ ids) states h a =
      elim (Bool-cases (is_complete (status_of states id).state)) [
        | inl yes_complete ↦
            subst (Finishes (id ∷ ids)) (sym (skipped fuel id ids states h yes_complete)) (λ c. (
              run_nodes-IsDone fuel ids states h id a yes_complete,
              run_nodes-All fuel ids states h a c,
            ))
        | inr not_complete ↦
            subst (Finishes (id ∷ ids)) (sym (taken fuel id ids states h not_complete)) (
              Turn-Finishes fuel states id ids _ (pending-Turn fuel id states h _ a)
                (λ s t b. run_nodes-All fuel ids s t b))
      ]
