-- ===== src/Executor/Safety/Runs.antt =====
-- A whole run keeps the trace safe.
use partitionctl.Base.{
  ◌≡◌, refl, sym, ap, ◌∙◌, false, List, [], ◌∷◌, Str, str_eq, str_eq_iff, some, if◌then◌else◌,
  arith, Bool-cases, inl, inr,
}
use partitionctl.Protocol.NodeState.{NodeState}
use partitionctl.Protocol.Node.{Node}
use partitionctl.Protocol.Plan.{Plan, find_node}
use partitionctl.Executor.Port.{Config, Ports, Trace}
use partitionctl.Executor.Machine.{World, NodeStatus}
use partitionctl.Executor.Attempt.{States, find_status}
use partitionctl.Executor.Run.{status_or_initial, status_of, set_status, world_of}
use partitionctl.Executor.Safety.{state_in, Safe}
use partitionctl.Executor.Safety.Actions.{Stable, Inv}

find_status-set_status :
    (states : States) (id j : Str) (s : NodeStatus)
    → find_status (set_status states id s) j
      ≡ (if str_eq id j then some s else find_status states j)
unfolding set_status find_status
find_status-set_status [] id j s = refl
find_status-set_status ((i, t) ∷ states) id j s = elim (Bool-cases (str_eq i id)) [
  | inl same ↦
      let e : i ≡ id = (str_eq_iff i id).0 same in
      rw same
        (elim (Bool-cases (str_eq i j)) [ inl b ↦ rw (b, sym e, b) | inr b ↦ rw (b, sym e, b) ])
  | inr diff ↦ rw diff (elim (Bool-cases (str_eq i j)) [
    | inl b ↦
        let e : str_eq id j ≡ false =
          ground (arith, str_eq_iff i j, str_eq_iff id j, str_eq_iff i id) in
        rw (b, e)
    | inr b ↦ rw (b, find_status-set_status states id j s)
  ])
]

-- The map after a write.
pub status_of-set_status :
    (states : States) (id j : Str) (s : NodeStatus)
    → status_of (set_status states id s) j ≡ (if str_eq id j then s else status_of states j)
unfolding status_of
status_of-set_status states id j s =
    ap (λ o. status_or_initial o) (find_status-set_status states id j s)
    ∙ (elim (Bool-cases (str_eq id j)) [ inl e ↦ rw e | inr e ↦ rw e ])

-- A node is found under its own id.
pub find_node_id :
    (nodes : List Node) (id : Str) (n : Node) → find_node nodes id ≡ some n → n.id ≡ id
unfolding find_node
find_node_id [] id n h = cc h
find_node_id (m ∷ nodes) id n h = elim (Bool-cases (str_eq m.id id)) [
  | inl same ↦
      let e : m ≡ n = cc (rw same at h) in ap (λ k. k.id) (sym e) ∙ (str_eq_iff m.id id).0 same
  | inr diff ↦ find_node_id nodes id n (rw diff at h)
]

module _ (cfg : Config) (ports : Ports) (run : Str) (plan : Plan) (before : Str → NodeState) where
  -- The trace is safe, and the executor's map holds what was recorded last.
  pub record Agrees (states : States) (h : Trace) : Type 0 where
    pub safe : Safe plan before h
    pub views : (j : Str) → (status_of states j).state ≡ state_in before j h

  -- The same while the node `id` of the map is at hand.
  pub record AtNode (states : States) (id : Str) (w : World) : Type 0 where
    pub agrees : Agrees states w.trace
    pub at_hand : w.status ≡ status_of states id

  pub AtNode-Stable : (states : States) (id : Str) → Stable (AtNode states id)
  unfolding state_in
  AtNode-Stable states id = record {
    on_query = λ w p. record {
      agrees = record { safe = p.agrees.safe; views = p.agrees.views };
      at_hand = p.at_hand;
    };
    on_audit = λ w a e p. record {
      agrees = record { safe = p.agrees.safe; views = p.agrees.views };
      at_hand = p.at_hand;
    };
    on_sleep = λ w d e p. record {
      agrees = record { safe = p.agrees.safe; views = p.agrees.views };
      at_hand = p.at_hand;
    };
  }

  pub world_of-AtNode :
      (states : States) (id : Str) (h : Trace)
      → Agrees states h
      → AtNode states id (world_of cfg ports run plan states id h)
  world_of-AtNode states id h a = record { agrees = a; at_hand = refl }

  -- The invariant of a node in terms of the map, and back.
  abbrev pub InvOf : States → Node → World → Type 0
  InvOf states n = Inv ports run plan before n (λ j. (status_of states j).state)

  pub entered :
      (states : States) (id : Str) (n : Node) (w : World)
      → n.id ≡ id
      → AtNode states id w
      → InvOf states n w
  entered states id n w e p = record {
    safe = p.agrees.safe;
    view =
        ap (λ s. s.state) p.at_hand
        ∙ p.agrees.views id
        ∙ ap (λ i. state_in before i w.trace) (sym e);
    others = λ j d. sym (p.agrees.views j);
  }

  pub left_with :
      (states : States) (id : Str) (n : Node) (w : World)
      → n.id ≡ id
      → InvOf states n w
      → Agrees (set_status states id w.status) w.trace
  left_with states id n w e p = record {
    safe = p.safe;
    views = λ j. ap (λ s. s.state) (status_of-set_status states id j w.status) ∙ each j;
  }
    where
      each :
          (j : Str)
          → (if str_eq id j then w.status else status_of states j).state ≡ state_in before j w.trace
      each j = elim (Bool-cases (str_eq id j)) [
        | inl same ↦
            rw same (p.view ∙ ap (λ i. state_in before i w.trace) (e ∙ (str_eq_iff id j).0 same))
        | inr diff ↦
            rw diff (sym (p.others j (λ same. cc ((str_eq_iff id j).1 (sym e ∙ same), diff))))
      ]
