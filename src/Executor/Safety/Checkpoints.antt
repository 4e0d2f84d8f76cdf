-- ===== src/Executor/Safety/Checkpoints.antt =====
-- Transitions and recorded authorizations.
use partitionctl.Base.{
  ◌≡◌, ◌≢◌, refl, ◌∙◌, Bool, true, false, ◌∷◌, Str, str_eq, str_eq_iff, none, some, Option, arith,
  Bool-cases, Option-cases, inl, inr,
}
use partitionctl.Protocol.Errors.{GoError, ok}
use partitionctl.Protocol.NodeState.{
  NodeState, running, state_eq, valid_transition, check_transition, TransitionReason, normal,
}
use partitionctl.Protocol.ObjectName.{object_eq_iff}
use partitionctl.Protocol.Node.{Node}
use partitionctl.Protocol.Plan.{Plan}
use partitionctl.Executor.Port.{Ports, checkpoint, granted, Transition, AuthorizationRecord}
use partitionctl.Executor.Machine.{
  World, Reply, returned, halted, note, record_authorization, commit, transition,
}
use partitionctl.Executor.Hoare.{After, Runs}
use partitionctl.Executor.Authorize.{destructive_object}
use partitionctl.Executor.Safety.{state_in, is_authorized, MayRecord}
use partitionctl.Executor.Safety.Actions.{Inv, Cleared, Armed}

module _ (ports : Ports) (run : Str) (plan : Plan) (before : Str → NodeState) (n : Node)
    (after : Str → NodeState) where
  abbrev I : World → Type 0
  I = Inv ports run plan before n after

  refused-Inv :
      (w : World) (t : Transition) (e : GoError)
      → MayRecord plan before w.trace t
      → I w
      → I (note (checkpoint t (some e)) w)
  unfolding state_in
  refused-Inv w t e m p = record { safe = (m, p.safe); view = p.view; others = p.others }

  -- The world after a transition that was recorded.
  abbrev moved : World → Transition → World
  moved w t = record w {
    trace = checkpoint t none ∷ w.trace;
    status = record w.status { state = t.to };
  }

  moved-Inv :
      (w : World) (t : Transition)
      → t.node ≡ n.id
      → MayRecord plan before w.trace t
      → I w
      → I (moved w t)
  unfolding state_in
  moved-Inv w t same m p = record {
    safe = (m, p.safe);
    view = rw ((str_eq_iff t.node n.id).1 same);
    others = λ j d. rw (other j d) (p.others j d);
  }
    where
      other : (j : Str) → n.id ≢ j → str_eq t.node j ≡ false
      other j d = ground (arith, str_eq_iff t.node j)

  -- What a transition leaves: the invariant, the new state, and, where that is RUNNING, the
  -- authorization on record.
  pub record Moved (to : NodeState) (cleared : Bool) (w : World) : Type 0 where
    pub inv : I w
    pub arrived : w.status.state ≡ to
    pub keeps_grant : state_eq to running ≡ true → cleared ≡ true → is_authorized n w.trace ≡ true

  moved-grant :
      (w : World) (t : Transition)
      → t.node ≡ n.id
      → state_eq t.to running ≡ true
      → is_authorized n (moved w t).trace ≡ is_authorized n w.trace
  unfolding is_authorized
  moved-grant w t same r = rw ((str_eq_iff t.node n.id).1 same, r)

  commit-After :
      (w : World) (t : Transition)
      → t.node ≡ n.id
      → MayRecord plan before w.trace t
      → I w
      → After (λ u. Moved t.to (is_authorized n w.trace)) I (commit ports run t w)
  unfolding commit
  commit-After w t same m p = elim (Option-cases (ports.record_transition w.trace t)) [
    | inl yes_recorded ↦ rw yes_recorded (record {
      inv = moved-Inv w t same m p;
      arrived = refl;
      keeps_grant = λ r c. moved-grant w t same r ∙ c;
    })
    | inr (e, not_recorded) ↦ rw not_recorded (refused-Inv w t e m p)
  ]

  pub transition-After :
      (to : NodeState) (reason : TransitionReason) (error : Option GoError) (w : World)
      → I w
      → After (λ u. Moved to (is_authorized n w.trace)) I (transition ports run n to reason error w)
  unfolding transition check_transition
  transition-After to reason error w p =
      elim (Bool-cases (valid_transition w.status.state to reason)) [
        | inl valid ↦
            rw valid (commit-After w _ refl (record { is_edge = valid; is_current = p.view }) p)
        | inr invalid ↦ rw invalid p
      ]

  -- A transition ends in its state, or halts the node.
  pub transition-Runs :
      (to : NodeState) (reason : TransitionReason) (error : Option GoError)
      → Runs I (λ u w. I w × (w.status.state ≡ to)) I (transition ports run n to reason error)
  transition-Runs to reason error = record {
    ends = λ w p.
        settle _ (transition ports run n to reason error w) (transition-After to reason error w p);
  }
    where
      settle :
          (b : Bool) (r : Reply Unit × World)
          → After (λ u. Moved to b) I r
          → After (λ u w. I w × (w.status.state ≡ to)) I r
      settle b (returned u, w) m = (m.inv, m.arrived)
      settle b (halted x, w) m = m

  abbrev C : World → Type 0
  C = Cleared ports run plan before n after

  -- With the authorization on record the transition to RUNNING arms the node.
  pub transition-Armed :
      Runs C
        (λ u. Armed ports run plan before n after)
        I
        (transition ports run n running normal none)
  transition-Armed = record {
    ends = λ w p.
        settle w p (transition ports run n running normal none w)
          (transition-After running normal none w p.inv);
  }
    where
      settle :
          (v : World)
          → C v
          → (r : Reply Unit × World) → After (λ u. Moved running (is_authorized n v.trace)) I r
          → After (λ u. Armed ports run plan before n after) I r
      settle v p (returned u, w) m = record {
        cleared = record {
          inv = m.inv;
          permitted = λ d. m.keeps_grant (unfold state_eq in refl) (p.permitted d);
        };
        is_running = m.arrived;
      }
      settle v p (halted x, w) m = m

  granted-Inv :
      (w : World) (r : AuthorizationRecord) (e : Option GoError) → I w → I (note (granted r e) w)
  unfolding state_in
  granted-Inv w r e p = record { safe = p.safe; view = p.view; others = p.others }

  -- The authorization of the node for what it destroys is on record once it was recorded.
  pub record_authorization-Runs :
      (r : AuthorizationRecord)
      → r.node ≡ n.id
      → destructive_object n.kind n.params ≡ ok r.object
      → Runs I (λ u. C) I (record_authorization ports run r)
  unfolding record_authorization is_authorized
  record_authorization-Runs r same target = record {
    ends = λ w p. elim (Option-cases (ports.record_authorization w.trace r)) [
      | inl yes_recorded ↦ rw yes_recorded (record {
        inv = granted-Inv w r none p;
        permitted = λ d.
            rw ((str_eq_iff r.node n.id).1 same, target, (object_eq_iff r.object r.object).1 refl);
      })
      | inr (e, not_recorded) ↦ rw not_recorded (granted-Inv w r (some e) p)
    ];
  }
