-- ===== src/Executor/Safety/Actions.antt =====
-- The actions of one node keep the trace safe and the view of the node up to date.
use partitionctl.Base.{◌≡◌, ◌≢◌, sym, ap, ◌∙◌, true, Str, some, Option, ℤ}
use partitionctl.Protocol.Errors.{GoError, Result}
use partitionctl.Protocol.NodeKind.{is_destructive}
use partitionctl.Protocol.NodeState.{NodeState, running}
use partitionctl.Protocol.Node.{Node}
use partitionctl.Protocol.Plan.{Plan, node_by_id}
use partitionctl.Executor.Port.{
  Ports, Trace, audited, executed, queried, slept, Statement, AuditEvent, AuditEventType,
}
use partitionctl.Executor.Machine.{World, note, query, exec, sleep, audit}
use partitionctl.Executor.Hoare.{Keeps, from_result-Keeps, from_error-Keeps, as_checkpoint-Keeps}
use partitionctl.Executor.Safety.{state_in, is_authorized, Safe}

-- `P` does not depend on the events that change nothing.
pub record Stable (P : World → Type 0) : Type 0 where
  pub on_query : (w : World) → P w → P (note queried w)
  pub on_audit : (w : World) (a : AuditEvent) (e : Option GoError) → P w → P (note (audited a e) w)
  pub on_sleep : (w : World) (d : ℤ) (e : Option GoError) → P w → P (note (slept d e) w)

module _ (ports : Ports) (run : Str) {P : World → Type 0} (stable : Stable P) where
  pub query-Keeps : {A : Type 0} (answer : Trace → Result A) → Keeps P (query ports run answer)
  unfolding query
  query-Keeps answer = record {
    ends =
        λ w p. (from_result-Keeps P (answer w.trace)).ends (note queried w) (stable.on_query w p);
  }

  pub sleep-Keeps : (d : ℤ) → Keeps P (sleep ports run d)
  unfolding sleep
  sleep-Keeps d = record {
    ends = λ w p.
        (from_error-Keeps P (ports.sleep w.trace d)).ends (note (slept d _) w)
          (stable.on_sleep w d _ p);
  }

  pub audit-Keeps : (node : Str) (t : AuditEventType) → Keeps P (audit ports run node t)
  unfolding audit
  audit-Keeps node t = record {
    ends = λ w p. (as_checkpoint-Keeps P _).ends (note (audited _ _) w) (stable.on_audit w _ _ p);
  }

module _ (ports : Ports) (run : Str) (plan : Plan) (before : Str → NodeState) (n : Node)
    (after : Str → NodeState) where
  -- The trace is safe, the executor's view of the node is what was recorded last, and the other
  -- nodes are where they were.
  pub record Inv (w : World) : Type 0 where
    pub safe : Safe plan before w.trace
    pub view : w.status.state ≡ state_in before n.id w.trace
    pub others : (j : Str) → n.id ≢ j → state_in before j w.trace ≡ after j

  pub Inv-Stable : Stable Inv
  unfolding state_in
  Inv-Stable = record {
    on_query = λ w p. record { safe = p.safe; view = p.view; others = p.others };
    on_audit = λ w a e p. record { safe = p.safe; view = p.view; others = p.others };
    on_sleep = λ w d e p. record { safe = p.safe; view = p.view; others = p.others };
  }

  -- A destructive node has its authorization on record.
  pub record Cleared (w : World) : Type 0 where
    pub inv : Inv w
    pub permitted : is_destructive n.kind ≡ true → is_authorized n w.trace ≡ true

  pub Cleared-Stable : Stable Cleared
  unfolding is_authorized
  Cleared-Stable = record {
    on_query = λ w p. record { inv = Inv-Stable.on_query w p.inv; permitted = p.permitted };
    on_audit = λ w a e p. record { inv = Inv-Stable.on_audit w a e p.inv; permitted = p.permitted };
    on_sleep = λ w d e p. record { inv = Inv-Stable.on_sleep w d e p.inv; permitted = p.permitted };
  }

  -- And it is recorded as RUNNING: its statements may be sent.
  pub record Armed (w : World) : Type 0 where
    pub cleared : Cleared w
    pub is_running : w.status.state ≡ running

  pub Armed-Stable : Stable Armed
  Armed-Stable = record {
    on_query =
        λ w p. record { cleared = Cleared-Stable.on_query w p.cleared; is_running = p.is_running };
    on_audit = λ w a e p. record {
      cleared = Cleared-Stable.on_audit w a e p.cleared;
      is_running = p.is_running;
    };
    on_sleep = λ w d e p. record {
      cleared = Cleared-Stable.on_sleep w d e p.cleared;
      is_running = p.is_running;
    };
  }

  module _ (known : node_by_id plan n.id ≡ some n) where
    sent :
        (w : World) (s : Statement) (e : Option GoError)
        → s.node ≡ n.id
        → Armed w
        → Armed (note (executed s e) w)
    unfolding state_in is_authorized
    sent w s e same p = record {
      cleared = record {
        inv = record {
          safe = (
            record {
              node = n;
              of_plan = ap (node_by_id plan) same ∙ known;
              is_running =
                  ap (λ i. state_in before i w.trace) same ∙ sym p.cleared.inv.view ∙ p.is_running;
              is_permitted = p.cleared.permitted;
            },
            p.cleared.inv.safe,
          );
          view = p.cleared.inv.view;
          others = p.cleared.inv.others;
        };
        permitted = p.cleared.permitted;
      };
      is_running = p.is_running;
    }

    pub exec-Keeps : (s : Statement) → s.node ≡ n.id → Keeps Armed (exec ports run s)
    unfolding exec
    exec-Keeps s same = record {
      ends = λ w p.
          (from_error-Keeps Armed (ports.exec w.trace s)).ends (note (executed s _) w)
            (sent w s _ same p);
    }
