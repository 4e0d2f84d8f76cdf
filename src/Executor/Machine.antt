-- ===== src/Executor/Machine.antt =====
-- The actions of the executor: functions of the trace and of the status of the node at hand, which
-- return a value or halt. Each port is called by one action, which records the call.
use partitionctl.Base.{ℕ, ◌∷◌, Str, none, some, Option, ℤ}
use partitionctl.Protocol.Errors.{GoError, Result, ok, err, wrap, err_checkpoint_failed}
use partitionctl.Protocol.NodeState.{NodeState, TransitionReason, check_transition}
use partitionctl.Protocol.Node.{Node}
use partitionctl.Executor.Port.{
  Trace, Event, checkpoint, granted, audited, executed, queried, slept, Ports, Statement,
  Transition, AuthorizationRecord, AuditEvent, AuditEventType,
}

-- `nodeStatus`: the executor's own view of a node.
pub record NodeStatus : Type 0 where
  pub state : NodeState
  pub attempts : ℕ
  pub attempts_this_run : ℕ

pub record World : Type 0 where
  pub trace : Trace
  pub status : NodeStatus

-- Why an action halts: an error, or one of the internal signals `errStopped` and `errUnsafeRetry`.
-- `no_fuel` is the model's own.
pub data Halt : Type 0 where
  failed : GoError → Halt
  stopped unsafe_retry no_fuel : Halt

pub data Reply (A : Type 0) : Type 0 where
  returned : A → Reply A
  halted : Halt → Reply A

abbrev pub Act : Type 0 → Type 0
Act A = World → Reply A × World

abbrev pub continue : {A B : Type 0} → Reply A × World → (A → Act B) → Reply B × World
continue (returned a, w) f = f a w
continue (halted h, w) f = (halted h, w)

infixl 5 ◌>>=◌
abbrev pub ◌>>=◌ : {A B : Type 0} → Act A → (A → Act B) → Act B
(m >>= f) w = continue (m w) f

infixl 5 ◌>>◌
abbrev pub ◌>>◌ : {A B : Type 0} → Act A → Act B → Act B
(m >> k) w = continue (m w) (λ _. k)

abbrev pub done_with : {A : Type 0} → A → Act A
done_with a w = (returned a, w)

abbrev pub halt : {A : Type 0} → Halt → Act A
halt h w = (halted h, w)

abbrev pub fail : {A : Type 0} → GoError → Act A
fail e = halt (failed e)

abbrev pub from_result : {A : Type 0} → Result A → Act A
from_result (ok a) = done_with a
from_result (err e) = fail e

abbrev pub from_error : Option GoError → Act Unit
from_error none = done_with tt
from_error (some e) = fail e

-- `if err := action; err != nil { return ErrCheckpointFailed.Wrap(err) }`.
abbrev pub as_checkpoint : Option GoError → Act Unit
as_checkpoint none = done_with tt
as_checkpoint (some e) = fail (wrap err_checkpoint_failed e)

abbrev pub note : Event → World → World
note e w = record w { trace = e ∷ w.trace }

-- The body runs and its outcome is an error or none, as for a call that returns `error`.
abbrev pub outcome : Reply Unit × World → Reply (Option Halt) × World
outcome (returned u, w) = (returned none, w)
outcome (halted h, w) = (returned (some h), w)

abbrev pub attempt : Act Unit → Act (Option Halt)
attempt m w = outcome (m w)

-- The failure is ignored: `_ = action`.
abbrev pub best_effort : Act Unit → Act Unit
best_effort m w = (returned tt, (m w).1)

module _ (ports : Ports) (run : Str) where
  unfoldable pub query : {A : Type 0} → (Trace → Result A) → Act A
  query answer w = from_result (answer w.trace) (note queried w)

  unfoldable pub exec : Statement → Act Unit
  exec s w = let e = ports.exec w.trace s in from_error e (note (executed s e) w)

  unfoldable pub sleep : ℤ → Act Unit
  sleep d w = let e = ports.sleep w.trace d in from_error e (note (slept d e) w)

  -- `audit`.
  unfoldable pub audit : Str → AuditEventType → Act Unit
  audit node t w =
      let a : AuditEvent = record { run = run; node = node; type' = t } in
      let e = ports.append_audit w.trace a in as_checkpoint e (note (audited a e) w)

  unfoldable pub record_authorization : AuthorizationRecord → Act Unit
  record_authorization r w =
      let e = ports.record_authorization w.trace r in as_checkpoint e (note (granted r e) w)

  -- The checkpoint itself; only a recorded one advances the view of the node.
  unfoldable pub commit : Transition → Act Unit
  commit t w =
      let e = ports.record_transition w.trace t in
      (as_checkpoint e >> λ v.
      (returned tt, record v { status = record v.status { state = t.to } }))
        (note (checkpoint t e) w)

  -- `transition`.
  unfoldable pub transition : Node → NodeState → TransitionReason → Option GoError → Act Unit
  transition n to reason error w =
      (from_error (check_transition w.status.state to reason)
          >> commit (record {
            run = run;
            node = n.id;
            kind = n.kind;
            from = w.status.state;
            to = to;
            reason = reason;
            attempts = w.status.attempts;
            error = error;
            at = ports.now w.trace;
          }))
        w
