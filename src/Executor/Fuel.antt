-- ===== src/Executor/Fuel.antt =====
-- Actions that leave the count of attempts alone and do not run out of fuel.
pub mod Steps
pub mod Rounds
use partitionctl.Base.{
  ℕ, ◌≡◌, ◌≢◌, refl, ◌∙◌, Bool, true, false, List, [], ◌∷◌, Str, none, some, Option, if◌then◌else◌,
  ℤ,
}
use mathlib.Core.Path.{subst}
use partitionctl.Protocol.Errors.{GoError, Result, ok, err}
use partitionctl.Protocol.NodeState.{NodeState, TransitionReason, check_transition}
use partitionctl.Protocol.Node.{Node}
use partitionctl.Executor.Port.{
  Ports, Trace, Statement, Transition, AuthorizationRecord, AuditEventType, Event, queried,
}
use partitionctl.Executor.Machine.{
  World, Act, Reply, returned, halted, Halt, failed, no_fuel, continue, ◌>>=◌, ◌>>◌, done_with,
  halt, fail, from_result, from_error, as_checkpoint, best_effort, attempt, outcome, note, query,
  exec, sleep, audit, record_authorization, commit, transition,
}

-- The count of attempts is still `k`, a value satisfies `Q`, and a halt is not for want of fuel.
abbrev pub Within : {A : Type 0} → (ℕ → A → Type 0) → ℕ → Reply A × World → Type 0
Within Q k (returned a, w) = (w.status.attempts_this_run ≡ k) × Q k a
Within Q k (halted h, w) = (w.status.attempts_this_run ≡ k) × (h ≢ no_fuel)

pub record Bounded {A : Type 0} (Q : ℕ → A → Type 0) (m : Act A) : Type 0 where
  pub ends : (w : World) → Within Q w.status.attempts_this_run (m w)

-- Nothing is known of the value.
abbrev pub Any : {A : Type 0} → ℕ → A → Type 0
Any k a = Unit

-- The error of a call, or none.
abbrev pub HasFuel : ℕ → Option Halt → Type 0
HasFuel k none = Unit
HasFuel k (some h) = h ≢ no_fuel

failed_fuel : (e : GoError) → failed e ≢ no_fuel
failed_fuel e p = cc p

moved-Within :
    {A : Type 0} (Q : ℕ → A → Type 0) (j k : ℕ) (r : Reply A × World)
    → j ≡ k
    → Within Q j r
    → Within Q k r
moved-Within Q j k r e h = subst (λ i. Within Q i r) e h

module _ {A B : Type 0} (R : ℕ → A → Type 0) (Q : ℕ → B → Type 0) where
  -- The rest of a chain, from the count that the first part leaves.
  continue-Within :
      (f : A → Act B) (k : ℕ) (r : Reply A × World)
      → Within R k r
      → ((a : A) (w : World) → w.status.attempts_this_run ≡ k → R k a → Within Q k (f a w))
      → Within Q k (continue r f)
  continue-Within f k (returned a, w) h c = c a w h.0 h.1
  continue-Within f k (halted x, w) h c = h

module _ {A B : Type 0} {R : ℕ → A → Type 0} {Q : ℕ → B → Type 0} where
  pub Bounded-bind :
      {m : Act A} {f : A → Act B}
      → Bounded R m
      → ((a : A) (k : ℕ) → R k a → Bounded Q (f a))
      → Bounded Q (m >>= f)
  Bounded-bind {m} {f} h c = record {
    ends = λ w.
        continue-Within R Q f w.status.attempts_this_run (m w) (h.ends w)
          (λ a v e r. moved-Within Q _ _ (f a v) e ((c a w.status.attempts_this_run r).ends v));
  }

  pub Bounded-then : {m : Act A} {n : Act B} → Bounded R m → Bounded Q n → Bounded Q (m >> n)
  Bounded-then {m} {n} h c = record {
    ends = λ w.
        continue-Within R Q (λ a. n) w.status.attempts_this_run (m w) (h.ends w)
          (λ a v e r. moved-Within Q _ _ (n v) e (c.ends v));
  }

module _ {A : Type 0} {Q : ℕ → A → Type 0} where
  pub Bounded-if :
      {a b : Act A} (t : Bool) → Bounded Q a → Bounded Q b → Bounded Q (if t then a else b)
  Bounded-if true ha hb = ha
  Bounded-if false ha hb = hb

  pub Bounded-at : {m : World → Act A} → ((v : World) → Bounded Q (m v)) → Bounded Q (λ w. m w w)
  Bounded-at h = record { ends = λ w. (h w).ends w }

  pub halt-Bounded : {h : Halt} → h ≢ no_fuel → Bounded Q (halt {A = A} h)
  halt-Bounded d = record { ends = λ w. (refl, d) }

  pub fail-Bounded : (e : GoError) → Bounded Q (fail {A = A} e)
  fail-Bounded e = record { ends = λ w. (refl, failed_fuel e) }

pub done_with-Bounded : {A : Type 0} (a : A) → Bounded Any (done_with a)
done_with-Bounded a = record { ends = λ w. (refl, tt) }

pub from_result-Bounded : {A : Type 0} (r : Result A) → Bounded Any (from_result r)
from_result-Bounded (ok a) = done_with-Bounded a
from_result-Bounded (err e) = fail-Bounded e

pub from_error-Bounded : (e : Option GoError) → Bounded Any (from_error e)
from_error-Bounded none = done_with-Bounded tt
from_error-Bounded (some e) = fail-Bounded e

pub as_checkpoint-Bounded : (e : Option GoError) → Bounded Any (as_checkpoint e)
as_checkpoint-Bounded none = done_with-Bounded tt
as_checkpoint-Bounded (some e) = fail-Bounded _

best_effort-Within :
    (k : ℕ) (r : Reply Unit × World) → Within Any k r → r.1.status.attempts_this_run ≡ k
best_effort-Within k (returned u, w) h = h.0
best_effort-Within k (halted x, w) h = h.0

pub best_effort-Bounded : {m : Act Unit} → Bounded Any m → Bounded Any (best_effort m)
best_effort-Bounded {m} h = record { ends = λ w. (best_effort-Within _ (m w) (h.ends w), tt) }

outcome-Within : (k : ℕ) (r : Reply Unit × World) → Within Any k r → Within HasFuel k (outcome r)
outcome-Within k (returned u, w) h = h
outcome-Within k (halted x, w) h = h

pub attempt-Bounded : {m : Act Unit} → Bounded Any m → Bounded HasFuel (attempt m)
attempt-Bounded {m} h = record { ends = λ w. outcome-Within _ (m w) (h.ends w) }

module _ (ports : Ports) (run : Str) where
  pub query-Bounded : {A : Type 0} (f : Trace → Result A) → Bounded Any (query ports run f)
  unfolding query
  query-Bounded f = record { ends = λ w. (from_result-Bounded (f w.trace)).ends (note queried w) }

  pub exec-Bounded : (s : Statement) → Bounded Any (exec ports run s)
  unfolding exec
  exec-Bounded s = record { ends = λ w. (from_error-Bounded _).ends (note _ w) }

  pub sleep-Bounded : (d : ℤ) → Bounded Any (sleep ports run d)
  unfolding sleep
  sleep-Bounded d = record { ends = λ w. (from_error-Bounded _).ends (note _ w) }

  pub audit-Bounded : (n : Str) (t : AuditEventType) → Bounded Any (audit ports run n t)
  unfolding audit
  audit-Bounded n t = record { ends = λ w. (as_checkpoint-Bounded _).ends (note _ w) }

  pub record_authorization-Bounded :
      (r : AuthorizationRecord) → Bounded Any (record_authorization ports run r)
  unfolding record_authorization
  record_authorization-Bounded r = record { ends = λ w. (as_checkpoint-Bounded _).ends (note _ w) }

  commit-Bounded : (t : Transition) → Bounded Any (commit ports run t)
  unfolding commit
  commit-Bounded t = record {
    ends = λ w.
        (Bounded-then {Q = Any} (as_checkpoint-Bounded (ports.record_transition w.trace t))
            (record { ends = λ v. (refl, tt) })).ends
          (note _ w);
  }

  pub transition-Bounded :
      (n : Node) (to : NodeState) (r : TransitionReason) (e : Option GoError)
      → Bounded Any (transition ports run n to r e)
  unfolding transition
  transition-Bounded n to r e = Bounded-at (λ w.
      Bounded-then (from_error-Bounded (check_transition w.status.state to r)) (commit-Bounded _))
