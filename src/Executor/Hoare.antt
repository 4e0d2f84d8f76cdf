-- ===== src/Executor/Hoare.antt =====
-- Pre- and postconditions of the executor's actions, with one rule for each way to combine them.
use partitionctl.Base.{◌≡◌, refl, Bool, true, false, none, some, Option, if◌then◌else◌}
use partitionctl.Protocol.Errors.{GoError, Result, ok, err}
use partitionctl.Executor.Machine.{
  World, Act, Reply, returned, halted, Halt, continue, ◌>>=◌, ◌>>◌, done_with, halt, from_result,
  from_error, as_checkpoint, best_effort, attempt, outcome,
}

-- `Q` of what is returned, `E` of the world in which the action halts.
abbrev pub After : {A : Type 0} → (A → World → Type 0) → (World → Type 0) → Reply A × World → Type 0
After Q E (returned a, w) = Q a w
After Q E (halted h, w) = E w

-- From a world that satisfies `P` the action ends as `Q` and `E` say.
pub record Runs {A : Type 0} (P : World → Type 0) (Q : A → World → Type 0) (E : World → Type 0)
    (m : Act A) : Type 0 where
  pub ends : (w : World) → P w → After Q E (m w)

-- The action keeps `P`, however it ends.
abbrev pub Keeps : {A : Type 0} → (World → Type 0) → Act A → Type 0
Keeps P m = Runs P (λ a. P) P m

continue-After :
    {A B : Type 0} (R : A → World → Type 0) (Q : B → World → Type 0) (E : World → Type 0)
    (f : A → Act B) (r : Reply A × World)
    → After R E r
    → ((a : A) → Runs (R a) Q E (f a))
    → After Q E (continue r f)
continue-After R Q E f (returned a, w) h k = (k a).ends w h
continue-After R Q E f (halted x, w) h k = h

weaken-After :
    {A : Type 0} (Q Q' : A → World → Type 0) (E E' : World → Type 0) (r : Reply A × World)
    → ((a : A) (w : World) → Q a w → Q' a w)
    → ((w : World) → E w → E' w)
    → After Q E r
    → After Q' E' r
weaken-After Q Q' E E' (returned a, w) q e h = q a w h
weaken-After Q Q' E E' (halted x, w) q e h = e w h

module _ {A B : Type 0} {P : World → Type 0} {E : World → Type 0} {R : A → World → Type 0}
    {Q : B → World → Type 0} where
  pub Runs-bind :
      {m : Act A} {f : A → Act B}
      → Runs P R E m
      → ((a : A) → Runs (R a) Q E (f a))
      → Runs P Q E (m >>= f)
  Runs-bind {m} {f} h k = record { ends = λ w p. continue-After R Q E f (m w) (h.ends w p) k }

  pub Runs-then :
      {m : Act A} {k : Act B} → Runs P R E m → ((a : A) → Runs (R a) Q E k) → Runs P Q E (m >> k)
  Runs-then {m} {k} h c = record {
    ends = λ w p. continue-After R Q E (λ a. k) (m w) (h.ends w p) c;
  }

module _ {A : Type 0} {P : World → Type 0} {Q : A → World → Type 0} {E : World → Type 0} where
  -- The branch that is taken runs, with what is known of its test.
  pub Runs-if :
      {a b : Act A} (t : Bool)
      → (t ≡ true → Runs P Q E a)
      → (t ≡ false → Runs P Q E b)
      → Runs P Q E (if t then a else b)
  Runs-if true ha hb = ha refl
  Runs-if false ha hb = hb refl

  pub Runs-weaken :
      {P' : World → Type 0} {Q' : A → World → Type 0} {E' : World → Type 0} {m : Act A}
      → Runs P Q E m
      → ((w : World) → P' w → P w)
      → ((a : A) (w : World) → Q a w → Q' a w)
      → ((w : World) → E w → E' w)
      → Runs P' Q' E' m
  Runs-weaken {Q' = Q'} {E' = E'} {m = m} h p q e = record {
    ends = λ w x. weaken-After Q Q' E E' (m w) q e (h.ends w (p w x));
  }

  -- An action that depends on the world in which it starts.
  pub Runs-at : {m : World → Act A} → ((v : World) → Runs P Q E (m v)) → Runs P Q E (λ w. m w w)
  Runs-at h = record { ends = λ w p. (h w).ends w p }

module _ (P : World → Type 0) where
  pub done_with-Keeps : {A : Type 0} (a : A) → Keeps P (done_with a)
  done_with-Keeps a = record { ends = λ w p. p }

  pub halt-Keeps : {A : Type 0} (h : Halt) → Keeps P (halt {A = A} h)
  halt-Keeps h = record { ends = λ w p. p }

  pub from_result-Keeps : {A : Type 0} (r : Result A) → Keeps P (from_result r)
  from_result-Keeps (ok a) = record { ends = λ w p. p }
  from_result-Keeps (err e) = record { ends = λ w p. p }

  pub from_error-Keeps : (e : Option GoError) → Keeps P (from_error e)
  from_error-Keeps none = record { ends = λ w p. p }
  from_error-Keeps (some e) = record { ends = λ w p. p }

  pub as_checkpoint-Keeps : (e : Option GoError) → Keeps P (as_checkpoint e)
  as_checkpoint-Keeps none = record { ends = λ w p. p }
  as_checkpoint-Keeps (some e) = record { ends = λ w p. p }

  kept : {A : Type 0} (r : Reply A × World) → After (λ a. P) P r → P r.1
  kept (returned a, w) h = h
  kept (halted x, w) h = h

  outcome-After : (r : Reply Unit × World) → P r.1 → After (λ a. P) P (outcome r)
  outcome-After (returned u, w) p = p
  outcome-After (halted x, w) p = p

  -- The world after the action satisfies `P`, whatever it replies.
  pub Keeps-world : {A : Type 0} {m : Act A} → Keeps P m → (w : World) → P w → P (m w).1
  Keeps-world {m = m} h w p = kept (m w) (h.ends w p)

  pub best_effort-Keeps : {m : Act Unit} → Keeps P m → Keeps P (best_effort m)
  best_effort-Keeps h = record { ends = λ w p. Keeps-world h w p }

  pub attempt-Keeps : {m : Act Unit} → Keeps P m → Keeps P (attempt m)
  attempt-Keeps {m} h = record { ends = λ w p. outcome-After (m w) (Keeps-world h w p) }

module _ {P : World → Type 0} {A : Type 0} {Q : A → World → Type 0} where
  pub halt-Runs : (h : Halt) → Runs P Q P (halt {A = A} h)
  halt-Runs h = record { ends = λ w p. p }
