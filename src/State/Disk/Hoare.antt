-- ===== src/State/Disk/Hoare.antt =====
-- Pre- and postconditions of the store's actions, with one rule for each way to combine them, and
-- what each access to the disk leaves as it was.
use partitionctl.Base.{ℕ, ◌≡◌, refl, Bool, true, false, none, some, Option, if◌then◌else◌, ◌∙◌}
use partitionctl.Protocol.Errors.{GoError, Result, ok, err, state_not_found, is_kind}
use partitionctl.State.Disk.{
  Disk, Act, continue, ◌>>=◌, ◌>>◌, done_with, fail, check, lift, absent_or, optional,
}

-- `Q` of what is returned, `E` of the disk on which the action fails.
abbrev pub After : {A : Type 0} → (A → Disk → Type 0) → (Disk → Type 0) → Result A × Disk → Type 0
After Q E (ok a, d) = Q a d
After Q E (err e, d) = E d

-- From a disk that satisfies `P` the action ends as `Q` and `E` say.
pub record Runs {A : Type 0} (P : Disk → Type 0) (Q : A → Disk → Type 0) (E : Disk → Type 0)
    (m : Act A) : Type 0 where
  pub ends : (d : Disk) → P d → After Q E (m d)

-- The action keeps `P`, however it ends.
abbrev pub Keeps : {A : Type 0} → (Disk → Type 0) → Act A → Type 0
Keeps P m = Runs P (λ a. P) P m

-- A property of the files alone: steps of time do not change it.
pub record IsTimeless (P : Disk → Type 0) : Type 0 where
  pub passes : (d : Disk) (n : ℕ) → P d → P (record d { step = n })

continue-After :
    {A B : Type 0} (R : A → Disk → Type 0) (Q : B → Disk → Type 0) (E : Disk → Type 0)
    (f : A → Act B) (r : Result A × Disk)
    → After R E r
    → ((a : A) → Runs (R a) Q E (f a))
    → After Q E (continue r f)
continue-After R Q E f (ok a, d) h k = (k a).ends d h
continue-After R Q E f (err x, d) h k = h

module _ {A B : Type 0} {P : Disk → Type 0} {E : Disk → Type 0} {R : A → Disk → Type 0}
    {Q : B → Disk → Type 0} where
  pub Runs-bind :
      {m : Act A} {f : A → Act B}
      → Runs P R E m
      → ((a : A) → Runs (R a) Q E (f a))
      → Runs P Q E (m >>= f)
  unfolding ◌>>=◌
  Runs-bind {m} {f} h k = record { ends = λ d p. continue-After R Q E f (m d) (h.ends d p) k }

  pub Runs-then :
      {m : Act A} {k : Act B} → Runs P R E m → ((a : A) → Runs (R a) Q E k) → Runs P Q E (m >> k)
  unfolding ◌>>◌
  Runs-then {m} {k} h c = record {
    ends = λ d p. continue-After R Q E (λ a. k) (m d) (h.ends d p) c;
  }

weaken-After :
    {A : Type 0} (Q Q' : A → Disk → Type 0) (E E' : Disk → Type 0) (r : Result A × Disk)
    → ((a : A) (d : Disk) → Q a d → Q' a d)
    → ((d : Disk) → E d → E' d)
    → After Q E r
    → After Q' E' r
weaken-After Q Q' E E' (ok a, d) q e h = q a d h
weaken-After Q Q' E E' (err x, d) q e h = e d h

module _ {A : Type 0} {P : Disk → Type 0} {Q : A → Disk → Type 0} {E : Disk → Type 0} where
  pub Runs-if :
      {a b : Act A} (t : Bool)
      → (t ≡ true → Runs P Q E a)
      → (t ≡ false → Runs P Q E b)
      → Runs P Q E (if t then a else b)
  Runs-if true ha hb = ha refl
  Runs-if false ha hb = hb refl

  pub Runs-weaken :
      {P' : Disk → Type 0} {Q' : A → Disk → Type 0} {E' : Disk → Type 0} {m : Act A}
      → Runs P Q E m
      → ((d : Disk) → P' d → P d)
      → ((a : A) (d : Disk) → Q a d → Q' a d)
      → ((d : Disk) → E d → E' d)
      → Runs P' Q' E' m
  Runs-weaken {Q' = Q'} {E' = E'} {m = m} h p q e = record {
    ends = λ d x. weaken-After Q Q' E E' (m d) q e (h.ends d (p d x));
  }

  -- What holds of no disk in particular is a hypothesis.
  pub Runs-given : {F : Type 0} {m : Act A} → (F → Runs P Q E m) → Runs (λ d. P d × F) Q E m
  Runs-given h = record { ends = λ d p. (h p.1).ends d p.0 }

-- The rules for a first action that fails with what held before it, where `E` asks for less.
module _ {P : Disk → Type 0} {E : Disk → Type 0} (drop : (d : Disk) → P d → E d) {B : Type 0}
    {Q : B → Disk → Type 0} where
  pub fail-Runs : (e : GoError) → Runs P Q E (fail {A = B} e)
  unfolding fail
  fail-Runs e = record { ends = drop }

  pub Runs-next :
      {A : Type 0} {R : A → Disk → Type 0} {m : Act A} {f : A → Act B}
      → Runs P R P m
      → ((a : A) → Runs (R a) Q E (f a))
      → Runs P Q E (m >>= f)
  Runs-next h k = Runs-bind (Runs-weaken h (λ d p. p) (λ a d q. q) drop) k

  -- What follows a check runs only where the check finds no error.
  pub check-Then :
      {k : Act B} (e : Option GoError) → (e ≡ none → Runs P Q E k) → Runs P Q E (check e >> k)
  unfolding ◌>>◌ check done_with fail
  check-Then none h = record { ends = λ d p. (h refl).ends d p }
  check-Then (some e) h = record { ends = drop }

  pub lift-Then :
      {A : Type 0} {f : A → Act B} (r : Result A)
      → ((a : A) → r ≡ ok a → Runs P Q E (f a))
      → Runs P Q E (lift r >>= f)
  unfolding ◌>>=◌ lift done_with fail
  lift-Then (ok a) h = record { ends = λ d p. (h a refl).ends d p }
  lift-Then (err e) h = record { ends = drop }

pub check-Keeps : {P : Disk → Type 0} (e : Option GoError) → Keeps P (check e)
unfolding check done_with fail
check-Keeps none = record { ends = λ d p. p }
check-Keeps (some e) = record { ends = λ d p. p }

pub done-Runs :
    {P : Disk → Type 0} {A : Type 0} {Q : A → Disk → Type 0} {E : Disk → Type 0} (a : A)
    → ((d : Disk) → P d → Q a d)
    → Runs P Q E (done_with a)
unfolding done_with
done-Runs a h = record { ends = h }

-- The content of a file goes on beside a property of the files.
pub holds-IsTimeless :
    {A : Type 0} {P : Disk → Type 0} (file : Disk → A)
    → ((d : Disk) (n : ℕ) → file (record d { step = n }) ≡ file d)
    → IsTimeless P
    → (a : A) → IsTimeless (λ d. P d × (file d ≡ a))
holds-IsTimeless file same h a = record { passes = λ d n p. (h.passes d n p.0, same d n ∙ p.1) }

-- What an absence leaves is what the failure left.
abbrev pub OrAbsent :
    {A : Type 0} → (A → Disk → Type 0) → (Disk → Type 0) → Option A → Disk → Type 0
OrAbsent Q P none = P
OrAbsent Q P (some a) = Q a

absent_or-After :
    {A : Type 0} (Q : A → Disk → Type 0) (P : Disk → Type 0) (r : Result A × Disk)
    → After Q P r
    → After (OrAbsent Q P) P (absent_or r)
absent_or-After Q P (ok a, d) h = h
absent_or-After Q P (err e, d) h = found (is_kind state_not_found e)
  where
    found : (t : Bool) → After (OrAbsent Q P) P (if t then (ok none, d) else (err e, d))
    found true = h
    found false = h

pub optional-Runs :
    {A : Type 0} {P : Disk → Type 0} {Q : A → Disk → Type 0} {m : Act A}
    → Runs P Q P m
    → Runs P (OrAbsent Q P) P (optional m)
unfolding optional
optional-Runs {P = P} {Q = Q} {m = m} h = record {
  ends = λ d p. absent_or-After Q P (m d) (h.ends d p);
}
