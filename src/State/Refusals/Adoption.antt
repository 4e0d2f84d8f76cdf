-- ===== src/State/Refusals/Adoption.antt =====
-- A run that was cancelled is not adopted, now or later.
use partitionctl.Base.{ℕ, ◌≡◌, ◌≢◌, refl, sym, ◌∙◌, true, List, Str, none, some, Option, ℤ, ap}
use mathlib.Core.Path.{subst}
use partitionctl.State.Run.{Run, RunStatus, run_cancelled, is_terminal_status, status_eq}
use partitionctl.State.Disk.{Env, Disk, segment}
use partitionctl.State.Disk.Hoare.{Runs-weaken, Runs-then, Runs-next, Runs-given, check-Then}
use partitionctl.State.File.Trail.{here}
use partitionctl.State.File.Locks.{FileLock}
use partitionctl.State.Orphan.{adopt_orphan, check_adoptable}
use partitionctl.State.Evolution.Accesses.{same_disk, get_run-Runs, check_lock-Keeps}
use partitionctl.State.Evolution.Opening.{StatWorks}
use partitionctl.State.Evolution.Calls.{Call, perform_all}
use partitionctl.State.Evolution.Lifetimes.{perform_all_terminal}
use partitionctl.State.Refusals.{unchanged-IsTimeless, IsRefused, Runs-IsRefused, here-Unchanged}

cancelled-check : (s : RunStatus) → s ≡ run_cancelled → check_adoptable s ≢ none
unfolding check_adoptable status_eq
cancelled-check s e = subst (λ t. check_adoptable t ≢ none) (sym e) (λ q. cc)

adopt_cancelled :
    (env : Env) (d : Disk) (lock : Option FileLock) (id holder : Str) (ttl : ℤ) (t : ℕ) (r : Run)
    → (here env id d).run ≡ some r
    → r.status ≡ run_cancelled
    → IsRefused (adopt_orphan env lock id holder ttl t) d
unfolding adopt_orphan
adopt_cancelled env d lock id holder ttl t r there cancelled =
    let steady = unchanged-IsTimeless d in
    Runs-IsRefused _ d (
      Runs-next (same_disk _)
        (Runs-weaken (get_run-Runs env steady id) (same_disk _)
          (λ s v p. (p.0.0, cc (here-Unchanged env id d v p.0.0, there, p.0.1))) (same_disk _))
        λ s. Runs-given λ (e : s ≡ r). Runs-then (check_lock-Keeps env steady lock _) λ u.
          check-Then (same_disk _) _ λ adoptable.
            absurd (cancelled-check s.status (ap (λ q. q.status) e ∙ cancelled) adoptable))

-- Once a run is CANCELLED, AdoptOrphan fails on it and changes nothing, whatever sequence of calls of
-- the store comes in between and under whatever lock, if `os.Stat` does not fail.
pub adopt_orphan_cancelled-IsRefused :
    (env : Env) (cs : List Call) (d : Disk) (lock : Option FileLock) (id holder : Str) (ttl : ℤ)
    (t : ℕ) (r : Run)
    → StatWorks env
    → (here env id d).run ≡ some r
    → r.status ≡ run_cancelled
    → IsRefused (adopt_orphan env lock id holder ttl t) (perform_all env cs d)
unfolding is_terminal_status
adopt_orphan_cancelled-IsRefused env cs d lock id holder ttl t r works there cancelled =
    let later =
      perform_all_terminal env works cs d (segment env id) r there
        (subst (λ s. is_terminal_status s ≡ true) (sym cancelled) (is-over)) in
    adopt_cancelled env (perform_all env cs d) lock id holder ttl t later.0 later.1
      (later.2 ∙ cancelled)
  where
    is-over : is_terminal_status run_cancelled ≡ true
    is-over = refl
